-- ===== src/Net.antt =====
-- netfilter/ and netdev/: modules that hang a function into the path of the packets.
pub mod Netfilter
pub mod RxHandler
pub mod Events
pub mod PerNet
