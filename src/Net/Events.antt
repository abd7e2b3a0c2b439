-- ===== src/Net/Events.antt =====
-- netdev/netdevice_notifier/simple.c: callbacks for devices and addresses that go up and down.
use lkm.Prelude.{
  ℕ, ◌≡◌, refl, Bool, true, false, Option, none, some, List, [], ◌==◌, if◌then◌else◌, arith,
}
use lkm.Kernel.{Tagged, done, M, ◌>>=◌, ◌>>◌, pure, take_res, remove_res, drop}

abbrev pub netdev_up : ℕ
netdev_up = 1

abbrev pub netdev_down : ℕ
netdev_down = 2

abbrev pub notify_done : ℕ
notify_done = 0

abbrev pub notify_ok : ℕ
notify_ok = 1

-- A device by its name.
abbrev pub NetDevice : Type 0
NetDevice = List ℕ

-- "is up" and "is down", with the name.
pub data Print : Type 0 where
  is_up is_down : NetDevice → Print

abbrev told : (NetDevice → Print) → Option NetDevice → Option Print
told p none = none
told p (some dev) = some (p dev)

-- What is printed, and the answer. The pointer may be NULL; a device has a name.
unfoldable pub my_netdev_event : ℕ → Option NetDevice → Option Print × ℕ
my_netdev_event event dev =
    if event == netdev_up
    then (told is_up dev, notify_done)
    else (if event == netdev_down then (told is_down dev, notify_done) else (none, notify_done))

-- `struct in_ifaddr`, by its `ifa_dev`, which is NULL or has a device that may be NULL.
pub record InIfaddr : Type 0 where
  pub ifa_dev : Option (Option NetDevice)

abbrev dev_of : Option (Option NetDevice) → Option NetDevice
dev_of none = none
dev_of (some dev) = dev

abbrev pub dev_of_ifa : Option InIfaddr → Option NetDevice
dev_of_ifa none = none
dev_of_ifa (some ifa) = dev_of ifa.ifa_dev

unfoldable pub my_inetaddr_event : ℕ → Option InIfaddr → Option Print × ℕ
my_inetaddr_event event ifa =
    let dev = dev_of_ifa ifa in
    if event == netdev_up
    then (told is_up dev, notify_ok)
    else (if event == netdev_down then (told is_down dev, notify_ok) else (none, notify_ok))

-- The two blocks, on their chains.
pub data Res : Type 0 where
  devhandle inethandle : Res

abbrev tag_of : Res → ℕ
tag_of devhandle = 0
tag_of inethandle = 1

instance abbrev pub res_tagged : Tagged Res
res_tagged = record { tag = tag_of }

-- Which registrations fail; nothing looks at them.
pub record Env : Type 0 where
  pub register_netdevice_notifier : Bool
  pub register_inetaddr_notifier : Bool

unfoldable pub my_init : Env → M Res (Unit {0})
my_init env = do
  a ← take_res env.register_netdevice_notifier devhandle
  b ← take_res env.register_inetaddr_notifier inethandle
  pure tt

unfoldable pub my_exit : M Res (Unit {0})
my_exit = do drop devhandle; drop inethandle

-- Whatever registration fails, the exit function leaves no block behind.
pub my_exit-my_init : (env : Env) → ((do my_init env; my_exit) []) ≡ done tt []
unfolding my_init my_exit remove_res
my_exit-my_init env = go env.register_netdevice_notifier env.register_inetaddr_notifier refl refl
  where
    go :
        (a b : Bool)
        → env.register_netdevice_notifier ≡ a
        → env.register_inetaddr_notifier ≡ b
        → ((do my_init env; my_exit) []) ≡ done tt []
    go true true ea eb = rw (ea, eb) refl
    go true false ea eb = rw (ea, eb) refl
    go false true ea eb = rw (ea, eb) refl
    go false false ea eb = rw (ea, eb) refl

-- An event of an address is told as the same event of its device.
pub my_inetaddr_event-eq :
    (event : ℕ) (ifa : Option InIfaddr)
    → (my_inetaddr_event event ifa).0 ≡ (my_netdev_event event (dev_of_ifa ifa)).0
unfolding my_inetaddr_event my_netdev_event
my_inetaddr_event-eq event ifa = ground arith
