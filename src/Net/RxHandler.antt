-- ===== src/Net/RxHandler.antt =====
-- netdev/netdev_rx_handler/simple.c: a handler of the frames that a device receives.
use lkm.Prelude.{ℕ, ◌≡◌, Bool, List, [], ◌∷◌, arith}
use lkm.Kernel.{Tagged, done, M, ◌>>=◌, pure, crash, branch, take_res, remove_res, drop}

pub data Res : Type 0 where
  sock rx_handler : Res

abbrev tag_of : Res → ℕ
tag_of sock = 0
tag_of rx_handler = 1

instance abbrev pub res_tagged : Tagged Res
res_tagged = record { tag = tag_of }

-- Which calls of the init function fail; `dev_get_by_name` when there is no such device.
pub record Env : Type 0 where
  pub sock_create_kern : Bool
  pub dev_get_by_name : Bool
  pub netdev_rx_handler_register : Bool

pub data HandlerResult : Type 0 where
  rx_handler_pass rx_handler_consumed : HandlerResult

abbrev pub netdev_frame_hook : HandlerResult
netdev_frame_hook = rx_handler_pass

-- Without a socket, `release_sock` gets a pointer that was never set; without a device, NULL is
-- registered. `release_sock` does not give the socket back.
unfoldable pub my_init : Env → M Res (Unit {0})
my_init env = do
  no_sock ← take_res env.sock_create_kern sock
  branch no_sock crash (
      branch env.dev_get_by_name crash
        (do err ← take_res env.netdev_rx_handler_register rx_handler; pure tt))

unfoldable pub my_exit : M Res (Unit {0})
my_exit = drop rx_handler

-- Whenever the init function comes to its end, the exit function leaves the socket behind, and nothing
-- else.
pub my_exit_leaves_sock :
    (env : Env) (l' : List Res) → my_init env [] ≡ done tt l' → my_exit l' ≡ done tt (sock ∷ [])
unfolding my_init my_exit remove_res
my_exit_leaves_sock env l' e = ground arith
