-- ===== src/Net/Netfilter.antt =====
-- netfilter/simple.c: a hook that drops every packet.
use lkm.Prelude.{ℕ, ◌≡◌, Bool, List, [], arith}
use lkm.Kernel.{Tagged, done, M, ◌>>=◌, ◌>>◌, pure, crash, branch, take_res, remove_res, give, drop}

-- `nfho`, and its registration
pub data Res : Type 0 where
  nfho hook : Res

abbrev tag_of : Res → ℕ
tag_of nfho = 0
tag_of hook = 1

instance abbrev pub res_tagged : Tagged Res
res_tagged = record { tag = tag_of }

-- Which calls of the init function fail.
pub record Env : Type 0 where
  pub kcalloc : Bool
  pub nf_register_net_hook : Bool

pub data Verdict : Type 0 where
  nf_drop nf_accept : Verdict

abbrev pub hook_func : Verdict
hook_func = nf_drop

-- The memory is used without a look at the result; the function returns 0 in any case.
unfoldable pub my_init : Env → M Res (Unit {0})
my_init env = do
  no_memory ← take_res env.kcalloc nfho
  branch no_memory crash (do no_hook ← take_res env.nf_register_net_hook hook; pure tt)

-- `nf_unregister_net_hook` does nothing for a hook that is not there.
unfoldable pub my_exit : M Res (Unit {0})
my_exit = do drop hook; give nfho

-- When there was memory, the exit function gives back all that was taken, whether the hook could be
-- registered or not.
pub my_exit-my_init :
    (env : Env) (l' : List Res) → my_init env [] ≡ done tt l' → my_exit l' ≡ done tt []
unfolding my_init my_exit remove_res
my_exit-my_init env l' e = ground arith
