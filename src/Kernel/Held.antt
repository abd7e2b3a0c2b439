-- ===== src/Kernel/Held.antt =====
-- Laws of the resources that are held.
use lkm.Prelude.{◌≡◌, ◌≢◌, ap, none, some, List, ◌∷◌, ==-refl, ne→==}
use lkm.Kernel.{Tagged, done, fault, M, ◌>>=◌, give, remove_res}

module _ {R : Type 0} ⦃t : Tagged R⦄ where
  pub remove_res-head : (r : R) (l : List R) → remove_res r (r ∷ l) ≡ some l
  unfolding remove_res
  remove_res-head r l = rw (==-refl (t.tag r))

  pub remove_res-tail :
      (r x : R) (l l' : List R)
      → t.tag x ≢ t.tag r
      → remove_res r l ≡ some l'
      → remove_res r (x ∷ l) ≡ some (x ∷ l')
  unfolding remove_res
  remove_res-tail r x l l' h e = rw (ne→== (t.tag x) (t.tag r) h, e)

pub bind_done :
    {R A B : Type 0} (m : M R A) (f : A → M R B) {l l' : List R} {a : A}
    → m l ≡ done a l'
    → (m >>= f) l ≡ f a l'
bind_done m f e = ap (λ r. elim r [ done a l ↦ f a l | fault ↦ fault ]) e

pub give-head : {R : Type 0} ⦃t : Tagged R⦄ (r : R) (l : List R) → give r (r ∷ l) ≡ done tt l
give-head r l = ap (λ o. elim o [ none ↦ fault | some l' ↦ done tt l' ]) (remove_res-head r l)
