-- ===== src/Rcu/Listed/Progress.antt =====
-- RCU/simple.c: the threads of the list come to their end.
use lkm.Prelude.{
  ℕ, zero, suc, ◌+◌, ◌*◌, ◌≤◌, ◌≡◌, refl, subst, ap, ◌⊎◌, inl, inr, Bool, true, false,
  if◌then◌else◌, arith,
}
use lkm.Rcu.Listed.{
  ListReader, away, entered, past, at_entry, after_entry, ListUpdater, looking, faulted, copied,
  replaced, synchronizing, ListState, sections_end, ListStep, list_add_rcu, rcu_read_lock, no_entry,
  list_for_each_entry_rcu, pr_info, next_entry, rcu_read_unlock, kzalloc_fails, no_first, prepare,
  list_replace_rcu, synchronize_rcu, kfree, ListRun, at_list_start, then_step,
}
use lkm.Rcu.Listed.Safety.{Owned, Held, ListSafe, ListRun-ListSafe}

abbrev reader_left : ListReader → ℕ
reader_left away = 0
reader_left entered = 4
reader_left (at_entry p) = 3
reader_left (after_entry p) = 2
reader_left past = 1

abbrev updater_left : ListUpdater → ℕ
updater_left looking = 0
updater_left faulted = 0
updater_left (copied p q) = 3
updater_left (replaced p) = 2
updater_left (synchronizing p b) = 1

abbrev left : ListState → ℕ
left s =
    (if s.listed then 0 else 1)
    + (5 * s.reader_cnt + reader_left s.reader + (4 * s.updater_cnt + updater_left s.updater))

left_of_sections_end : (u : ListUpdater) → updater_left (sections_end u) ≡ updater_left u
unfolding sections_end
left_of_sections_end looking = refl
left_of_sections_end faulted = refl
left_of_sections_end (copied p q) = refl
left_of_sections_end (replaced p) = refl
left_of_sections_end (synchronizing p b) = refl

ListStep-left : (s t : ListState) → ListStep s t → suc (left t) ≤ left s
ListStep-left s _ (list_add_rcu l) = ground arith
ListStep-left s _ (no_entry e l) = ground (arith, ap reader_left e)
ListStep-left s _ (next_entry p e) = ground (arith, ap reader_left e)
ListStep-left s _ (kzalloc_fails c e k) = ground (arith, ap updater_left e)
ListStep-left s _ (no_first c e k l) = ground (arith, ap updater_left e)
ListStep-left s _ (rcu_read_lock c e k) = ground (arith, ap reader_left e)
ListStep-left s _ (list_for_each_entry_rcu e l) = ground (arith, ap reader_left e)
ListStep-left s _ (pr_info p e) = ground (arith, ap reader_left e)
ListStep-left s _ (rcu_read_unlock e) =
    ground (arith, ap reader_left e, left_of_sections_end s.updater)
ListStep-left s _ (prepare c e k l) = ground (arith, ap updater_left e)
ListStep-left s _ (list_replace_rcu p q e) = ground (arith, ap updater_left e)
ListStep-left s _ (synchronize_rcu p e) = ground (arith, ap updater_left e)
ListStep-left s _ (kfree p e) = ground (arith, ap updater_left e)

ListRun-left : (n : ℕ) (s : ListState) → ListRun n s → n + left s ≤ 19
ListRun-left _ _ at_list_start = omega arith
ListRun-left _ t (then_step {n} {s} run step) =
    omega (arith, ListRun-left n s run, ListStep-left s t step)

-- Both threads are through, and what is allocated is structure `first`, unless the updater has faulted.
abbrev pub Finished : ListState → Type 0
Finished s =
    (s.reader ≡ away)
    × (s.reader_cnt ≡ 0)
    × ((s.updater ≡ faulted)
        ⊎ ((s.updater ≡ looking) × (s.updater_cnt ≡ 0) × ((m : ℕ) → s.live m ≡ true → m ≡ s.first)))

abbrev Next : ListState → Type 0
Next s = (t : ListState) × ListStep s t

look : (s : ListState) (c : ℕ) → s.updater ≡ looking → s.updater_cnt ≡ suc c → Next s
look s c e k = go s.listed refl
  where
    go : (b : Bool) → s.listed ≡ b → Next s
    go true l = (_, prepare c e k l)
    go false l = (_, no_first c e k l)

by_updater :
    (s : ListState) (u : ListUpdater)
    → s.updater ≡ u
    → s.reader ≡ away
    → s.reader_cnt ≡ 0
    → ListSafe s
    → Finished s ⊎ Next s
unfolding ListSafe Owned Held
by_updater s faulted e r k safe = inl (r, k, inl e)
by_updater s looking e r k (a, b, o, h) = go s.updater_cnt refl
  where
    go : (n : ℕ) → s.updater_cnt ≡ n → Finished s ⊎ Next s
    go zero c = inl (r, k, inr (e, c, subst (λ u. Owned u s.first s.allocated s.live) e o))
    go (suc n) c = inr (look s n e c)
by_updater s (copied p q) e r k safe = inr (_, list_replace_rcu p q e)
by_updater s (replaced p) e r k safe = inr (_, synchronize_rcu p e)
by_updater s (synchronizing p false) e r k safe = inr (_, kfree p e)
by_updater s (synchronizing p true) e r k (a, b, o, h) =
    absurd (subst (λ r. Held r s.first s.updater) r h p e)

by_reader : (s : ListState) (r : ListReader) → s.reader ≡ r → ListSafe s → Finished s ⊎ Next s
by_reader s away e safe = go s.reader_cnt refl
  where
    go : (n : ℕ) → s.reader_cnt ≡ n → Finished s ⊎ Next s
    go zero c = by_updater s s.updater refl e c safe
    go (suc n) c = inr (_, rcu_read_lock n e c)
by_reader s entered e safe = inr (go s.listed refl)
  where
    go : (b : Bool) → s.listed ≡ b → Next s
    go true l = (_, list_for_each_entry_rcu e l)
    go false l = (_, no_entry e l)
by_reader s (at_entry p) e safe = inr (_, pr_info p e)
by_reader s (after_entry p) e safe = inr (_, next_entry p e)
by_reader s past e safe = inr (_, rcu_read_unlock e)

-- Every run of `rcu_test_init` and of the two threads that it starts has at most 19 steps, whichever
-- allocations fail, and goes on, `synchronize_rcu` included, until both threads are through: the reader
-- has returned, and the updater has faulted on a null pointer, or has returned and left allocated
-- nothing but the structure of the list.
pub ListRun-ends : (n : ℕ) (s : ListState) → ListRun n s → (n ≤ 19) × (Finished s ⊎ Next s)
ListRun-ends n s run =
    (omega (arith, ListRun-left n s run), by_reader s s.reader refl (ListRun-ListSafe n s run))
