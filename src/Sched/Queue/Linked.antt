-- ===== src/Sched/Queue/Linked.antt =====
-- The four queues together: disjoint lists of processes, each held by its links.
use os_project_mlfqschedulin.Base.{
  ℕ, ◌<◌, ◌≡◌, refl, subst, ◌≢◌, ◌⊎◌, inl, inr, true, false, ◌||◌, none, List, [], ◌∷◌, arith, ◌==◌,
  Bool-cases, update, has, has-erase, erase, erase-Distinct, Distinct, length-le_of_Distinct,
}
use os_project_mlfqschedulin.Sched.{nproc, levels, Proc, Links, ok}
use os_project_mlfqschedulin.Sched.Queue.{is_higher, link_in, unlink}
use os_project_mlfqschedulin.Sched.Queue.Seg.{Holds, frame, Rewired}
use os_project_mlfqschedulin.Sched.Queue.Remove.{Cleared, unlink-Rewired}
use os_project_mlfqschedulin.Sched.Queue.Insert.{insert_sorted, link_in-Rewired}

pub record Linked (l : Links) (qs : ℕ → List ℕ) : Type 0 where
  pub holds : (lv : ℕ) → lv < levels → Holds l lv (qs lv)
  pub distinct : (lv : ℕ) → Distinct (qs lv)
  pub bound : (lv x : ℕ) → has x (qs lv) ≡ true → x < nproc
  pub apart : (u v x : ℕ) → has x (qs u) ≡ true → has x (qs v) ≡ true → u ≡ v
  pub alone : (x : ℕ) → ((lv : ℕ) → has x (qs lv) ≡ false) → Cleared l x

-- `p` is in no queue.
abbrev pub Absent : (ℕ → List ℕ) → ℕ → Type 0
Absent qs p = (lv : ℕ) → has p (qs lv) ≡ false

pub has-insert_sorted :
    (proc : ℕ → Proc) (p x : ℕ) (xs : List ℕ)
    → has x (insert_sorted proc p xs) ≡ ((p == x) || has x xs)
unfolding insert_sorted
has-insert_sorted proc p x [] = refl
has-insert_sorted proc p x (c ∷ cs) = ground (arith, has-insert_sorted proc p x cs)

pub insert_sorted-Distinct :
    (proc : ℕ → Proc) (p : ℕ) (xs : List ℕ)
    → Distinct xs
    → has p xs ≡ false
    → Distinct (insert_sorted proc p xs)
unfolding insert_sorted
insert_sorted-Distinct proc p [] d h = (refl, tt)
insert_sorted-Distinct proc p (c ∷ cs) d h = elim (Bool-cases (is_higher (proc p) (proc c))) [
  | inl y ↦ rw y (h, d)
  | inr y ↦
      let rest = insert_sorted-Distinct proc p cs d.1 (ground arith) in
      rw y (ground (arith, has-insert_sorted proc p c cs), rest)
]

module _ (l m : Links) (qs : ℕ → List ℕ) (v : Linked l qs) (lv : ℕ) (lt : lv < levels)
    (ys touched : List ℕ) (r : Rewired l m lv ys touched) where
  -- One queue changes to `ys`, and the other queues share no process with what was touched.
  Linked-update :
      Distinct ys
      → ((x : ℕ) → has x ys ≡ true → x < nproc)
      → ((x : ℕ) → has x ys ≡ true → has x touched ≡ true)
      → ((u x : ℕ) → u ≢ lv → has x (qs u) ≡ true → has x touched ≡ false)
      → ((x : ℕ) → has x ys ≡ false → has x touched ≡ true → Cleared m x)
      → ((x : ℕ) → has x touched ≡ false → has x (qs lv) ≡ false)
      → Linked m (update qs lv ys)
  Linked-update d below inside off gone old = record {
    holds = λ u h. at u h (Bool-cases (lv == u));
    distinct = λ u. ground (arith, v.distinct u);
    bound = λ u x h. ground (arith, below x, v.bound u x);
    apart = λ u w x h k. ground (arith, v.apart u w x, inside x, off u x, off w x);
    alone = λ x h. cleared x h (Bool-cases (has x touched));
  }
    where
      at :
          (u : ℕ)
          → u < levels
          → ((lv == u) ≡ true) ⊎ ((lv == u) ≡ false)
          → Holds m u (update qs lv ys u)
      at u h (inl e) = let e' : lv ≡ u = ground arith in rw e (subst (λ w. Holds m w ys) e' r.holds)
      at u h (inr e) =
          rw (e, r.others u (λ q. ground arith))
            (frame l m none (l.queues u).head (l.queues u).tail none (qs u) (v.holds u h)
              (λ x k. r.away x (off u x (λ q. ground arith) k)))

      cleared :
          (x : ℕ)
          → ((u : ℕ) → has x (update qs lv ys u) ≡ false)
          → (has x touched ≡ true) ⊎ (has x touched ≡ false)
          → Cleared m x
      cleared x h (inl e) = gone x (ground (arith, h lv)) e
      cleared x h (inr e) =
          let c : Cleared l x = v.alone x (λ u. ground (arith, h u, old x)) in
          ground (arith, r.away x e)

module _ (l : Links) (qs : ℕ → List ℕ) (v : Linked l qs) (lv p : ℕ) (lt : lv < levels) where
  pub link_in-Linked :
      (proc : ℕ → Proc)
      → p < nproc
      → Absent qs p
      → (m : Links) × (link_in proc p lv l ≡ ok m)
        × Linked m (update qs lv (insert_sorted proc p (qs lv)))
  link_in-Linked proc ltp new =
      let few = length-le_of_Distinct nproc (qs lv) (v.distinct lv) (v.bound lv) in
      let (m, run, r) =
        link_in-Rewired l lv p lt proc (qs lv) (v.distinct lv) (new lv) few (v.holds lv lt) in
      let mem = λ (x : ℕ). has-insert_sorted proc p x (qs lv) in
      (
        m,
        run,
        Linked-update l m qs v lv lt (insert_sorted proc p (qs lv)) (p ∷ qs lv) r
            (insert_sorted-Distinct proc p (qs lv) (v.distinct lv) (new lv))
            (λ x h. ground (arith, mem x, v.bound lv x)) (λ x h. ground (arith, mem x))
            (λ u x ne h. ground (arith, new u, v.apart u lv x)) (λ x h k. ground (arith, mem x))
            (λ x h. ground arith),
      )

  pub unlink-Linked :
      has p (qs lv) ≡ true
      → (m : Links) × (unlink p lv l ≡ ok m) × Linked m (update qs lv (erase p (qs lv)))
  unlink-Linked h =
      let (m, run, r, c) = unlink-Rewired l lv p (qs lv) lt (v.distinct lv) h (v.holds lv lt) in
      let mem = λ (x : ℕ). has-erase p x (qs lv) (v.distinct lv) in
      (
        m,
        run,
        Linked-update l m qs v lv lt (erase p (qs lv)) (qs lv) r
            (erase-Distinct p (qs lv) (v.distinct lv)) (λ x k. ground (arith, mem x, v.bound lv x))
            (λ x k. ground (arith, mem x)) (λ u x ne k. ground (arith, v.apart u lv x))
            (λ x k j. ground (arith, mem x)) (λ x k. k),
      )
