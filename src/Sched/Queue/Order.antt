-- ===== src/Sched/Queue/Order.antt =====
-- The order inside a queue: no process stands behind one of lower priority.
use os_project_mlfqschedulin.Base.{
  ℕ, ◌≡◌, inl, inr, true, false, List, [], ◌∷◌, arith, ◌==◌, Bool-cases, All, All-map, All-erase,
  has, erase,
}
use os_project_mlfqschedulin.Sched.{Proc}
use os_project_mlfqschedulin.Sched.Queue.{is_higher}
use os_project_mlfqschedulin.Sched.Queue.Insert.{insert_sorted}

-- `y` does not come before `x`.
abbrev pub NotHigher : (ℕ → Proc) → ℕ → ℕ → Type 0
NotHigher proc x y = is_higher (proc y) (proc x) ≡ false

abbrev pub Sorted : (ℕ → Proc) → List ℕ → Type 0
Sorted proc [] = Unit
Sorted proc (x ∷ xs) = All (NotHigher proc x) xs × Sorted proc xs

pub is_higher_asym : (p q : Proc) → is_higher p q ≡ true → is_higher q p ≡ false
unfolding is_higher
is_higher_asym p q h = ground arith

pub is_higher_trans :
    (p q r : Proc) → is_higher p q ≡ true → is_higher q r ≡ true → is_higher p r ≡ true
unfolding is_higher
is_higher_trans p q r h k = ground arith

-- The priority depends on two fields.
pub record SameKey (p q : Proc) : Type 0 where
  pub io : p.io_wait_time ≡ q.io_wait_time
  pub entry : p.queue_entry_time ≡ q.queue_entry_time

pub is_higher-SameKey :
    (p p' q q' : Proc) → SameKey p p' → SameKey q q' → is_higher p q ≡ is_higher p' q'
unfolding is_higher
is_higher-SameKey p p' q q' e f = rw (e.io, e.entry, f.io, f.entry)

pub Sorted-SameKey :
    (f g : ℕ → Proc) (xs : List ℕ)
    → ((x : ℕ) → has x xs ≡ true → SameKey (f x) (g x))
    → Sorted f xs
    → Sorted g xs
Sorted-SameKey f g [] same s = tt
Sorted-SameKey f g (x ∷ xs) same s =
    let e = same x (ground arith) in
    (
      All-map xs
          (λ y m h.
            ground (arith, is_higher-SameKey (f y) (g y) (f x) (g x) (same y (ground arith)) e))
          s.0,
      Sorted-SameKey f g xs (λ y m. same y (ground arith)) s.1,
    )

pub Sorted-erase : (f : ℕ → Proc) (p : ℕ) (xs : List ℕ) → Sorted f xs → Sorted f (erase p xs)
unfolding erase
Sorted-erase f p [] s = tt
Sorted-erase f p (x ∷ xs) s = elim (Bool-cases (x == p)) [
  | inl e ↦ rw e s.1
  | inr e ↦ rw e (All-erase (NotHigher f x) p xs s.0, Sorted-erase f p xs s.1)
]

All-insert_sorted :
    (f : ℕ → Proc) (x p : ℕ) (xs : List ℕ)
    → NotHigher f x p
    → All (NotHigher f x) xs
    → All (NotHigher f x) (insert_sorted f p xs)
unfolding insert_sorted
All-insert_sorted f x p [] h a = (h, tt)
All-insert_sorted f x p (c ∷ cs) h a = elim (Bool-cases (is_higher (f p) (f c))) [
  | inl e ↦ rw e (h, a)
  | inr e ↦ rw e (a.0, All-insert_sorted f x p cs h a.1)
]

pub insert_sorted-Sorted :
    (f : ℕ → Proc) (p : ℕ) (xs : List ℕ) → Sorted f xs → Sorted f (insert_sorted f p xs)
unfolding insert_sorted
insert_sorted-Sorted f p [] s = (tt, tt)
insert_sorted-Sorted f p (c ∷ cs) s = elim (Bool-cases (is_higher (f p) (f c))) [
  | inl e ↦ rw e (
    (
      is_higher_asym (f p) (f c) e,
      All-map cs (λ y m h. ground (arith, is_higher_trans (f y) (f p) (f c))) s.0,
    ),
    s,
  )
  | inr e ↦ rw e (All-insert_sorted f c p cs e s.0, insert_sorted-Sorted f p cs s.1)
]
