-- ===== src/Sched/Inv/Aging.antt =====
-- Aging: exactly the processes that have waited long enough move up, by one level.
use os_project_mlfqschedulin.Base.{
  has-append, ℕ, zero, suc, ◌+◌, ◌<◌, ◌≡◌, refl, sym, ap, subst, ◌∙◌, inl, inr, Bool, true, false,
  ◌&&◌, ◌||◌, not, none, some, List, [], ◌∷◌, ◌++◌, arith, ltb, ◌==◌, if◌then◌else◌, Bool-cases,
  sle, length, has, erase, erase-middle, Distinct, Distinct-append, length-le_of_Distinct,
}
use mathlib.Core.List.{append_assoc}
use mathlib.Core.Bool.{false≢true}
use os_project_mlfqschedulin.Sched.{nproc, levels, Ptr, Proc, Links, Kernel, ok, is_pinned}
use os_project_mlfqschedulin.Sched.Queue.Seg.{Holds, first_or, Seg-split, Seg-first}
use os_project_mlfqschedulin.Sched.Mlfq.{
  aging_limit, promote_process, age, age_queue, age_level, check_aging,
}
use os_project_mlfqschedulin.Sched.Inv.{is_runnable, Inv}
use os_project_mlfqschedulin.Sched.Inv.Wakeup.{SameRest, SameRest-refl, SameRest-trans}
use os_project_mlfqschedulin.Sched.Inv.Promote.{promoted, promote-Promoted}

-- The process has waited 250 ticks or more, and may change its queue.
abbrev pub is_aged : Proc → Bool
is_aged p = sle 250 p.cpu_wait && not (is_pinned p.type)

-- What a loop of check_aging does, where `pick` says which processes it promotes.
pub record Aged (k k' : Kernel) (pick : ℕ → Bool) : Type 0 where
  pub qs : ℕ → List ℕ
  pub inv : Inv k'.proc k'.links qs
  pub proc : (x : ℕ) → k'.proc x ≡ (if pick x then promoted k.ticks (k.proc x) else k.proc x)
  pub rest : SameRest k k'

age-none : (k : Kernel) (p : ℕ) → is_aged (k.proc p) ≡ false → age p k ≡ ok k
unfolding age promote_process
age-none k p h = ground arith

age-some :
    (k k' : Kernel) (p : ℕ)
    → is_aged (k.proc p) ≡ true
    → promote_process p k ≡ ok k'
    → age p k ≡ ok k'
unfolding age
age-some k k' p h run =
    let w : sle aging_limit (k.proc p).cpu_wait ≡ true = ground arith in rw (w, run)

-- One round at the process `i`: the queue `lv` keeps what stands before and behind it.
record Round (k k' : Kernel) (i lv : ℕ) (pre ys : List ℕ) : Type 0 where
  qs : ℕ → List ℕ
  inv : Inv k'.proc k'.links qs
  before : List ℕ
  list : qs lv ≡ before ++ ys
  proc :
      (x : ℕ)
      → k'.proc x
        ≡ (if (i == x) && is_aged (k.proc x) then promoted k.ticks (k.proc x) else k.proc x)
  rest : SameRest k k'

age-Round :
    (k : Kernel) (qs : ℕ → List ℕ) (i lv : ℕ) (pre ys : List ℕ)
    → Inv k.proc k.links qs
    → 0 < lv
    → qs lv ≡ pre ++ i ∷ ys
    → has i pre ≡ false
    → (k' : Kernel) × (age i k ≡ ok k') × Round k k' i lv pre ys
age-Round k qs i lv pre ys v pos e new = elim (Bool-cases (is_aged (k.proc i))) [
  | inr h ↦ (
    k,
    age-none k i h,
    record {
      qs = qs;
      inv = v;
      before = pre ++ i ∷ [];
      list = e ∙ sym (append_assoc pre (i ∷ []) ys);
      proc = λ x. elim (Bool-cases (i == x)) [
        | inl s ↦ let same : i ≡ x = ground arith in rw (s, ← same, h)
        | inr s ↦ rw s
      ];
      rest = SameRest-refl k;
    },
  )
  | inl h ↦
      let mem : has i (qs lv) ≡ true = rw e (ground (arith, has-append i pre (i ∷ ys))) in
      let (k', run, w) = promote-Promoted k qs i lv v mem pos (ground arith) in
      (
        k',
        age-some k k' i h run,
        record {
          qs = w.qs';
          inv = w.inv;
          before = pre;
          list = w.left ∙ ap (erase i) e ∙ erase-middle i pre ys new;
          proc = λ x. ap (λ (f : ℕ → Proc). f x) w.proc ∙ elim (Bool-cases (i == x)) [
            | inl s ↦ let same : i ≡ x = ground arith in rw (s, ← same, h)
            | inr s ↦ rw s
          ];
          rest = w.rest;
        },
      )
]

Aged-cons :
    (k k1 k' : Kernel) (i lv : ℕ) (pre ys : List ℕ)
    → has i ys ≡ false
    → Round k k1 i lv pre ys
    → Aged k1 k' (λ x. has x ys && is_aged (k1.proc x))
    → Aged k k' (λ x. has x (i ∷ ys) && is_aged (k.proc x))
Aged-cons k k1 k' i lv pre ys off r a = record {
  qs = a.qs;
  inv = a.inv;
  proc = λ x. elim (Bool-cases (i == x)) [
    | inl s ↦
        let out : has x ys ≡ false =
          let same : i ≡ x = ground arith in subst (λ y. has y ys ≡ false) same off in
        a.proc x ∙ rw out (r.proc x ∙ rw s)
    | inr s ↦
        let kept : k1.proc x ≡ k.proc x = r.proc x ∙ rw s in a.proc x ∙ rw (kept, r.rest.ticks, s)
  ];
  rest = SameRest-trans k k1 k' r.rest a.rest;
}

age_queue-run :
    (n i : ℕ) (next : Ptr) (k k1 k' : Kernel)
    → k.links.next i ≡ next
    → age i k ≡ ok k1
    → age_queue n next k1 ≡ ok k'
    → age_queue (suc n) (some i) k ≡ ok k'
unfolding age_queue
age_queue-run n i next k k1 k' e a run = rw (a, e, run)

next-first_or :
    (k : Kernel) (lv i : ℕ) (pre ys : List ℕ)
    → Holds k.links lv (pre ++ i ∷ ys)
    → k.links.next i ≡ first_or none ys
next-first_or k lv i pre ys h =
    let l = k.links in
    let (left, right) =
      Seg-split l none (l.queues lv).head (l.queues lv).tail none pre (i ∷ ys) h in
    Seg-first l (some i) (l.next i) (l.queues lv).tail none ys right.2

-- The loop over the rest `ys` of the queue `lv`.
age_queue-Aged :
    (n lv : ℕ) (pre ys : List ℕ) (k : Kernel) (qs : ℕ → List ℕ)
    → Inv k.proc k.links qs
    → 0 < lv
    → lv < levels
    → qs lv ≡ pre ++ ys
    → length ys < n
    → (k' : Kernel) × (age_queue n (first_or none ys) k ≡ ok k')
      × Aged k k' (λ x. has x ys && is_aged (k.proc x))
unfolding age_queue
age_queue-Aged zero lv pre ys k qs v pos lt e f = absurd (omega arith)
age_queue-Aged (suc n) lv pre [] k qs v pos lt e f =
    (k, refl, record { qs = qs; inv = v; proc = λ x. refl; rest = SameRest-refl k })
age_queue-Aged (suc n) lv pre (i ∷ ys) k qs v pos lt e f =
    let d : Distinct (pre ++ i ∷ ys) = subst Distinct e (v.linked.distinct lv) in
    let h : Holds k.links lv (pre ++ i ∷ ys) = subst (Holds k.links lv) e (v.linked.holds lv lt) in
    let (dpre, dys, off) = Distinct-append pre (i ∷ ys) d in
    let (k1, run, r) = age-Round k qs i lv pre ys v pos e (ground (arith, off i)) in
    let (k', run', a) = age_queue-Aged n lv r.before ys k1 r.qs r.inv pos lt r.list (omega arith) in
    (
      k',
      age_queue-run n i (first_or none ys) k k1 k' (next-first_or k lv i pre ys h) run run',
      Aged-cons k k1 k' i lv pre ys dys.0 r a,
    )

-- The process stands in the queue `lv` and has waited long enough.
abbrev pub is_aged_at : ℕ → Proc → Bool
is_aged_at lv p = is_runnable p && (p.q_level == lv) && is_aged p

members :
    (f : ℕ → Proc) (l : Links) (qs : ℕ → List ℕ)
    → Inv f l qs
    → (lv x : ℕ) → has x (qs lv) ≡ (ltb x nproc && is_runnable (f x) && ((f x).q_level == lv))
members f l qs v lv x = elim (Bool-cases (has x (qs lv))) [
  | inl m ↦ ground (arith, v.queued lv x m, v.linked.bound lv x m)
  | inr m ↦ elim (Bool-cases (ltb x nproc && is_runnable (f x) && ((f x).q_level == lv))) [
    | inr n ↦ m ∙ sym n
    | inl n ↦
        let same : (f x).q_level ≡ lv = ground arith in
        let mem = v.complete x (ground arith) (ground arith) in
        absurd (false≢true (sym m ∙ subst (λ u. has x (qs u) ≡ true) same mem))
  ]
]

age_level-run :
    (k k' : Kernel) (lv : ℕ) (next : Ptr)
    → (k.links.queues lv).head ≡ next
    → age_queue (nproc + 1) next k ≡ ok k'
    → age_level lv k ≡ ok k'
unfolding age_level
age_level-run k k' lv next e run = rw (e, age_level) run

age_level-Aged :
    (k : Kernel) (qs : ℕ → List ℕ) (lv : ℕ)
    → Inv k.proc k.links qs
    → 0 < lv
    → lv < levels
    → (k' : Kernel) × (age_level lv k ≡ ok k')
      × Aged k k' (λ x. ltb x nproc && is_aged_at lv (k.proc x))
age_level-Aged k qs lv v pos lt =
    let few = length-le_of_Distinct nproc (qs lv) (v.linked.distinct lv) (v.linked.bound lv) in
    let (k', run, a) = age_queue-Aged (nproc + 1) lv [] (qs lv) k qs v pos lt refl (omega arith) in
    let l = k.links in
    let start =
      Seg-first l none (l.queues lv).head (l.queues lv).tail none (qs lv) (v.linked.holds lv lt) in
    (
      k',
      age_level-run k k' lv (first_or none (qs lv)) start run,
      record {
        qs = a.qs;
        inv = a.inv;
        proc = λ x.
            a.proc x
            ∙ ap (λ (b : Bool). if b then promoted k.ticks (k.proc x) else k.proc x)
                (ground (arith, members k.proc k.links qs v lv x));
        rest = a.rest;
      },
    )

-- The processes that check_aging promotes.
abbrev pub is_aged_up : Proc → Bool
is_aged_up p = is_runnable p && not (p.q_level == 0) && is_aged p

module _ (k k1 k2 k3 : Kernel) (qs : ℕ → List ℕ) (v : Inv k.proc k.links qs)
    (a : Aged k k1 (λ x. ltb x nproc && is_aged_at 1 (k.proc x)))
    (b : Aged k1 k2 (λ x. ltb x nproc && is_aged_at 2 (k1.proc x)))
    (c : Aged k2 k3 (λ x. ltb x nproc && is_aged_at 3 (k2.proc x))) where
  first_two :
      (x : ℕ)
      → k2.proc x ≡ (
          if ltb x nproc && (is_aged_at 1 (k.proc x) || is_aged_at 2 (k.proc x))
          then promoted k.ticks (k.proc x)
          else k.proc x)
  first_two x = elim (Bool-cases (ltb x nproc && is_aged_at 1 (k.proc x))) [
    | inl h ↦
        let e : k1.proc x ≡ promoted k.ticks (k.proc x) = a.proc x ∙ rw h in
        b.proc x ∙ rw (e, a.rest.ticks) (ground arith)
    | inr h ↦
        let e : k1.proc x ≡ k.proc x = a.proc x ∙ rw h in
        b.proc x ∙ rw (e, a.rest.ticks) (ground arith)
  ]

  all_three :
      (x : ℕ)
      → k3.proc x
        ≡ (if ltb x nproc && is_aged_up (k.proc x) then promoted k.ticks (k.proc x) else k.proc x)
  all_three x =
      elim (Bool-cases (ltb x nproc && (is_aged_at 1 (k.proc x) || is_aged_at 2 (k.proc x)))) [
        | inl h ↦
            let e : k2.proc x ≡ promoted k.ticks (k.proc x) = first_two x ∙ rw h in
            c.proc x ∙ rw (e, b.rest.ticks, a.rest.ticks) (ground arith)
        | inr h ↦
            let e : k2.proc x ≡ k.proc x = first_two x ∙ rw h in
            c.proc x ∙ rw (e, b.rest.ticks, a.rest.ticks) (ground (arith, v.level x))
      ]

check_aging-run :
    (k k1 k2 k3 : Kernel)
    → age_level 1 k ≡ ok k1
    → age_level 2 k1 ≡ ok k2
    → age_level 3 k2 ≡ ok k3
    → check_aging k ≡ ok k3
unfolding check_aging
check_aging-run k k1 k2 k3 e f g = rw (e, f, g)

-- From queues that hold exactly the RUNNABLE processes in order, check_aging returns with no panic.
-- It promotes exactly the RUNNABLE processes of the levels 1 to 3 that have waited 250 ticks or
-- more and are neither INIT nor SHELL, each by one level; it changes no other process, and the
-- queues again hold exactly the RUNNABLE processes in order.
pub check_aging-Aged :
    (k : Kernel) (qs : ℕ → List ℕ)
    → Inv k.proc k.links qs
    → (k' : Kernel) × (check_aging k ≡ ok k')
      × Aged k k' (λ x. ltb x nproc && is_aged_up (k.proc x))
check_aging-Aged k qs v =
    let (k1, e, a) = age_level-Aged k qs 1 v (omega arith) (omega arith) in
    let (k2, f, b) = age_level-Aged k1 a.qs 2 a.inv (omega arith) (omega arith) in
    let (k3, g, c) = age_level-Aged k2 b.qs 3 b.inv (omega arith) (omega arith) in
    (
      k3,
      check_aging-run k k1 k2 k3 e f g,
      record {
        qs = c.qs;
        inv = c.inv;
        proc = all_three k k1 k2 k3 qs v a b c;
        rest = SameRest-trans k k2 k3 (SameRest-trans k k1 k2 a.rest b.rest) c.rest;
      },
    )
