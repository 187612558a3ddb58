-- ===== src/Sched/Inv/Next.antt =====
-- Which process the scheduler picks.
use os_project_mlfqschedulin.Base.{
  All-has, ℕ, zero, suc, ◌+◌, ◌<◌, ◌≤◌, ◌≡◌, refl, subst, ◌⊎◌, inl, inr, true, false, none, some,
  List, [], ◌∷◌, arith, ◌==◌, Bool-cases, update, All, has, dec_lt,
}
use os_project_mlfqschedulin.Sched.{running, nproc, levels, Proc, Links, Kernel, Result, ok}
use os_project_mlfqschedulin.Sched.Queue.{is_higher, first_head, get_next_proc}
use os_project_mlfqschedulin.Sched.Queue.Seg.{Holds}
use os_project_mlfqschedulin.Sched.Queue.Linked.{Linked}
use os_project_mlfqschedulin.Sched.Queue.Order.{is_higher_asym, NotHigher, Sorted}
use os_project_mlfqschedulin.Sched.Process.{scheduler}
use os_project_mlfqschedulin.Sched.Inv.{is_runnable, Inv, Valid}
use os_project_mlfqschedulin.Sched.Inv.Switch.{chosen, dispatch-Valid}

-- No queue from level `lo` to below `hi` has a process.
abbrev Empty : (ℕ → List ℕ) → ℕ → ℕ → Type 0
Empty qs lo hi = (u : ℕ) → lo ≤ u → u < hi → qs u ≡ []

-- `p` is the head of the first queue, from level `lo` on, that has a process.
record Front (qs : ℕ → List ℕ) (lo p : ℕ) : Type 0 where
  at : ℕ
  rest : List ℕ
  within : at < levels
  list : qs at ≡ p ∷ rest
  before : Empty qs lo at

head_cases :
    (l : Links) (lv : ℕ) (xs : List ℕ)
    → Holds l lv xs
    → ((xs ≡ []) × ((l.queues lv).head ≡ none))
      ⊎ ((p : ℕ) × (rest : List ℕ) × (xs ≡ p ∷ rest) × ((l.queues lv).head ≡ some p))
head_cases l lv [] h = inl (refl, h.1)
head_cases l lv (x ∷ xs) h = inr (x, xs, refl, h.0)

first_head-cases :
    (l : Links) (qs : ℕ → List ℕ)
    → Linked l qs
    → (n lv : ℕ) → lv + n ≡ levels
    → ((first_head n lv l ≡ none) × Empty qs lv levels)
      ⊎ ((p : ℕ) × (first_head n lv l ≡ some p) × Front qs lv p)
unfolding first_head
first_head-cases l qs v zero lv e = inl (refl, λ u a b. absurd (omega arith))
first_head-cases l qs v (suc n) lv e = elim (head_cases l lv (qs lv) (v.holds lv (omega arith))) [
  | inr (p, rest, q, h) ↦ inr (
    p,
    rw (h, first_head),
    record {
      at = lv;
      rest = rest;
      within = omega arith;
      list = q;
      before = λ u a b. absurd (omega arith);
    },
  )
  | inl (q, h) ↦ elim (first_head-cases l qs v n (lv + 1) (omega arith)) [
    | inl (run, none_left) ↦
        inl (rw (h, first_head) run, λ u a b. below u a (dec_lt lv u) q (none_left u) b)
    | inr (p, run, f) ↦ inr (
      p,
      rw (h, first_head) run,
      record {
        at = f.at;
        rest = f.rest;
        within = f.within;
        list = f.list;
        before = λ u a b. below u a (dec_lt lv u) q (f.before u) b;
      },
    )
  ]
]
  where
    below :
        {hi : ℕ} (u : ℕ)
        → lv ≤ u
        → Dec (lv < u)
        → qs lv ≡ []
        → (lv + 1 ≤ u → u < hi → qs u ≡ [])
        → u < hi
        → qs u ≡ []
    below u a (yes lt) q f b = f (omega arith) b
    below u a (no ge) q f b = let same : lv ≡ u = omega arith in subst (λ w. qs w ≡ []) same q

-- `p` is RUNNABLE, and no RUNNABLE process has a better level, or its level and a higher priority.
pub record IsNext (proc : ℕ → Proc) (p : ℕ) : Type 0 where
  pub within : p < nproc
  pub ready : is_runnable (proc p) ≡ true
  pub best :
      (x : ℕ)
      → x < nproc
      → is_runnable (proc x) ≡ true
      → ((proc p).q_level < (proc x).q_level)
        ⊎ (((proc p).q_level ≡ (proc x).q_level) × (is_higher (proc x) (proc p) ≡ false))

NotHigher-of_mem :
    (proc : ℕ → Proc) (p x : ℕ) (rest : List ℕ)
    → All (NotHigher proc p) rest
    → has x (p ∷ rest) ≡ true
    → is_higher (proc x) (proc p) ≡ false
NotHigher-of_mem proc p x rest a h = elim (Bool-cases (p == x)) [
  | inl e ↦
      let same : p ≡ x = ground arith in
      let irrefl : is_higher (proc p) (proc p) ≡ false =
        ground (arith, is_higher_asym (proc p) (proc p)) in
      subst (λ y. is_higher (proc y) (proc p) ≡ false) same irrefl
  | inr e ↦ by_rest rest a (ground arith)
]
  where
    by_rest :
        (ys : List ℕ)
        → All (NotHigher proc p) ys
        → has x ys ≡ true
        → is_higher (proc x) (proc p) ≡ false
    by_rest ys b m = All-has (NotHigher proc p) x ys b m

Front-IsNext :
    (proc : ℕ → Proc) (l : Links) (qs : ℕ → List ℕ) (p : ℕ)
    → Inv proc l qs
    → Front qs 0 p
    → IsNext proc p
Front-IsNext proc l qs p v f =
    let mem : has p (qs f.at) ≡ true = rw f.list (ground arith) in
    let sorted : Sorted proc (p ∷ f.rest) = subst (Sorted proc) f.list (v.sorted f.at) in
    let (ready, lv) = v.queued f.at p mem in
    record {
      within = v.linked.bound f.at p mem;
      ready = ready;
      best = λ x b h.
          compare_levels x (v.complete x b h) lv sorted (dec_lt (proc x).q_level f.at)
            (dec_lt f.at (proc x).q_level);
    }
  where
    compare_levels :
        (x : ℕ)
        → has x (qs (proc x).q_level) ≡ true
        → (proc p).q_level ≡ f.at
        → Sorted proc (p ∷ f.rest)
        → Dec ((proc x).q_level < f.at)
        → Dec (f.at < (proc x).q_level)
        → ((proc p).q_level < (proc x).q_level)
          ⊎ (((proc p).q_level ≡ (proc x).q_level) × (is_higher (proc x) (proc p) ≡ false))
    compare_levels x m e s (yes lt) d =
        let gone = f.before (proc x).q_level (omega arith) lt in absurd (ground arith)
    compare_levels x m e s (no ge) (yes lt) = inl (omega arith)
    compare_levels x m e s (no ge) (no le) =
        let same : (proc x).q_level ≡ f.at = omega arith in
        let here : has x (p ∷ f.rest) ≡ true =
          subst (λ ys. has x ys ≡ true) f.list (subst (λ u. has x (qs u) ≡ true) same m) in
        inr (omega arith, NotHigher-of_mem proc p x f.rest s.0 here)

-- No process is RUNNABLE.
abbrev pub NoneReady : (ℕ → Proc) → Type 0
NoneReady proc = (x : ℕ) → x < nproc → is_runnable (proc x) ≡ false

-- On a valid table get_next_proc returns null only if no process is RUNNABLE, and otherwise a
-- RUNNABLE process such that no RUNNABLE process has a better level, or its level and a higher
-- priority.
pub get_next_proc-IsNext :
    (k : Kernel)
    → Valid k
    → ((get_next_proc k ≡ none) × NoneReady k.proc)
      ⊎ ((p : ℕ) × (get_next_proc k ≡ some p) × IsNext k.proc p)
unfolding get_next_proc
get_next_proc-IsNext k v = elim (first_head-cases k.links v.qs v.inv.linked levels 0 refl) [
  | inl (run, gone) ↦ inl (run, λ x b. idle x b gone (Bool-cases (is_runnable (k.proc x))))
  | inr (p, run, f) ↦ inr (p, run, Front-IsNext k.proc k.links v.qs p v.inv f)
]
  where
    idle :
        (x : ℕ)
        → x < nproc
        → Empty v.qs 0 levels
        → (is_runnable (k.proc x) ≡ true) ⊎ (is_runnable (k.proc x) ≡ false)
        → is_runnable (k.proc x) ≡ false
    idle x b gone (inr e) = e
    idle x b gone (inl e) =
        let m = v.inv.complete x b e in
        let q = gone (k.proc x).q_level (omega arith) (v.inv.level x b) in absurd (ground arith)

-- What one round of the scheduler does on the CPU `c`.
pub data Scheduled (k : Kernel) (c : ℕ) (r : Result Kernel) : Type 0 where
  idle_round : r ≡ ok k → NoneReady k.proc → Scheduled k c r
  switched :
      (p : ℕ) (k' : Kernel)
      → r ≡ ok k'
      → IsNext k.proc p
      → k'.proc ≡ update k.proc p (record (k.proc p) { state = running })
      → k'.current ≡ update k.current c (some p)
      → Valid k'
      → Scheduled k c r

-- On a valid table one round of the scheduler leaves the kernel as it is if no process is RUNNABLE.
-- Otherwise it switches to a RUNNABLE process such that no RUNNABLE process has a better level, or
-- its level and a higher priority; that process becomes RUNNING on this CPU, no other process
-- changes, and the table stays valid.
pub scheduler-Scheduled : (k : Kernel) (c : ℕ) → Valid k → Scheduled k c (scheduler c k)
unfolding scheduler
scheduler-Scheduled k c v = elim (get_next_proc-IsNext k v) [
  | inl (run, gone) ↦ idle_round (rw (run, scheduler)) gone
  | inr (p, run, next) ↦
      let (m, step, v') = dispatch-Valid k c p v next.within next.ready in
      switched p (record (chosen c p k) { links = m }) (rw (run, scheduler) step) next refl refl v'
]
