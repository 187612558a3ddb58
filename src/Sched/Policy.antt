-- ===== src/Sched/Policy.antt =====
-- What the scheduling functions of srcs/proc.c and srcs/trap.c amount to as a policy.
use os_project_mlfqschedulin.Base.{
  ℕ, ◌^◌, ◌<◌, ◌≡◌, refl, sym, ap, subst, ◌∙◌, ◌≢◌, ◌⊎◌, inl, inr, true, false, none, some, arith,
  ltb, ◌==◌, if◌then◌else◌, Bool-cases, update, sle,
}
use os_project_mlfqschedulin.Sched.{nproc, Proc, Kernel, ok, is_pinned}
use os_project_mlfqschedulin.Sched.Queue.{is_higher, get_next_proc}
use os_project_mlfqschedulin.Sched.Mlfq.{aging_limit}
use os_project_mlfqschedulin.Sched.Process.{yield}
use os_project_mlfqschedulin.Sched.Trap.{tick_running}
use os_project_mlfqschedulin.Sched.Inv.{is_runnable, Cpus, Valid}
use os_project_mlfqschedulin.Sched.Inv.Wakeup.{woken}
use os_project_mlfqschedulin.Sched.Inv.Switch.{Cpus-leave, running_lem, yield-Follows}
use os_project_mlfqschedulin.Sched.Inv.Next.{IsNext, get_next_proc-IsNext}
use os_project_mlfqschedulin.Sched.Inv.Promote.{promoted}
use os_project_mlfqschedulin.Sched.Inv.Aging.{is_aged_up}
use os_project_mlfqschedulin.Sched.Inv.Timers.{after_tick, tick_running-result}

-- `p` comes before every other RUNNABLE process: by its level, or by the priority in its level.
abbrev ComesFirst : (ℕ → Proc) → ℕ → Type 0
ComesFirst proc p =
    (x : ℕ)
    → x < nproc
    → (p == x) ≡ false
    → is_runnable (proc x) ≡ true
    → ((proc p).q_level < (proc x).q_level)
      ⊎ (((proc p).q_level ≡ (proc x).q_level) × (is_higher (proc p) (proc x) ≡ true))

-- On a valid table a RUNNABLE process that comes before every other RUNNABLE one, by its level or
-- by its priority in the level, is the one that get_next_proc returns.
get_next_proc-ComesFirst :
    (k : Kernel) (p : ℕ)
    → Valid k
    → p < nproc
    → is_runnable (k.proc p) ≡ true
    → ComesFirst k.proc p
    → get_next_proc k ≡ some p
get_next_proc-ComesFirst k p v b h first = elim (get_next_proc-IsNext k v) [
  | inl (run, gone) ↦ absurd (ground (arith, gone p b))
  | inr (q, run, n) ↦ elim (Bool-cases (p == q)) [
    | inl e ↦ let same : p ≡ q = ground arith in run ∙ ap some (sym same)
    | inr e ↦ absurd (ground (arith, first q n.within e n.ready, n.best p b h))
  ]
]

-- On a valid table, a RUNNABLE process at the same level as another one, with equal I/O wait and an
-- earlier entry, is not the one that get_next_proc returns: among equals the latest entry goes
-- first.
get_next_proc-latest_first :
    (k : Kernel) (p x : ℕ)
    → Valid k
    → p < nproc
    → is_runnable (k.proc p) ≡ true
    → is_runnable (k.proc x) ≡ true
    → (k.proc p).q_level ≡ (k.proc x).q_level
    → (k.proc p).io_wait_time ≡ (k.proc x).io_wait_time
    → (k.proc x).queue_entry_time < (k.proc p).queue_entry_time
    → get_next_proc k ≢ some x
unfolding is_higher
get_next_proc-latest_first k p x v b h hx lv io entry e = elim (get_next_proc-IsNext k v) [
  | inl (run, gone) ↦ absurd (ground arith)
  | inr (q, run, n) ↦
      let same : q ≡ x = ground arith in
      let best = subst (IsNext k.proc) same n in absurd (ground (arith, best.best p b h))
]

-- On a valid table, for a process that runs on a CPU, the locked part of a timer interrupt returns,
-- and then no RUNNABLE process above level 0 that is neither INIT nor SHELL has waited for 250
-- ticks or more.
tick_running-no_starving :
    (k : Kernel) (c p : ℕ)
    → Valid k
    → k.current c ≡ some p
    → (k' : Kernel) × (tick_running p k ≡ ok k')
      × ((x : ℕ)
          → x < nproc
          → is_runnable (k'.proc x) ≡ true
          → is_pinned (k'.proc x).type ≡ false
          → ((k'.proc x).q_level == 0) ≡ false
          → sle aging_limit (k'.proc x).cpu_wait ≡ false)
tick_running-no_starving k c p v e =
    let (k', run, result, rest, v') = tick_running-result k c p v e in
    (
      k',
      run,
      λ x b r free up.
          let in_table : ltb x nproc ≡ true = ground arith in
          let q : Proc = after_tick p k.proc x in
          let eq : k'.proc x ≡ (if is_aged_up q then promoted k.ticks q else q) =
            result x ∙ rw in_table in
          not_aged q k.ticks (k'.proc x) eq r free up,
    )
  where
    not_aged :
        (q : Proc) (now : ℕ) (r : Proc)
        → r ≡ (if is_aged_up q then promoted now q else q)
        → is_runnable r ≡ true
        → is_pinned r.type ≡ false
        → (r.q_level == 0) ≡ false
        → sle aging_limit r.cpu_wait ≡ false
    not_aged q now r eq = elim (Bool-cases (is_aged_up q)) [
      | inl h ↦ rw (eq, h) (λ a b c. refl)
      | inr h ↦ rw (eq, h) (λ a b c. ground arith)
    ]

-- The running process `p` has its turn again if it gives up the CPU now: every RUNNABLE process is at a
-- later level, or at the same one and has less I/O wait, or as much and an entry before this tick.
abbrev pub HasTurn : Kernel → ℕ → Type 0
HasTurn k p =
    (x : ℕ)
    → x < nproc
    → is_runnable (k.proc x) ≡ true
    → ((k.proc p).q_level < (k.proc x).q_level)
      ⊎ (((k.proc p).q_level ≡ (k.proc x).q_level)
          × ((((k.proc x).io_wait_time < (k.proc p).io_wait_time)
                × ((k.proc p).io_wait_time < 2 ^ 31))
              ⊎ (((k.proc x).io_wait_time ≡ (k.proc p).io_wait_time)
                  × ((k.proc x).queue_entry_time < k.ticks))))

HasTurn-ComesFirst :
    (k : Kernel) (p : ℕ) → HasTurn k p → ComesFirst (update k.proc p (woken k.ticks (k.proc p))) p
unfolding is_higher
HasTurn-ComesFirst k p h x b ne r = elim (h x b (ground arith)) [
  | inl lt ↦ inl (ground arith)
  | inr (same, inl (less, small)) ↦ inr (ground arith, ground arith)
  | inr (same, inr (eq, before)) ↦ inr (ground arith, ground arith)
]

-- On a valid table the process that yields on a CPU is the next that get_next_proc returns, if every
-- RUNNABLE process is at a later level, or at the same level and has less I/O wait, below 2^31, or
-- as much and entered its queue before the current tick. So among equals the latest entry goes first.
pub yield-keeps_turn :
    (k : Kernel) (c p : ℕ)
    → Valid k
    → k.current c ≡ some p
    → HasTurn k p
    → (k' : Kernel) × (yield c k ≡ ok k') × (get_next_proc k' ≡ some p)
yield-keeps_turn k c p v e turn =
    let first = HasTurn-ComesFirst k p turn in
    let (b, r, idle) = running_lem k v c p e in
    let (k1, run, w) = yield-Follows k v c p e in
    let k' : Kernel = record k1 { current = update k1.current c none } in
    let g = update k.proc p (woken k.ticks (k.proc p)) in
    let cpus : Cpus k1.proc (update k1.current c none) =
      rw (w.proc, w.rest.current)
        (Cpus-leave k.proc g k.current c p v.cpus e (λ x ne. ground arith)) in
    let v' : Valid k' = record { qs = w.qs; inv = w.inv; cpus = cpus } in
    let ready : is_runnable (k1.proc p) ≡ true =
      ap (λ (f : ℕ → Proc). is_runnable (f p)) w.proc ∙ ground arith in
    (
      k',
      run,
      get_next_proc-ComesFirst k' p v' b ready (subst (λ f. ComesFirst f p) (sym w.proc) first),
    )
