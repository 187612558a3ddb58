-- ===== src/Sched/Inv/Embryo.antt =====
-- The parts of fork between which the lock is free, each on any valid table.
use os_project_mlfqschedulin.Base.{
  ℕ, ◌<◌, ◌≡◌, refl, inl, inr, true, false, none, some, arith, ◌==◌, Bool-cases, update, minus_one,
}
use os_project_mlfqschedulin.Sched.{nproc, unused, embryo, Proc, Kernel, ok, state_eq, set_proc}
use os_project_mlfqschedulin.Sched.Queue.Remove.{Cleared}
use os_project_mlfqschedulin.Sched.Process.{
  find_unused, init_slot, give_stack, allocproc, fork_child, fork_into,
}
use os_project_mlfqschedulin.Sched.Inv.{is_live, is_runnable, is_running, Valid}
use os_project_mlfqschedulin.Sched.Inv.Enqueue.{Absent-of_idle, Inv-outside}
use os_project_mlfqschedulin.Sched.Inv.Requeue.{entered, add_to_queue-Inv}
use os_project_mlfqschedulin.Sched.Inv.Switch.{Cpus-same}
use os_project_mlfqschedulin.Sched.Inv.Create.{
  IsFree, find_unused-cases, clear-same, free-Cleared, with_slot-Valid, allocproc-slot,
  allocproc-full, fork_into-run,
}

pub allocproc-Valid : (k : Kernel) (stack : ℕ) → Valid k → Valid (allocproc stack k).0
allocproc-Valid k stack v = elim (find_unused-cases nproc 0 k (omega arith)) [
  | inl (run, full) ↦ rw (allocproc-full k stack run) v
  | inr (p, run, f) ↦ rw (allocproc-slot k v p f stack run) (with_slot-Valid k v p f stack)
]

claimed-Valid : (k : Kernel) (p : ℕ) → Valid k → IsFree k p → Valid (init_slot p k)
unfolding init_slot
claimed-Valid k p v f =
    let e = f.free in
    let idle : is_runnable (k.proc p) ≡ false = ground arith in
    let new : Proc = record (k.proc p) {
      state = embryo;
      pid = k.nextpid;
      q_level = 0;
      cpu_burst = 0;
      cpu_wait = 0;
      io_wait_time = 0;
      end_time = minus_one;
      total_cpu_time = 0;
      queue_entry_time = 0;
    } in
    rw (clear-same k.links p (free-Cleared k v p f)) (record {
      qs = v.qs;
      inv =
          Inv-outside k.proc k.links v.qs v.inv p new f.within (omega arith) (λ h. ground arith)
            idle (ground arith);
      cpus = Cpus-same k.proc (update k.proc p new) k.current v.cpus (λ x. ground arith);
    })

-- allocproc under the lock: the first UNUSED slot becomes an EMBRYO, if there is one.
abbrev pub claim : Kernel → Kernel
claim k = elim (find_unused nproc 0 k) [ none ↦ k | some p ↦ init_slot p k ]

pub claim-Valid : (k : Kernel) → Valid k → Valid (claim k)
claim-Valid k v = elim (find_unused-cases nproc 0 k (omega arith)) [
  | inl (run, full) ↦ rw (run, claim) v
  | inr (p, run, f) ↦ rw (run, claim) (claimed-Valid k p v f)
]

pub give_stack-Valid :
    (k : Kernel) (stack p : ℕ)
    → Valid k
    → p < nproc
    → state_eq (k.proc p).state embryo ≡ true
    → Valid (give_stack stack p k).0
give_stack-Valid k stack p v b e = elim (Bool-cases (stack == 0)) [
  | inl z ↦ rw z (kept (record (k.proc p) { kstack = stack; state = unused }) refl refl refl refl)
  | inr z ↦ rw z (
      kept (record (k.proc p) { kstack = stack }) (ground arith) (ground arith) (ground arith) refl)
]
  where
    kept :
        (q : Proc)
        → is_runnable q ≡ false
        → is_running q ≡ false
        → is_live q.state ≡ false
        → q.q_level ≡ (k.proc p).q_level
        → Valid (set_proc p q k)
    kept q idle off dead same = record {
      qs = v.qs;
      inv =
          Inv-outside k.proc k.links v.qs v.inv p q b (rw same (v.inv.level p b))
            (λ h. absurd (ground arith)) (ground arith) idle;
      cpus = Cpus-same k.proc (update k.proc p q) k.current v.cpus (λ x. ground arith);
    }

-- A slot that allocproc has given to a caller who has not handed it to the scheduler.
pub record IsEmbryo (k : Kernel) (p : ℕ) : Type 0 where
  pub within : p < nproc
  pub state : state_eq (k.proc p).state embryo ≡ true
  pub stack : ((k.proc p).kstack == 0) ≡ false

module _ (k : Kernel) (v : Valid k) (np : ℕ) (e : IsEmbryo k np) where
  idle : is_runnable (k.proc np) ≡ false
  idle = let s = e.state in ground arith

  fork_into-given_up :
      (cur dir : ℕ)
      → (dir == 0) ≡ true
      → (k' : Kernel) × (n : ℕ) × (fork_into np cur dir k ≡ ok (k', n)) × Valid k'
  unfolding fork_into
  fork_into-given_up cur dir d =
      let new : Proc = record (k.proc np) { kstack = 0; state = unused } in
      let s = e.state in
      (
        set_proc np new k,
        minus_one,
        rw d,
        record {
          qs = v.qs;
          inv =
              Inv-outside k.proc k.links v.qs v.inv np new e.within (v.inv.level np e.within)
                (λ h. cc) idle refl;
          cpus = Cpus-same k.proc (update k.proc np new) k.current v.cpus (λ x. ground arith);
        },
      )

  fork_into-done :
      (cur dir : ℕ)
      → (dir == 0) ≡ false
      → (k' : Kernel) × (n : ℕ) × (fork_into np cur dir k ≡ ok (k', n)) × Valid k'
  unfolding fork_child
  fork_into-done cur dir d =
      let child : Proc = fork_child cur dir (k.proc cur) (k.proc np) in
      let s = e.state in
      let st = e.stack in
      let cleared : Cleared k.links np =
        v.inv.linked.alone np (Absent-of_idle k.proc k.links v.qs v.inv np idle) in
      let (m, run, i) =
        add_to_queue-Inv (record k { proc = update k.proc np child }) k.proc v.qs np child.q_level
          child v.inv refl e.within (ground arith) idle refl (ground arith) in
      let g : ℕ → Proc = update k.proc np (entered child child.q_level k.ticks) in
      let k' : Kernel = record k { proc = g; links = m } in
      (
        k',
        (k.proc np).pid,
        fork_into-run k k' np cur dir d cleared run,
        record { qs = _; inv = i; cpus = Cpus-same k.proc g k.current v.cpus (λ x. ground arith) },
      )

  pub fork_into-Valid :
      (cur dir : ℕ) → (k' : Kernel) × (n : ℕ) × (fork_into np cur dir k ≡ ok (k', n)) × Valid k'
  fork_into-Valid cur dir = elim (Bool-cases (dir == 0)) [
    | inl d ↦ fork_into-given_up cur dir d
    | inr d ↦ fork_into-done cur dir d
  ]
