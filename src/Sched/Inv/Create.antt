-- ===== src/Sched/Inv/Create.antt =====
-- New processes: allocproc and fork.
use os_project_mlfqschedulin.Base.{
  ℕ, zero, suc, ◌+◌, ◌<◌, ◌≤◌, ◌≡◌, refl, ap, fun_ext, ◌∙◌, ◌⊎◌, inl, inr, Bool, true, false, none,
  some, arith, ◌==◌, if◌then◌else◌, Bool-cases, update, inc, minus_one,
}
use os_project_mlfqschedulin.Sched.{
  nproc, levels, unused, embryo, runnable, shell, Proc, Links, Kernel, Result, ok, state_eq,
  set_proc,
}
use os_project_mlfqschedulin.Sched.Queue.{set_next, set_prev, add_to_queue}
use os_project_mlfqschedulin.Sched.Queue.Remove.{Cleared}
use os_project_mlfqschedulin.Sched.Process.{find_unused, allocproc, fork_child, fork_into, fork}
use os_project_mlfqschedulin.Sched.Inv.{is_runnable, Valid}
use os_project_mlfqschedulin.Sched.Inv.Enqueue.{Absent-of_idle, Inv-outside}
use os_project_mlfqschedulin.Sched.Inv.Requeue.{entered, add_to_queue-Inv}
use os_project_mlfqschedulin.Sched.Inv.Switch.{Cpus-same, running_lem, myproc-some}

-- The slot `p` is free.
pub record IsFree (k : Kernel) (p : ℕ) : Type 0 where
  pub within : p < nproc
  pub free : state_eq (k.proc p).state unused ≡ true

pub find_unused-cases :
    (n i : ℕ) (k : Kernel)
    → i + n ≤ nproc
    → ((find_unused n i k ≡ none)
        × ((x : ℕ) → i ≤ x → x < i + n → state_eq (k.proc x).state unused ≡ false))
      ⊎ ((p : ℕ) × (find_unused n i k ≡ some p) × IsFree k p)
unfolding find_unused
find_unused-cases zero i k le = inl (refl, λ x a b. absurd (omega arith))
find_unused-cases (suc n) i k le = elim (Bool-cases (state_eq (k.proc i).state unused)) [
  | inl e ↦ inr (i, rw e, record { within = omega arith; free = e })
  | inr e ↦ elim (find_unused-cases n (i + 1) k (omega arith)) [
    | inl (run, full) ↦ inl (rw e run, λ x a b. ground (arith, full x))
    | inr (p, run, f) ↦ inr (p, rw e run, f)
  ]
]

-- Null links are cleared to themselves.
pub clear-same : (l : Links) (p : ℕ) → Cleared l p → set_prev p none (set_next p none l) ≡ l
unfolding set_next set_prev
clear-same l p c = λ i. record {
  next = fun_ext {f = update l.next p none} {g = l.next} (λ x. ground arith) i;
  prev = fun_ext {f = update l.prev p none} {g = l.prev} (λ x. ground arith) i;
  queues = l.queues;
}

pub clear-same' : (l : Links) (p : ℕ) → Cleared l p → set_next p none (set_prev p none l) ≡ l
unfolding set_next set_prev
clear-same' l p c = clear-same l p c

-- Two writes to one process are one.
pub update-update_self :
    (f : ℕ → Proc) (p : ℕ) (a : Proc) (g : Proc → Proc)
    → update (update f p a) p (g (update f p a p)) ≡ update f p (g a)
update-update_self f p a g =
    let here : update f p a p ≡ a = ground arith in rw here (fun_ext λ x. ground arith)

-- A slot as allocproc leaves it.
abbrev pub allocated : Proc → ℕ → ℕ → Proc
allocated p pid stack = record p {
  kstack = stack;
  state = if stack == 0 then unused else embryo;
  pid = pid;
  q_level = 0;
  cpu_burst = 0;
  cpu_wait = 0;
  io_wait_time = 0;
  end_time = minus_one;
  total_cpu_time = 0;
  queue_entry_time = 0;
}

-- The kernel behind allocproc, at the slot `p`.
abbrev pub with_slot : ℕ → ℕ → Kernel → Kernel
with_slot p stack k = record k {
  proc = update k.proc p (allocated (k.proc p) k.nextpid stack);
  nextpid = inc k.nextpid;
}

module _ (k : Kernel) (v : Valid k) (p : ℕ) (f : IsFree k p) where
  idle : is_runnable (k.proc p) ≡ false
  idle = let e = f.free in ground arith

  pub free-Cleared : Cleared k.links p
  free-Cleared = v.inv.linked.alone p (Absent-of_idle k.proc k.links v.qs v.inv p idle)

  pub with_slot-Valid : (stack : ℕ) → Valid (with_slot p stack k)
  with_slot-Valid stack =
      let e = f.free in
      record {
        qs = v.qs;
        inv =
            Inv-outside k.proc k.links v.qs v.inv p (allocated (k.proc p) k.nextpid stack) f.within
              (omega arith) (λ h. ground arith) idle (ground arith);
        cpus = Cpus-same k.proc (with_slot p stack k).proc k.current v.cpus (λ x. ground arith);
      }

  pub allocproc-slot :
      (stack : ℕ)
      → find_unused nproc 0 k ≡ some p
      → allocproc stack k ≡ (with_slot p stack k, if stack == 0 then none else some p)
  unfolding allocproc
  allocproc-slot stack run = elim (Bool-cases (stack == 0)) [
    | inl e ↦
        rw (run, allocproc, e, clear-same k.links p free-Cleared)
          (ap (λ (h : ℕ → Proc). (record k { proc = h; nextpid = inc k.nextpid }, none))
            (update-update_self k.proc p _ (λ q. record q { kstack = stack; state = unused })))
    | inr e ↦
        rw (run, allocproc, e, clear-same k.links p free-Cleared)
          (ap (λ (h : ℕ → Proc). (record k { proc = h; nextpid = inc k.nextpid }, some p))
            (update-update_self k.proc p _ (λ q. record q { kstack = stack })))
  ]

-- The child that fork makes in the slot `np`, from the kernel `k` before the call.
pub record Child (k k' : Kernel) (np cur dir stack : ℕ) : Type 0 where
  pub state : (k'.proc np).state ≡ runnable
  pub pid : (k'.proc np).pid ≡ k.nextpid
  pub parent : (k'.proc np).parent ≡ some cur
  pub memory : ((k'.proc np).sz ≡ (k.proc cur).sz) × ((k'.proc np).pgdir ≡ dir)
  pub kstack : (k'.proc np).kstack ≡ stack
  pub q_level : (k'.proc np).q_level ≡ (if (k.proc cur).pid == 1 then 3 else 0)
  pub type : (k'.proc np).type ≡ (if (k.proc cur).pid == 1 then shell else (k.proc np).type)
  pub killed : (k'.proc np).killed ≡ (k.proc np).killed
  pub others : (x : ℕ) → (np == x) ≡ false → k'.proc x ≡ k.proc x

-- What a call of fork comes to, where kalloc and copyuvm return `stack` and `dir`.
pub data Forked (k : Kernel) (cur stack dir : ℕ) (r : Result (Kernel × ℕ)) : Type 0 where
  refused :
      (k' : Kernel)
      → r ≡ ok (k', minus_one)
      → ((x : ℕ) → x < nproc → state_eq (k.proc x).state unused ≡ false)
        ⊎ (((stack == 0) ≡ true) ⊎ ((dir == 0) ≡ true))
      → ((x : ℕ) → is_runnable (k'.proc x) ≡ is_runnable (k.proc x))
      → Valid k'
      → Forked k cur stack dir r
  created :
      (k' : Kernel) (np : ℕ)
      → r ≡ ok (k', k.nextpid)
      → (stack == 0) ≡ false
      → (dir == 0) ≡ false
      → IsFree k np
      → Child k k' np cur dir stack
      → Valid k'
      → Forked k cur stack dir r

pub fork_into-run :
    (k k' : Kernel) (np cur dir : ℕ)
    → (dir == 0) ≡ false
    → Cleared k.links np
    → let child : Proc = fork_child cur dir (k.proc cur) (k.proc np) in
      add_to_queue np child.q_level (record k { proc = update k.proc np child }) ≡ ok k'
      → fork_into np cur dir k ≡ ok (k', (k.proc np).pid)
unfolding fork_into
fork_into-run k k' np cur dir d c run = rw (d, fork_into, clear-same' k.links np c, run)

fork_level : (b : Bool) → (if b then 3 else 0) < levels
fork_level b = ground arith

module _ (k : Kernel) (v : Valid k) (np cur stack : ℕ) (f : IsFree k np) (st : (stack == 0) ≡ false)
    (ne : (np == cur) ≡ false) where
  abbrev k1 : Kernel
  k1 = with_slot np stack k

  fork_into-fail : (dir : ℕ) → (dir == 0) ≡ true → Forked k cur stack dir (fork_into np cur dir k1)
  unfolding fork_into
  fork_into-fail dir d =
      let new : Proc = record (k1.proc np) { kstack = 0; state = unused } in
      let v1 = with_slot-Valid k v np f stack in
      let e = f.free in
      refused (set_proc np new k1) (rw d) (inr (inr d)) (λ x. ground arith)
        (record {
          qs = v1.qs;
          inv =
              Inv-outside k1.proc k1.links v1.qs v1.inv np new f.within (v1.inv.level np f.within)
                (λ h. cc) (ground arith) refl;
          cpus = Cpus-same k.proc (update k1.proc np new) k.current v.cpus (λ x. ground arith);
        })

  fork_into-new : (dir : ℕ) → (dir == 0) ≡ false → Forked k cur stack dir (fork_into np cur dir k1)
  unfolding fork_child
  fork_into-new dir d =
      let child : Proc = fork_child cur dir (k1.proc cur) (k1.proc np) in
      let v1 = with_slot-Valid k v np f stack in
      let e = f.free in
      let (m, run, i) =
        add_to_queue-Inv (record k1 { proc = update k1.proc np child }) k1.proc v1.qs np
          child.q_level child v1.inv refl f.within (ground arith) (ground arith) refl
          (ground arith) in
      let g : ℕ → Proc = update k1.proc np (entered child child.q_level k.ticks) in
      let k' : Kernel = record k1 { proc = g; links = m } in
      created k' np
        (fork_into-run k1 k' np cur dir d (free-Cleared k v np f) run
          ∙ ap (λ (n : ℕ). ok (k', n)) (ground arith))
        st d f
        (record {
          state = ground arith;
          pid = ground arith;
          parent = ground arith;
          memory = (ground arith, ground arith);
          kstack = ground arith;
          q_level = ground arith;
          type = ground arith;
          killed = ground arith;
          others = λ x h. ground arith;
        })
        (record { qs = _; inv = i; cpus = Cpus-same k.proc g k.current v.cpus (λ x. ground arith) })

fork-none :
    (k k2 : Kernel) (c cur stack dir : ℕ)
    → k.current c ≡ some cur
    → allocproc stack k ≡ (k2, none)
    → fork c stack dir k ≡ ok (k2, minus_one)
unfolding fork
fork-none k k2 c cur stack dir e a = rw (myproc-some k c cur e, a)

fork-some :
    (k k2 : Kernel) (c cur stack dir np : ℕ)
    → k.current c ≡ some cur
    → allocproc stack k ≡ (k2, some np)
    → fork c stack dir k ≡ fork_into np cur dir k2
unfolding fork
fork-some k k2 c cur stack dir np e a = rw (myproc-some k c cur e, a)

pub allocproc-full :
    (k : Kernel) (stack : ℕ) → find_unused nproc 0 k ≡ none → allocproc stack k ≡ (k, none)
unfolding allocproc
allocproc-full k stack e = rw (e, allocproc)

fork-Forked_at :
    (k : Kernel) (v : Valid k) (c cur stack dir p : ℕ)
    → k.current c ≡ some cur
    → IsFree k p
    → find_unused nproc 0 k ≡ some p
    → Forked k cur stack dir (fork c stack dir k)
fork-Forked_at k v c cur stack dir p e f run =
    let (b, r, _) = running_lem k v c cur e in
    let free = f.free in
    let slot = allocproc-slot k v p f stack run in
    let ne : (p == cur) ≡ false = ground arith in
    elim (Bool-cases (stack == 0)) [
      | inl z ↦
          refused (with_slot p stack k)
            (fork-none k (with_slot p stack k) c cur stack dir e (slot ∙ rw z)) (inr (inl z))
            (λ x. ground arith) (with_slot-Valid k v p f stack)
      | inr z ↦
          rw (fork-some k (with_slot p stack k) c cur stack dir p e (slot ∙ rw z))
            (elim (Bool-cases (dir == 0)) [
              | inl d ↦ fork_into-fail k v p cur stack f z ne dir d
              | inr d ↦ fork_into-new k v p cur stack f z ne dir d
            ])
    ]

-- On a valid table, for the process that runs on a CPU, fork returns with no panic and a valid
-- table: either -1, and then no slot is free or the stack or the copy of the memory could not be
-- allocated, and no process becomes or stops being RUNNABLE; or the next pid and a child in a slot that
-- was free, and then both were allocated. The child is RUNNABLE with its parent's memory size, at level 3 as a SHELL
-- if its parent has pid 1, and otherwise at level 0 with the type that the slot had; it has the
-- mark `killed` that the slot had; no other process changes.
pub fork-Forked :
    (k : Kernel) (c cur stack dir : ℕ)
    → Valid k
    → k.current c ≡ some cur
    → Forked k cur stack dir (fork c stack dir k)
fork-Forked k c cur stack dir v e = elim (find_unused-cases nproc 0 k (omega arith)) [
  | inl (run, full) ↦
      refused k (fork-none k k c cur stack dir e (allocproc-full k stack run))
        (inl λ x b. full x (omega arith) (omega arith)) (λ x. refl) v
  | inr (p, run, f) ↦ fork-Forked_at k v c cur stack dir p e f run
]
