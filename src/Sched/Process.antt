-- ===== src/Sched/Process.antt =====
-- The life of a process in srcs/proc.c. Each function here is what runs under one holding of
-- `ptable.lock`, so it is one step of the kernel; `c` is the number of the CPU that runs it. What a
-- process does from sched() on, up to `c->proc = 0` in scheduler(), belongs to the same step.
use os_project_mlfqschedulin.Base.{
  ℕ, zero, suc, ◌+◌, Bool, true, false, ◌&&◌, ◌||◌, not, Option, none, some, ◌==◌, if◌then◌else◌,
  inc, minus_one, update,
}
use os_project_mlfqschedulin.Sched.{
  nproc, Ptr, unused, embryo, sleeping, runnable, running, zombie, init, shell, Chan, no_chan,
  proc_chan, Proc, Kernel, init_exiting, sched_running, out_of_memory, Result, ok, panic, fault,
  ◌>>=◌, state_eq, chan_eq, ptr_eq, set_proc,
}
use os_project_mlfqschedulin.Sched.Queue.{
  add_to_queue, remove_from_queue, get_next_proc, set_next, set_prev,
}

-- `myproc()`, where the code goes on to read through the pointer.
unfoldable pub myproc : ℕ → Kernel → Result ℕ
myproc c k = elim (k.current c) [ none ↦ fault | some p ↦ ok p ]

-- The first UNUSED slot from index `i` on.
unfoldable pub find_unused : ℕ → ℕ → Kernel → Ptr
find_unused zero i k = none
find_unused (suc n) i k =
    let rest = find_unused n (i + 1) k in if state_eq (k.proc i).state unused then some i else rest

-- What allocproc writes into the slot that it found.
unfoldable pub init_slot : ℕ → Kernel → Kernel
unfolding set_next set_prev
init_slot p k = record k {
  proc = update k.proc p (record (k.proc p) {
    state = embryo;
    pid = k.nextpid;
    q_level = 0;
    cpu_burst = 0;
    cpu_wait = 0;
    io_wait_time = 0;
    end_time = minus_one;
    total_cpu_time = 0;
    queue_entry_time = 0;
  });
  links = set_prev p none (set_next p none k.links);
  nextpid = inc k.nextpid;
}

-- allocproc behind the lock, at its slot `p`: `stack` is what kalloc() returns, 0 where no page is left.
-- The trap frame and the context on the new stack are not part of the state.
abbrev pub give_stack : ℕ → ℕ → Kernel → Kernel × Ptr
give_stack stack p k =
    if stack == 0
    then (set_proc p (record (k.proc p) { kstack = stack; state = unused }) k, none)
    else (set_proc p (record (k.proc p) { kstack = stack }) k, some p)

unfoldable pub allocproc : ℕ → Kernel → Kernel × Ptr
unfolding init_slot
allocproc stack k = elim (find_unused nproc 0 k) [
  | none ↦ (k, none)
  | some p ↦ give_stack stack p (init_slot p k)
]

-- The first process as userinit hands it to the scheduler; `dir` is its page directory.
unfoldable pub first_proc : ℕ → Proc → Proc
first_proc dir p = record p {
  pgdir = dir;
  sz = 4096;
  state = runnable;
  q_level = 3;
  cpu_burst = 0;
  cpu_wait = 0;
  io_wait_time = 0;
  queue_entry_time = 0;
  type = init;
}

-- userinit behind allocproc. A null pointer from allocproc is written through.
unfoldable pub userinit_slot : ℕ → Kernel × Ptr → Result Kernel
unfolding first_proc set_next set_prev
userinit_slot dir (k, none) = fault
userinit_slot dir (k, some p) =
    if dir == 0
    then panic out_of_memory
    else add_to_queue p 3 (record k {
      proc = update k.proc p (first_proc dir (k.proc p));
      links = set_next p none (set_prev p none k.links);
      initproc = some p;
    })

-- `stack` is what kalloc() returns, `dir` what setupkvm() returns.
unfoldable pub userinit : ℕ → ℕ → Kernel → Result Kernel
unfolding userinit_slot
userinit stack dir k = userinit_slot dir (allocproc stack k)

-- The child as fork hands it to the scheduler: what it copies from its parent `q`, then the fields
-- set under the lock.
unfoldable pub fork_child : ℕ → ℕ → Proc → Proc → Proc
fork_child parent dir q np = record np {
  sz = q.sz;
  pgdir = dir;
  parent = some parent;
  state = runnable;
  q_level = if q.pid == 1 then 3 else 0;
  type = if q.pid == 1 then shell else np.type;
  cpu_burst = 0;
  cpu_wait = 0;
  io_wait_time = 0;
  queue_entry_time = 0;
  end_time = minus_one;
  total_cpu_time = 0;
}

-- fork behind allocproc, at the new slot `np`; `dir` is what copyuvm() returns, 0 on failure.
unfoldable pub fork_into : ℕ → ℕ → ℕ → Kernel → Result (Kernel × ℕ)
unfolding fork_child set_next set_prev
fork_into np cur dir k =
    if dir == 0
    then ok (set_proc np (record (k.proc np) { kstack = 0; state = unused }) k, minus_one)
    else (do
      let child = fork_child cur dir (k.proc cur) (k.proc np)
      let l = set_next np none (set_prev np none k.links)
      k' ← add_to_queue np child.q_level (record k { proc = update k.proc np child; links = l })
      ok (k', (k.proc np).pid))

-- fork behind allocproc, by its result.
unfoldable pub fork_slot : ℕ → ℕ → Kernel × Ptr → Result (Kernel × ℕ)
fork_slot cur dir (k, none) = ok (k, minus_one)
fork_slot cur dir (k, some np) = fork_into np cur dir k

-- The lock is free between the parts of allocproc, and from there to the last lines of `fork_into`.
unfoldable pub fork : ℕ → ℕ → ℕ → Kernel → Result (Kernel × ℕ)
unfolding myproc fork_slot
fork c stack dir k = myproc c k >>= λ cur. fork_slot cur dir (allocproc stack k)

-- `p->state = RUNNABLE; add_to_queue(p, p->q_level);`
unfoldable pub make_runnable : ℕ → Kernel → Result Kernel
make_runnable p k =
    add_to_queue p (k.proc p).q_level (set_proc p (record (k.proc p) { state = runnable }) k)

-- One round of the loop in wakeup1.
unfoldable pub wake : Chan → ℕ → Kernel → Result Kernel
wake ch p k =
    if state_eq (k.proc p).state sleeping && chan_eq (k.proc p).chan ch
    then make_runnable p k
    else ok k

unfoldable pub wake_from : ℕ → ℕ → Chan → Kernel → Result Kernel
unfolding wake
wake_from zero i ch k = ok k
wake_from (suc n) i ch k = wake ch i k >>= wake_from n (i + 1) ch

unfoldable pub wakeup1 : Chan → Kernel → Result Kernel
wakeup1 ch k = wake_from nproc 0 ch k

-- The address of a process as a channel.
abbrev pub chan_of : Ptr → Chan
chan_of none = no_chan
chan_of (some p) = proc_chan p

-- sched() switches to the scheduler, which forgets the process. It panics if the process still runs.
unfoldable pub sched : ℕ → ℕ → Kernel → Result Kernel
sched c p k =
    if state_eq (k.proc p).state running
    then panic sched_running
    else ok (record k { current = update k.current c none })

-- One round of the loop that passes abandoned children to init.
unfoldable pub adopt : ℕ → ℕ → Kernel → Result Kernel
adopt cur p k =
    if ptr_eq (k.proc p).parent (some cur)
    then (do
      let k1 = set_proc p (record (k.proc p) { parent = k.initproc }) k
      if state_eq (k1.proc p).state zombie then wakeup1 (chan_of k.initproc) k1 else ok k1)
    else ok k

unfoldable pub adopt_from : ℕ → ℕ → ℕ → Kernel → Result Kernel
unfolding adopt
adopt_from zero i cur k = ok k
adopt_from (suc n) i cur k = adopt cur i k >>= adopt_from n (i + 1) cur

-- exit from `acquire(&ptable.lock)` on.
unfoldable pub exit_locked : ℕ → Kernel → Result Kernel
unfolding myproc sched
exit_locked c k = do
  cur ← myproc c k
  k1 ← remove_from_queue cur k
  k2 ← wakeup1 (chan_of (k1.proc cur).parent) k1
  k3 ← adopt_from nproc 0 cur k2
  sched c cur (set_proc cur (record (k3.proc cur) { state = zombie }) k3)

-- The init process must not exit. The open files are closed between the test and the lock.
unfoldable pub exit : ℕ → Kernel → Result Kernel
unfolding myproc
exit c k = do
  cur ← myproc c k
  if ptr_eq k.initproc (some cur) then panic init_exiting else exit_locked c k

-- sleep up to the switch, at a process that is there; `lk` is handed over for `ptable.lock` first.
unfoldable pub sleep : ℕ → Chan → Kernel → Result Kernel
unfolding myproc sched
sleep c ch k = do
  p ← myproc c k
  sched c p (set_proc p (record (k.proc p) { chan = ch; state = sleeping }) k)

-- sleep behind the switch, when the process runs again.
unfoldable pub sleep_resume : ℕ → Kernel → Result Kernel
unfolding myproc
sleep_resume c k = do p ← myproc c k; ok (set_proc p (record (k.proc p) { chan = no_chan }) k)

unfoldable pub yield : ℕ → Kernel → Result Kernel
unfolding myproc sched
yield c k = do p ← myproc c k; k1 ← make_runnable p k; sched c p k1

-- scheduler from get_next_proc to the switch; nothing happens if there is no process to run.
unfoldable pub dispatch : ℕ → ℕ → Kernel → Result Kernel
dispatch c p k =
    if state_eq (k.proc p).state runnable && not ((k.proc p).kstack == 0)
    then remove_from_queue p (record k {
      proc = update k.proc p (record (k.proc p) { state = running });
      current = update k.current c (some p);
    })
    else ok k

unfoldable pub scheduler : ℕ → Kernel → Result Kernel
scheduler c k = elim (get_next_proc k) [ none ↦ ok k | some p ↦ dispatch c p k ]

-- What the scan of wait() found.
pub data Waited : Type 0 where
  reaped : ℕ → Waited
  no_children : Waited
  must_sleep : Waited

-- A reaped child's slot.
abbrev pub freed : Proc → Proc
freed p = record p { kstack = 0; pid = 0; parent = none; killed = false; state = unused }

-- The scan from index `i` on; `kids` says whether a child was seen.
unfoldable pub wait_from : ℕ → ℕ → ℕ → Bool → Kernel → Kernel × Waited
wait_from zero i cur kids k =
    (k, if not kids || (k.proc cur).killed then no_children else must_sleep)
wait_from (suc n) i cur kids k =
    let skip = wait_from n (i + 1) cur kids k in
    let seen = wait_from n (i + 1) cur true k in
    if ptr_eq (k.proc i).parent (some cur)
    then (if state_eq (k.proc i).state zombie
        then (set_proc i (freed (k.proc i)) k, reaped (k.proc i).pid)
        else seen)
    else skip

-- wait behind its scan, by what the scan found.
unfoldable pub wait_after : ℕ → ℕ → Kernel × Waited → Result (Kernel × Waited)
wait_after c cur (k, reaped pid) = ok (k, reaped pid)
wait_after c cur (k, no_children) = ok (k, no_children)
wait_after c cur (k, must_sleep) = sleep c (proc_chan cur) k >>= λ k'. ok (k', must_sleep)

-- One round of wait(): a child is reaped, there is none to wait for, or the caller goes to sleep.
unfoldable pub wait : ℕ → Kernel → Result (Kernel × Waited)
unfolding myproc wait_after
wait c k = myproc c k >>= λ cur. wait_after c cur (wait_from nproc 0 cur false k)

-- The first slot with this pid, from index `i` on.
unfoldable pub find_pid : ℕ → ℕ → ℕ → Kernel → Ptr
find_pid zero i pid k = none
find_pid (suc n) i pid k =
    let rest = find_pid n (i + 1) pid k in if (k.proc i).pid == pid then some i else rest

unfoldable pub kill : ℕ → Kernel → Result (Kernel × ℕ)
kill pid k = elim (find_pid nproc 0 pid k) [
  | none ↦ ok (k, minus_one)
  | some p ↦
      let k1 = set_proc p (record (k.proc p) { killed = true }) k in
      if state_eq (k1.proc p).state sleeping
      then make_runnable p k1 >>= (λ k2. ok (k2, 0))
      else ok (k1, 0)
]

-- The arguments of the system call, as argint() fetched them.
pub record ProcInfo : Type 0 where
  pub q_level : ℕ
  pub cpu_burst : ℕ
  pub cpu_wait_time : ℕ
  pub io_wait_time : ℕ
  pub end_time : ℕ

-- `none` is a failed argint().
unfoldable pub sys_set_proc_info : ℕ → Option ProcInfo → Kernel → Result (Kernel × ℕ)
unfolding myproc
sys_set_proc_info c none k = ok (k, minus_one)
sys_set_proc_info c (some a) k = do
  p ← myproc c k
  let p' = record (k.proc p) {
    q_level = a.q_level;
    cpu_burst = a.cpu_burst;
    cpu_wait = a.cpu_wait_time;
    io_wait_time = a.io_wait_time;
    end_time = a.end_time;
  }
  ok (set_proc p p' k, 0)
