-- ===== src/Sched/System.antt =====
-- The kernel as a system of calls: what the CPUs and the interrupts do to the process table, one call
-- at a time. fork and the timer interrupt release `ptable.lock` on their way, so the parts that hold it,
-- or `tickslock`, are calls too, and those of other CPUs can come between them.
pub mod Safety
use os_project_mlfqschedulin.Base.{ℕ, ◌<◌, ◌≡◌, Bool, true, false, none, some, ◌==◌}
use os_project_mlfqschedulin.Sched.{
  nproc, levels, embryo, Chan, Kernel, Result, ok, ◌>>=◌, state_eq,
}
use os_project_mlfqschedulin.Sched.Process.{
  Waited, ProcInfo, scheduler, sleep, sleep_resume, wakeup1, fork, exit, wait, kill, yield,
  sys_set_proc_info, userinit, myproc, give_stack, allocproc, fork_into,
}
use os_project_mlfqschedulin.Sched.Trap.{count_ticks, tick_current, leave, recheck, trap_timer}
use os_project_mlfqschedulin.Sched.Inv.{RunsInit}
use os_project_mlfqschedulin.Sched.Inv.Boot.{boot}
use os_project_mlfqschedulin.Sched.Inv.Embryo.{claim, IsEmbryo}

pub data Call : Type 0 where
  schedules : (c : ℕ) → Call
  interrupts : (c : ℕ) → Bool → Call
  yields : (c : ℕ) → Call
  sleeps_on : (c : ℕ) → Chan → Call
  resumes : (c : ℕ) → Call
  wakes : Chan → Call
  forks : (c stack dir : ℕ) → Call
  exits : (c : ℕ) → Call
  waits : (c : ℕ) → Call
  kills : (pid : ℕ) → Call
  informs : (c : ℕ) → ProcInfo → Call
  -- The parts of the timer interrupt.
  counts : (c : ℕ) → Call
  ticks_on : (c : ℕ) → Call
  leaves : (c : ℕ) → Bool → Call
  rechecks : (c : ℕ) → Bool → Call
  -- allocproc and the parts of fork: the slot is taken, it gets its stack `stack`, or both at once, and
  -- what fork does behind allocproc. `np` is the slot.
  claims : Call
  stacks : (np stack : ℕ) → Call
  allocates : (stack : ℕ) → Call
  fills : (c np dir : ℕ) → Call

-- The kernel that a call leaves, without its return value.
abbrev state_of : {A : Type 0} → Result (Kernel × A) → Result Kernel
state_of r = r >>= λ x. ok x.0

unfoldable pub step : Call → Kernel → Result Kernel
step (schedules c) k = scheduler c k
step (interrupts c user) k = trap_timer c user k
step (yields c) k = yield c k
step (sleeps_on c ch) k = sleep c ch k
step (resumes c) k = sleep_resume c k
step (wakes ch) k = wakeup1 ch k
step (forks c stack dir) k = state_of (fork c stack dir k)
step (exits c) k = exit c k
step (waits c) k = state_of (wait c k)
step (kills pid) k = state_of (kill pid k)
step (informs c a) k = state_of (sys_set_proc_info c (some a) k)
step (counts c) k = count_ticks c k
step (ticks_on c) k = tick_current c k
step (leaves c user) k = leave c user k
step (rechecks c user) k = recheck c user k
step claims k = ok (claim k)
step (stacks np stack) k = ok (give_stack stack np k).0
step (allocates stack) k = ok (allocproc stack k).0
step (fills c np dir) k = myproc c k >>= λ cur. state_of (fork_into np cur dir k)

-- A process runs on the CPU.
abbrev pub IsBusy : ℕ → Kernel → Type 0
IsBusy c k = (p : ℕ) × (k.current c ≡ some p)

-- When a call can be made: the scheduler runs on a free CPU and a system call on a busy one,
-- set_proc_info is given a level from 0 to 3, and a slot that was taken is an EMBRYO while it gets its
-- stack and, with a stack, until fork goes on with it.
abbrev pub IsAllowed : Call → Kernel → Type 0
IsAllowed (schedules c) k = k.current c ≡ none
IsAllowed (interrupts c user) k = Unit
IsAllowed (wakes ch) k = Unit
IsAllowed (kills pid) k = Unit
IsAllowed (yields c) k = IsBusy c k
IsAllowed (sleeps_on c ch) k = IsBusy c k
IsAllowed (resumes c) k = IsBusy c k
IsAllowed (forks c stack dir) k = IsBusy c k
IsAllowed (exits c) k = IsBusy c k
IsAllowed (waits c) k = IsBusy c k
IsAllowed (informs c a) k = IsBusy c k × (a.q_level < levels)
IsAllowed (counts c) k = Unit
IsAllowed (ticks_on c) k = Unit
IsAllowed (leaves c user) k = Unit
IsAllowed (rechecks c user) k = Unit
IsAllowed claims k = Unit
IsAllowed (stacks np stack) k = (np < nproc) × (state_eq (k.proc np).state embryo ≡ true)
IsAllowed (allocates stack) k = Unit
IsAllowed (fills c np dir) k = IsBusy c k × IsEmbryo k np

-- Calls in which the init process can exit.
abbrev pub EndsInit : Call → Kernel → Type 0
EndsInit (exits c) k = RunsInit c k
EndsInit (interrupts c true) k = RunsInit c k
EndsInit (leaves c true) k = RunsInit c k
EndsInit (rechecks c true) k = RunsInit c k
EndsInit _ k = ⊥

-- The tables that the kernel can reach from boot by calls that are allowed, where userinit was given
-- memory.
pub data Reach : Kernel → Type 0 where
  start :
      (stack dir : ℕ) (k : Kernel)
      → (stack == 0) ≡ false
      → (dir == 0) ≡ false
      → userinit stack dir boot ≡ ok k
      → Reach k
  later :
      {k : Kernel} (call : Call) (k' : Kernel)
      → Reach k
      → IsAllowed call k
      → step call k ≡ ok k'
      → Reach k'
