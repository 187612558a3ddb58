-- ===== src/Sched/Trap.antt =====
-- The timer interrupt of srcs/trap.c.
use os_project_mlfqschedulin.Base.{
  ℕ, Bool, true, ◌&&◌, none, some, ◌==◌, if◌then◌else◌, slt, sle, inc,
}
use os_project_mlfqschedulin.Sched.{
  running, ticks_chan, Proc, Kernel, Result, ok, ◌>>=◌, state_eq, set_proc,
}
use os_project_mlfqschedulin.Sched.Mlfq.{update_all_proc_timers, check_time_quantum, check_aging}
use os_project_mlfqschedulin.Sched.Process.{wakeup1, exit, yield}

-- `ticks++; wakeup(&ticks);`, on CPU 0 only.
unfoldable pub count_ticks : ℕ → Kernel → Result Kernel
count_ticks c k = if c == 0 then wakeup1 ticks_chan (record k { ticks = inc k.ticks }) else ok k

-- The allotment test: the process has one, and has used it.
unfoldable pub is_spent : Proc → Bool
is_spent p = slt 0 p.end_time && sle p.end_time p.total_cpu_time

-- A process that has used its allotment is marked; otherwise its quantum is checked, unless it is
-- already marked.
unfoldable pub check_running : ℕ → Kernel → Result Kernel
check_running p k =
    if is_spent (k.proc p)
    then ok (set_proc p (record (k.proc p) { killed = true }) k)
    else (if (k.proc p).killed then ok k else check_time_quantum p k)

-- The part under `ptable.lock`, for the process `p` that the CPU runs.
unfoldable pub tick_running : ℕ → Kernel → Result Kernel
tick_running p k = check_running p (update_all_proc_timers k) >>= check_aging

-- The part of the interrupt behind `ticks`, which takes the lock if the CPU runs a process.
unfoldable pub tick_current : ℕ → Kernel → Result Kernel
tick_current c k = elim (k.current c) [
  | none ↦ ok k
  | some p ↦ if state_eq (k.proc p).state running then tick_running p k else ok k
]

unfoldable pub timer : ℕ → Kernel → Result Kernel
timer c k = count_ticks c k >>= tick_current c

-- The way out of the interrupt: a marked process that was in user space exits, and otherwise one
-- that runs gives up the CPU.
unfoldable pub leave : ℕ → Bool → Kernel → Result Kernel
leave c user k = elim (k.current c) [
  | none ↦ ok k
  | some p ↦
      if (k.proc p).killed && user
      then exit c k
      else if state_eq (k.proc p).state running
      then yield c k
      else ok k
]

-- The last test, which the process makes when it runs again behind its yield.
unfoldable pub recheck : ℕ → Bool → Kernel → Result Kernel
recheck c user k = elim (k.current c) [
  | none ↦ ok k
  | some p ↦ if (k.proc p).killed && user then exit c k else ok k
]

-- The interrupt on CPU `c`, up to where the CPU has given up its process.
unfoldable pub trap_timer : ℕ → Bool → Kernel → Result Kernel
trap_timer c user k = timer c k >>= leave c user
