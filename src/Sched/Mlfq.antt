-- ===== src/Sched/Mlfq.antt =====
-- The priority functions of srcs/proc.c: the timers, the time quantum with demotion, and aging with
-- promotion.
use os_project_mlfqschedulin.Base.{
  ℕ, zero, suc, ◌+◌, ◌||◌, none, some, ◌==◌, if◌then◌else◌, sle, inc, dec,
}
use os_project_mlfqschedulin.Sched.{
  nproc, Ptr, ProcState, sleeping, runnable, running, Proc, Kernel, Result, ok, fault, out_of_fuel,
  ◌>>=◌, is_pinned, set_proc,
}
use os_project_mlfqschedulin.Sched.Queue.{add_to_queue, remove_from_queue}

-- The ticks of waiting after which a process is promoted.
abbrev pub aging_limit : ℕ
aging_limit = 250

-- The counter that one tick raises, by the state of the process.
unfoldable pub count_tick : ProcState → Proc → Proc
count_tick running p = record p {
  cpu_burst = inc p.cpu_burst;
  total_cpu_time = inc p.total_cpu_time;
}
count_tick runnable p = record p { cpu_wait = inc p.cpu_wait }
count_tick sleeping p = record p { io_wait_time = inc p.io_wait_time }
count_tick _ p = p

unfoldable pub tick_proc : Proc → Proc
unfolding count_tick
tick_proc p = if p.pid == 0 then p else count_tick p.state p

-- The loop over `ptable.proc` from index `i` on.
unfoldable pub tick_from : ℕ → ℕ → Kernel → Kernel
unfolding tick_proc
tick_from zero i k = k
tick_from (suc n) i k = tick_from n (i + 1) (set_proc i (tick_proc (k.proc i)) k)

unfoldable pub update_all_proc_timers : Kernel → Kernel
update_all_proc_timers k = tick_from nproc 0 k

-- `time_quantum[level]`.
unfoldable pub time_quantum : ℕ → Result ℕ
time_quantum zero = ok 10
time_quantum (suc zero) = ok 20
time_quantum (suc (suc zero)) = ok 40
time_quantum (suc (suc (suc zero))) = ok 80
time_quantum (suc (suc (suc (suc _)))) = fault

unfoldable pub demote_process : ℕ → Kernel → Kernel
demote_process i k =
    let p = k.proc i in
    if is_pinned p.type
    then k
    else if p.q_level == 3
    then set_proc i (record p { cpu_burst = 0 }) k
    else set_proc i
        (record p { q_level = inc p.q_level; cpu_burst = 0; cpu_wait = 0; io_wait_time = 0 }) k

unfoldable pub check_time_quantum : ℕ → Kernel → Result Kernel
check_time_quantum i k = time_quantum (k.proc i).q_level >>= λ q.
    ok (if sle q (k.proc i).cpu_burst then demote_process i k else k)

-- The fields that promote_process changes before it queues the process again.
abbrev pub raised : Proc → Proc
raised p = record p { q_level = dec p.q_level; cpu_wait = 0; cpu_burst = 0 }

unfoldable pub promote_process : ℕ → Kernel → Result Kernel
promote_process i k = if is_pinned (k.proc i).type || ((k.proc i).q_level == 0) then ok k else (do
  k1 ← remove_from_queue i k
  let k2 = set_proc i (raised (k1.proc i)) k1
  add_to_queue i (k2.proc i).q_level k2)

-- One round of the loop in check_aging.
unfoldable pub age : ℕ → Kernel → Result Kernel
age i k = if sle aging_limit (k.proc i).cpu_wait then promote_process i k else ok k

-- The loop over one queue from `tmp` on; the next process is read before the promotion.
unfoldable pub age_queue : ℕ → Ptr → Kernel → Result Kernel
unfolding age
age_queue zero tmp k = out_of_fuel
age_queue (suc n) none k = ok k
age_queue (suc n) (some i) k = age i k >>= age_queue n (k.links.next i)

unfoldable pub age_level : ℕ → Kernel → Result Kernel
age_level lv k = age_queue (nproc + 1) (k.links.queues lv).head k

-- The queues 1 to 3 in turn.
unfoldable pub check_aging : Kernel → Result Kernel
check_aging k = age_level 1 k >>= λ k1. age_level 2 k1 >>= age_level 3
