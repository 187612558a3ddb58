-- ===== src/Sched/Tests.antt =====
-- Runs of the scheduler from boot, and its theorems at the tables that they reach.
use os_project_mlfqschedulin.Base.{
  ◌&&◌, ◌^◌, ◌⊎◌, ◌<◌, Distinct, ℕ, ◌≡◌, refl, sym, subst, inl, inr, ◌≤◌, true, false, none, some,
  [], ◌∷◌, arith,
}
use os_project_mlfqschedulin.Sched.{
  init_exiting, nproc, levels, Kernel, Result, ok, panic, fault, ticks_chan,
}
use os_project_mlfqschedulin.Sched.Queue.{add_to_queue, remove_from_queue, get_next_proc}
use os_project_mlfqschedulin.Sched.Mlfq.{
  update_all_proc_timers, tick_from, time_quantum, check_time_quantum, age_queue, age_level,
  check_aging,
}
use os_project_mlfqschedulin.Sched.Process.{
  sys_set_proc_info, find_unused, allocproc, fork_into, fork, make_runnable, wake_from, wakeup1,
  exit, exit_locked, sleep, yield, dispatch, scheduler, kill, userinit, ProcInfo,
}
use os_project_mlfqschedulin.Sched.Trap.{
  count_ticks, is_spent, check_running, tick_running, tick_current, timer, leave, trap_timer,
}
use os_project_mlfqschedulin.Sched.System.{
  EndsInit, Reach, start, later, step, schedules, claims, interrupts, forks, informs, sleeps_on,
  yields, Call, IsAllowed,
}
use os_project_mlfqschedulin.Sched.System.Safety.{Reach-Valid, step-Safe}
use os_project_mlfqschedulin.Sched.Inv.{is_runnable, Valid, Succeeds}
use os_project_mlfqschedulin.Sched.Inv.Boot.{boot, boot-Valid, userinit-Valid}
use os_project_mlfqschedulin.Base.{ltb}
use os_project_mlfqschedulin.Sched.Queue.Seg.{Holds}
use os_project_mlfqschedulin.Sched.Inv.Next.{Scheduled, scheduler-Scheduled}
use os_project_mlfqschedulin.Sched.Inv.Aging.{Aged, is_aged_up, check_aging-Aged}
use os_project_mlfqschedulin.Sched.Inv.Timers.{tick_result, tick_running-result}
use os_project_mlfqschedulin.Sched.Inv.Exit.{Exits, exit-Exits}
use os_project_mlfqschedulin.Sched.Inv.Create.{Forked, fork-Forked}
use os_project_mlfqschedulin.Sched.Inv.Signals.{Killed, kill-Killed}
use os_project_mlfqschedulin.Sched.Inv.Wakeup.{SameRest}
use os_project_mlfqschedulin.Sched.Inv.Info.{informed, set_proc_info-panic}
use os_project_mlfqschedulin.Sched.Policy.{HasTurn, yield-keeps_turn}
use os_project_mlfqschedulin.Sched.{invalid_queue_level}
use os_project_mlfqschedulin.Sched.Inv.Embryo.{claim}

abbrev result : Result Kernel → Kernel
result (ok k) = k
result _ = boot

result-Valid : (r : Result Kernel) → Succeeds r → Valid (result r)
result-Valid r (k, run, v) = subst (λ q. Valid (result q)) (sym run) v

step-Valid : (call : Call) (k : Kernel) → Valid k → IsAllowed call k → Valid (result (step call k))
step-Valid call k v a = elim (step-Safe call k v a) [
  | inl s ↦ result-Valid _ s
  | inr (i, run) ↦ subst (λ q. Valid (result q)) (sym run) boot-Valid
]

-- init waits in queue 3.
started : Kernel
unfolding boot userinit allocproc find_unused add_to_queue
started = result (userinit 4096 8192 boot)

started-Valid : Valid started
unfolding started
started-Valid = result-Valid _ (userinit-Valid 4096 8192 refl refl)

-- init runs on CPU 0.
busy : Kernel
unfolding started scheduler get_next_proc dispatch remove_from_queue
busy = result (step (schedules 0) started)

started_free : started.current 0 ≡ none
unfolding started
started_free = refl

busy-Valid : Valid busy
unfolding busy
busy-Valid = step-Valid (schedules 0) started started-Valid started_free

busy_runs : busy.current 0 ≡ some 0
unfolding busy step
busy_runs = refl

-- init has made a shell, in slot 1.
two : Kernel
unfolding busy fork fork_into allocproc find_unused add_to_queue
two = result (step (forks 0 4096 8192) busy)

two-Valid : Valid two
unfolding two
two-Valid = step-Valid (forks 0 4096 8192) busy busy-Valid (0, busy_runs)

two_runs : two.current 0 ≡ some 0
unfolding two step
two_runs = refl

shell_waits : get_next_proc two ≡ some 1
unfolding two step
shell_waits = refl

-- The tick finds both at level 3, and init, which entered later, before the shell.
ticked : Kernel
unfolding two trap_timer timer count_ticks wakeup1 wake_from tick_current tick_running
    update_all_proc_timers check_running is_spent check_time_quantum check_aging age_level age_queue
    leave yield make_runnable
ticked = result (step (interrupts 0 false) two)

ticked-Valid : Valid ticked
unfolding ticked
ticked-Valid = step-Valid (interrupts 0 false) two two-Valid tt

init_first : get_next_proc ticked ≡ some 0
unfolding ticked step tick_from time_quantum
init_first = refl

-- The shell runs on CPU 1.
shelled : Kernel
unfolding two scheduler dispatch remove_from_queue
shelled = result (step (schedules 1) two)

two_free : two.current 1 ≡ none
unfolding two step
two_free = refl

shelled-Valid : Valid shelled
unfolding shelled
shelled-Valid = step-Valid (schedules 1) two two-Valid two_free

shelled_runs : shelled.current 1 ≡ some 1
unfolding shelled step
shelled_runs = refl

-- The shell has made a process, in slot 2.
three : Kernel
unfolding shelled fork fork_into allocproc find_unused add_to_queue
three = result (step (forks 1 4096 8192) shelled)

three-Valid : Valid three
unfolding three
three-Valid = step-Valid (forks 1 4096 8192) shelled shelled-Valid (1, shelled_runs)

three_free : three.current 2 ≡ none
unfolding three step
three_free = refl

-- It runs on CPU 2.
worked : Kernel
unfolding three scheduler dispatch remove_from_queue
worked = result (step (schedules 2) three)

worked-Valid : Valid worked
unfolding worked
worked-Valid = step-Valid (schedules 2) three three-Valid three_free

worked_runs : worked.current 2 ≡ some 2
unfolding worked step
worked_runs = refl

-- init sleeps on the ticks.
asleep : Kernel
unfolding two sleep
asleep = result (step (sleeps_on 0 ticks_chan) two)

asleep-Valid : Valid asleep
unfolding asleep
asleep-Valid = step-Valid (sleeps_on 0 ticks_chan) two two-Valid (0, two_runs)

-- The process in slot 2 has told the kernel that it is at level 2 and has waited for 300 ticks, and
-- gives up its CPU.
told : ProcInfo
told = record { q_level = 2; cpu_burst = 0; cpu_wait_time = 300; io_wait_time = 0; end_time = 500 }

told_level : told.q_level ≡ 2
unfolding told
told_level = refl

informed_three : Kernel
unfolding worked
informed_three = result (step (informs 2 told) worked)

informed_three-Valid : Valid informed_three
unfolding informed_three
informed_three-Valid =
    step-Valid (informs 2 told) worked worked-Valid ((2, worked_runs), ground (arith, told_level))

informed_runs : informed_three.current 2 ≡ some 2
unfolding informed_three step told sys_set_proc_info
informed_runs = refl

hungry : Kernel
unfolding informed_three yield make_runnable
hungry = result (step (yields 2) informed_three)

hungry-Valid : Valid hungry
unfolding hungry
hungry-Valid = step-Valid (yields 2) informed_three informed_three-Valid (2, informed_runs)

-- A wrong level for set_proc_info.
wrong : ProcInfo
wrong = record { q_level = 7; cpu_burst = 0; cpu_wait_time = 0; io_wait_time = 0; end_time = 0 }

wrong_lo : levels ≤ wrong.q_level
unfolding wrong
wrong_lo = omega arith

wrong_hi : wrong.q_level < 2 ^ 32
unfolding wrong
wrong_hi = omega arith

worked_level : (worked.proc 2).q_level < levels
unfolding worked step
worked_level = omega arith

two-Holds : Holds two.links 3 (1 ∷ [])
unfolding two step
two-Holds = (refl, refl, (refl, refl))

ticked-Holds : Holds ticked.links 3 (0 ∷ 1 ∷ [])
unfolding ticked step tick_from time_quantum
ticked-Holds = (refl, refl, (refl, refl, (refl, refl)))

ticked_ready :
    (is_runnable (ticked.proc 0) ≡ true)
    × (is_runnable (ticked.proc 1) ≡ true)
    × ((ticked.proc 0).q_level ≡ (ticked.proc 1).q_level)
    × ((ticked.proc 0).io_wait_time ≡ (ticked.proc 1).io_wait_time)
    × ((ticked.proc 1).queue_entry_time < (ticked.proc 0).queue_entry_time)
unfolding ticked step tick_from time_quantum
ticked_ready = (refl, refl, refl, refl, omega arith)

one_Distinct : Distinct (1 ∷ [])
one_Distinct = (refl, tt)

both_Distinct : Distinct (0 ∷ 1 ∷ [])
both_Distinct = (refl, (refl, tt))

shell_ready : is_runnable (two.proc 1) ≡ true
unfolding two step
shell_ready = refl

busy_first : HasTurn busy 0
unfolding busy step
busy_first x b h = absurd (ground arith)

step-Safe_example :
    Succeeds (step (interrupts 2 true) worked)
    ⊎ (EndsInit (interrupts 2 true) worked × (step (interrupts 2 true) worked ≡ panic init_exiting))
step-Safe_example = step-Safe (interrupts 2 true) worked worked-Valid tt

started_Reach : Reach started
unfolding started
started_Reach = start 4096 8192 started refl refl refl

busy_Reach : Reach busy
unfolding busy step
busy_Reach = later (schedules 0) busy started_Reach started_free refl

-- A slot is taken behind that.
Reach-Valid_example : Valid (claim busy)
unfolding step
Reach-Valid_example = Reach-Valid (later claims (claim busy) busy_Reach tt refl)

scheduler-Scheduled_example : Scheduled three 2 (scheduler 2 three)
scheduler-Scheduled_example = scheduler-Scheduled three 2 three-Valid

check_aging-Aged_example :
    (k' : Kernel) × (check_aging hungry ≡ ok k')
    × Aged hungry k' (λ x. ltb x nproc && is_aged_up (hungry.proc x))
check_aging-Aged_example = check_aging-Aged hungry hungry-Valid.qs hungry-Valid.inv

tick_running-result_example :
    (k' : Kernel) × (tick_running 2 worked ≡ ok k')
    × ((x : ℕ) → k'.proc x ≡ tick_result worked.ticks 2 worked.proc x)
    × SameRest worked k'
    × Valid k'
tick_running-result_example = tick_running-result worked 2 2 worked-Valid worked_runs

exit-Exits_example : Exits worked 2 2 (exit 2 worked)
exit-Exits_example = exit-Exits worked 2 2 worked-Valid worked_runs

fork-Forked_example : Forked shelled 1 4096 8192 (fork 1 4096 8192 shelled)
fork-Forked_example = fork-Forked shelled 1 1 4096 8192 shelled-Valid shelled_runs

kill-Killed_example : Killed asleep 1 (kill 1 asleep)
kill-Killed_example = kill-Killed asleep 1 asleep-Valid

set_proc_info-panic_example :
    (sys_set_proc_info 2 (some wrong) worked ≡ ok (informed wrong 2 worked, 0))
    × (yield 2 (informed wrong 2 worked) ≡ panic invalid_queue_level)
    × (exit_locked 2 (informed wrong 2 worked) ≡ fault)
set_proc_info-panic_example =
    set_proc_info-panic worked 2 2 wrong worked-Valid worked_runs wrong_lo wrong_hi

yield-keeps_turn_example : (k' : Kernel) × (yield 0 busy ≡ ok k') × (get_next_proc k' ≡ some 0)
yield-keeps_turn_example = yield-keeps_turn busy 0 0 busy-Valid busy_runs busy_first
