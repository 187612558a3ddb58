-- ===== src/Sched/System/Safety.antt =====
-- Every call on a table that the kernel can reach returns, and keeps the table valid.
use os_project_mlfqschedulin.Base.{
  update, subst, ℕ, ◌≡◌, refl, sym, ap, ◌∙◌, ◌⊎◌, inl, inr, Bool, true, false, some, arith,
}
use os_project_mlfqschedulin.Sched.{init_exiting, panic, Chan, Proc, Kernel, Result, ok, ◌>>=◌}
use os_project_mlfqschedulin.Sched.Process.{wakeup1, Waited, sleep_resume, myproc, fork_into}
use os_project_mlfqschedulin.Sched.Trap.{leave, recheck}
use os_project_mlfqschedulin.Sched.System.{
  Call, schedules, interrupts, yields, sleeps_on, resumes, wakes, forks, exits, waits, kills,
  informs, counts, ticks_on, leaves, rechecks, claims, stacks, allocates, fills, step, IsAllowed,
  EndsInit, Reach, start, later,
}
use os_project_mlfqschedulin.Sched.{no_chan, set_proc}
use os_project_mlfqschedulin.Sched.System.{state_of}
use os_project_mlfqschedulin.Sched.Inv.{Cpus, Valid, Succeeds}
use os_project_mlfqschedulin.Sched.Inv.Enqueue.{Inv-outside}
use os_project_mlfqschedulin.Sched.Inv.Wakeup.{wakeup1-Inv}
use os_project_mlfqschedulin.Sched.Inv.Switch.{
  Cpus-same, running_lem, myproc-some, sleep-Valid, yield-Valid,
}
use os_project_mlfqschedulin.Sched.Inv.Next.{Scheduled, idle_round, switched, scheduler-Scheduled}
use os_project_mlfqschedulin.Sched.Inv.Exit.{exit-Exits}
use os_project_mlfqschedulin.Sched.Inv.Create.{Forked, refused, created, fork-Forked}
use os_project_mlfqschedulin.Sched.Inv.Signals.{Killed, missing, marked, kill-Killed}
use os_project_mlfqschedulin.Sched.Inv.Wait.{Waits, reaps, gives_up, sleeps, wait-Waits}
use os_project_mlfqschedulin.Sched.Inv.Info.{set_proc_info-Valid}
use os_project_mlfqschedulin.Sched.Inv.Timers.{
  count_ticks-Valid, tick_current-Valid, Leaves, by-Exits, leave-Leaves, recheck-Leaves,
  trap_timer-Leaves,
}
use os_project_mlfqschedulin.Sched.Inv.Embryo.{
  IsEmbryo, claim-Valid, give_stack-Valid, allocproc-Valid, fork_into-Valid,
}
use os_project_mlfqschedulin.Sched.Inv.Boot.{userinit-Valid}

-- The process that a CPU runs loses its channel when it resumes.
sleep_resume-Valid :
    (k : Kernel) (c p : ℕ) → Valid k → k.current c ≡ some p → Succeeds (sleep_resume c k)
unfolding sleep_resume
sleep_resume-Valid k c p v e =
    let (b, r, idle) = running_lem k v c p e in
    let new : Proc = record (k.proc p) { chan = no_chan } in
    (
      set_proc p new k,
      rw (myproc-some k c p e),
      record {
        qs = v.qs;
        inv =
            Inv-outside k.proc k.links v.qs v.inv p new b (v.inv.level p b) (v.inv.stack p b) idle
              idle;
        cpus = Cpus-same k.proc (update k.proc p new) k.current v.cpus (λ x. ground arith);
      },
    )

wakeup1-Valid : (k : Kernel) (ch : Chan) → Valid k → Succeeds (wakeup1 ch k)
wakeup1-Valid k ch v =
    let (k', run, w) = wakeup1-Inv k v.qs ch v.inv in
    let cpus : Cpus k'.proc k'.current =
      rw (w.proc, w.rest.current) (Cpus-same k.proc _ k.current v.cpus (λ x. ground arith)) in
    (k', run, record { qs = w.qs; inv = w.inv; cpus = cpus })

by-Scheduled : (k : Kernel) (c : ℕ) (r : Result Kernel) → Valid k → Scheduled k c r → Succeeds r
by-Scheduled k c r v (idle_round run gone) = (k, run, v)
by-Scheduled k c r v (switched p k' run next f g v') = (k', run, v')

by-Forked :
    (k : Kernel) (cur stack dir : ℕ) (r : Result (Kernel × ℕ))
    → Forked k cur stack dir r
    → Succeeds (state_of r)
by-Forked k cur stack dir r (refused k' run why same v) = (k', ap state_of run, v)
by-Forked k cur stack dir r (created k' np run st d f child v) = (k', ap state_of run, v)

by-Killed :
    (k : Kernel) (pid : ℕ) (r : Result (Kernel × ℕ))
    → Valid k
    → Killed k pid r
    → Succeeds (state_of r)
by-Killed k pid r v (missing run gone) = (k, ap state_of run, v)
by-Killed k pid r v (marked p k' run f eq v') = (k', ap state_of run, v')

by-Waits :
    (k : Kernel) (c cur : ℕ) (r : Result (Kernel × Waited))
    → Valid k
    → Waits k c cur r
    → Succeeds (state_of r)
by-Waits k c cur r v (reaps p run d v') = (_, ap state_of run, v')
by-Waits k c cur r v (gives_up run why safe) = (k, ap state_of run, v)
by-Waits k c cur r v (sleeps k' run step has safe v') = (k', ap state_of run, v')

by-Leaves :
    (k : Kernel) (c : ℕ) (user : Bool)
    → Leaves c user k (step (interrupts c user) k)
    → Succeeds (step (interrupts c user) k)
      ⊎ (EndsInit (interrupts c user) k × (step (interrupts c user) k ≡ panic init_exiting))
by-Leaves k c user (inl s) = inl s
by-Leaves k c true (inr (u, i, run)) = inr (i, run)
by-Leaves k c false (inr (u, i, run)) = absurd (ground arith)

by-leave :
    (k : Kernel) (c : ℕ) (user : Bool)
    → Leaves c user k (leave c user k)
    → Succeeds (step (leaves c user) k)
      ⊎ (EndsInit (leaves c user) k × (step (leaves c user) k ≡ panic init_exiting))
unfolding step
by-leave k c user (inl s) = inl s
by-leave k c true (inr (u, i, run)) = inr (i, run)
by-leave k c false (inr (u, i, run)) = absurd (ground arith)

by-recheck :
    (k : Kernel) (c : ℕ) (user : Bool)
    → Leaves c user k (recheck c user k)
    → Succeeds (step (rechecks c user) k)
      ⊎ (EndsInit (rechecks c user) k × (step (rechecks c user) k ≡ panic init_exiting))
unfolding step
by-recheck k c user (inl s) = inl s
by-recheck k c true (inr (u, i, run)) = inr (i, run)
by-recheck k c false (inr (u, i, run)) = absurd (ground arith)

fills-Valid :
    (k : Kernel) (c p np dir : ℕ)
    → Valid k
    → k.current c ≡ some p
    → IsEmbryo k np
    → Succeeds (myproc c k >>= λ cur. state_of (fork_into np cur dir k))
fills-Valid k c p np dir v e h =
    let (k', n, run, v') = fork_into-Valid k v np h p dir in (k', rw (myproc-some k c p e, run), v')

-- On a valid table every call that is allowed returns, with no panic, no access outside an array or
-- through a null pointer and enough fuel, and the table that it leaves is valid. The one exception is
-- the panic when the init process exits, by its own call or because it is marked as killed when a
-- timer interrupt finds it in user space. The calls are also the parts of fork and of the timer
-- interrupt between which the lock is free.
pub step-Safe :
    (call : Call) (k : Kernel)
    → Valid k
    → IsAllowed call k
    → Succeeds (step call k) ⊎ (EndsInit call k × (step call k ≡ panic init_exiting))
unfolding step
step-Safe (schedules c) k v a = inl (by-Scheduled k c _ v (scheduler-Scheduled k c v))
step-Safe (interrupts c user) k v a = by-Leaves k c user (trap_timer-Leaves k c user v)
step-Safe (yields c) k v (p, e) = inl (yield-Valid k c p v e)
step-Safe (sleeps_on c ch) k v (p, e) = inl (sleep-Valid k c p ch v e)
step-Safe (resumes c) k v (p, e) = inl (sleep_resume-Valid k c p v e)
step-Safe (wakes ch) k v a = inl (wakeup1-Valid k ch v)
step-Safe (forks c stack dir) k v (p, e) =
    inl (by-Forked k p stack dir _ (fork-Forked k c p stack dir v e))
step-Safe (exits c) k v (p, e) = by-Exits k c p _ e (exit-Exits k c p v e)
step-Safe (waits c) k v (p, e) = inl (by-Waits k c p _ v (wait-Waits k c p v e))
step-Safe (kills pid) k v a = inl (by-Killed k pid _ v (kill-Killed k pid v))
step-Safe (informs c a) k v ((p, e), lt) =
    let (run, v') = set_proc_info-Valid k c p a v e lt in inl (_, ap state_of run, v')
step-Safe (counts c) k v a =
    let (k', run, same, sameinit, v') = count_ticks-Valid k c v in inl (k', run, v')
step-Safe (ticks_on c) k v a =
    let (k', run, same, sameinit, v') = tick_current-Valid k c v in inl (k', run, v')
step-Safe (leaves c user) k v a = by-leave k c user (leave-Leaves k c user v)
step-Safe (rechecks c user) k v a = by-recheck k c user (recheck-Leaves k c user v)
step-Safe claims k v a = inl (_, refl, claim-Valid k v)
step-Safe (stacks np stack) k v (b, e) = inl (_, refl, give_stack-Valid k stack np v b e)
step-Safe (allocates stack) k v a = inl (_, refl, allocproc-Valid k stack v)
step-Safe (fills c np dir) k v ((p, e), h) = inl (fills-Valid k c p np dir v e h)

ok-injective : {A : Type 0} {a b : A} → ◌≡◌ {A = Result A} (ok a) (ok b) → a ≡ b
ok-injective e = cc

Valid-of_ok : (r : Result Kernel) (k : Kernel) → Succeeds r → r ≡ ok k → Valid k
Valid-of_ok r k (k', run, v) e = subst Valid (ok-injective (sym run ∙ e)) v

-- Every table that the kernel can reach from boot by calls that are allowed, where set_proc_info is only
-- given levels from 0 to 3 and a slot that allocproc took stays an EMBRYO until fork goes on with it, is
-- valid, also between the parts of fork and of the timer interrupt that hold the lock: the four queues
-- hold exactly the RUNNABLE processes, each once, at its level and in order of priority, and no process
-- runs on two CPUs or is queued while it runs.
pub Reach-Valid : {k : Kernel} → Reach k → Valid k
Reach-Valid (start stack dir k st d run) = Valid-of_ok _ k (userinit-Valid stack dir st d) run
Reach-Valid (later {k} call k' r a run) = elim (step-Safe call k (Reach-Valid r) a) [
  | inl s ↦ Valid-of_ok _ k' s run
  | inr (i, bad) ↦
      let clash : ◌≡◌ {A = Result Kernel} (ok k') (panic init_exiting) = sym run ∙ bad in absurd cc
]
