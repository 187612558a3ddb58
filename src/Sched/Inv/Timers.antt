-- ===== src/Sched/Inv/Timers.antt =====
-- The timer interrupt: counters, quantum, allotment, aging, and the switch that follows.
use os_project_mlfqschedulin.Base.{
  ℕ, zero, suc, ◌+◌, ◌%◌, ◌^◌, ◌<◌, ◌≡◌, refl, sym, ap, subst, fun_ext, ◌∙◌, ◌⊎◌, inl, inr, Bool,
  true, false, ◌&&◌, ◌||◌, not, none, some, arith, ltb, leb, ◌==◌, if◌then◌else◌, Bool-cases,
  Option-cases, update, inc, sle,
}
use os_project_mlfqschedulin.Sched.{
  init_exiting, panic, unused, embryo, sleeping, runnable, running, zombie, nproc, levels,
  ticks_chan, ProcState, Proc, Kernel, Result, ok, is_pinned, state_eq, set_proc,
}
use os_project_mlfqschedulin.Sched.Mlfq.{
  count_tick, tick_proc, tick_from, update_all_proc_timers, time_quantum, demote_process,
  check_time_quantum, check_aging,
}
use os_project_mlfqschedulin.Sched.Process.{exit, yield}
use os_project_mlfqschedulin.Sched.Trap.{
  count_ticks, is_spent, check_running, tick_running, tick_current, timer, leave, recheck,
  trap_timer,
}
use os_project_mlfqschedulin.Sched.Inv.{RunsInit, is_runnable, is_running, Valid, Succeeds}
use os_project_mlfqschedulin.Sched.Inv.Enqueue.{Kept, Inv-Kept, Inv-outside}
use os_project_mlfqschedulin.Sched.Inv.Wakeup.{SameRest, wakeup1-Inv}
use os_project_mlfqschedulin.Sched.Inv.Switch.{Cpus-same, running_lem, yield-Valid}
use os_project_mlfqschedulin.Sched.Inv.Exit.{Exits, init_ends, other_ends, exit-Exits}
use os_project_mlfqschedulin.Sched.Inv.Promote.{promoted}
use os_project_mlfqschedulin.Sched.Inv.Aging.{is_aged_up, check_aging-Aged}

-- The loop raises one counter of each process, once.
tick_from-proc :
    (n i : ℕ) (k : Kernel)
    → tick_from n i k
      ≡ record k { proc = λ x. if leb i x && ltb x (i + n) then tick_proc (k.proc x) else k.proc x }
unfolding tick_from
tick_from-proc zero i k = ap (λ (f : ℕ → Proc). record k { proc = f }) (fun_ext λ x. ground arith)
tick_from-proc (suc n) i k =
    tick_from-proc n (i + 1) (set_proc i (tick_proc (k.proc i)) k)
    ∙ ap (λ (f : ℕ → Proc). record k { proc = f })
        (fun_ext λ x. elim (Bool-cases (i == x)) [
          | inl e ↦ let same : i ≡ x = ground arith in rw (e, same) (ground arith)
          | inr e ↦ rw e (ground arith)
        ])

-- A slot with a pid counts a tick: its burst and total CPU time if it is RUNNING, its wait for the CPU if
-- it is RUNNABLE, and its I/O wait if it is SLEEPING.
abbrev pub counted : Proc → Proc
counted p = if p.pid == 0 then p else record p {
  cpu_burst = if is_running p then inc p.cpu_burst else p.cpu_burst;
  total_cpu_time = if is_running p then inc p.total_cpu_time else p.total_cpu_time;
  cpu_wait = if is_runnable p then inc p.cpu_wait else p.cpu_wait;
  io_wait_time = if state_eq p.state sleeping then inc p.io_wait_time else p.io_wait_time;
}

tick_proc-counted : (p : Proc) → tick_proc p ≡ counted p
unfolding tick_proc count_tick
tick_proc-counted p = elim (Bool-cases (p.pid == 0)) [
  | inl e ↦ rw e refl
  | inr e ↦ rw e (by_state p p.state refl)
]
  where
    by_state :
        (p : Proc) (s : ProcState)
        → p.state ≡ s
        → count_tick s p ≡ record p {
          cpu_burst = if is_running p then inc p.cpu_burst else p.cpu_burst;
          total_cpu_time = if is_running p then inc p.total_cpu_time else p.total_cpu_time;
          cpu_wait = if is_runnable p then inc p.cpu_wait else p.cpu_wait;
          io_wait_time = if state_eq p.state sleeping then inc p.io_wait_time else p.io_wait_time;
        }
    by_state p unused e = rw e refl
    by_state p embryo e = rw e refl
    by_state p sleeping e = rw e refl
    by_state p runnable e = rw e refl
    by_state p running e = rw e refl
    by_state p zombie e = rw e refl

-- The processes after update_all_proc_timers.
abbrev pub ticked : (ℕ → Proc) → ℕ → Proc
ticked f x = if ltb x nproc then counted (f x) else f x

pub timers-ticked : (k : Kernel) → update_all_proc_timers k ≡ record k { proc = ticked k.proc }
unfolding update_all_proc_timers
timers-ticked k =
    tick_from-proc nproc 0 k
    ∙ ap (λ (f : ℕ → Proc). record k { proc = f })
        (fun_ext λ x. rw (tick_proc-counted (k.proc x)) (ground arith))

counted-Kept : (p : Proc) → Kept p (counted p)
counted-Kept p = record {
  run = ground arith;
  same_level = λ h. ground arith;
  key = λ h. record { io = ground arith; entry = ground arith };
  level = λ h. ground arith;
  stack = λ h e. ground arith;
}

counted-running : (p : Proc) → is_running (counted p) ≡ is_running p
counted-running p = ground arith

ticked-Valid : (k : Kernel) → Valid k → Valid (record k { proc = ticked k.proc })
ticked-Valid k v = record {
  qs = v.qs;
  inv = Inv-Kept k.proc k.links v.qs v.inv (ticked k.proc) λ x b.
      let in_table : ltb x nproc ≡ true = ground arith in rw in_table (counted-Kept (k.proc x));
  cpus =
      Cpus-same k.proc (ticked k.proc) k.current v.cpus
        (λ x. ground (arith, counted-running (k.proc x)));
}

-- The quantum of a level.
abbrev pub quantum : ℕ → ℕ
quantum zero = 10
quantum (suc zero) = 20
quantum (suc (suc zero)) = 40
quantum _ = 80

-- A running process after the check of its quantum.
abbrev pub checked : Proc → Proc
checked p =
    if not (sle (quantum p.q_level) p.cpu_burst) || is_pinned p.type
    then p
    else if p.q_level == 3
    then record p { cpu_burst = 0 }
    else record p { q_level = p.q_level + 1; cpu_burst = 0; cpu_wait = 0; io_wait_time = 0 }

time_quantum-ok : (lv : ℕ) → lv < levels → time_quantum lv ≡ ok (quantum lv)
unfolding time_quantum
time_quantum-ok zero lt = refl
time_quantum-ok (suc zero) lt = refl
time_quantum-ok (suc (suc zero)) lt = refl
time_quantum-ok (suc (suc (suc zero))) lt = refl
time_quantum-ok (suc (suc (suc (suc lv)))) lt = absurd (omega arith)

update_self : (f : ℕ → Proc) (p : ℕ) → update f p (f p) ≡ f
update_self f p = fun_ext λ x. elim (Bool-cases (p == x)) [
  | inl e ↦ let same : p ≡ x = ground arith in rw (e, same)
  | inr e ↦ rw e
]

-- For a process at a level from 0 to 3 check_time_quantum finds the quantum of the level, 10, 20,
-- 40 or 80 ticks. A process that has used it moves down one level with its three counters at 0; at
-- level 3 only its burst is set to 0. INIT and SHELL never move, a process that has not used its
-- quantum does not change, and no other process changes.
pub check_time_quantum-checked :
    (k : Kernel) (p : ℕ)
    → (k.proc p).q_level < levels
    → check_time_quantum p k ≡ ok (set_proc p (checked (k.proc p)) k)
unfolding check_time_quantum demote_process
check_time_quantum-checked k p lt =
    let q = k.proc p in
    let same : set_proc p q k ≡ k =
      ap (λ (f : ℕ → Proc). record k { proc = f }) (update_self k.proc p) in
    let up : inc q.q_level ≡ q.q_level + 1 = omega arith in
    rw (time_quantum-ok q.q_level lt) (elim (Bool-cases (sle (quantum q.q_level) q.cpu_burst)) [
      | inr e ↦ rw e (ap ok (sym same))
      | inl e ↦ elim (Bool-cases (is_pinned q.type)) [
        | inl h ↦ rw (e, h) (ap ok (sym same))
        | inr h ↦ elim (Bool-cases (q.q_level == 3)) [
          | inl z ↦ rw (e, h, z)
          | inr z ↦ rw (e, h, z, up)
        ]
      ]
    ])

-- What a process may be given in place of `p`, which is RUNNING, with the queues as they are.
record StaysRunning (p q : Proc) : Type 0 where
  run : is_running q ≡ true
  level : p.q_level < levels → q.q_level < levels
  stack : q.kstack ≡ p.kstack

StaysRunning-Valid :
    (k : Kernel) (p : ℕ) (q : Proc)
    → Valid k
    → p < nproc
    → is_running (k.proc p) ≡ true
    → StaysRunning (k.proc p) q
    → Valid (set_proc p q k)
StaysRunning-Valid k p q v b r s =
    let st = v.inv.stack p b (ground arith) in
    let run = s.run in
    record {
      qs = v.qs;
      inv =
          Inv-outside k.proc k.links v.qs v.inv p q b (s.level (v.inv.level p b))
            (λ _. rw s.stack st) (ground arith) (ground arith);
      cpus = Cpus-same k.proc (update k.proc p q) k.current v.cpus (λ x. ground arith);
    }

-- The process has an allotment, and has used it: both numbers are 32-bit patterns, and the allotment is
-- positive as an int and at most the time, which is one that an int has.
abbrev pub is_used_up : Proc → Bool
is_used_up p =
    ltb 0 (p.end_time % 2 ^ 32)
    && leb (p.end_time % 2 ^ 32) (p.total_cpu_time % 2 ^ 32)
    && ltb (p.total_cpu_time % 2 ^ 32) (2 ^ 31)

is_spent-used_up : (p : Proc) → is_spent p ≡ is_used_up p
unfolding is_spent
is_spent-used_up p = ground arith

-- The running process after the allotment and the quantum were checked.
abbrev pub judged : Proc → Proc
judged p = if is_used_up p then record p { killed = true } else if p.killed then p else checked p

judged-StaysRunning : (p : Proc) → is_running p ≡ true → StaysRunning p (judged p)
judged-StaysRunning p r = record {
  run = ground arith;
  level = λ h. ground arith;
  stack = ground arith;
}

-- The two tests of check_running, over any outcome of the last branch.
two_tests :
    (spent marked : Bool) (k : Kernel) (p : ℕ) (a q c : Proc) (m : Result Kernel)
    → set_proc p q k ≡ k
    → m ≡ ok (set_proc p c k)
    → (if spent then ok (set_proc p a k) else (if marked then ok k else m))
      ≡ ok (set_proc p (if spent then a else if marked then q else c) k)
two_tests true marked k p a q c m e f = refl
two_tests false true k p a q c m e f = ap ok (sym e)
two_tests false false k p a q c m e f = f

check_running-judged :
    (k : Kernel) (p : ℕ)
    → (k.proc p).q_level < levels
    → check_running p k ≡ ok (set_proc p (judged (k.proc p)) k)
unfolding check_running
check_running-judged k p lt =
    let q = k.proc p in
    let same : set_proc p q k ≡ k =
      ap (λ (f : ℕ → Proc). record k { proc = f }) (update_self k.proc p) in
    rw (is_spent-used_up q) (
      two_tests (is_used_up q) q.killed k p (record q { killed = true }) q (checked q)
        (check_time_quantum p k) same (check_time_quantum-checked k p lt))

-- The table after one tick at which `p` runs, before aging.
abbrev pub after_tick : ℕ → (ℕ → Proc) → ℕ → Proc
after_tick p f = update (ticked f) p (judged (counted (f p)))

tick_running-run :
    (k k1 k2 k3 : Kernel) (p : ℕ)
    → update_all_proc_timers k ≡ k1
    → check_running p k1 ≡ ok k2
    → check_aging k2 ≡ ok k3
    → tick_running p k ≡ ok k3
unfolding tick_running
tick_running-run k k1 k2 k3 p e f g = rw (e, f, g)

-- What one tick does to a process of the table, where `p` is the one that runs.
abbrev pub tick_result : ℕ → ℕ → (ℕ → Proc) → ℕ → Proc
tick_result now p f x =
    if ltb x nproc && is_aged_up (after_tick p f x)
    then promoted now (after_tick p f x)
    else after_tick p f x

after_tick-Valid :
    (k : Kernel) (p : ℕ)
    → Valid k
    → p < nproc
    → is_running (k.proc p) ≡ true
    → (check_running p (record k { proc = ticked k.proc })
        ≡ ok (record k { proc = after_tick p k.proc }))
      × Valid (record k { proc = after_tick p k.proc })
after_tick-Valid k p v b r =
    let k1 : Kernel = record k { proc = ticked k.proc } in
    let v1 = ticked-Valid k v in
    let at : ticked k.proc p ≡ counted (k.proc p) = ground arith in
    let r1 : is_running (ticked k.proc p) ≡ true =
      ap is_running at ∙ counted-running (k.proc p) ∙ r in
    let stays = judged-StaysRunning (ticked k.proc p) r1 in
    let v2 = StaysRunning-Valid k1 p (judged (ticked k.proc p)) v1 b r1 stays in
    let eq : set_proc p (judged (ticked k.proc p)) k1 ≡ record k { proc = after_tick p k.proc } =
      ap (λ (q : Proc). set_proc p (judged q) k1) at in
    (check_running-judged k1 p (v1.inv.level p b) ∙ ap ok eq, subst Valid eq v2)

-- On a valid table, for a process that runs on a CPU, the part of the timer interrupt under the
-- lock returns with no panic and a valid table. Every slot with a pid counts one tick, of CPU time if it
-- is RUNNING, of waiting if it is RUNNABLE and of I/O if it is SLEEPING. The process that runs is then
-- marked if its allotment is positive and at most its CPU time; otherwise, unless it is marked already,
-- one that has used its quantum of 10, 20, 40 or 80 ticks by its level and is neither INIT nor SHELL
-- goes down one level with its counters at 0, at level 3 with its burst at 0 only; then exactly the RUNNABLE processes above
-- level 0 that have waited 250 ticks or more and are neither INIT nor SHELL go up one level.
pub tick_running-result :
    (k : Kernel) (c p : ℕ)
    → Valid k
    → k.current c ≡ some p
    → (k' : Kernel) × (tick_running p k ≡ ok k')
      × ((x : ℕ) → k'.proc x ≡ tick_result k.ticks p k.proc x)
      × SameRest k k'
      × Valid k'
tick_running-result k c p v e =
    let (b, r, idle) = running_lem k v c p e in
    let (run, v2) = after_tick-Valid k p v b r in
    let k2 : Kernel = record k { proc = after_tick p k.proc } in
    let (k3, age, a) = check_aging-Aged k2 v2.qs v2.inv in
    let same = λ (x : ℕ). ap is_running (a.proc x) in
    (
      k3,
      tick_running-run k _ k2 k3 p (timers-ticked k) run age,
      a.proc,
      record {
        nextpid = a.rest.nextpid;
        ticks = a.rest.ticks;
        initproc = a.rest.initproc;
        current = a.rest.current;
      },
      record {
        qs = a.qs;
        inv = a.inv;
        cpus = rw a.rest.current (
            Cpus-same k2.proc k3.proc k.current v2.cpus (λ x.
              same x
              ∙ promoted_running k.ticks (k2.proc x) (ltb x nproc && is_aged_up (k2.proc x))));
      },
    )
  where
    promoted_running :
        (now : ℕ) (q : Proc) (t : Bool)
        → is_running (if t then promoted now q else q) ≡ is_running q
    promoted_running now q true = refl
    promoted_running now q false = refl

pub count_ticks-Valid :
    (k : Kernel) (c : ℕ)
    → Valid k
    → (k' : Kernel) × (count_ticks c k ≡ ok k')
      × (k'.current ≡ k.current)
      × (k'.initproc ≡ k.initproc)
      × Valid k'
unfolding count_ticks
count_ticks-Valid k c v = elim (Bool-cases (c == 0)) [
  | inr e ↦ (k, rw e, refl, refl, v)
  | inl e ↦
      let k1 : Kernel = record k { ticks = inc k.ticks } in
      let (k', run, w) = wakeup1-Inv k1 v.qs ticks_chan v.inv in
      (
        k',
        rw e run,
        w.rest.current,
        w.rest.initproc,
        record {
          qs = w.qs;
          inv = w.inv;
          cpus =
              rw (w.proc, w.rest.current) (Cpus-same k.proc _ k.current v.cpus (λ x. ground arith));
        },
      )
]

tick_current-none : (k : Kernel) (c : ℕ) → k.current c ≡ none → tick_current c k ≡ ok k
unfolding tick_current
tick_current-none k c e = rw (e, tick_current)

tick_current-some :
    (k : Kernel) (c p : ℕ)
    → k.current c ≡ some p
    → is_running (k.proc p) ≡ true
    → tick_current c k ≡ tick_running p k
unfolding tick_current
tick_current-some k c p e r = rw (e, tick_current, r)

pub tick_current-Valid :
    (k : Kernel) (c : ℕ)
    → Valid k
    → (k' : Kernel) × (tick_current c k ≡ ok k')
      × (k'.current ≡ k.current)
      × (k'.initproc ≡ k.initproc)
      × Valid k'
tick_current-Valid k c v = elim (Option-cases (k.current c)) [
  | inl e ↦ (k, tick_current-none k c e, refl, refl, v)
  | inr (p, e) ↦
      let (b, r) = v.cpus.busy c p e in
      let (k', tick, eq, rest, v') = tick_running-result k c p v e in
      (k', tick_current-some k c p e r ∙ tick, rest.current, rest.initproc, v')
]

timer-run :
    (k k1 k2 : Kernel) (c : ℕ)
    → count_ticks c k ≡ ok k1
    → tick_current c k1 ≡ ok k2
    → timer c k ≡ ok k2
unfolding timer
timer-run k k1 k2 c run tick = rw (run, tick)

timer-Valid :
    (k : Kernel) (c : ℕ)
    → Valid k
    → (k' : Kernel) × (timer c k ≡ ok k')
      × (k'.current ≡ k.current)
      × (k'.initproc ≡ k.initproc)
      × Valid k'
timer-Valid k c v =
    let (k1, run, same, sameinit, v1) = count_ticks-Valid k c v in
    let (k2, tick, same', sameinit', v2) = tick_current-Valid k1 c v1 in
    (k2, timer-run k k1 k2 c run tick, same' ∙ same, sameinit' ∙ sameinit, v2)

leave-none : (k : Kernel) (c : ℕ) (user : Bool) → k.current c ≡ none → leave c user k ≡ ok k
unfolding leave
leave-none k c user e = rw (e, leave)

leave-some :
    (k : Kernel) (c p : ℕ) (user : Bool)
    → k.current c ≡ some p
    → is_running (k.proc p) ≡ true
    → leave c user k ≡ (if (k.proc p).killed && user then exit c k else yield c k)
unfolding leave
leave-some k c p user e r = rw (e, leave, r)

-- The call returns a valid table, or ends the init process in user space.
abbrev pub Leaves : ℕ → Bool → Kernel → Result Kernel → Type 0
Leaves c user k r = Succeeds r ⊎ ((user ≡ true) × RunsInit c k × (r ≡ panic init_exiting))

pub by-Exits :
    (k : Kernel) (c p : ℕ) (r : Result Kernel)
    → k.current c ≡ some p
    → Exits k c p r
    → Succeeds r ⊎ (RunsInit c k × (r ≡ panic init_exiting))
by-Exits k c p r e (init_ends run h) = inr ((p, e, h), run)
by-Exits k c p r e (other_ends k' run h x v) = inl (k', run, v)

-- On the way out of the interrupt the CPU gives up its process.
pub leave-Leaves : (k : Kernel) (c : ℕ) (user : Bool) → Valid k → Leaves c user k (leave c user k)
leave-Leaves k c user v = elim (Option-cases (k.current c)) [
  | inl e ↦ inl (k, leave-none k c user e, v)
  | inr (p, e) ↦
      let run = leave-some k c p user e (v.cpus.busy c p e).1 in
      elim (Bool-cases ((k.proc p).killed && user)) [
        | inl h ↦ elim (by-Exits k c p (exit c k) e (exit-Exits k c p v e)) [
          | inl (k', step, v') ↦ inl (k', run ∙ rw h step, v')
          | inr (i, step) ↦ inr (ground arith, i, run ∙ rw h step)
        ]
        | inr h ↦ let (k', step, v') = yield-Valid k c p v e in inl (k', run ∙ rw h step, v')
      ]
]

recheck-none : (k : Kernel) (c : ℕ) (user : Bool) → k.current c ≡ none → recheck c user k ≡ ok k
unfolding recheck
recheck-none k c user e = rw (e, recheck)

recheck-some :
    (k : Kernel) (c p : ℕ) (user : Bool)
    → k.current c ≡ some p
    → recheck c user k ≡ (if (k.proc p).killed && user then exit c k else ok k)
unfolding recheck
recheck-some k c p user e = rw (e, recheck)

-- Behind its yield, a process that was marked exits if it was in user space.
pub recheck-Leaves :
    (k : Kernel) (c : ℕ) (user : Bool) → Valid k → Leaves c user k (recheck c user k)
recheck-Leaves k c user v = elim (Option-cases (k.current c)) [
  | inl e ↦ inl (k, recheck-none k c user e, v)
  | inr (p, e) ↦
      let run = recheck-some k c p user e in
      elim (Bool-cases ((k.proc p).killed && user)) [
        | inl h ↦ elim (by-Exits k c p (exit c k) e (exit-Exits k c p v e)) [
          | inl (k', step, v') ↦ inl (k', run ∙ rw h step, v')
          | inr (i, step) ↦ inr (ground arith, i, run ∙ rw h step)
        ]
        | inr h ↦ inl (k, run ∙ rw h refl, v)
      ]
]

-- The timer interrupt up to its yield, on any CPU and from user or kernel mode, returns with a valid
-- table, or panics because it ends the init process, which was in user space.
pub trap_timer-Leaves :
    (k : Kernel) (c : ℕ) (user : Bool) → Valid k → Leaves c user k (trap_timer c user k)
unfolding trap_timer
trap_timer-Leaves k c user v =
    let (k1, run, same, sameinit, v1) = timer-Valid k c v in
    elim (leave-Leaves k1 c user v1) [
      | inl (k2, step, v2) ↦ inl (k2, rw (run, step), v2)
      | inr (u, (p, e, h), step) ↦
          inr (u, (p, sym (ap (λ f. f c) same) ∙ e, sym sameinit ∙ h), rw (run, step))
    ]
