-- ===== src/Sched/Inv/Signals.antt =====
-- kill, wait and set_proc_info.
use os_project_mlfqschedulin.Base.{
  ℕ, zero, suc, ◌+◌, ◌<◌, ◌≤◌, ◌≡◌, refl, ◌∙◌, ◌⊎◌, inl, inr, true, false, none, some, List, arith,
  ◌==◌, if◌then◌else◌, Bool-cases, update, minus_one,
}
use os_project_mlfqschedulin.Sched.{
  nproc, sleeping, runnable, Proc, Kernel, Result, ok, state_eq, set_proc,
}
use os_project_mlfqschedulin.Sched.Process.{find_pid, make_runnable, kill}
use os_project_mlfqschedulin.Sched.Inv.{Inv, Valid}
use os_project_mlfqschedulin.Sched.Inv.Enqueue.{Kept-refl, Inv-Kept}
use os_project_mlfqschedulin.Sched.Inv.Wakeup.{woken, make_runnable-Inv}
use os_project_mlfqschedulin.Sched.Inv.Switch.{Cpus-same}
use os_project_mlfqschedulin.Sched.Inv.Create.{update-update_self}

-- The first process with the pid.
pub record FirstWith (k : Kernel) (pid i p : ℕ) : Type 0 where
  pub within : p < nproc
  pub pid_is : (k.proc p).pid ≡ pid
  pub first : (x : ℕ) → i ≤ x → x < p → ((k.proc x).pid == pid) ≡ false

find_pid-cases :
    (n i pid : ℕ) (k : Kernel)
    → i + n ≡ nproc
    → ((find_pid n i pid k ≡ none)
        × ((x : ℕ) → i ≤ x → x < nproc → ((k.proc x).pid == pid) ≡ false))
      ⊎ ((p : ℕ) × (find_pid n i pid k ≡ some p) × FirstWith k pid i p)
unfolding find_pid
find_pid-cases zero i pid k e = inl (refl, λ x a b. absurd (omega arith))
find_pid-cases (suc n) i pid k e = elim (Bool-cases ((k.proc i).pid == pid)) [
  | inl h ↦ inr (
    i,
    rw h,
    record { within = omega arith; pid_is = ground arith; first = λ x a b. absurd (omega arith) },
  )
  | inr h ↦ elim (find_pid-cases n (i + 1) pid k (omega arith)) [
    | inl (run, full) ↦ inl (rw h run, λ x a b. ground (arith, full x))
    | inr (p, run, f) ↦ inr (
      p,
      rw h run,
      record { within = f.within; pid_is = f.pid_is; first = λ x a b. ground (arith, f.first x) },
    )
  ]
]

-- A process as kill leaves it.
abbrev pub struck : ℕ → Proc → Proc
struck now p =
    if state_eq p.state sleeping
    then record p { killed = true; state = runnable; queue_entry_time = now }
    else record p { killed = true }

pub data Killed (k : Kernel) (pid : ℕ) (r : Result (Kernel × ℕ)) : Type 0 where
  missing :
      r ≡ ok (k, minus_one)
      → ((x : ℕ) → x < nproc → ((k.proc x).pid == pid) ≡ false)
      → Killed k pid r
  marked :
      (p : ℕ) (k' : Kernel)
      → r ≡ ok (k', 0)
      → FirstWith k pid 0 p
      → k'.proc ≡ update k.proc p (struck k.ticks (k.proc p))
      → Valid k'
      → Killed k pid r

abbrev mark : ℕ → Kernel → Kernel
mark p k = set_proc p (record (k.proc p) { killed = true }) k

mark-Inv :
    (k : Kernel) (qs : ℕ → List ℕ) (p : ℕ) → Inv k.proc k.links qs → Inv (mark p k).proc k.links qs
mark-Inv k qs p v = Inv-Kept k.proc k.links qs v _ λ x b. elim (Bool-cases (p == x)) [
  | inl e ↦
      let same : p ≡ x = ground arith in
      rw (e, same)
        (record {
          run = refl;
          same_level = λ h. refl;
          key = λ h. record { io = refl; entry = refl };
          level = λ h. h;
          stack = λ h. h;
        })
  | inr e ↦ rw e (Kept-refl (k.proc x))
]

kill-run :
    (k k' : Kernel) (pid p : ℕ)
    → find_pid nproc 0 pid k ≡ some p
    → state_eq (k.proc p).state sleeping ≡ true
    → make_runnable p (mark p k) ≡ ok k'
    → kill pid k ≡ ok (k', 0)
unfolding kill
kill-run k k' pid p e h run =
    let same : state_eq ((mark p k).proc p).state sleeping ≡ true = ground arith in
    rw (e, kill, same, run)

kill-awake :
    (k : Kernel) (pid p : ℕ)
    → find_pid nproc 0 pid k ≡ some p
    → state_eq (k.proc p).state sleeping ≡ false
    → kill pid k ≡ ok (mark p k, 0)
unfolding kill
kill-awake k pid p e h =
    let same : state_eq ((mark p k).proc p).state sleeping ≡ false = ground arith in
    rw (e, kill, same)

kill-none : (k : Kernel) (pid : ℕ) → find_pid nproc 0 pid k ≡ none → kill pid k ≡ ok (k, minus_one)
unfolding kill
kill-none k pid e = rw (e, kill)

kill-Killed_at :
    (k : Kernel) (pid p : ℕ)
    → Valid k
    → find_pid nproc 0 pid k ≡ some p
    → FirstWith k pid 0 p
    → Killed k pid (kill pid k)
kill-Killed_at k pid p v run f = elim (Bool-cases (state_eq (k.proc p).state sleeping)) [
  | inr e ↦ marked p (mark p k) (kill-awake k pid p run e) f (rw e refl) (record {
    qs = v.qs;
    inv = mark-Inv k v.qs p v.inv;
    cpus = Cpus-same k.proc (mark p k).proc k.current v.cpus (λ x. ground arith);
  })
  | inl e ↦
      let i = mark-Inv k v.qs p v.inv in
      let st = i.stack p f.within (ground arith) in
      let (k', step, w) = make_runnable-Inv (mark p k) v.qs p i f.within (ground arith) st in
      let flat =
        update-update_self k.proc p (record (k.proc p) { killed = true }) (woken k.ticks) in
      let eq : k'.proc ≡ update k.proc p (struck k.ticks (k.proc p)) = w.proc ∙ flat ∙ rw e in
      marked p k' (kill-run k k' pid p run e step) f eq (record {
        qs = w.qs;
        inv = w.inv;
        cpus = rw (eq, w.rest.current) (Cpus-same k.proc _ k.current v.cpus (λ x. ground arith));
      })
]

-- On a valid table kill returns -1 and changes nothing if no slot has the pid. Otherwise it returns
-- 0: the first slot with the pid is marked, and made RUNNABLE if it slept, no other process
-- changes, and the table stays valid.
pub kill-Killed : (k : Kernel) (pid : ℕ) → Valid k → Killed k pid (kill pid k)
kill-Killed k pid v = elim (find_pid-cases nproc 0 pid k refl) [
  | inl (run, full) ↦ missing (kill-none k pid run) (λ x b. full x (omega arith) b)
  | inr (p, run, f) ↦ kill-Killed_at k pid p v run f
]
