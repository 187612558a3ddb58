-- ===== src/Sched/Inv/Wait.antt =====
-- One round of wait.
use os_project_mlfqschedulin.Base.{
  ℕ, zero, suc, ◌+◌, ◌<◌, ◌≤◌, ◌≡◌, refl, ◌∙◌, ◌⊎◌, inl, inr, Bool, true, false, ◌||◌, not, none,
  some, arith, if◌then◌else◌, Bool-cases, update,
}
use os_project_mlfqschedulin.Sched.{
  nproc, unused, zombie, proc_chan, Proc, Kernel, Result, ok, state_eq, ptr_eq, set_proc,
}
use os_project_mlfqschedulin.Sched.Process.{
  sleep, Waited, reaped, no_children, must_sleep, wait_from, wait_after, wait,
}
use os_project_mlfqschedulin.Sched.Inv.{Valid}
use os_project_mlfqschedulin.Sched.Inv.Enqueue.{Inv-outside}
use os_project_mlfqschedulin.Sched.Inv.Switch.{Cpus-same, myproc-some, sleep-Valid}

abbrev pub is_child : Kernel → ℕ → ℕ → Bool
is_child k cur x = ptr_eq (k.proc x).parent (some cur)

abbrev pub is_zombie : Kernel → ℕ → Bool
is_zombie k x = state_eq (k.proc x).state zombie

-- A ZOMBIE child.
pub record IsDead (k : Kernel) (cur x : ℕ) : Type 0 where
  pub within : x < nproc
  pub child : is_child k cur x ≡ true
  pub dead : is_zombie k x ≡ true

-- A slot that is UNUSED, with no stack, pid, parent or mark.
abbrev pub emptied : Proc → Proc
emptied p = record p { state = unused; kstack = 0; pid = 0; parent = none; killed = false }

-- Some slot from `i` on, of `n`, is a child.
unfoldable pub any_child : ℕ → ℕ → ℕ → Kernel → Bool
any_child zero i cur k = false
any_child (suc n) i cur k = is_child k cur i || any_child n (i + 1) cur k

abbrev NoneDead : Kernel → ℕ → ℕ → ℕ → Type 0
NoneDead k cur lo hi = (x : ℕ) → lo ≤ x → x < hi → is_child k cur x ≡ true → is_zombie k x ≡ false

abbrev verdict : Kernel → ℕ → Bool → Waited
verdict k cur kids = if not kids || (k.proc cur).killed then no_children else must_sleep

or_true : (b : Bool) → (b || true) ≡ true
or_true b = ground arith

wait_from-cases :
    (n i cur : ℕ) (kids : Bool) (k : Kernel)
    → i + n ≡ nproc
    → ((p : ℕ) × (wait_from n i cur kids k
          ≡ (set_proc p (emptied (k.proc p)) k, reaped (k.proc p).pid))
        × IsDead k cur p)
      ⊎ ((wait_from n i cur kids k ≡ (k, verdict k cur (kids || any_child n i cur k)))
          × NoneDead k cur i nproc)
unfolding wait_from any_child
wait_from-cases zero i cur kids k e = inr (ground arith, λ x a b. absurd (omega arith))
wait_from-cases (suc n) i cur kids k e = elim (Bool-cases (is_child k cur i)) [
  | inr h ↦ elim (wait_from-cases n (i + 1) cur kids k (omega arith)) [
    | inl (p, run, d) ↦ inl (p, rw h run, d)
    | inr (run, safe) ↦ inr (rw h run, λ x a b c. ground (arith, safe x))
  ]
  | inl h ↦ elim (Bool-cases (is_zombie k i)) [
    | inl z ↦ inl (i, rw (h, z), record { within = omega arith; child = h; dead = z })
    | inr z ↦ elim (wait_from-cases n (i + 1) cur true k (omega arith)) [
      | inl (p, run, d) ↦ inl (p, rw (h, z) run, d)
      | inr (run, safe) ↦ inr (rw (h, z, or_true kids) run, λ x a b c. ground (arith, safe x))
    ]
  ]
]

-- On a reap only the slot of the child changes.
pub data Waits (k : Kernel) (c cur : ℕ) (r : Result (Kernel × Waited)) : Type 0 where
  reaps :
      (p : ℕ)
      → r ≡ ok (set_proc p (emptied (k.proc p)) k, reaped (k.proc p).pid)
      → IsDead k cur p
      → Valid (set_proc p (emptied (k.proc p)) k)
      → Waits k c cur r
  gives_up :
      r ≡ ok (k, no_children)
      → (any_child nproc 0 cur k ≡ false) ⊎ ((k.proc cur).killed ≡ true)
      → ((x : ℕ) → x < nproc → is_child k cur x ≡ true → is_zombie k x ≡ false)
      → Waits k c cur r
  sleeps :
      (k' : Kernel)
      → r ≡ ok (k', must_sleep)
      → sleep c (proc_chan cur) k ≡ ok k'
      → any_child nproc 0 cur k ≡ true
      → ((x : ℕ) → x < nproc → is_child k cur x ≡ true → is_zombie k x ≡ false)
      → Valid k'
      → Waits k c cur r

wait-run :
    (k : Kernel) (c cur : ℕ) (w : Kernel × Waited)
    → k.current c ≡ some cur
    → wait_from nproc 0 cur false k ≡ w
    → wait c k ≡ wait_after c cur w
unfolding wait
wait-run k c cur w e run = rw (myproc-some k c cur e, run)

emptied-Valid :
    (k : Kernel) (p cur : ℕ) → Valid k → IsDead k cur p → Valid (set_proc p (emptied (k.proc p)) k)
emptied-Valid k p cur v d =
    let z = d.dead in
    record {
      qs = v.qs;
      inv =
          Inv-outside k.proc k.links v.qs v.inv p (emptied (k.proc p)) d.within
            (v.inv.level p d.within) (λ h. cc) (ground arith) refl;
      cpus =
          Cpus-same k.proc (update k.proc p (emptied (k.proc p))) k.current v.cpus
            (λ x. ground arith);
    }

wait_after-Waits :
    (k : Kernel) (c cur : ℕ) (kids : Bool) (r : Result (Kernel × Waited))
    → Valid k
    → k.current c ≡ some cur
    → any_child nproc 0 cur k ≡ kids
    → r ≡ wait_after c cur (k, verdict k cur kids)
    → ((x : ℕ) → x < nproc → is_child k cur x ≡ true → is_zombie k x ≡ false)
    → Waits k c cur r
unfolding wait_after
wait_after-Waits k c cur false r v e has run safe = gives_up run (inl has) safe
wait_after-Waits k c cur true r v e has run safe = elim (Bool-cases (k.proc cur).killed) [
  | inl d ↦ gives_up (run ∙ rw d) (inr d) safe
  | inr d ↦
      let (k', step, v') = sleep-Valid k c cur (proc_chan cur) v e in
      sleeps k' (run ∙ rw (d, step)) step has safe v'
]

pub wait-Waits :
    (k : Kernel) (c cur : ℕ) → Valid k → k.current c ≡ some cur → Waits k c cur (wait c k)
unfolding wait_after
wait-Waits k c cur v e = elim (wait_from-cases nproc 0 cur false k refl) [
  | inl (p, run, d) ↦ reaps p (wait-run k c cur _ e run) d (emptied-Valid k p cur v d)
  | inr (run, safe) ↦
      wait_after-Waits k c cur (any_child nproc 0 cur k) (wait c k) v e refl
        (wait-run k c cur _ e run) (λ x b h. safe x (omega arith) b h)
]
