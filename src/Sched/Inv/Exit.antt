-- ===== src/Sched/Inv/Exit.antt =====
-- The end of a process: its children go to init, its parent wakes, its CPU is free.
use os_project_mlfqschedulin.Base.{
  ◌⊎◌, ℕ, zero, suc, ◌+◌, ◌<◌, ◌≡◌, refl, ap, ◌∙◌, inl, inr, true, false, ◌&&◌, none, some, List,
  arith, ltb, leb, ◌==◌, if◌then◌else◌, Bool-cases, update,
}
use os_project_mlfqschedulin.Sched.{
  init_exiting, panic, nproc, Ptr, running, zombie, Proc, Kernel, Result, ok, state_eq, ptr_eq,
  set_proc,
}
use os_project_mlfqschedulin.Sched.Queue.{remove_from_queue}
use os_project_mlfqschedulin.Sched.Process.{exit, wakeup1, chan_of, adopt, adopt_from, exit_locked}
use os_project_mlfqschedulin.Sched.Inv.{is_runnable, is_running, Inv, Valid}
use os_project_mlfqschedulin.Sched.Inv.Enqueue.{
  Kept-refl, Inv-Kept, Inv-outside, remove_from_queue-idle,
}
use os_project_mlfqschedulin.Sched.Inv.Wakeup.{
  SameRest, SameRest-refl, SameRest-trans, sleeps_on, wake_proc, Follows, wakeup1-Inv,
}
use os_project_mlfqschedulin.Sched.Inv.Switch.{Cpus-leave, running_lem, myproc-some}

-- The parent of a process after the slots from `i` on, `n` of them, were passed to init.
abbrev pub passed : ℕ → ℕ → ℕ → Ptr → ℕ → Ptr → Ptr
passed n i cur initproc x parent =
    if leb i x && ltb x (i + n) && ptr_eq parent (some cur) then initproc else parent

-- What the loop over abandoned children does to the kernel.
pub record Passed (n i cur : ℕ) (k k' : Kernel) : Type 0 where
  pub qs : ℕ → List ℕ
  pub inv : Inv k'.proc k'.links qs
  pub rest : SameRest k k'
  pub run : (x : ℕ) → is_running (k'.proc x) ≡ is_running (k.proc x)
  pub awake : (x : ℕ) → is_runnable (k.proc x) ≡ true → is_runnable (k'.proc x) ≡ true
  pub parent : (x : ℕ) → (k'.proc x).parent ≡ passed n i cur k.initproc x (k.proc x).parent

-- One process gets another parent.
with_parent : (k : Kernel) (p : ℕ) (q : Ptr) → Kernel
with_parent k p q = set_proc p (record (k.proc p) { parent = q }) k

with_parent-Inv :
    (k : Kernel) (qs : ℕ → List ℕ) (p : ℕ) (q : Ptr)
    → Inv k.proc k.links qs
    → Inv (with_parent k p q).proc k.links qs
unfolding with_parent
with_parent-Inv k qs p q v = Inv-Kept k.proc k.links qs v _ λ x b. elim (Bool-cases (p == x)) [
  | inl e ↦
      let same : p ≡ x = ground arith in
      rw (e, same)
        (record {
          run = refl;
          same_level = λ h. refl;
          key = λ h. record { io = refl; entry = refl };
          level = λ h. h;
          stack = λ h. h;
        })
  | inr e ↦ rw e (Kept-refl (k.proc x))
]

adopt-other :
    (k : Kernel) (cur p : ℕ) → ptr_eq (k.proc p).parent (some cur) ≡ false → adopt cur p k ≡ ok k
unfolding adopt
adopt-other k cur p h = rw h

adopt-quiet :
    (k : Kernel) (cur p : ℕ)
    → ptr_eq (k.proc p).parent (some cur) ≡ true
    → state_eq (k.proc p).state zombie ≡ false
    → adopt cur p k ≡ ok (with_parent k p k.initproc)
unfolding adopt with_parent
adopt-quiet k cur p h z = ground arith

adopt-zombie :
    (k k' : Kernel) (cur p : ℕ)
    → ptr_eq (k.proc p).parent (some cur) ≡ true
    → state_eq (k.proc p).state zombie ≡ true
    → wakeup1 (chan_of k.initproc) (with_parent k p k.initproc) ≡ ok k'
    → adopt cur p k ≡ ok k'
unfolding adopt with_parent
adopt-zombie k k' cur p h z run =
    let same : state_eq (update k.proc p (record (k.proc p) { parent = k.initproc }) p).state zombie
        ≡ true =
      ground arith in
    rw (h, same) run

adopt-Passed :
    (k : Kernel) (qs : ℕ → List ℕ) (cur p : ℕ)
    → Inv k.proc k.links qs
    → (k' : Kernel) × (adopt cur p k ≡ ok k') × Passed 1 p cur k k'
unfolding with_parent
adopt-Passed k qs cur p v = by_test (Bool-cases _) (Bool-cases _)
  where
    by_test :
        (ptr_eq (k.proc p).parent (some cur) ≡ true) ⊎ (ptr_eq (k.proc p).parent (some cur) ≡ false)
        → (state_eq (k.proc p).state zombie ≡ true) ⊎ (state_eq (k.proc p).state zombie ≡ false)
        → (k' : Kernel) × (adopt cur p k ≡ ok k') × Passed 1 p cur k k'
    by_test (inr e) z = (
      k,
      adopt-other k cur p e,
      record {
        qs = qs;
        inv = v;
        rest = SameRest-refl k;
        run = λ x. refl;
        awake = λ x h. h;
        parent = λ x. ground arith;
      },
    )
    by_test (inl e) (inr z) = (
      with_parent k p k.initproc,
      adopt-quiet k cur p e z,
      record {
        qs = qs;
        inv = with_parent-Inv k qs p k.initproc v;
        rest = record { nextpid = refl; ticks = refl; initproc = refl; current = refl };
        run = λ x. ground arith;
        awake = λ x h. ground arith;
        parent = λ x. ground arith;
      },
    )
    by_test (inl e) (inl z) =
        let (k', run, w) =
          wakeup1-Inv (with_parent k p k.initproc) qs (chan_of k.initproc)
            (with_parent-Inv k qs p k.initproc v) in
        let at = λ (x : ℕ). ap (λ (f : ℕ → Proc). f x) w.proc in
        (
          k',
          adopt-zombie k k' cur p e z run,
          record {
            qs = w.qs;
            inv = w.inv;
            rest = record {
              nextpid = w.rest.nextpid;
              ticks = w.rest.ticks;
              initproc = w.rest.initproc;
              current = w.rest.current;
            };
            run = λ x. ap is_running (at x) ∙ ground arith;
            awake = λ x h. ap is_runnable (at x) ∙ ground arith;
            parent = λ x. ap (λ (q : Proc). q.parent) (at x) ∙ ground arith;
          },
        )

Passed-trans :
    (n i cur : ℕ) (k k1 k2 : Kernel)
    → Passed 1 i cur k k1
    → Passed n (i + 1) cur k1 k2
    → Passed (suc n) i cur k k2
Passed-trans n i cur k k1 k2 a b = record {
  qs = b.qs;
  inv = b.inv;
  rest = SameRest-trans k k1 k2 a.rest b.rest;
  run = λ x. b.run x ∙ a.run x;
  awake = λ x h. b.awake x (a.awake x h);
  parent = λ x. b.parent x ∙ rw (a.parent x, a.rest.initproc) (ground arith);
}

adopt_from-Passed :
    (n i cur : ℕ) (k : Kernel) (qs : ℕ → List ℕ)
    → Inv k.proc k.links qs
    → (k' : Kernel) × (adopt_from n i cur k ≡ ok k') × Passed n i cur k k'
unfolding adopt_from
adopt_from-Passed zero i cur k qs v = (
  k,
  refl,
  record {
    qs = qs;
    inv = v;
    rest = SameRest-refl k;
    run = λ x. refl;
    awake = λ x h. h;
    parent = λ x. ground arith;
  },
)
adopt_from-Passed (suc n) i cur k qs v =
    let (k1, run, a) = adopt-Passed k qs cur i v in
    let (k2, run2, b) = adopt_from-Passed n (i + 1) cur k1 a.qs a.inv in
    (k2, rw run run2, Passed-trans n i cur k k1 k2 a b)

-- The kernel in which `p` is a ZOMBIE and the CPU `c` is free.
abbrev pub ended : ℕ → ℕ → Kernel → Kernel
ended c p k = record k {
  proc = update k.proc p (record (k.proc p) { state = zombie });
  current = update k.current c none;
}

exit_locked-run :
    (k k1 k2 : Kernel) (c p : ℕ)
    → k.current c ≡ some p
    → remove_from_queue p k ≡ ok k
    → wakeup1 (chan_of (k.proc p).parent) k ≡ ok k1
    → adopt_from nproc 0 p k1 ≡ ok k2
    → exit_locked c k ≡ ok (ended c p k2)
unfolding exit_locked
exit_locked-run k k1 k2 c p e r w a =
    let no_panic : state_eq (update k2.proc p (record (k2.proc p) { state = zombie }) p).state
          running
        ≡ false =
      ground arith in
    rw (myproc-some k c p e, r, w, a, no_panic)

-- What exit leaves behind for the process `p` on the CPU `c`.
pub record Exited (k k' : Kernel) (c p : ℕ) : Type 0 where
  pub zombie : (k'.proc p).state ≡ zombie
  pub cpu : k'.current ≡ update k.current c none
  pub orphans :
      (x : ℕ)
      → x < nproc
      → (k'.proc x).parent
        ≡ (if ptr_eq (k.proc x).parent (some p) then k.initproc else (k.proc x).parent)
  pub woken :
      (x : ℕ)
      → x < nproc
      → (p == x) ≡ false
      → sleeps_on (chan_of (k.proc p).parent) (k.proc x) ≡ true
      → is_runnable (k'.proc x) ≡ true

module _ (k k1 k2 : Kernel) (c p : ℕ)
    (w : Follows k k1 (λ x.
      if ltb x nproc then wake_proc (chan_of (k.proc p).parent) k.ticks (k.proc x) else k.proc x))
    (a : Passed nproc 0 p k1 k2) where
  at_wake :
      (x : ℕ)
      → k1.proc x ≡ (
          if ltb x nproc
          then wake_proc (chan_of (k.proc p).parent) k.ticks (k.proc x)
          else k.proc x)
  at_wake x = ap (λ (f : ℕ → Proc). f x) w.proc

  same_running : (x : ℕ) → is_running (k2.proc x) ≡ is_running (k.proc x)
  same_running x = a.run x ∙ ap is_running (at_wake x) ∙ ground arith

  ended-Exited : Exited k (ended c p k2) c p
  ended-Exited = record {
    zombie = ground arith;
    cpu = rw (a.rest.current, w.rest.current);
    orphans = λ x b.
        let own : ((ended c p k2).proc x).parent ≡ (k2.proc x).parent = ground arith in
        let par : (k1.proc x).parent ≡ (k.proc x).parent =
          ap (λ (q : Proc). q.parent) (at_wake x) ∙ ground arith in
        own ∙ a.parent x ∙ rw (par, w.rest.initproc) (ground arith);
    woken = λ x b ne h.
        let up : is_runnable (k1.proc x) ≡ true = ap is_runnable (at_wake x) ∙ ground arith in
        ground (arith, a.awake x up);
  }

  ended-Valid : Valid k → k.current c ≡ some p → Valid (ended c p k2)
  ended-Valid v e =
      let (b, r, idle) = running_lem k v c p e in
      let run : is_running (k2.proc p) ≡ true = same_running p ∙ r in
      let cur : k2.current ≡ k.current = a.rest.current ∙ w.rest.current in
      let new : Proc = record (k2.proc p) { state = zombie } in
      record {
        qs = a.qs;
        inv =
            Inv-outside k2.proc k2.links a.qs a.inv p new b (a.inv.level p b)
              (λ _. a.inv.stack p b (ground arith)) (ground arith) refl;
        cpus = rw cur (
            Cpus-leave k.proc (update k2.proc p new) k.current c p v.cpus e
              (λ x ne. ground (arith, same_running x)));
      }

-- exit returns with no panic and a valid table. The process is a ZOMBIE and its CPU is free, each of
-- its children has the init process for its parent, and every process that slept on its parent's
-- channel is RUNNABLE.
pub exit_locked-Exited :
    (k : Kernel) (c p : ℕ)
    → Valid k
    → k.current c ≡ some p
    → (k' : Kernel) × (exit_locked c k ≡ ok k') × Exited k k' c p × Valid k'
exit_locked-Exited k c p v e =
    let (b, r, idle) = running_lem k v c p e in
    let gone = remove_from_queue-idle p k v.qs b v.inv idle in
    let (k1, run1, w) = wakeup1-Inv k v.qs (chan_of (k.proc p).parent) v.inv in
    let (k2, run2, a) = adopt_from-Passed nproc 0 p k1 w.qs w.inv in
    (
      ended c p k2,
      exit_locked-run k k1 k2 c p e gone run1 run2,
      ended-Exited k k1 k2 c p w a,
      ended-Valid k k1 k2 c p w a v e,
    )

exit-run :
    (k : Kernel) (c p : ℕ)
    → k.current c ≡ some p
    → exit c k ≡ (if ptr_eq k.initproc (some p) then panic init_exiting else exit_locked c k)
unfolding exit
exit-run k c p e = rw (myproc-some k c p e)

-- What exit does: it panics for init, and ends any other process.
pub data Exits (k : Kernel) (c p : ℕ) (r : Result Kernel) : Type 0 where
  init_ends : r ≡ panic init_exiting → k.initproc ≡ some p → Exits k c p r
  other_ends :
      (k' : Kernel)
      → r ≡ ok k'
      → ptr_eq k.initproc (some p) ≡ false
      → Exited k k' c p
      → Valid k'
      → Exits k c p r

some_of_ptr_eq : (q : Ptr) (p : ℕ) → ptr_eq q (some p) ≡ true → q ≡ some p
some_of_ptr_eq none p h = ground arith
some_of_ptr_eq (some x) p h = let same : x ≡ p = ground arith in ap some same

-- On a valid table, for the process that runs on a CPU: exit panics if it is the init process.
-- Otherwise exit returns with a valid table, in which the process is a ZOMBIE and its CPU is free,
-- each of its children has the init process for its parent, and every other process that slept on
-- its parent's channel is RUNNABLE.
pub exit-Exits : (k : Kernel) (c p : ℕ) → Valid k → k.current c ≡ some p → Exits k c p (exit c k)
exit-Exits k c p v e = elim (Bool-cases (ptr_eq k.initproc (some p))) [
  | inl h ↦ init_ends (exit-run k c p e ∙ rw h refl) (some_of_ptr_eq k.initproc p h)
  | inr h ↦
      let (k', run, x, v') = exit_locked-Exited k c p v e in
      other_ends k' (exit-run k c p e ∙ rw h run) h x v'
]
