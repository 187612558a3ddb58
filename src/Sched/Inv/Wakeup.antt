-- ===== src/Sched/Inv/Wakeup.antt =====
-- Waking processes: which become RUNNABLE, and that the queues follow.
use os_project_mlfqschedulin.Base.{
  ℕ, zero, suc, ◌+◌, ◌<◌, ◌≤◌, ◌≡◌, refl, fun_ext, ◌∙◌, ◌≢◌, inl, inr, Bool, false, ◌&&◌, List,
  arith, ltb, leb, if◌then◌else◌, Bool-cases, update,
}
use os_project_mlfqschedulin.Sched.{
  nproc, sleeping, runnable, Chan, Proc, Kernel, ok, state_eq, chan_eq, set_proc,
}
use os_project_mlfqschedulin.Sched.Process.{make_runnable, wake, wake_from, wakeup1}
use os_project_mlfqschedulin.Sched.Inv.{is_runnable, Inv}
use os_project_mlfqschedulin.Sched.Inv.Requeue.{add_to_queue-Inv}

-- The parts of the kernel beside the process table.
pub record SameRest (k k' : Kernel) : Type 0 where
  pub nextpid : k'.nextpid ≡ k.nextpid
  pub ticks : k'.ticks ≡ k.ticks
  pub initproc : k'.initproc ≡ k.initproc
  pub current : k'.current ≡ k.current

pub SameRest-refl : (k : Kernel) → SameRest k k
SameRest-refl k = record { nextpid = refl; ticks = refl; initproc = refl; current = refl }

pub SameRest-trans : (a b c : Kernel) → SameRest a b → SameRest b c → SameRest a c
SameRest-trans a b c h k = record {
  nextpid = k.nextpid ∙ h.nextpid;
  ticks = k.ticks ∙ h.ticks;
  initproc = k.initproc ∙ h.initproc;
  current = k.current ∙ h.current;
}

-- A process as make_runnable leaves it.
abbrev pub woken : ℕ → Proc → Proc
woken now p = record p { state = runnable; queue_entry_time = now }

-- The queues follow the process table in `k'`, whose processes are `f`.
pub record Follows (k k' : Kernel) (f : ℕ → Proc) : Type 0 where
  pub qs : ℕ → List ℕ
  pub inv : Inv k'.proc k'.links qs
  pub proc : k'.proc ≡ f
  pub rest : SameRest k k'

pub make_runnable-Inv :
    (k : Kernel) (qs : ℕ → List ℕ) (p : ℕ)
    → Inv k.proc k.links qs
    → p < nproc
    → is_runnable (k.proc p) ≡ false
    → (k.proc p).kstack ≢ 0
    → (k' : Kernel) × (make_runnable p k ≡ ok k')
      × Follows k k' (update k.proc p (woken k.ticks (k.proc p)))
unfolding make_runnable
make_runnable-Inv k qs p i b h st =
    let lv = (k.proc p).q_level in
    let v : Proc = record (k.proc p) { state = runnable } in
    let (m, run, i') =
      add_to_queue-Inv (set_proc p v k) k.proc qs p lv v i refl b (i.level p b) h refl st in
    (
      record k { proc = update k.proc p (woken k.ticks (k.proc p)); links = m },
      run,
      record {
        qs = _;
        inv = i';
        proc = refl;
        rest = record { nextpid = refl; ticks = refl; initproc = refl; current = refl };
      },
    )

-- `p` sleeps on `ch`.
abbrev pub sleeps_on : Chan → Proc → Bool
sleeps_on ch p = state_eq p.state sleeping && chan_eq p.chan ch

abbrev pub wake_proc : Chan → ℕ → Proc → Proc
wake_proc ch now p = if sleeps_on ch p then woken now p else p

wake-Inv :
    (k : Kernel) (qs : ℕ → List ℕ) (ch : Chan) (p : ℕ)
    → Inv k.proc k.links qs
    → p < nproc
    → (k' : Kernel) × (wake ch p k ≡ ok k')
      × Follows k k' (update k.proc p (wake_proc ch k.ticks (k.proc p)))
unfolding wake
wake-Inv k qs ch p i b = elim (Bool-cases (sleeps_on ch (k.proc p))) [
  | inl e ↦
      let (k', run, w) = make_runnable-Inv k qs p i b (ground arith) (i.stack p b (ground arith)) in
      (k', rw e run, rw e w)
  | inr e ↦ (
    k,
    rw e,
    record { qs = qs; inv = i; proc = rw e (fun_ext λ x. ground arith); rest = SameRest-refl k },
  )
]

-- The processes from index `i` on, `n` of them, after the loop of wakeup1.
abbrev pub woken_from : ℕ → ℕ → Chan → ℕ → (ℕ → Proc) → ℕ → Proc
woken_from n i ch now f x = if leb i x && ltb x (i + n) then wake_proc ch now (f x) else f x

wake_from-Inv :
    (n i : ℕ) (k : Kernel) (qs : ℕ → List ℕ) (ch : Chan)
    → Inv k.proc k.links qs
    → i + n ≤ nproc
    → (k' : Kernel) × (wake_from n i ch k ≡ ok k') × Follows k k' (woken_from n i ch k.ticks k.proc)
unfolding wake_from
wake_from-Inv zero i k qs ch v le = (
  k,
  refl,
  record { qs = qs; inv = v; proc = fun_ext (λ x. ground arith); rest = SameRest-refl k },
)
wake_from-Inv (suc n) i k qs ch v le =
    let (k1, run, w) = wake-Inv k qs ch i v (omega arith) in
    let (k2, run2, w2) = wake_from-Inv n (i + 1) k1 w.qs ch w.inv (omega arith) in
    (
      k2,
      rw run run2,
      record {
        qs = w2.qs;
        inv = w2.inv;
        proc = w2.proc ∙ rw (w.proc, w.rest.ticks) (fun_ext λ x. ground arith);
        rest = SameRest-trans k k1 k2 w.rest w2.rest;
      },
    )

-- From queues that hold exactly the RUNNABLE processes in order, wakeup1 returns, makes RUNNABLE
-- exactly the processes that sleep on the channel, with the current tick for their time of entry,
-- changes no other process, and the queues again hold exactly the RUNNABLE processes in order.
pub wakeup1-Inv :
    (k : Kernel) (qs : ℕ → List ℕ) (ch : Chan)
    → Inv k.proc k.links qs
    → (k' : Kernel) × (wakeup1 ch k ≡ ok k')
      × Follows k k' (λ x. if ltb x nproc then wake_proc ch k.ticks (k.proc x) else k.proc x)
unfolding wakeup1
wakeup1-Inv k qs ch v =
    let (k', run, w) = wake_from-Inv nproc 0 k qs ch v (omega arith) in
    (
      k',
      run,
      record { qs = w.qs; inv = w.inv; proc = w.proc ∙ fun_ext (λ x. ground arith); rest = w.rest },
    )
