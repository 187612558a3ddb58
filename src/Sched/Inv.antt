-- ===== src/Sched/Inv.antt =====
-- The invariant of the scheduler's part of the process table.
pub mod Embryo
pub mod Enqueue
pub mod Requeue
pub mod Wakeup
pub mod Switch
pub mod Next
pub mod Exit
pub mod Create
pub mod Signals
pub mod Wait
pub mod Info
pub mod Promote
pub mod Aging
pub mod Timers
pub mod Boot
use os_project_mlfqschedulin.Base.{
  ℕ, ◌<◌, ◌≡◌, refl, ◌≢◌, Bool, true, false, Option, none, some, List,
}
use os_project_mlfqschedulin.Sched.{
  nproc, levels, Ptr, ProcState, unused, embryo, sleeping, runnable, running, zombie, Proc, Links,
  Kernel, Result, ok, state_eq,
}
use os_project_mlfqschedulin.Base.{has}
use os_project_mlfqschedulin.Sched.Queue.Linked.{Linked}
use os_project_mlfqschedulin.Sched.Queue.Order.{Sorted}

abbrev pub is_runnable : Proc → Bool
is_runnable p = state_eq p.state runnable

abbrev pub is_running : Proc → Bool
is_running p = state_eq p.state running

-- States in which a process has a kernel stack.
abbrev pub is_live : ProcState → Bool
is_live unused = false
is_live embryo = false
is_live _ = true

-- The queues `qs` hold exactly the RUNNABLE processes, each at its level and in order of priority.
pub record Inv (proc : ℕ → Proc) (l : Links) (qs : ℕ → List ℕ) : Type 0 where
  pub linked : Linked l qs
  pub queued :
      (lv x : ℕ) → has x (qs lv) ≡ true → (is_runnable (proc x) ≡ true) × ((proc x).q_level ≡ lv)
  pub complete :
      (x : ℕ) → x < nproc → is_runnable (proc x) ≡ true → has x (qs (proc x).q_level) ≡ true
  pub sorted : (lv : ℕ) → Sorted proc (qs lv)
  pub level : (x : ℕ) → x < nproc → (proc x).q_level < levels
  pub stack : (x : ℕ) → x < nproc → is_live (proc x).state ≡ true → (proc x).kstack ≢ 0

-- A CPU runs a process that is RUNNING, and no process runs on two CPUs.
pub record Cpus (proc : ℕ → Proc) (current : ℕ → Ptr) : Type 0 where
  pub busy : (c x : ℕ) → current c ≡ some x → (x < nproc) × (is_running (proc x) ≡ true)
  pub once : (c d x : ℕ) → current c ≡ some x → current d ≡ some x → c ≡ d

pub record Valid (k : Kernel) : Type 0 where
  pub qs : ℕ → List ℕ
  pub inv : Inv k.proc k.links qs
  pub cpus : Cpus k.proc k.current

-- The CPU runs the init process.
abbrev pub RunsInit : ℕ → Kernel → Type 0
RunsInit c k = (p : ℕ) × (k.current c ≡ some p) × (k.initproc ≡ some p)

-- The call returns, and what it leaves is valid.
abbrev pub Succeeds : Result Kernel → Type 0
Succeeds r = (k : Kernel) × (r ≡ ok k) × Valid k
