-- ===== src/Sched.antt =====
-- The process table of srcs/proc.h and srcs/proc.c: a process, the doubly linked queues, and the
-- part of the kernel's memory that the scheduler reads and writes. A pointer into `ptable.proc` is
-- an index, with `none` for 0. The two link fields of each `struct proc` are kept in maps of their
-- own beside the queue ends.
pub mod Queue
pub mod Mlfq
pub mod Process
pub mod Trap
pub mod Inv
pub mod System
pub mod Policy
mod Tests
use os_project_mlfqschedulin.Base.{ℕ, Bool, true, false, Option, none, some, ◌==◌, update}

abbrev pub nproc : ℕ
nproc = 64

abbrev pub levels : ℕ
levels = 4

abbrev pub Ptr : Type 0
Ptr = Option ℕ

pub data ProcState : Type 0 where
  unused embryo sleeping runnable running zombie : ProcState

pub data ProcType : Type 0 where
  idle init shell : ProcType

-- What a process sleeps on: an address, told apart by the object that stands there.
pub data Chan : Type 0 where
  no_chan : Chan
  proc_chan : ℕ → Chan
  ticks_chan : Chan
  other_chan : ℕ → Chan

pub record Proc : Type 0 where
  pub sz : ℕ
  pub pgdir : ℕ
  pub kstack : ℕ
  pub state : ProcState
  pub pid : ℕ
  pub parent : Ptr
  pub chan : Chan
  pub killed : Bool
  pub q_level : ℕ
  pub cpu_burst : ℕ
  pub cpu_wait : ℕ
  pub io_wait_time : ℕ
  pub end_time : ℕ
  pub total_cpu_time : ℕ
  pub queue_entry_time : ℕ
  pub type : ProcType

pub record ProcList : Type 0 where
  pub head : Ptr
  pub tail : Ptr

pub record Links : Type 0 where
  pub next : ℕ → Ptr
  pub prev : ℕ → Ptr
  pub queues : ℕ → ProcList

pub record Kernel : Type 0 where
  pub proc : ℕ → Proc
  pub links : Links
  pub nextpid : ℕ
  pub ticks : ℕ
  pub initproc : Ptr
  -- `cpus[c].proc`
  pub current : ℕ → Ptr

pub data Panic : Type 0 where
  invalid_queue_level init_exiting sched_running out_of_memory : Panic

-- `fault` is an access outside an array or through a null pointer.
pub data Result {ℓ} (A : Type ℓ) : Type ℓ where
  ok : A → Result A
  panic : Panic → Result A
  fault : Result A
  out_of_fuel : Result A

infixl 5 ◌>>=◌
abbrev pub ◌>>=◌ {ℓ κ} : {A : Type ℓ} {B : Type κ} → Result A → (A → Result B) → Result B
ok a >>= f = f a
panic e >>= f = panic e
fault >>= f = fault
out_of_fuel >>= f = out_of_fuel

abbrev pub state_eq : ProcState → ProcState → Bool
state_eq unused unused = true
state_eq embryo embryo = true
state_eq sleeping sleeping = true
state_eq runnable runnable = true
state_eq running running = true
state_eq zombie zombie = true
state_eq _ _ = false

abbrev pub chan_eq : Chan → Chan → Bool
chan_eq no_chan no_chan = true
chan_eq (proc_chan a) (proc_chan b) = a == b
chan_eq ticks_chan ticks_chan = true
chan_eq (other_chan a) (other_chan b) = a == b
chan_eq _ _ = false

abbrev pub ptr_eq : Ptr → Ptr → Bool
ptr_eq none none = true
ptr_eq (some a) (some b) = a == b
ptr_eq _ _ = false

-- INIT and SHELL processes keep their queue.
abbrev pub is_pinned : ProcType → Bool
is_pinned idle = false
is_pinned _ = true

-- A write to the process at one index.
abbrev pub set_proc : ℕ → Proc → Kernel → Kernel
set_proc p v k = record k { proc = update k.proc p v }
