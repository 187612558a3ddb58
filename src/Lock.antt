-- ===== src/Lock.antt =====
-- Spin locks and the nesting of disabled interrupts, srcs/spinlock.c, on several CPUs.
pub mod Steps
pub mod Guard
pub mod Runs
pub mod Moves
pub mod Invariant
pub mod Exclusion
pub mod Handover
mod Tests
use os_project_mlfqschedulin.Base.{
  ℕ, zero, suc, ◌+◌, ◌-◌, ◌≡◌, Bool, true, false, ◌||◌, ◌&&◌, not, Option, none, some, ◌==◌,
  if◌then◌else◌, update, slt, inc, dec,
}

-- `ncli` and `intena` of struct cpu, and the interrupt flag of its eflags. `ncli` is the pattern of an int.
pub record Cpu : Type 0 where
  pub ncli : ℕ
  pub intena : Bool
  pub flag : Bool

-- struct spinlock without what only debugging reads; `owner` is its field cpu.
pub record Lock : Type 0 where
  pub locked : Bool
  pub owner : Option ℕ

abbrev pub initlock : Lock
initlock = record { locked = false; owner = none }

abbrev pub pushcli : Cpu → Cpu
pushcli q = record {
  ncli = inc q.ncli;
  intena = if q.ncli == 0 then q.flag else q.intena;
  flag = false;
}

-- `none` is one of the two panics.
abbrev pub popcli : Cpu → Option Cpu
popcli q =
    if q.flag
    then none
    else if slt (dec q.ncli) 0
    then none
    else some (record q { ncli = dec q.ncli; flag = dec q.ncli == 0 && q.intena })

-- `lk->cpu == mycpu()` on the CPU `c`.
abbrev pub is_owner : ℕ → Lock → Bool
is_owner c lk = elim lk.owner [ none ↦ false | some d ↦ d == c ]

unfoldable pub holding : ℕ → Lock → Cpu → Option (Cpu × Bool)
holding c lk q = elim (popcli (pushcli q)) [
  | none ↦ none
  | some r ↦ some (r, lk.locked && is_owner c lk)
]

-- Where a CPU stands: outside, in the loop of acquire, behind it, or in release behind `lk->cpu = 0`.
pub data Pc : Type 0 where
  outside : Pc
  spinning : ℕ → Pc
  taken : ℕ → Pc
  releasing : ℕ → Pc

pub record Machine : Type 0 where
  pub cpu : ℕ → Cpu
  pub lock : ℕ → Lock
  pub pc : ℕ → Pc

-- acquire up to its loop.
unfoldable pub begin_acquire : ℕ → ℕ → Machine → Option Machine
unfolding holding
begin_acquire c l m = elim (holding c (m.lock l) (pushcli (m.cpu c))) [
  | none ↦ none
  | some r ↦
      if r.1
      then none
      else some (record m { cpu = update m.cpu c (r.0); pc = update m.pc c (spinning l) })
]

-- One xchg of acquire.
unfoldable pub try_lock : ℕ → ℕ → Machine → Machine
try_lock c l m = record m {
  lock = update m.lock l (record (m.lock l) { locked = true });
  pc = update m.pc c (if (m.lock l).locked then spinning l else taken l);
}

-- acquire behind its loop.
unfoldable pub end_acquire : ℕ → ℕ → Machine → Machine
end_acquire c l m = record m {
  lock = update m.lock l (record (m.lock l) { owner = some c });
  pc = update m.pc c outside;
}

-- release up to `lk->cpu = 0`.
unfoldable pub begin_release : ℕ → ℕ → Machine → Option Machine
unfolding holding
begin_release c l m = elim (holding c (m.lock l) (m.cpu c)) [
  | none ↦ none
  | some r ↦
      if not (r.1)
      then none
      else some (record {
        cpu = update m.cpu c (r.0);
        lock = update m.lock l (record (m.lock l) { owner = none });
        pc = update m.pc c (releasing l);
      })
]

-- release behind it: `lk->locked = 0` and popcli().
unfoldable pub end_release : ℕ → ℕ → Machine → Option Machine
end_release c l m = elim (popcli (m.cpu c)) [
  | none ↦ none
  | some q ↦ some (record {
    cpu = update m.cpu c q;
    lock = update m.lock l (record (m.lock l) { locked = false });
    pc = update m.pc c outside;
  })
]
