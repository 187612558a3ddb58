-- ===== src/Lock/Exclusion.antt =====
-- What the locks of srcs/spinlock.c promise to the code between acquire and release.
use os_project_mlfqschedulin.Base.{ℕ, ◌≡◌, true, false, none, some, List, ◌==◌, has}
use os_project_mlfqschedulin.Lock.{Lock, Machine, begin_acquire, begin_release}

-- How the lock `l` stands to the CPU `c` that is in no call.
pub data Stands (m : Machine) (held : ℕ → List ℕ) (c l : ℕ) : Type 0 where
  holds :
      (m' : Machine)
      → has l (held c) ≡ true
      → (m.lock l).locked ≡ true
      → (m.cpu c).flag ≡ false
      → ((d : ℕ) → (c == d) ≡ false → has l (held d) ≡ false)
      → begin_acquire c l m ≡ none
      → begin_release c l m ≡ some m'
      → Stands m held c l
  lacks :
      (m' : Machine)
      → has l (held c) ≡ false
      → begin_acquire c l m ≡ some m'
      → begin_release c l m ≡ none
      → Stands m held c l
