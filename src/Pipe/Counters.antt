-- ===== src/Pipe/Counters.antt =====
-- The two counters of a pipe, which wrap around at 2 ^ 32, and the places in its ring.
use os_project_mlfqschedulin.Base.{ℕ, suc, ◌+◌, ◌%◌, ◌^◌, ◌<◌, ◌≤◌, ◌≡◌, false, arith, ◌==◌, inc}
use os_project_mlfqschedulin.Pipe.{pipesize}

-- The counter `n` steps after `r`.
abbrev pub after : ℕ → ℕ → ℕ
after r n = (r + n) % 2 ^ 32

pub after-zero : (r : ℕ) → r < 2 ^ 32 → after r 0 ≡ r
after-zero r lt = omega arith

pub after-inc : (r n : ℕ) → after (inc r) n ≡ after r (suc n)
after-inc r n = omega arith

pub inc-after : (r n : ℕ) → inc (after r n) ≡ after r (n + 1)
inc-after r n = omega arith

-- Two places less than 512 apart differ.
pub after-apart :
    (r n : ℕ)
    → r < 2 ^ 32
    → 0 < n
    → n < pipesize
    → ((after r n % pipesize) == (r % pipesize)) ≡ false
after-apart r n lt lo hi = ground arith

pub full_lem : (r n : ℕ) → r < 2 ^ 32 → n < pipesize → (after r n == after r pipesize) ≡ false
full_lem r n lt hi = ground arith

pub empty_lem : (r n : ℕ) → r < 2 ^ 32 → 0 < n → n ≤ pipesize → (r == after r n) ≡ false
empty_lem r n lt lo hi = ground arith
