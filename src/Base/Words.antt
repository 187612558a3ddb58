-- ===== src/Base/Words.antt =====
-- The machine's 32-bit words. A `uint` and an `int` are both kept as the bit pattern, a number
-- below 2 ^ 32; an `int` is compared through `bias`, which puts the negative patterns first.
use Prim.Native.Nat.{ℕ, ◌+◌, ◌-◌, ◌%◌, ◌^◌}
use mathlib.Core.Bool.{Bool}
use os_project_mlfqschedulin.Base.Tests.{ltb, leb}

abbrev pub word : ℕ
word = 2 ^ 32

-- The pattern of -1.
abbrev pub minus_one : ℕ
minus_one = 0xffff_ffff

abbrev pub bias : ℕ → ℕ
bias a = (a + 2 ^ 31) % 2 ^ 32

-- `a < b` and `a <= b` between values of type `int`.
abbrev pub slt : ℕ → ℕ → Bool
slt a b = ltb (bias a) (bias b)

abbrev pub sle : ℕ → ℕ → Bool
sle a b = leb (bias a) (bias b)

-- `a + 1` and `a - 1`, wrapping.
abbrev pub inc : ℕ → ℕ
inc a = (a + 1) % 2 ^ 32

abbrev pub dec : ℕ → ℕ
dec a = (a + 2 ^ 32 - 1) % 2 ^ 32
