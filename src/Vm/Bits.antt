-- ===== src/Vm/Bits.antt =====
-- The bits of directory and table entries, for srcs/vm.c.
use os_project_mlfqschedulin.Base.{
  ℕ, zero, suc, ◌+◌, ◌-◌, ◌*◌, ◌/◌, ◌%◌, ◌^◌, ◌<◌, ◌≡◌, refl, ap, ◌∙◌, true, ◌||◌, arith, ◌==◌,
  if◌then◌else◌,
}
use os_project_mlfqschedulin.Page.{pgsize}
use os_project_mlfqschedulin.Page.Free.{IsPage}
use os_project_mlfqschedulin.Vm.{or_bits, pte_addr, v2p, p2v, is_present, pde_word, pte_word}

or_bits-suc :
    (n a b : ℕ)
    → or_bits (suc n) a b
      ≡ (if a % 2 == 1 || b % 2 == 1 then 1 else 0) + 2 * or_bits n (a / 2) (b / 2)
unfolding or_bits
or_bits-suc n a b = refl

or_bits-zero : (n a : ℕ) → a < 2 ^ n → or_bits n a 0 ≡ a
unfolding or_bits
or_bits-zero zero a lt = omega arith
or_bits-zero (suc n) a lt = let ih = or_bits-zero n (a / 2) (half n a lt) in ground arith
  where
    half : (n a : ℕ) → a < 2 ^ suc n → a / 2 < 2 ^ n
    half n a lt = omega arith

-- Three steps: flags below 8 change the three lowest bits only.
or_bits-flags :
    (n a b : ℕ)
    → b < 8
    → a < 2 ^ suc (suc (suc n))
    → or_bits (suc (suc (suc n))) a b ≡ a / 8 * 8 + or_bits 3 (a % 8) b
or_bits-flags n a b lt small =
    let one = or_bits-suc (suc (suc n)) a b in
    let two = or_bits-suc (suc n) (a / 2) (b / 2) in
    let three = or_bits-suc n (a / 2 / 2) (b / 2 / 2) in
    let gone : b / 2 / 2 / 2 ≡ 0 = omega arith in
    let top : or_bits n (a / 2 / 2 / 2) (b / 2 / 2 / 2) ≡ a / 2 / 2 / 2 =
      ap (or_bits n (a / 2 / 2 / 2)) gone ∙ or_bits-zero n (a / 2 / 2 / 2) (omega arith) in
    let one' = or_bits-suc 2 (a % 8) b in
    let two' = or_bits-suc 1 (a % 8 / 2) (b / 2) in
    let three' = or_bits-suc 0 (a % 8 / 2 / 2) (b / 2 / 2) in
    let none_left : or_bits 0 (a % 8 / 2 / 2 / 2) (b / 2 / 2 / 2) ≡ 0 =
      or_bits-none (a % 8 / 2 / 2 / 2) (b / 2 / 2 / 2) in
    ground arith
  where
    or_bits-none : (a b : ℕ) → or_bits 0 a b ≡ 0
    or_bits-none a b = unfold or_bits in refl

or_flag :
    (x r b c : ℕ)
    → x % 8 ≡ 0
    → x < 2 ^ 32 - 8
    → r < 8
    → b < 8
    → or_bits 3 r b ≡ c
    → or_bits 32 (x + r) b ≡ x + c
or_flag x r b c z lt lr lb e =
    let low : (x + r) % 8 ≡ r = omega arith in
    let high : (x + r) / 8 * 8 ≡ x = omega arith in
    or_bits-flags 29 (x + r) b lb (omega arith) ∙ rw (low, high, e) refl

pub pde_word-lem : (v : ℕ) → v % pgsize ≡ 0 → v2p v < 2 ^ 32 - 8 → pde_word v ≡ v2p v + 7
unfolding or_bits
pde_word-lem v z lt =
    let zero_flag : v2p v ≡ v2p v + 0 = omega arith in
    ap (λ (x : ℕ). or_bits 32 (or_bits 32 x 2) 4)
      (ap (λ (x : ℕ). or_bits 32 x 1) zero_flag
        ∙ or_flag (v2p v) 0 1 1 (omega arith) lt (omega arith) (omega arith) refl)
    ∙ ap (λ (x : ℕ). or_bits 32 x 4)
        (or_flag (v2p v) 1 2 3 (omega arith) lt (omega arith) (omega arith) refl)
    ∙ or_flag (v2p v) 3 4 7 (omega arith) lt (omega arith) (omega arith) refl

-- A table entry is present.
pub pte_word-present : (pa perm : ℕ) → is_present (pte_word pa perm) ≡ true
pte_word-present pa perm = let step = or_bits-suc 31 (or_bits 32 pa perm) 1 in ground arith

-- The directory entry of a page leads back to it.
pub pde_word-table :
    (end v : ℕ)
    → IsPage end v
    → v < 2 ^ 32
    → (is_present (pde_word v) ≡ true) × (p2v (pte_addr (pde_word v)) ≡ v)
pde_word-table end v page lt =
    let e = pde_word-lem v (ground arith) (ground arith) in rw e (ground arith, ground arith)
