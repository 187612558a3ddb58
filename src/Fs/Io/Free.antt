-- ===== src/Fs/Io/Free.antt =====
-- The number of free blocks, and what a call of bmap takes of it.
use os_project_mlfqschedulin.Base.{
  ℕ, zero, suc, ◌+◌, ◌<◌, ◌≤◌, ◌≡◌, refl, ap, inl, inr, Bool, true, false, arith, ltb, ◌==◌,
  if◌then◌else◌, Bool-cases,
}
use os_project_mlfqschedulin.Fs.{ndirect, Super, Fs, Inode}
use os_project_mlfqschedulin.Fs.Bits.{is_used}
use os_project_mlfqschedulin.Fs.Slots.{slot, Mapped, AlmostFull}

-- How many of the blocks below `n` are not in use.
unfoldable pub free_below : ℕ → (ℕ → Bool) → ℕ
free_below zero used = 0
free_below (suc n) used = free_below n used + (if used n then 0 else 1)

abbrev pub free_blocks : Fs → ℕ
free_blocks fs = free_below fs.sb.size (is_used fs)

free_below-two :
    (n a b : ℕ) (f g : ℕ → Bool)
    → ((z : ℕ) → z < n → f z ≡ false → (a == z) ≡ false → (b == z) ≡ false → g z ≡ false)
    → free_below n f ≤ free_below n g + (if ltb a n then 1 else 0) + (if ltb b n then 1 else 0)
unfolding free_below
free_below-two zero a b f g h = omega arith
free_below-two (suc n) a b f g h =
    let rest = free_below-two n a b f g (λ z lt. h z (omega arith)) in
    let now = h n (omega arith) in ground arith

free_below-none : (n : ℕ) (f : ℕ → Bool) → ((z : ℕ) → z < n → f z ≡ true) → free_below n f ≡ 0
unfolding free_below
free_below-none zero f h = refl
free_below-none (suc n) f h =
    rw (h n (omega arith), free_below-none n f (λ z lt. h z (omega arith))) refl

free_below-one :
    (n : ℕ) (f : ℕ → Bool)
    → ((y z : ℕ) → y < n → z < n → f y ≡ false → f z ≡ false → y ≡ z)
    → free_below n f ≤ 1
unfolding free_below
free_below-one zero f h = omega arith
free_below-one (suc n) f h = elim (Bool-cases (f n)) [
  | inl e ↦
      let rest = free_below-one n f (λ y z ly lz. h y z (omega arith) (omega arith)) in
      rw e (omega arith)
  | inr e ↦
      let rest : free_below n f ≡ 0 = free_below-none n f (λ z lt. elim (Bool-cases (f z)) [
        | inl t ↦ t
        | inr t ↦ let same = h z n (omega arith) (omega arith) t e in absurd (omega arith)
      ]) in
      rw e (omega arith)
]

pub AlmostFull-free : (fs : Fs) → AlmostFull fs → free_blocks fs ≤ 1
AlmostFull-free fs h = free_below-one fs.sb.size (is_used fs) h

pub Mapped-free :
    (fs fs' : Fs) (ip ip' : Inode) (s x : ℕ)
    → Mapped fs ip s fs' ip' x
    → free_blocks fs ≤ free_blocks fs' + 2
Mapped-free fs fs' ip ip' s x m =
    let two =
      free_below-two fs.sb.size x (slot fs' ip' ndirect) (is_used fs) (is_used fs') m.only in
    let same : free_blocks fs' ≡ free_below fs.sb.size (is_used fs') =
      ap (λ (b : Super). free_below b.size (is_used fs')) m.sb in
    ground arith

pub free_below-ext :
    (n : ℕ) (f g : ℕ → Bool) → ((z : ℕ) → z < n → f z ≡ g z) → free_below n f ≡ free_below n g
unfolding free_below
free_below-ext zero f g h = refl
free_below-ext (suc n) f g h =
    rw (h n (omega arith), free_below-ext n f g (λ z lt. h z (omega arith))) refl
