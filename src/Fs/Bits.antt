-- ===== src/Fs/Bits.antt =====
-- Bits of a byte, and the bit map of srcs/fs.c as a set of blocks.
use os_project_mlfqschedulin.Base.{
  ℕ, zero, suc, ◌+◌, ◌-◌, ◌*◌, ◌/◌, ◌%◌, ◌<◌, ◌≡◌, refl, ap, ◌∙◌, inl, inr, Bool, false, ◌||◌, ◌&&◌,
  not, arith, ltb, leb, ◌==◌, if◌then◌else◌, Bool-cases,
}
use os_project_mlfqschedulin.Fs.{set_byte, bpb, Fs, bit, set_bit, clear_bit, bblock}

pub bit-set_bit : (x k j : ℕ) → bit (set_bit x k) j ≡ ((k == j) || bit x j)
unfolding bit set_bit
bit-set_bit x zero zero = ground arith
bit-set_bit x zero (suc j) =
    let half : (if x % 2 == 1 then x else x + 1) / 2 ≡ x / 2 = ground arith in
    let ne : (0 == suc j) ≡ false = ground arith in rw (ne, half) refl
bit-set_bit x (suc k) zero = ground arith
bit-set_bit x (suc k) (suc j) =
    let half : (2 * set_bit (x / 2) k + x % 2) / 2 ≡ set_bit (x / 2) k = omega arith in
    let same : (suc k == suc j) ≡ (k == j) = ground arith in
    rw (half, same) (bit-set_bit (x / 2) k j)

pub bit-clear_bit : (x k j : ℕ) → bit (clear_bit x k) j ≡ (not (k == j) && bit x j)
unfolding bit clear_bit
bit-clear_bit x zero zero = ground arith
bit-clear_bit x zero (suc j) =
    let half : (if x % 2 == 1 then x - 1 else x) / 2 ≡ x / 2 = ground arith in
    let ne : (0 == suc j) ≡ false = ground arith in rw (ne, half) refl
bit-clear_bit x (suc k) zero = ground arith
bit-clear_bit x (suc k) (suc j) =
    let half : (2 * clear_bit (x / 2) k + x % 2) / 2 ≡ clear_bit (x / 2) k = omega arith in
    let same : (suc k == suc j) ≡ (k == j) = ground arith in
    rw (half, same) (bit-clear_bit (x / 2) k j)

-- The block `x` is marked in the map.
abbrev pub is_used : Fs → ℕ → Bool
is_used fs x = bit (fs.blk (bblock x fs) (x % bpb / 8)) (x % bpb % 8)

-- `x` is a block of the map.
abbrev pub is_map : Fs → ℕ → Bool
is_map fs x = leb fs.sb.bmapstart x && ltb x (fs.sb.bmapstart + (fs.sb.size + bpb - 1) / bpb)

pub set_byte-at :
    (b o v : ℕ) (fs : Fs) (c p : ℕ)
    → (set_byte b o v fs).blk c p ≡ (if (b == c) && (o == p) then v else fs.blk c p)
set_byte-at b o v fs c p = elim (Bool-cases (b == c)) [
  | inl e ↦ let same : b ≡ c = ground arith in rw (e, same) refl
  | inr e ↦ rw e refl
]

-- Two bits of the map are one exactly if they stand for one block.
same_bit :
    (q bi y : ℕ)
    → bi < bpb
    → (q * bpb + bi == y) ≡ ((q == y / bpb) && (bi / 8 == y % bpb / 8) && (bi % 8 == y % bpb % 8))
same_bit q bi y lt = ground arith

start_of_map : (q y s : ℕ) → (q + s == y + s) ≡ (q == y)
start_of_map q y s = ground arith

-- A write of one byte of the map, by what it does to the bits of that byte.
pub is_used-byte :
    (q bi v : ℕ) (fs : Fs) (y : ℕ) (r : Bool)
    → bi < bpb
    → ((j : ℕ)
        → bit v j ≡ (if bi % 8 == j then r else bit (fs.blk (q + fs.sb.bmapstart) (bi / 8)) j))
    → is_used (set_byte (q + fs.sb.bmapstart) (bi / 8) v fs) y
      ≡ (if q * bpb + bi == y then r else is_used fs y)
is_used-byte q bi v fs y r lt h =
    let at = set_byte-at (q + fs.sb.bmapstart) (bi / 8) v fs (bblock y fs) (y % bpb / 8) in
    let s = start_of_map q (y / bpb) fs.sb.bmapstart in
    ap (λ (x : ℕ). bit x (y % bpb % 8)) at
    ∙ rw (same_bit q bi y lt, s)
        (elim (Bool-cases (q == y / bpb)) [
          | inr e ↦ rw e refl
          | inl e ↦ elim (Bool-cases (bi / 8 == y % bpb / 8)) [
            | inr f ↦ rw (e, f) refl
            | inl f ↦
                let qs : q ≡ y / bpb = ground arith in
                let os : bi / 8 ≡ y % bpb / 8 = ground arith in
                rw (e, f) (h (y % bpb % 8) ∙ rw (qs, os) refl)
          ]
        ])
