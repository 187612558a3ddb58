-- ===== src/Fs/Alloc.antt =====
-- balloc and bfree of srcs/fs.c against the set of blocks in use.
use os_project_mlfqschedulin.Base.{
  ℕ, zero, suc, ◌^◌, ◌+◌, ◌-◌, ◌*◌, ◌/◌, ◌%◌, ◌<◌, ◌≤◌, ◌≡◌, refl, sym, ap, subst, ◌∙◌, ◌⊎◌, inl,
  inr, Bool, true, false, ◌||◌, ◌&&◌, not, none, some, arith, ltb, leb, ◌==◌, if◌then◌else◌,
  Bool-cases,
}
use os_project_mlfqschedulin.Fs.{
  bpb, Super, Fs, bit, set_bit, clear_bit, bblock, set_byte, bzero, scan_bits, scan_blocks, mark,
  alloc_at, balloc, bfree,
}
use os_project_mlfqschedulin.Fs.Bits.{
  bit-set_bit, bit-clear_bit, is_used, is_map, set_byte-at, is_used-byte,
}

-- A file system whose block 0 and map are in use, with 32-bit block numbers.
pub record IsFs (fs : Fs) : Type 0 where
  pub small : fs.sb.size ≤ 2 ^ 32
  pub boot : is_used fs 0 ≡ true
  pub map : (z : ℕ) → z < fs.sb.size → is_map fs z ≡ true → is_used fs z ≡ true

is_used-at :
    (q j : ℕ) (fs : Fs)
    → j < bpb
    → is_used fs (q * bpb + j) ≡ bit (fs.blk (bblock (q * bpb) fs) (j / 8)) (j % 8)
is_used-at q j fs lt =
    let a : (q * bpb + j) / bpb ≡ q * bpb / bpb = omega arith in
    let b : (q * bpb + j) % bpb ≡ j = omega arith in rw (a, b) refl

scan_bits-cases :
    (n bi q : ℕ) (fs : Fs)
    → bi + n ≤ bpb
    → ((scan_bits n bi (q * bpb) fs ≡ none)
        × ((j : ℕ)
            → bi ≤ j
            → j < bi + n
            → q * bpb + j < fs.sb.size
            → is_used fs (q * bpb + j) ≡ true))
      ⊎ ((j : ℕ) × (scan_bits n bi (q * bpb) fs ≡ some j)
          × (j < bpb)
          × (q * bpb + j < fs.sb.size)
          × (is_used fs (q * bpb + j) ≡ false))
unfolding scan_bits
scan_bits-cases zero bi q fs le = inl (refl, λ j lo hi lt. absurd (omega arith))
scan_bits-cases (suc n) bi q fs le = elim (Bool-cases (ltb (q * bpb + bi) fs.sb.size)) [
  | inr t ↦ inl (rw t refl, λ j lo hi lt. absurd (ground arith))
  | inl t ↦
      let eq = is_used-at q bi fs (omega arith) in
      elim (Bool-cases (bit (fs.blk (bblock (q * bpb) fs) (bi / 8)) (bi % 8))) [
        | inr e ↦ inr (bi, rw (t, e) refl, omega arith, ground arith, eq ∙ e)
        | inl e ↦ elim (scan_bits-cases n (bi + 1) q fs (omega arith)) [
          | inl (run, all) ↦ inl (
            rw (t, e) run,
            λ j lo hi lt. elim (Bool-cases (bi == j)) [
              | inl s ↦
                  let same : bi ≡ j = ground arith in
                  subst (λ (i : ℕ). is_used fs (q * bpb + i) ≡ true) same (eq ∙ e)
              | inr s ↦ all j (ground arith) (omega arith) lt
            ],
          )
          | inr (j, run, a, b, c) ↦ inr (j, rw (t, e) run, a, b, c)
        ]
      ]
]

module _ (n b : ℕ) (fs : Fs) (t : ltb b fs.sb.size ≡ true) where
  scan_blocks-next :
      scan_bits bpb 0 b fs ≡ none → scan_blocks (suc n) b fs ≡ scan_blocks n (b + bpb) fs
  unfolding scan_blocks
  scan_blocks-next e = rw (t, e) refl

  scan_blocks-found :
      (bi : ℕ) → scan_bits bpb 0 b fs ≡ some bi → scan_blocks (suc n) b fs ≡ some (b, bi)
  unfolding scan_blocks
  scan_blocks-found bi e = rw (t, e) refl

scan_blocks-end : (n b : ℕ) (fs : Fs) → ltb b fs.sb.size ≡ false → scan_blocks (suc n) b fs ≡ none
unfolding scan_blocks
scan_blocks-end n b fs t = rw t refl

scan_blocks-cases :
    (n q : ℕ) (fs : Fs)
    → fs.sb.size ≤ q * bpb + n * bpb
    → ((scan_blocks n (q * bpb) fs ≡ none)
        × ((y : ℕ) → q * bpb ≤ y → y < fs.sb.size → is_used fs y ≡ true))
      ⊎ ((r : ℕ) × (j : ℕ) × (scan_blocks n (q * bpb) fs ≡ some (r * bpb, j))
          × (j < bpb)
          × (r * bpb + j < fs.sb.size)
          × (is_used fs (r * bpb + j) ≡ false))
scan_blocks-cases zero q fs le = inl (unfold scan_blocks in refl, λ y lo lt. absurd (omega arith))
scan_blocks-cases (suc n) q fs le = elim (Bool-cases (ltb (q * bpb) fs.sb.size)) [
  | inr t ↦ inl (scan_blocks-end n (q * bpb) fs t, λ y lo lt. absurd (ground arith))
  | inl t ↦
      let up : q * bpb + bpb ≡ (q + 1) * bpb = omega arith in
      elim (scan_bits-cases bpb 0 q fs (omega arith)) [
        | inr (j, run, a, b, c) ↦ inr (q, j, scan_blocks-found n (q * bpb) fs t j run, a, b, c)
        | inl (run, all) ↦ elim (scan_blocks-cases n (q + 1) fs (omega arith)) [
          | inr (r, j, run', a, b, c) ↦
              inr (r, j, scan_blocks-next n (q * bpb) fs t run ∙ rw up run', a, b, c)
          | inl (run', all') ↦ inl (
            scan_blocks-next n (q * bpb) fs t run ∙ rw up run',
            λ y lo lt. elim (Bool-cases (ltb y ((q + 1) * bpb))) [
              | inr s ↦ all' y (ground arith) lt
              | inl s ↦
                  let split : q * bpb + (y - q * bpb) ≡ y = omega arith in
                  subst (λ (z : ℕ). is_used fs z ≡ true) split
                    (all (y - q * bpb) (omega arith) (ground arith) (omega arith))
            ],
          )
        ]
      ]
]

-- The map block of a block of the file system is in the map.
map_of : (fs : Fs) (y : ℕ) → y < fs.sb.size → is_map fs (bblock y fs) ≡ true
map_of fs y lt = ground arith

mark-used :
    (q j : ℕ) (fs : Fs) (y : ℕ)
    → j < bpb
    → is_used (mark (q * bpb) j fs) y ≡ (if q * bpb + j == y then true else is_used fs y)
unfolding mark
mark-used q j fs y lt =
    let at : q * bpb / bpb ≡ q = omega arith in
    rw at (
      is_used-byte q j (set_bit (fs.blk (q + fs.sb.bmapstart) (j / 8)) (j % 8)) fs y true lt
        (λ i. bit-set_bit (fs.blk (q + fs.sb.bmapstart) (j / 8)) (j % 8) i ∙ or_if (j % 8 == i) _))
  where
    or_if : (t u : Bool) → (t || u) ≡ (if t then true else u)
    or_if true u = refl
    or_if false u = refl

mark-other :
    (b j : ℕ) (fs : Fs) (z o : ℕ) → (bblock b fs == z) ≡ false → (mark b j fs).blk z o ≡ fs.blk z o
unfolding mark
mark-other b j fs z o ne = set_byte-at (bblock b fs) (j / 8) _ fs z o ∙ rw ne refl

-- The block `x` was free, and is now in use with zeros in it; no other block of the file system
-- changes its use, and no block outside the map its contents.
pub record Allocated (fs fs' : Fs) (x : ℕ) : Type 0 where
  pub within : x < fs.sb.size
  pub free : is_used fs x ≡ false
  pub sb : fs'.sb ≡ fs.sb
  pub used : (y : ℕ) → y < fs.sb.size → is_used fs' y ≡ (if x == y then true else is_used fs y)
  pub zero : (o : ℕ) → fs'.blk x o ≡ 0
  pub others : (z o : ℕ) → (x == z) ≡ false → is_map fs z ≡ false → fs'.blk z o ≡ fs.blk z o

bzero-used :
    (x : ℕ) (fs : Fs) (y : ℕ) → (x == bblock y fs) ≡ false → is_used (bzero x fs) y ≡ is_used fs y
unfolding bzero
bzero-used x fs y ne = rw ne refl

mark-sb : (b j : ℕ) (fs : Fs) → (mark b j fs).sb ≡ fs.sb
unfolding mark
mark-sb b j fs = refl

mark-bblock : (b j y : ℕ) (fs : Fs) → bblock y (mark b j fs) ≡ bblock y fs
unfolding mark
mark-bblock b j y fs = refl

alloc_at-Allocated :
    (q j : ℕ) (fs : Fs)
    → IsFs fs
    → j < bpb
    → q * bpb + j < fs.sb.size
    → is_used fs (q * bpb + j) ≡ false
    → Allocated fs (bzero (q * bpb + j) (mark (q * bpb) j fs)) (q * bpb + j)
unfolding bzero
alloc_at-Allocated q j fs h lt within free =
    let x : ℕ = q * bpb + j in
    let not_map : is_map fs x ≡ false = elim (Bool-cases (is_map fs x)) [
      | inl m ↦ absurd (ground (arith, h.map x within m))
      | inr m ↦ m
    ] in
    let q_map : is_map fs (bblock (q * bpb) fs) ≡ true = map_of fs (q * bpb) (omega arith) in
    record {
      within = within;
      free = free;
      sb = mark-sb (q * bpb) j fs;
      used = λ y ly.
          let ne : (x == bblock y fs) ≡ false = apart x (bblock y fs) not_map (map_of fs y ly) in
          bzero-used x (mark (q * bpb) j fs) y (rw (mark-bblock (q * bpb) j y fs) ne)
          ∙ mark-used q j fs y lt;
      zero = λ o. let e : (x == x) ≡ true = ground arith in rw e refl;
      others = λ z o ne m.
          let ne' : (bblock (q * bpb) fs == z) ≡ false = apart' (bblock (q * bpb) fs) z q_map m in
          rw ne (mark-other (q * bpb) j fs z o ne');
    }
  where
    apart : (x z : ℕ) → is_map fs x ≡ false → is_map fs z ≡ true → (x == z) ≡ false
    apart x z a b = ground arith

    apart' : (x z : ℕ) → is_map fs x ≡ true → is_map fs z ≡ false → (x == z) ≡ false
    apart' x z a b = ground arith

-- On a file system whose map and block 0 are in use, balloc panics only if no block is free, and
-- otherwise takes a free block and fills it with zeros.
pub balloc-Allocated :
    (fs : Fs)
    → IsFs fs
    → ((balloc fs ≡ none) × ((y : ℕ) → y < fs.sb.size → is_used fs y ≡ true))
      ⊎ ((x : ℕ) × (fs' : Fs) × (balloc fs ≡ some (fs', x)) × Allocated fs fs' x)
unfolding balloc alloc_at
balloc-Allocated fs h = elim (scan_blocks-cases fs.sb.size 0 fs (omega arith)) [
  | inl (run, all) ↦ inl (rw run refl, λ y lt. all y (omega arith) lt)
  | inr (q, j, run, a, b, c) ↦ inr (q * bpb + j, _, rw run refl, alloc_at-Allocated q j fs h a b c)
]

-- The block `x` was in use and is free; nothing else changes.
pub record Freed (fs fs' : Fs) (x : ℕ) : Type 0 where
  pub used : is_used fs x ≡ true
  pub sb : fs'.sb ≡ fs.sb
  pub free : (y : ℕ) → is_used fs' y ≡ (if x == y then false else is_used fs y)
  pub others : (z o : ℕ) → (bblock x fs == z) ≡ false → fs'.blk z o ≡ fs.blk z o

-- bfree panics if the block is free, and otherwise frees it, and no other one.
pub bfree-Freed :
    (x : ℕ) (fs : Fs)
    → ((bfree x fs ≡ none) × (is_used fs x ≡ false))
      ⊎ ((fs' : Fs) × (bfree x fs ≡ some fs') × Freed fs fs' x)
unfolding bfree
bfree-Freed x fs = elim (Bool-cases (is_used fs x)) [
  | inr e ↦ inl (rw e refl, e)
  | inl e ↦ inr (
    set_byte (bblock x fs) (x % bpb / 8)
        (clear_bit (fs.blk (bblock x fs) (x % bpb / 8)) (x % bpb % 8)) fs,
    rw e refl,
    record {
      used = e;
      sb = refl;
      free = λ y.
          let split : x / bpb * bpb + x % bpb ≡ x = omega arith in
          is_used-byte (x / bpb) (x % bpb)
            (clear_bit (fs.blk (bblock x fs) (x % bpb / 8)) (x % bpb % 8)) fs y false (omega arith)
            (λ i.
              bit-clear_bit (fs.blk (bblock x fs) (x % bpb / 8)) (x % bpb % 8) i
              ∙ and_if (x % bpb % 8 == i) _)
          ∙ rw split refl;
      others = λ z o ne. set_byte-at (bblock x fs) (x % bpb / 8) _ fs z o ∙ rw ne refl;
    },
  )
]
  where
    and_if : (t u : Bool) → (not t && u) ≡ (if t then false else u)
    and_if true u = refl
    and_if false u = refl

pub Allocated-IsFs : (fs fs' : Fs) (x : ℕ) → IsFs fs → Allocated fs fs' x → IsFs fs'
Allocated-IsFs fs fs' x h a = record {
  small = subst (λ (b : Super). b.size ≤ 2 ^ 32) (sym a.sb) h.small;
  boot = let lt = a.within in a.used 0 (omega arith) ∙ rw h.boot (either (x == 0));
  map = λ z lt m.
      let lt' : z < fs.sb.size = subst (λ (b : Super). z < b.size) a.sb lt in
      let m' : is_map fs z ≡ true = sym (same z a.sb) ∙ m in
      a.used z lt' ∙ rw (h.map z lt' m') (either (x == z));
}
  where
    either : (t : Bool) → (if t then true else true) ≡ true
    either true = refl
    either false = refl

    same : (z : ℕ) → fs'.sb ≡ fs.sb → is_map fs' z ≡ is_map fs z
    same z e =
        ap (λ (b : Super). leb b.bmapstart z && ltb z (b.bmapstart + (b.size + bpb - 1) / bpb)) e
