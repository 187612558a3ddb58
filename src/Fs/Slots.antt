-- ===== src/Fs/Slots.antt =====
-- The slots of an inode and what a call of bmap does to them.
pub mod Grow
pub mod Addrs
pub mod Entries
use os_project_mlfqschedulin.Base.{
  fun_ext, ℕ, zero, suc, ◌+◌, ◌-◌, ◌*◌, ◌/◌, ◌%◌, ◌^◌, ◌<◌, ◌≤◌, ◌≡◌, refl, sym, ap, subst, ◌∙◌,
  ◌⊎◌, inl, inr, Bool, true, false, ◌||◌, ◌&&◌, not, Option, none, some, arith, ltb, leb, ◌==◌,
  if◌then◌else◌, Bool-cases, update,
}
use os_project_mlfqschedulin.Fs.{
  ndirect, nindirect, bpb, Super, Fs, Inode, bblock, balloc, word_at, put_word, set_addr, get_addr,
  get_entry, map_indirect, bmap,
}
use os_project_mlfqschedulin.Fs.Bits.{is_used, is_map}
use os_project_mlfqschedulin.Fs.Alloc.{IsFs, Allocated, balloc-Allocated, Allocated-IsFs}
use os_project_mlfqschedulin.Fs.Words.{word_at-put_word}

-- The block of a slot: the direct blocks, the indirect block (slot 12), and its entries.
abbrev pub slot : Fs → Inode → ℕ → ℕ
slot fs ip s =
    if leb s ndirect
    then ip.addrs s
    else if ip.addrs ndirect == 0
    then 0
    else word_at (fs.blk (ip.addrs ndirect)) (s - 13)

abbrev pub slots : ℕ
slots = 141

-- The slot of the block `bn` of a file.
abbrev pub slot_of : ℕ → ℕ
slot_of bn = if ltb bn ndirect then bn else bn + 1

-- The blocks of an inode are in use, lie outside the map, and are all different.
pub record Owns (fs : Fs) (ip : Inode) : Type 0 where
  pub range :
      (s : ℕ)
      → s < slots
      → (slot fs ip s == 0) ≡ false
      → (slot fs ip s < fs.sb.size)
        × (is_used fs (slot fs ip s) ≡ true)
        × (is_map fs (slot fs ip s) ≡ false)
  pub once :
      (s t : ℕ)
      → s < slots
      → t < slots
      → (s == t) ≡ false
      → (slot fs ip s == 0) ≡ false
      → (slot fs ip s == slot fs ip t) ≡ false

-- What bmap did for the slot `s`, whose block is `x`.
pub record Mapped (fs : Fs) (ip : Inode) (s : ℕ) (fs' : Fs) (ip' : Inode) (x : ℕ) : Type 0 where
  pub fs_ok : IsFs fs'
  pub owns : Owns fs' ip'
  pub sb : fs'.sb ≡ fs.sb
  pub size : ip'.size ≡ ip.size
  pub here : slot fs' ip' s ≡ x
  pub nonzero : (x == 0) ≡ false
  pub others :
      (t : ℕ)
      → t < slots
      → (s == t) ≡ false
      → (ndirect == t) ≡ false
      → slot fs' ip' t ≡ slot fs ip t
  pub keeps : (slot fs ip ndirect == 0) ≡ false → slot fs' ip' ndirect ≡ slot fs ip ndirect
  pub old : (slot fs ip s == 0) ≡ false → x ≡ slot fs ip s
  pub taken : slot fs ip s ≡ 0 → is_used fs x ≡ false
  pub fresh : slot fs ip s ≡ 0 → (o : ℕ) → fs'.blk x o ≡ 0
  pub used : (z : ℕ) → z < fs.sb.size → is_used fs z ≡ true → is_used fs' z ≡ true
  pub only :
      (z : ℕ)
      → z < fs.sb.size
      → is_used fs z ≡ false
      → (x == z) ≡ false
      → (slot fs' ip' ndirect == z) ≡ false
      → is_used fs' z ≡ false
  pub away :
      (z o : ℕ)
      → z < fs.sb.size
      → is_used fs z ≡ true
      → is_map fs z ≡ false
      → (ip.addrs ndirect == z) ≡ false
      → fs'.blk z o ≡ fs.blk z o

pub word_at-ext : (d e : ℕ → ℕ) (i : ℕ) → ((o : ℕ) → d o ≡ e o) → word_at d i ≡ word_at e i
word_at-ext d e i h = ap (λ (f : ℕ → ℕ). word_at f i) (fun_ext h)

pub word_at-zero : (d : ℕ → ℕ) (i : ℕ) → ((o : ℕ) → d o ≡ 0) → word_at d i ≡ 0
unfolding word_at
word_at-zero d i h = rw (h (4 * i), h (4 * i + 1), h (4 * i + 2), h (4 * i + 3)) refl

-- A block in use is not the one that balloc takes, and neither is block 0.
pub Allocated-apart :
    (fs fs1 : Fs) (x y : ℕ) → Allocated fs fs1 x → is_used fs y ≡ true → (x == y) ≡ false
Allocated-apart fs fs1 x y a r = elim (Bool-cases (x == y)) [
  | inl e ↦
      let same : x ≡ y = ground arith in
      let bad = ap (is_used fs) same in absurd (ground (arith, a.free))
  | inr e ↦ e
]

pub Allocated-nonzero : (fs fs1 : Fs) (x : ℕ) → IsFs fs → Allocated fs fs1 x → (x == 0) ≡ false
Allocated-nonzero fs fs1 x h a = Allocated-apart fs fs1 x 0 a h.boot

if_same : (t : Bool) → (if t then true else true) ≡ true
if_same true = refl
if_same false = refl

pub Allocated-keeps :
    (fs fs1 : Fs) (x : ℕ)
    → Allocated fs fs1 x
    → (z : ℕ) → z < fs.sb.size
    → is_used fs z ≡ true
    → is_used fs1 z ≡ true
Allocated-keeps fs fs1 x a z lt r = a.used z lt ∙ rw r (if_same (x == z))

pub slot-indirect :
    (fs : Fs) (ip : Inode) (t : ℕ)
    → 13 ≤ t
    → slot fs ip t
      ≡ (if ip.addrs ndirect == 0 then 0 else word_at (fs.blk (ip.addrs ndirect)) (t - 13))
slot-indirect fs ip t le = let high : leb t ndirect ≡ false = ground arith in rw high refl

pub slot-direct : (fs : Fs) (ip : Inode) (t : ℕ) → t ≤ 12 → slot fs ip t ≡ ip.addrs t
slot-direct fs ip t le = let low : leb t ndirect ≡ true = ground arith in rw low refl

abbrev pub Full : Fs → Type 0
Full fs = (y : ℕ) → y < fs.sb.size → is_used fs y ≡ true

-- At most one block is free.
abbrev pub AlmostFull : Fs → Type 0
AlmostFull fs =
    (y z : ℕ)
    → y < fs.sb.size
    → z < fs.sb.size
    → is_used fs y ≡ false
    → is_used fs z ≡ false
    → y ≡ z

pub Full-AlmostFull : (fs : Fs) → Full fs → AlmostFull fs
Full-AlmostFull fs all y z ly lz fy fz = absurd (ground (arith, all y ly))

pub Mapped-refl :
    (fs : Fs) (ip : Inode) (s : ℕ)
    → IsFs fs
    → Owns fs ip
    → (slot fs ip s == 0) ≡ false
    → Mapped fs ip s fs ip (slot fs ip s)
Mapped-refl fs ip s h o nz = record {
  fs_ok = h;
  owns = o;
  sb = refl;
  size = refl;
  here = refl;
  nonzero = nz;
  others = λ t lt ne ne'. refl;
  keeps = λ n. refl;
  old = λ n. refl;
  taken = λ z. absurd (ground arith);
  fresh = λ z. absurd (ground arith);
  used = λ z lt r. r;
  only = λ z lt f ne ne'. f;
  away = λ z p lt r m ne. refl;
}

-- What a call that may allocate for the slot `s` comes to; it panics only for the reason `why`.
abbrev pub MapsSlot : Type 0 → Fs → Inode → ℕ → Option (Fs × Inode × ℕ) → Type 0
MapsSlot why fs ip s r =
    ((r ≡ none) × why)
    ⊎ ((fs' : Fs) × (ip' : Inode) × (x : ℕ) × (r ≡ some (fs', ip', x)) × Mapped fs ip s fs' ip' x)
