-- ===== src/Fs/Io/Content.antt =====
-- The bytes of a file, and that bmap keeps them.
use os_project_mlfqschedulin.Base.{
  ℕ, ◌+◌, ◌/◌, ◌%◌, ◌<◌, ◌≡◌, refl, sym, ap, subst, ◌∙◌, ◌⊎◌, inl, inr, Bool, true, false, not,
  arith, ◌==◌, if◌then◌else◌, Bool-cases, update,
}
use os_project_mlfqschedulin.Fs.{bsize, ndirect, nindirect, bblock, Fs, Inode}
use os_project_mlfqschedulin.Fs.Bits.{is_used, is_map}
use os_project_mlfqschedulin.Fs.Alloc.{IsFs}
use os_project_mlfqschedulin.Fs.Slots.{slot, slots, slot_of, Owns, Mapped}

abbrev pub max_bytes : ℕ
max_bytes = 71680

-- The byte `o` of a file; where no block is there it is 0.
abbrev pub content : Fs → Inode → ℕ → ℕ
content fs ip o =
    if slot fs ip (slot_of (o / bsize)) == 0
    then 0
    else fs.blk (slot fs ip (slot_of (o / bsize))) (o % bsize)

-- The byte `o` of the file has a block.
abbrev pub has_block : Fs → Inode → ℕ → Bool
has_block fs ip o = not (slot fs ip (slot_of (o / bsize)) == 0)

pub slot_of-lt :
    (bn : ℕ)
    → bn < ndirect + nindirect
    → (slot_of bn < slots) × ((ndirect == slot_of bn) ≡ false) × ((slot_of bn == ndirect) ≡ false)
slot_of-lt bn lt = ground arith

slot_of-injective : (a b : ℕ) → (slot_of a == slot_of b) ≡ (a == b)
slot_of-injective a b = ground arith

-- A call of bmap changes no byte of the file.
pub Mapped-content :
    (fs fs' : Fs) (ip ip' : Inode) (bn x o : ℕ)
    → Owns fs ip
    → Mapped fs ip (slot_of bn) fs' ip' x
    → bn < ndirect + nindirect
    → o < max_bytes
    → content fs' ip' o ≡ content fs ip o
Mapped-content fs fs' ip ip' bn x o own m lb lt =
    let (small, ne, ne') = slot_of-lt (o / bsize) (omega arith) in
    let t : ℕ = slot_of (o / bsize) in
    let kept : (slot fs ip t == 0) ≡ false
        → fs'.blk (slot fs ip t) (o % bsize) ≡ fs.blk (slot fs ip t) (o % bsize) =
      λ nz.
        let (r0, r1, r2) = own.range t small nz in
        let apart = own.once t ndirect small (omega arith) ne' nz in
        m.away (slot fs ip t) (o % bsize) r0 r1 r2 (ground arith) in
    elim (Bool-cases (slot_of bn == t)) [
      | inr e ↦ same_slot t (o % bsize) (m.others t small e ne) kept
      | inl e ↦
          let s : slot_of bn ≡ t = ground arith in
          let here : slot fs' ip' t ≡ x = sym (ap (slot fs' ip') s) ∙ m.here in
          elim (Bool-cases (slot fs ip t == 0)) [
            | inr nz ↦
                let nz' : (slot fs ip (slot_of bn) == 0) ≡ false =
                  ap (λ y. slot fs ip y == 0) s ∙ nz in
                same_slot t (o % bsize) (here ∙ m.old nz' ∙ ap (slot fs ip) s) kept
            | inl z ↦
                let gone : slot fs ip (slot_of bn) ≡ 0 = ap (slot fs ip) s ∙ (ground arith) in
                rw (z, here, m.nonzero) (m.fresh gone (o % bsize))
          ]
    ]
  where
    same_slot :
        (t p : ℕ)
        → slot fs' ip' t ≡ slot fs ip t
        → ((slot fs ip t == 0) ≡ false → fs'.blk (slot fs ip t) p ≡ fs.blk (slot fs ip t) p)
        → (if slot fs' ip' t == 0 then 0 else fs'.blk (slot fs' ip' t) p)
          ≡ (if slot fs ip t == 0 then 0 else fs.blk (slot fs ip t) p)
    same_slot t p e kept = elim (Bool-cases (slot fs ip t == 0)) [
      | inl z ↦ rw (e, z) refl
      | inr nz ↦ rw (e, nz) (kept nz)
    ]

-- A call of bmap takes no block from the file.
pub Mapped-has_block :
    (fs fs' : Fs) (ip ip' : Inode) (bn x o : ℕ)
    → Mapped fs ip (slot_of bn) fs' ip' x
    → o < max_bytes
    → ((bn == o / bsize) ≡ true) ⊎ (has_block fs ip o ≡ true)
    → has_block fs' ip' o ≡ true
Mapped-has_block fs fs' ip ip' bn x o m lt b =
    let (small, ne, ne') = slot_of-lt (o / bsize) (omega arith) in
    let t : ℕ = slot_of (o / bsize) in
    let inj = slot_of-injective bn (o / bsize) in
    elim (Bool-cases (slot_of bn == t)) [
      | inl e ↦
          let s : slot_of bn ≡ t = ground arith in
          let here : slot fs' ip' t ≡ x = sym (ap (slot fs' ip') s) ∙ m.here in
          rw (here, m.nonzero) refl
      | inr e ↦ elim b [
        | inl same ↦ absurd (ground arith)
        | inr old ↦ rw (m.others t small e ne) old
      ]
    ]

module _ (fs : Fs) (ip : Inode) (bn : ℕ) (d : ℕ → ℕ) (h : IsFs fs) (own : Owns fs ip)
    (lb : bn < ndirect + nindirect) (nz : (slot fs ip (slot_of bn) == 0) ≡ false) where
  abbrev pub written : Fs
  written = record fs { blk = update fs.blk (slot fs ip (slot_of bn)) d }

  -- A write of the bytes of one block of a file changes no slot.
  pub written-slot : (t : ℕ) → slot written ip t ≡ slot fs ip t
  written-slot t = elim (Bool-cases (slot fs ip (slot_of bn) == ip.addrs ndirect)) [
    | inr e ↦ rw e refl
    | inl e ↦
        let (small, ne, ne') = slot_of-lt bn lb in
        absurd (ground (arith, own.once (slot_of bn) ndirect small (omega arith) ne' nz))
  ]

  pub written-used : (y : ℕ) → y < fs.sb.size → is_used written y ≡ is_used fs y
  written-used y lt =
      let (r0, r1, r2) = own.range (slot_of bn) (slot_of-lt bn lb).0 nz in
      let ne : (slot fs ip (slot_of bn) == bblock y fs) ≡ false =
        apart (slot fs ip (slot_of bn)) r2 y lt in
      rw ne refl
    where
      apart : (a : ℕ) → is_map fs a ≡ false → (y : ℕ) → y < fs.sb.size → (a == bblock y fs) ≡ false
      apart a m y lt = ground arith

  pub written-IsFs : IsFs written
  written-IsFs = record {
    small = h.small;
    boot =
        let (r0, r1, r2) = own.range (slot_of bn) (slot_of-lt bn lb).0 nz in
        written-used 0 (omega arith) ∙ h.boot;
    map = λ z lt m. written-used z lt ∙ h.map z lt m;
  }

  pub written-Owns : Owns written ip
  written-Owns = record {
    range = λ s lt n.
        let (r0, r1, r2) = own.range s lt (sym (ap (λ (y : ℕ). y == 0) (written-slot s)) ∙ n) in
        subst (λ (y : ℕ). (y < fs.sb.size) × (is_used written y ≡ true) × (is_map fs y ≡ false))
          (sym (written-slot s)) (r0, written-used (slot fs ip s) r0 ∙ r1, r2);
    once = λ s t ls lt ne n.
        rw (written-slot s, written-slot t)
          (own.once s t ls lt ne (sym (ap (λ (y : ℕ). y == 0) (written-slot s)) ∙ n));
  }

  pub written-content :
      (o : ℕ)
      → o < max_bytes
      → content written ip o ≡ (if bn == o / bsize then d (o % bsize) else content fs ip o)
  written-content o lt = elim (Bool-cases (bn == o / bsize)) [
    | inl e ↦
        let s : bn ≡ o / bsize = ground arith in
        let nz' : (slot fs ip (slot_of (o / bsize)) == 0) ≡ false =
          subst (λ (b : ℕ). (slot fs ip (slot_of b) == 0) ≡ false) s nz in
        let at : (slot fs ip (slot_of bn) == slot fs ip (slot_of (o / bsize))) ≡ true =
          subst (λ (b : ℕ). (slot fs ip (slot_of bn) == slot fs ip (slot_of b)) ≡ true) s
            (refl_eq (slot fs ip (slot_of bn))) in
        rw (e, written-slot (slot_of (o / bsize)), nz', at) refl
    | inr e ↦
        let small = (slot_of-lt bn lb).0 in
        let small' = (slot_of-lt (o / bsize) (omega arith)).0 in
        let ne = slot_of-injective bn (o / bsize) ∙ e in
        let apart = own.once (slot_of bn) (slot_of (o / bsize)) small small' ne nz in
        rw (e, written-slot (slot_of (o / bsize)), apart) refl
  ]
    where
      refl_eq : (y : ℕ) → (y == y) ≡ true
      refl_eq y = ground arith
