-- ===== src/Fs/Slots/Grow.antt =====
-- A new block in the slot of an inode, for srcs/fs.c.
use os_project_mlfqschedulin.Base.{
  ℕ, ◌+◌, ◌-◌, ◌/◌, ◌<◌, ◌≡◌, refl, sym, ap, subst, ◌∙◌, inl, inr, Bool, true, false, ◌&&◌, arith,
  ltb, leb, ◌==◌, if◌then◌else◌, Bool-cases,
}
use os_project_mlfqschedulin.Fs.{bpb, Super, Fs, Inode}
use os_project_mlfqschedulin.Fs.Bits.{is_used, is_map}
use os_project_mlfqschedulin.Fs.Alloc.{IsFs, Allocated}
use os_project_mlfqschedulin.Fs.Slots.{slot, slots, Owns}

-- A slot gets a block that was free.
pub Owns-grow :
    (fs fs1 fs' : Fs) (ip ip' : Inode) (s x : ℕ)
    → Owns fs ip
    → IsFs fs
    → Allocated fs fs1 x
    → fs'.sb ≡ fs.sb
    → ((y : ℕ) → y < fs.sb.size → is_used fs' y ≡ is_used fs1 y)
    → ((t : ℕ) → t < slots → slot fs' ip' t ≡ (if s == t then x else slot fs ip t))
    → Owns fs' ip'
Owns-grow fs fs1 fs' ip ip' s x o h a sb used at = record {
  range = λ t lt nz. range t lt (sym (ap (λ (y : ℕ). y == 0) (at t lt)) ∙ nz);
  once = λ t u lt lu ne nz. once t u lt lu ne (sym (ap (λ (y : ℕ). y == 0) (at t lt)) ∙ nz);
}
  where
    new : ℕ → ℕ
    new t = if s == t then x else slot fs ip t

    either : (t : Bool) → (if t then true else true) ≡ true
    either true = refl
    either false = refl

    not_map : is_map fs x ≡ false
    not_map = elim (Bool-cases (is_map fs x)) [
      | inl m ↦ absurd (ground (arith, a.free, h.map x a.within m))
      | inr m ↦ m
    ]

    range_new :
        (t : ℕ)
        → t < slots
        → (new t == 0) ≡ false
        → (new t < fs.sb.size) × (is_used fs1 (new t) ≡ true) × (is_map fs (new t) ≡ false)
    range_new t lt nz = elim (Bool-cases (s == t)) [
      | inl e ↦ rw e (
        a.within,
        a.used x a.within ∙ (let r : (x == x) ≡ true = ground arith in rw r refl),
        not_map,
      )
      | inr e ↦
          let (r0, r1, r2) = o.range t lt (sym (rw e refl) ∙ nz) in
          rw e (r0, a.used (slot fs ip t) r0 ∙ rw r1 (either (x == slot fs ip t)), r2)
    ]

    used_apart : (y : ℕ) → is_used fs y ≡ true → ((x == y) ≡ false) × ((y == x) ≡ false)
    used_apart y r = elim (Bool-cases (x == y)) [
      | inl e ↦
          let same : x ≡ y = ground arith in
          let bad = ap (is_used fs) same in absurd (ground (arith, a.free))
      | inr e ↦ (e, ground arith)
    ]

    once_new :
        (t u : ℕ)
        → t < slots
        → u < slots
        → (t == u) ≡ false
        → (new t == 0) ≡ false
        → (new t == new u) ≡ false
    once_new t u lt lu ne nz = elim (Bool-cases (s == t)) [
      | inl e ↦
          let ne' : (s == u) ≡ false = ground arith in
          let nz' : (x == 0) ≡ false = sym (rw e refl) ∙ nz in
          rw (e, ne')
            (elim (Bool-cases (slot fs ip u == 0)) [
              | inl z ↦ let zero_slot : slot fs ip u ≡ 0 = ground arith in rw zero_slot nz'
              | inr z ↦ (used_apart (slot fs ip u) (o.range u lu z).1).0
            ])
      | inr e ↦
          let nz' : (slot fs ip t == 0) ≡ false = sym (rw e refl) ∙ nz in
          elim (Bool-cases (s == u)) [
            | inl f ↦ rw (e, f) (used_apart (slot fs ip t) (o.range t lt nz').1).1
            | inr f ↦ rw (e, f) (o.once t u lt lu ne nz')
          ]
    ]

    range :
        (t : ℕ)
        → t < slots
        → (new t == 0) ≡ false
        → (slot fs' ip' t < fs'.sb.size)
          × (is_used fs' (slot fs' ip' t) ≡ true)
          × (is_map fs' (slot fs' ip' t) ≡ false)
    range t lt nz =
        let (r0, r1, r2) = range_new t lt nz in
        subst (λ (y : ℕ). (y < fs'.sb.size) × (is_used fs' y ≡ true) × (is_map fs' y ≡ false))
          (sym (at t lt))
          (
            subst (λ (b : Super). new t < b.size) (sym sb) r0,
            used (new t) r0 ∙ r1,
            ap
                  (λ (b : Super).
                    leb b.bmapstart (new t) && ltb (new t) (b.bmapstart + (b.size + bpb - 1) / bpb))
                  sb
                ∙ r2,
          )

    once :
        (t u : ℕ)
        → t < slots
        → u < slots
        → (t == u) ≡ false
        → (new t == 0) ≡ false
        → (slot fs' ip' t == slot fs' ip' u) ≡ false
    once t u lt lu ne nz = rw (at t lt, at u lu) (once_new t u lt lu ne nz)
