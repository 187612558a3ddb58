-- ===== src/Fs/Trunc/Frees.antt =====
-- Which slots of an inode have been freed, in the loops of itrunc.
use os_project_mlfqschedulin.Base.{
  ℕ, ◌+◌, ◌/◌, ◌<◌, ◌≡◌, refl, sym, ap, ◌∙◌, ◌⊎◌, inl, inr, Bool, true, false, ◌||◌, some, arith,
  ◌==◌, if◌then◌else◌, Bool-cases,
}
use os_project_mlfqschedulin.Fs.{bpb, Super, Fs, Inode, bfree}
use os_project_mlfqschedulin.Fs.Bits.{is_used, is_map}
use os_project_mlfqschedulin.Fs.Alloc.{bfree-Freed}
use os_project_mlfqschedulin.Fs.Slots.{slot, slots, Owns}

-- Of the slots of `ip` in `fs`, those in `gone` have been freed on the way to `fs'`, and nothing else.
pub record Frees (fs : Fs) (ip : Inode) (gone : ℕ → Bool) (fs' : Fs) : Type 0 where
  pub sb : fs'.sb ≡ fs.sb
  pub away : (z o : ℕ) → is_map fs z ≡ false → fs'.blk z o ≡ fs.blk z o
  pub freed :
      (s : ℕ)
      → s < slots
      → gone s ≡ true
      → (slot fs ip s == 0) ≡ false
      → is_used fs' (slot fs ip s) ≡ false
  pub kept :
      (y : ℕ)
      → ((s : ℕ)
          → s < slots
          → gone s ≡ true
          → (slot fs ip s == 0) ≡ false
          → (slot fs ip s == y) ≡ false)
      → is_used fs' y ≡ is_used fs y

pub Frees-none :
    (fs : Fs) (ip : Inode) (gone : ℕ → Bool)
    → ((s : ℕ) → s < slots → gone s ≡ false)
    → Frees fs ip gone fs
Frees-none fs ip gone h = record {
  sb = refl;
  away = λ z o m. refl;
  freed = λ s lt g nz. let n = h s lt in absurd (ground arith);
  kept = λ y no. refl;
}

-- A slot without a block needs no step.
pub Frees-skip :
    (fs : Fs) (ip : Inode) (gone gone' : ℕ → Bool) (fs1 : Fs) (s : ℕ)
    → ((t : ℕ) → t < slots → gone' t ≡ (gone t || s == t))
    → slot fs ip s ≡ 0
    → Frees fs ip gone fs1
    → Frees fs ip gone' fs1
Frees-skip fs ip gone gone' fs1 s ext z f = record {
  sb = f.sb;
  away = f.away;
  freed = λ t lt g nz. f.freed t lt (was t lt g nz) nz;
  kept = λ y no. f.kept y (λ t lt g nz. no t lt (ext t lt ∙ rw g refl) nz);
}
  where
    was : (t : ℕ) → t < slots → gone' t ≡ true → (slot fs ip t == 0) ≡ false → gone t ≡ true
    was t lt g nz = elim (Bool-cases (s == t)) [
      | inl e ↦
          let same : s ≡ t = ground arith in
          let bad : slot fs ip t ≡ 0 = sym (ap (slot fs ip) same) ∙ z in absurd (ground arith)
      | inr e ↦ let x = ext t lt in ground arith
    ]

-- bfree of the block of a slot that is not yet free does not panic.
pub Frees-bfree :
    (fs : Fs) (ip : Inode) (gone gone' : ℕ → Bool) (fs1 : Fs) (s : ℕ)
    → Owns fs ip
    → s < slots
    → gone s ≡ false
    → ((t : ℕ) → t < slots → gone' t ≡ (gone t || s == t))
    → (slot fs ip s == 0) ≡ false
    → Frees fs ip gone fs1
    → (fs2 : Fs) × (bfree (slot fs ip s) fs1 ≡ some fs2) × Frees fs ip gone' fs2
Frees-bfree fs ip gone gone' fs1 s own ls not_yet ext nz f =
    let (r0, r1, r2) = own.range s ls nz in
    let used : is_used fs1 (slot fs ip s) ≡ true =
      f.kept (slot fs ip s) (λ t lt g nt. own.once t s lt ls (apart t g) nt) ∙ r1 in
    elim (bfree-Freed (slot fs ip s) fs1) [
      | inl (run, free) ↦ absurd (ground arith)
      | inr (fs2, run, p) ↦ (
        fs2,
        run,
        record {
          sb = p.sb ∙ f.sb;
          away = λ z o m.
              p.others z o (
                ap (λ (b : Super). slot fs ip s / bpb + b.bmapstart == z) f.sb
                ∙ outside (slot fs ip s) z r0 m)
              ∙ f.away z o m;
          freed = λ t lt g nt. p.free (slot fs ip t) ∙ done_at t lt g nt (Bool-cases (s == t));
          kept = λ y no.
              let ne = no s ls (ext s ls ∙ itself (gone s) s) nz in
              p.free y ∙ rw ne (f.kept y (λ t lt g nt. no t lt (ext t lt ∙ rw g refl) nt));
        },
      )
    ]
  where
    apart : (t : ℕ) → gone t ≡ true → (t == s) ≡ false
    apart t g = elim (Bool-cases (t == s)) [
      | inl e ↦ let same : t ≡ s = ground arith in let bad = ap gone same in absurd (ground arith)
      | inr e ↦ e
    ]

    outside :
        (x z : ℕ) → x < fs.sb.size → is_map fs z ≡ false → (x / bpb + fs.sb.bmapstart == z) ≡ false
    outside x z lt m = ground arith

    itself : (b : Bool) (s : ℕ) → (b || s == s) ≡ true
    itself b s = ground arith

    done_at :
        (t : ℕ)
        → t < slots
        → gone' t ≡ true
        → (slot fs ip t == 0) ≡ false
        → ((s == t) ≡ true) ⊎ ((s == t) ≡ false)
        → (if slot fs ip s == slot fs ip t then false else is_used fs1 (slot fs ip t)) ≡ false
    done_at t lt g nt (inl e) =
        let same : s ≡ t = ground arith in
        let eq : (slot fs ip s == slot fs ip t) ≡ true =
          let a = ap (slot fs ip) same in ground arith in
        rw eq refl
    done_at t lt g nt (inr e) =
        let x = ext t lt in
        let was : gone t ≡ true = ground arith in
        rw (own.once s t ls lt e nz, f.freed t lt was nt) refl
