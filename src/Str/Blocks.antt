-- ===== src/Str/Blocks.antt =====
-- memmove and memcmp of srcs/string.c against the blocks that they stand for.
use os_project_mlfqschedulin.Base.{
  ℕ, zero, suc, ◌+◌, ◌-◌, ◌<◌, ◌≡◌, refl, ◌∙◌, inl, inr, false, ◌&&◌, arith, ltb, leb, ◌==◌,
  if◌then◌else◌, Bool-cases, update,
}
use os_project_mlfqschedulin.Str.{move_up, move_down, memmove, memcmp}

-- The memory with the block of `n` bytes from `s` on copied to `d`, all bytes at once.
abbrev pub moved : ℕ → ℕ → ℕ → (ℕ → ℕ) → ℕ → ℕ
moved d s n m x = if leb d x && ltb x (d + n) then m (s + (x - d)) else m x

move_up-moved :
    (n d s : ℕ) (m : ℕ → ℕ) (x : ℕ)
    → (ltb s d && ltb d (s + n)) ≡ false
    → move_up n d s m x ≡ moved d s n m x
unfolding move_up
move_up-moved zero d s m x h = ground arith
move_up-moved (suc n) d s m x h =
    move_up-moved n (d + 1) (s + 1) (update m d (m s)) x (ground arith) ∙ ground arith

move_down-moved : (n d s : ℕ) (m : ℕ → ℕ) (x : ℕ) → s < d → move_down n d s m x ≡ moved d s n m x
unfolding move_down
move_down-moved zero d s m x lt = ground arith
move_down-moved (suc n) d s m x lt =
    move_down-moved n d s (update m (d + n) (m (s + n))) x lt ∙ ground arith

-- memmove copies the block as if all its bytes were read before the first is written, also where the
-- two blocks overlap, and changes no other byte.
pub memmove-moved : (d s n : ℕ) (m : ℕ → ℕ) (x : ℕ) → memmove d s n m x ≡ moved d s n m x
unfolding memmove
memmove-moved d s n m x = elim (Bool-cases (ltb s d && ltb d (s + n))) [
  | inl e ↦ rw e (move_down-moved n d s m x (ground arith))
  | inr e ↦ rw e (move_up-moved n d s m x e)
]

-- The two blocks hold the same bytes.
abbrev pub SameBlock : ℕ → ℕ → ℕ → (ℕ → ℕ) → Type 0
SameBlock v1 v2 n m = (i : ℕ) → i < n → m (v1 + i) ≡ m (v2 + i)

-- memcmp returns 0 exactly if the two blocks hold the same bytes.
pub memcmp-SameBlock :
    (v1 v2 n : ℕ) (m : ℕ → ℕ)
    → ((x : ℕ) → m x < 256)
    → (memcmp v1 v2 n m ≡ 0 → SameBlock v1 v2 n m) × (SameBlock v1 v2 n m → memcmp v1 v2 n m ≡ 0)
unfolding memcmp
memcmp-SameBlock v1 v2 zero m small = (λ e i lt. absurd (omega arith), λ same. refl)
memcmp-SameBlock v1 v2 (suc n) m small = elim (Bool-cases (m v1 == m v2)) [
  | inl e ↦
      let (there, back) = memcmp-SameBlock (v1 + 1) (v2 + 1) n m small in
      rw e (
        λ z i lt. step i lt (ground arith) (there z),
        λ same. back (λ i lt. shift i (same (suc i) (omega arith))),
      )
  | inr e ↦
      let a = small v1 in
      let b = small v2 in
      rw e (
        λ z i lt. absurd (ground arith),
        λ same. let first = same 0 (omega arith) in absurd (ground arith),
      )
]
  where
    shift : (i : ℕ) → m (v1 + suc i) ≡ m (v2 + suc i) → m (v1 + 1 + i) ≡ m (v2 + 1 + i)
    shift i h = grind arith

    step :
        (i : ℕ)
        → i < suc n
        → m v1 ≡ m v2
        → SameBlock (v1 + 1) (v2 + 1) n m
        → m (v1 + i) ≡ m (v2 + i)
    step zero lt e same = grind arith
    step (suc i) lt e same = let h = same i (omega arith) in grind arith
