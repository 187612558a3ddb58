-- ===== src/Base/Lists.antt =====
-- Lists of numbers without repetition.
use Prim.Native.Nat.{ℕ, zero, suc, ◌+◌, ◌≤◌, ◌<◌}
use mathlib.Core.Path.{subst, ◌≡◌, refl, ap}
use mathlib.Core.Logic.{inl, inr}
use mathlib.Core.Bool.{Bool, true, false, ◌||◌}
use mathlib.Core.List.{List, [], ◌∷◌, ◌++◌}
use native.Mathlib.Omega.{arith}
use os_project_mlfqschedulin.Base.Tests.{◌==◌, if◌then◌else◌, Bool-cases}

abbrev pub length {ℓ} : {A : Type ℓ} → List A → ℕ
length [] = 0
length (x ∷ xs) = suc (length xs)

pub length-append {ℓ} : {A : Type ℓ} (xs ys : List A) → length (xs ++ ys) ≡ length xs + length ys
length-append [] ys = omega arith
length-append (x ∷ xs) ys = omega (arith, length-append xs ys)

abbrev pub All {ℓ κ} : {A : Type ℓ} → (A → Type κ) → List A → Type κ
All P [] = Unit
All P (x ∷ xs) = P x × All P xs

abbrev pub has : ℕ → List ℕ → Bool
has a [] = false
has a (x ∷ xs) = (x == a) || has a xs

abbrev pub Distinct : List ℕ → Type 0
Distinct [] = Unit
Distinct (x ∷ xs) = (has x xs ≡ false) × Distinct xs

-- The list without the first occurrence of `a`.
unfoldable pub erase : ℕ → List ℕ → List ℕ
erase a [] = []
erase a (x ∷ xs) = if x == a then xs else x ∷ erase a xs

pub has-append : (a : ℕ) (xs ys : List ℕ) → has a (xs ++ ys) ≡ (has a xs || has a ys)
has-append a [] ys = refl
has-append a (x ∷ xs) ys = ground (arith, has-append a xs ys)

pub erase-middle : (a : ℕ) (xs ys : List ℕ) → has a xs ≡ false → erase a (xs ++ a ∷ ys) ≡ xs ++ ys
unfolding erase
erase-middle a [] ys h = ground arith
erase-middle a (x ∷ xs) ys h = ground (arith, erase-middle a xs ys)

pub has-erase :
    (a b : ℕ) (xs : List ℕ)
    → Distinct xs
    → has b (erase a xs) ≡ (if a == b then false else has b xs)
unfolding erase
has-erase a b [] d = ground arith
has-erase a b (x ∷ xs) d = ground (arith, has-erase a b xs)

pub erase-Distinct : (a : ℕ) (xs : List ℕ) → Distinct xs → Distinct (erase a xs)
unfolding erase
erase-Distinct a [] d = tt
erase-Distinct a (x ∷ xs) d = ground (arith, erase-Distinct a xs d.1, has-erase a x xs d.1)

pub All-erase {κ} : (P : ℕ → Type κ) (a : ℕ) (xs : List ℕ) → All P xs → All P (erase a xs)
unfolding erase
All-erase P a [] h = tt
All-erase P a (x ∷ xs) h = elim (Bool-cases (x == a)) [
  | inl e ↦ rw e h.1
  | inr e ↦ rw e (h.0, All-erase P a xs h.1)
]

pub All-has {κ} : (P : ℕ → Type κ) (a : ℕ) (xs : List ℕ) → All P xs → has a xs ≡ true → P a
All-has P a [] h m = absurd (ground arith)
All-has P a (x ∷ xs) h m = elim (Bool-cases (x == a)) [
  | inl e ↦ let same : x ≡ a = ground arith in subst P same h.0
  | inr e ↦ All-has P a xs h.1 (ground arith)
]

pub All-map {κ} :
    {P Q : ℕ → Type κ} (xs : List ℕ) → ((x : ℕ) → has x xs ≡ true → P x → Q x) → All P xs → All Q xs
All-map [] f h = tt
All-map (x ∷ xs) f h = (f x (ground arith) h.0, All-map xs (λ y m. f y (ground arith)) h.1)

-- A list is cut at each of its members.
pub record Cut (a : ℕ) (xs : List ℕ) : Type 0 where
  pub before : List ℕ
  pub after : List ℕ
  pub whole : xs ≡ before ++ a ∷ after

pub cut : (a : ℕ) (xs : List ℕ) → has a xs ≡ true → Cut a xs
cut a [] h = absurd (ground arith)
cut a (x ∷ xs) h = elim (Bool-cases (x == a)) [
  | inl e ↦ record { before = []; after = xs; whole = ground arith }
  | inr e ↦
      let c : Cut a xs = cut a xs (ground arith) in
      record { before = x ∷ c.before; after = c.after; whole = ap (◌∷◌ x) c.whole }
]

length-erase : (a : ℕ) (xs : List ℕ) → length xs ≤ length (erase a xs) + 1
unfolding erase
length-erase a [] = omega arith
length-erase a (x ∷ xs) = ground (arith, length-erase a xs)

-- The pigeonhole principle.
pub length-le_of_Distinct :
    (n : ℕ) (xs : List ℕ) → Distinct xs → ((x : ℕ) → has x xs ≡ true → x < n) → length xs ≤ n
length-le_of_Distinct zero [] d below = omega arith
length-le_of_Distinct zero (x ∷ xs) d below = absurd (omega (arith, below x (ground arith)))
length-le_of_Distinct (suc n) xs d below = omega (
  arith,
  length-erase n xs,
  length-le_of_Distinct n (erase n xs) (erase-Distinct n xs d)
      (λ x m. ground (arith, has-erase n x xs d, below x)),
)

pub Distinct-append :
    (xs ys : List ℕ)
    → Distinct (xs ++ ys)
    → Distinct xs × Distinct ys × ((x : ℕ) → has x xs ≡ true → has x ys ≡ false)
Distinct-append [] ys d = (tt, d, λ x h. cc)
Distinct-append (x ∷ xs) ys d =
    let (p, q, r) = Distinct-append xs ys d.1 in
    ((ground (arith, has-append x xs ys), p), q, λ y h. ground (arith, has-append x xs ys, r y))
