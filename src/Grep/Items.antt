-- ===== src/Grep/Items.antt =====
-- The items of a pattern of srcs/grep.c, and matchhere and matchstar against them.
use os_project_mlfqschedulin.Base.{
  ℕ, ◌≡◌, refl, sym, ap, subst, ◌∙◌, inl, inr, Bool, true, false, ◌||◌, ◌&&◌, List, [], ◌∷◌, ◌++◌,
  arith, ◌==◌, if◌then◌else◌, Bool-cases, All,
}
use mathlib.Core.List.{append_assoc}
use os_project_mlfqschedulin.Grep.{fits, matchstar, match_one}

-- A character, or any number of characters that it stands for.
pub data Item : Type 0 where
  single : ℕ → Item
  many : ℕ → Item

-- The items of a pattern with no `^` in front, without a `$` at its end.
unfoldable pub items : List ℕ → List Item
items [] = []
items (c ∷ []) = if c == b'$' then [] else single c ∷ []
items (c ∷ d ∷ re) = if d == b'*' then many c ∷ items re else single c ∷ items (d ∷ re)

-- A `$` at the end of the pattern that stands for no character.
unfoldable pub ends : List ℕ → Bool
ends [] = false
ends (c ∷ []) = c == b'$'
ends (c ∷ d ∷ re) = if d == b'*' then ends re else ends (d ∷ re)

-- The text `w` is spelled by the items, one behind the other.
abbrev pub Spells : List Item → List ℕ → Type 0
Spells [] w = w ≡ []
Spells (single c ∷ is) w = (x : ℕ) × (t : List ℕ) × (w ≡ x ∷ t) × (fits c x ≡ true) × Spells is t
Spells (many c ∷ is) w =
    (v : List ℕ) × (t : List ℕ) × (w ≡ v ++ t) × All (λ x. fits c x ≡ true) v × Spells is t

-- The text starts with a text that is spelled by `is`, which is the whole of it if `last` holds.
pub record Starts (is : List Item) (last : Bool) (t : List ℕ) : Type 0 where
  pub word : List ℕ
  pub rest : List ℕ
  pub split : t ≡ word ++ rest
  pub by_items : Spells is word
  pub at_last : last ≡ true → rest ≡ []

pub Starts-none : (last : Bool) (t : List ℕ) → (last ≡ true → t ≡ []) → Starts [] last t
Starts-none last t h = record { word = []; rest = t; split = refl; by_items = refl; at_last = h }

Starts-single :
    (c x : ℕ) (is : List Item) (last : Bool) (t : List ℕ)
    → fits c x ≡ true
    → Starts is last t
    → Starts (single c ∷ is) last (x ∷ t)
Starts-single c x is last t f s = record {
  word = x ∷ s.word;
  rest = s.rest;
  split = ap (◌∷◌ x) s.split;
  by_items = (x, s.word, refl, f, s.by_items);
  at_last = s.at_last;
}

Starts-skip :
    (c : ℕ) (is : List Item) (last : Bool) (t : List ℕ)
    → Starts is last t
    → Starts (many c ∷ is) last t
Starts-skip c is last t s = record {
  word = s.word;
  rest = s.rest;
  split = s.split;
  by_items = ([], s.word, refl, tt, s.by_items);
  at_last = s.at_last;
}

Starts-more :
    (c x : ℕ) (is : List Item) (last : Bool) (t : List ℕ)
    → fits c x ≡ true
    → Starts (many c ∷ is) last t
    → Starts (many c ∷ is) last (x ∷ t)
Starts-more c x is last t f s =
    let (v, u, e, a, b) = s.by_items in
    record {
      word = x ∷ s.word;
      rest = s.rest;
      split = ap (◌∷◌ x) s.split;
      by_items = (x ∷ v, u, ap (◌∷◌ x) e, (f, a), b);
      at_last = s.at_last;
    }

-- What `here` answers yes to starts with a text that the items spell, and the other way round.
module _ (here : List ℕ → Bool) (is : List Item) (last : Bool) where
  abbrev pub Sound : Type 0
  Sound = (t : List ℕ) → here t ≡ true → Starts is last t

  abbrev pub Complete : Type 0
  Complete = (t : List ℕ) → Starts is last t → here t ≡ true

module _ (c : ℕ) (here : List ℕ → Bool) (is : List Item) (last : Bool) where
  pub match_one_sound : Sound here is last → Sound (match_one c here) (single c ∷ is) last
  unfolding match_one
  match_one_sound f [] h = absurd (ground arith)
  match_one_sound f (x ∷ t) h =
      let (a, b) = both (fits c x) (here t) h in Starts-single c x is last t a (f t b)
    where
      both : (a b : Bool) → (a && b) ≡ true → (a ≡ true) × (b ≡ true)
      both a b h = ground arith

  pub match_one_complete : Complete here is last → Complete (match_one c here) (single c ∷ is) last
  unfolding match_one
  match_one_complete f t s =
      let (x, w, e, a, b) = s.by_items in
      let whole : t ≡ x ∷ (w ++ s.rest) = s.split ∙ ap (λ (y : List ℕ). y ++ s.rest) e in
      subst (λ (y : List ℕ). match_one c here y ≡ true) (sym whole)
        (rw
          (
            a,
            f (w ++ s.rest) (record {
              word = w;
              rest = s.rest;
              split = refl;
              by_items = b;
              at_last = s.at_last;
            }),
          )
          refl)

  pub matchstar_sound : Sound here is last → Sound (matchstar c here) (many c ∷ is) last
  unfolding matchstar
  matchstar_sound f [] h = Starts-skip c is last [] (f [] h)
  matchstar_sound f (x ∷ t) h = elim (Bool-cases (here (x ∷ t))) [
    | inl e ↦ Starts-skip c is last (x ∷ t) (f (x ∷ t) e)
    | inr e ↦
        let (a, b) = later (here (x ∷ t)) (matchstar c here t) e h in
        Starts-more c x is last t a (matchstar_sound f t b)
  ]
    where
      later :
          (a b : Bool)
          → a ≡ false
          → (a || (x == c || c == b'.') && b) ≡ true
          → (fits c x ≡ true) × (b ≡ true)
      later a b e h = ground arith

  pub matchstar_complete : Complete here is last → Complete (matchstar c here) (many c ∷ is) last
  unfolding matchstar
  matchstar_complete f t s =
      let (v, u, e, a, b) = s.by_items in
      let whole : t ≡ v ++ (u ++ s.rest) =
        s.split ∙ ap (λ (y : List ℕ). y ++ s.rest) e ∙ append_assoc v u s.rest in
      subst (λ (y : List ℕ). matchstar c here y ≡ true) (sym whole)
        (at_rest v (u ++ s.rest) a (
          f (u ++ s.rest)
            (record { word = u; rest = s.rest; split = refl; by_items = b; at_last = s.at_last })))
    where
      or_true : (a b : Bool) → b ≡ true → (a || b) ≡ true
      or_true a b h = ground arith

      and_fits :
          (x : ℕ) (b : Bool) → fits c x ≡ true → b ≡ true → ((x == c || c == b'.') && b) ≡ true
      and_fits x b f h = ground arith

      at_once : (t : List ℕ) → here t ≡ true → matchstar c here t ≡ true
      at_once [] h = h
      at_once (x ∷ t) h = rw h refl

      at_rest :
          (v t : List ℕ)
          → All (λ x. fits c x ≡ true) v
          → here t ≡ true
          → matchstar c here (v ++ t) ≡ true
      at_rest [] t a h = at_once t h
      at_rest (x ∷ v) t a h =
          or_true (here (x ∷ v ++ t)) ((x == c || c == b'.') && matchstar c here (v ++ t))
            (and_fits x (matchstar c here (v ++ t)) a.0 (at_rest v t a.1 h))
