-- ===== src/Grep/Language.antt =====
-- The texts that a pattern of srcs/grep.c stands for, and match against them.
use os_project_mlfqschedulin.Base.{
  ℕ, ◌≡◌, refl, sym, ap, subst, ◌∙◌, inl, inr, ◌↔◌, Bool, true, false, ◌||◌, List, [], ◌∷◌, ◌++◌,
  arith, ◌==◌, if◌then◌else◌, Bool-cases,
}
use os_project_mlfqschedulin.Grep.{at_end, matchhere, match_from, match}
use os_project_mlfqschedulin.Grep.Items.{
  items, ends, Spells, Starts-none, Sound, Complete, match_one_sound, match_one_complete,
  matchstar_sound, matchstar_complete, Item, Starts,
}

matchhere_sound : (re : List ℕ) → Sound (matchhere re) (items re) (ends re)
unfolding matchhere items ends
matchhere_sound [] = λ t h. Starts-none false t (λ e. absurd (ground arith))
matchhere_sound (c ∷ []) = elim (Bool-cases (c == b'$')) [
  | inl e ↦ rw e (λ t h. Starts-none true t (λ l. nil t h))
  | inr e ↦ rw e (match_one_sound c (matchhere []) [] false (matchhere_sound []))
]
  where
    nil : (t : List ℕ) → at_end t ≡ true → t ≡ []
    nil [] h = refl
    nil (x ∷ t) h = absurd (ground arith)
matchhere_sound (c ∷ d ∷ re) = elim (Bool-cases (d == b'*')) [
  | inl e ↦ rw e (matchstar_sound c (matchhere re) (items re) (ends re) (matchhere_sound re))
  | inr e ↦ rw e (
      match_one_sound c (matchhere (d ∷ re)) (items (d ∷ re)) (ends (d ∷ re))
        (matchhere_sound (d ∷ re)))
]

matchhere_complete : (re : List ℕ) → Complete (matchhere re) (items re) (ends re)
unfolding matchhere items ends
matchhere_complete [] = λ t s. refl
matchhere_complete (c ∷ []) = elim (Bool-cases (c == b'$')) [
  | inl e ↦ rw e (λ t s.
      subst (λ (y : List ℕ). at_end y ≡ true)
        (sym (s.split ∙ ap (λ (y : List ℕ). y ++ s.rest) s.by_items ∙ s.at_last refl)) refl)
  | inr e ↦ rw e (match_one_complete c (matchhere []) [] false (matchhere_complete []))
]
matchhere_complete (c ∷ d ∷ re) = elim (Bool-cases (d == b'*')) [
  | inl e ↦ rw e (matchstar_complete c (matchhere re) (items re) (ends re) (matchhere_complete re))
  | inr e ↦ rw e (
      match_one_complete c (matchhere (d ∷ re)) (items (d ∷ re)) (ends (d ∷ re))
        (matchhere_complete (d ∷ re)))
]

-- A pattern behind its `^`, and whether it has one.
abbrev pub body : List ℕ → List ℕ
body [] = []
body (c ∷ re) = if c == b'^' then re else c ∷ re

abbrev pub anchored : List ℕ → Bool
anchored [] = false
anchored (c ∷ re) = c == b'^'

-- A part of the text is spelled by the pattern `re` without its `^`. It is at the start of the text if
-- `first` holds, and at its end if the pattern ends in `$`.
pub record Part (first : Bool) (re t : List ℕ) : Type 0 where
  pub before : List ℕ
  pub word : List ℕ
  pub after : List ℕ
  pub split : t ≡ before ++ (word ++ after)
  pub by_items : Spells (items re) word
  pub at_first : first ≡ true → before ≡ []
  pub at_last : ends re ≡ true → after ≡ []

abbrev pub Found : List ℕ → List ℕ → Type 0
Found re t = Part (anchored re) (body re) t

-- The text starts with a match behind `before`.
record Behind (is : List Item) (last : Bool) (t : List ℕ) : Type 0 where
  before : List ℕ
  here : List ℕ
  split : t ≡ before ++ here
  starts : Starts is last here

module _ (here : List ℕ → Bool) (is : List Item) (last : Bool) where
  match_from_sound : Sound here is last → (t : List ℕ) → match_from here t ≡ true → Behind is last t
  unfolding match_from
  match_from_sound f [] h = record { before = []; here = []; split = refl; starts = f [] h }
  match_from_sound f (x ∷ t) h = elim (Bool-cases (here (x ∷ t))) [
    | inl e ↦ record { before = []; here = x ∷ t; split = refl; starts = f (x ∷ t) e }
    | inr e ↦
        let b = match_from_sound f t (later (here (x ∷ t)) (match_from here t) e h) in
        record {
          before = x ∷ b.before;
          here = b.here;
          split = ap (◌∷◌ x) b.split;
          starts = b.starts;
        }
  ]
    where
      later : (a b : Bool) → a ≡ false → (a || b) ≡ true → b ≡ true
      later a b e h = ground arith

  match_from_complete : (v t : List ℕ) → here t ≡ true → match_from here (v ++ t) ≡ true
  unfolding match_from
  match_from_complete [] [] h = h
  match_from_complete [] (x ∷ t) h = rw h refl
  match_from_complete (x ∷ v) t h =
      or_true (here (x ∷ v ++ t)) (match_from here (v ++ t)) (match_from_complete v t h)
    where
      or_true : (a b : Bool) → b ≡ true → (a || b) ≡ true
      or_true a b h = ground arith

Part-Starts :
    (first : Bool) (re t : List ℕ) (f : Part first re t)
    → Starts (items re) (ends re) (f.word ++ f.after)
Part-Starts first re t f = record {
  word = f.word;
  rest = f.after;
  split = refl;
  by_items = f.by_items;
  at_last = f.at_last;
}

match_from-Part : (re t : List ℕ) → (match_from (matchhere re) t ≡ true) ↔ Part false re t
match_from-Part re t = (
  λ h.
      let b = match_from_sound (matchhere re) (items re) (ends re) (matchhere_sound re) t h in
      record {
        before = b.before;
        word = b.starts.word;
        after = b.starts.rest;
        split = b.split ∙ ap (λ (y : List ℕ). b.before ++ y) b.starts.split;
        by_items = b.starts.by_items;
        at_first = λ e. absurd (ground arith);
        at_last = b.starts.at_last;
      },
  λ f.
      subst (λ (y : List ℕ). match_from (matchhere re) y ≡ true) (sym f.split)
        (match_from_complete (matchhere re) (items re) (ends re) f.before (f.word ++ f.after)
          (matchhere_complete re (f.word ++ f.after) (Part-Starts false re t f))),
)

matchhere-Part : (re t : List ℕ) → (matchhere re t ≡ true) ↔ Part true re t
matchhere-Part re t = (
  λ h.
      let s = matchhere_sound re t h in
      record {
        before = [];
        word = s.word;
        after = s.rest;
        split = s.split;
        by_items = s.by_items;
        at_first = λ e. refl;
        at_last = s.at_last;
      },
  λ f.
      subst (λ (y : List ℕ). matchhere re y ≡ true)
        (sym (f.split ∙ ap (λ (y : List ℕ). y ++ (f.word ++ f.after)) (f.at_first refl)))
        (matchhere_complete re (f.word ++ f.after) (Part-Starts true re t f)),
)

-- match answers yes exactly if a part of the text is spelled by the pattern: a character stands for
-- itself, `.` for any one, and either with `*` behind it for any number of such characters. With `^` in
-- front the part is at the start of the text, with `$` at the end of the pattern at its end.
pub match-Found : (re t : List ℕ) → (match re t ≡ true) ↔ Found re t
unfolding match
match-Found [] t = match_from-Part [] t
match-Found (c ∷ re) t = elim (Bool-cases (c == b'^')) [
  | inl e ↦ rw e (matchhere-Part re t)
  | inr e ↦ rw e (match_from-Part (c ∷ re) t)
]
