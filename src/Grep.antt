-- ===== src/Grep.antt =====
-- The matcher of regular expressions, srcs/grep.c. A string is the list of its characters before the NUL.
pub mod Items
pub mod Language
mod Tests
use os_project_mlfqschedulin.Base.{
  ℕ, Bool, true, false, ◌||◌, ◌&&◌, List, [], ◌∷◌, ◌==◌, if◌then◌else◌,
}

-- `*text == '\0'`.
abbrev pub at_end : List ℕ → Bool
at_end [] = true
at_end (x ∷ t) = false

-- `c == '.' || c == x`: the character `c` of a pattern stands for `x`.
abbrev pub fits : ℕ → ℕ → Bool
fits c x = c == b'.' || c == x

-- matchstar, where `here` is matchhere of the rest of the pattern. One round of its loop for each character.
unfoldable pub matchstar : ℕ → (List ℕ → Bool) → List ℕ → Bool
matchstar c here [] = here []
matchstar c here (x ∷ t) = here (x ∷ t) || (x == c || c == b'.') && matchstar c here t

-- The last case of matchhere.
unfoldable pub match_one : ℕ → (List ℕ → Bool) → List ℕ → Bool
match_one c here [] = false
match_one c here (x ∷ t) = fits c x && here t

unfoldable pub matchhere : List ℕ → List ℕ → Bool
unfolding matchstar match_one
matchhere [] t = true
matchhere (c ∷ []) t = if c == b'$' then at_end t else match_one c (matchhere []) t
matchhere (c ∷ d ∷ re) t =
    if d == b'*' then matchstar c (matchhere re) t else match_one c (matchhere (d ∷ re)) t

-- The loop of match.
unfoldable pub match_from : (List ℕ → Bool) → List ℕ → Bool
match_from here [] = here []
match_from here (x ∷ t) = here (x ∷ t) || match_from here t

unfoldable pub match : List ℕ → List ℕ → Bool
unfolding matchhere match_from
match [] t = match_from (matchhere []) t
match (c ∷ re) t = if c == b'^' then matchhere re t else match_from (matchhere (c ∷ re)) t
