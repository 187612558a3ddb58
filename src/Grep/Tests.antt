-- ===== src/Grep/Tests.antt =====
-- Runs of the matcher.
use os_project_mlfqschedulin.Base.{ℕ, ◌≡◌, refl, ◌↔◌, true, false, List, [], ◌∷◌}
use os_project_mlfqschedulin.Grep.{match}
use os_project_mlfqschedulin.Grep.Language.{Found, match-Found}

-- `^ab*.$` and the text `abbx`.
abbrev pattern_text : List ℕ
pattern_text = b'^' ∷ b'a' ∷ b'b' ∷ b'*' ∷ b'.' ∷ b'$' ∷ []

abbrev abbx : List ℕ
abbx = b'a' ∷ b'b' ∷ b'b' ∷ b'x' ∷ []

match_run : match pattern_text abbx ≡ true
unfolding match
match_run = refl

match_no : match pattern_text (b'x' ∷ abbx) ≡ false
unfolding match
match_no = refl

match-Found_example : (match pattern_text abbx ≡ true) ↔ Found pattern_text abbx
match-Found_example = match-Found pattern_text abbx
