-- ===== src/Shell/Tokens.antt =====
-- The tokens of printed commands, srcs/sh.c.
use os_project_mlfqschedulin.Base.{
  ℕ, ◌≡◌, refl, ap, ◌∙◌, inl, inr, true, false, ◌||◌, List, [], ◌∷◌, ◌++◌, arith, ◌==◌,
  if◌then◌else◌, has, All,
}
use os_project_mlfqschedulin.Shell.{
  whitespace, Cmd, redir, skip, scan_word, Token, greater, lex, gettoken, peeks, redirect,
  parseredirs,
}
use os_project_mlfqschedulin.Shell.Bounds.{skip-none}
use os_project_mlfqschedulin.Shell.Fuel.{parseredirs-step}
use os_project_mlfqschedulin.Shell.Print.{Plain, IsWord, IsMode, arrow, skip-arrow}

scan_word-word : (w t : List ℕ) → All Plain w → scan_word (w ++ 32 ∷ t) ≡ (w, 32 ∷ t)
unfolding scan_word
scan_word-word [] t a = refl
scan_word-word (c ∷ w) t a =
    rw (a.0.1, a.0.2) (ap (λ (r : List ℕ × List ℕ). (c ∷ r.0, r.1)) (scan_word-word w t a.1))

-- The whitespace behind a token is passed.
abbrev advance : Token → Token
advance t = record t { rest = skip t.rest }

gettoken-lex : (s : List ℕ) → gettoken s ≡ advance (lex (skip s))
unfolding gettoken
gettoken-lex s = refl

-- The token at a character.
abbrev token_at : ℕ → List ℕ → List ℕ × List ℕ → Token
token_at c s r =
    if c == b'|' || c == b'(' || c == b')' || c == b';' || c == b'&' || c == b'<'
    then record { kind = c; text = c ∷ []; rest = s }
    else if c == b'>'
    then greater s
    else record { kind = b'a'; text = r.0; rest = r.1 }

lex-token_at : (c : ℕ) (s : List ℕ) → lex (c ∷ s) ≡ token_at c s (scan_word (c ∷ s))
unfolding lex
lex-token_at c s = refl

gettoken-token_at :
    (c : ℕ) (s : List ℕ)
    → has c whitespace ≡ false
    → gettoken (c ∷ s) ≡ advance (token_at c s (scan_word (c ∷ s)))
gettoken-token_at c s n =
    gettoken-lex (c ∷ s)
    ∙ ap (λ (x : List ℕ). advance (lex x)) (skip-none c s n)
    ∙ ap advance (lex-token_at c s)

pub gettoken-word :
    (w t : List ℕ)
    → IsWord w
    → skip t ≡ t
    → gettoken (w ++ 32 ∷ t) ≡ record { kind = b'a'; text = w; rest = t }
gettoken-word [] t a e = absurd a
gettoken-word (c ∷ w) t a e =
    let n = a.0.2 in
    let no_symbol : (c == b'|' || c == b'(' || c == b')' || c == b';' || c == b'&' || c == b'<')
        ≡ false =
      ground arith in
    let no_arrow : (c == b'>') ≡ false = ground arith in
    gettoken-token_at c (w ++ 32 ∷ t) a.0.1
    ∙ ap (λ (r : List ℕ × List ℕ). advance (token_at c (w ++ 32 ∷ t) r))
        (scan_word-word (c ∷ w) t a)
    ∙ rw (no_symbol, no_arrow)
        (ap (λ (x : List ℕ). record { kind = b'a'; text = c ∷ w; rest = x }) (behind t e))
  where
    behind : (t : List ℕ) → skip t ≡ t → skip (32 ∷ t) ≡ t
    behind t e = unfold skip in e

-- `|`, `(`, `)`, `;`, `&` and `<`.
pub gettoken-symbol :
    (c : ℕ) (t : List ℕ)
    → has c whitespace ≡ false
    → (c == b'|' || c == b'(' || c == b')' || c == b';' || c == b'&' || c == b'<') ≡ true
    → skip t ≡ t
    → gettoken (c ∷ t) ≡ record { kind = c; text = c ∷ []; rest = t }
gettoken-symbol c t n y e =
    gettoken-token_at c t n
    ∙ rw y (ap (λ (x : List ℕ). record { kind = c; text = c ∷ []; rest = x }) e)

greater-alone :
    (w t : List ℕ)
    → IsWord w
    → greater (w ++ t) ≡ record { kind = b'>'; text = b'>' ∷ []; rest = w ++ t }
unfolding greater
greater-alone [] t a = absurd a
greater-alone (c ∷ w) t a =
    let n = a.0.2 in let no_arrow : (c == b'>') ≡ false = ground arith in rw no_arrow refl

skip-word : (w t : List ℕ) → IsWord w → skip (w ++ t) ≡ w ++ t
skip-word [] t a = absurd a
skip-word (c ∷ w) t a = skip-none c (w ++ t) a.0.1

-- The token of a redirection in front of its file.
gettoken-arrow :
    (mode fd : ℕ) (w t : List ℕ)
    → IsMode mode fd
    → IsWord w
    → gettoken (arrow fd ∷ w ++ t) ≡ record { kind = arrow fd; text = arrow fd ∷ []; rest = w ++ t }
gettoken-arrow mode fd w t (inl (m, f)) a =
    let is_in : arrow fd ≡ b'<' = ground arith in
    rw is_in (gettoken-symbol b'<' (w ++ t) refl refl (skip-word w t a))
gettoken-arrow mode fd w t (inr (m, f)) a =
    let is_out : arrow fd ≡ b'>' = ground arith in
    rw is_out (
      gettoken-token_at b'>' (w ++ t) refl
      ∙ ap advance (greater-alone w t a)
      ∙ ap (λ (x : List ℕ). record { kind = b'>'; text = b'>' ∷ []; rest = x }) (skip-word w t a))

redirect-arrow :
    (mode fd : ℕ) (c : Cmd) (w : List ℕ)
    → IsMode mode fd
    → redirect (arrow fd) c w ≡ redir c w mode fd
unfolding redirect
redirect-arrow mode fd c w (inl (m, f)) = rw (m, f) refl
redirect-arrow mode fd c w (inr (m, f)) = rw (m, f) refl

-- parseredirs reads a printed redirection.
pub parseredirs-arrow :
    (c : Cmd) (mode fd : ℕ) (w t : List ℕ)
    → IsMode mode fd
    → IsWord w
    → skip t ≡ t
    → parseredirs c (arrow fd ∷ w ++ 32 ∷ t) ≡ parseredirs (redir c w mode fd) t
parseredirs-arrow c mode fd w t m a e =
    let first = gettoken-arrow mode fd w (32 ∷ t) m a in
    let tok : (gettoken (arrow fd ∷ w ++ 32 ∷ t)).kind ≡ arrow fd =
      ap (λ (x : Token). x.kind) first in
    let next : gettoken (gettoken (arrow fd ∷ w ++ 32 ∷ t)).rest
        ≡ record { kind = b'a'; text = w; rest = t } =
      ap (λ (x : Token). gettoken x.rest) first ∙ gettoken-word w t a e in
    parseredirs-step c (arrow fd ∷ w ++ 32 ∷ t) (skip-arrow fd (w ++ 32 ∷ t)) (an_arrow fd)
      (ap (λ (x : Token). x.kind == b'a') next)
    ∙ ap
        (λ (x : ℕ).
          parseredirs (redirect x c (gettoken (gettoken (arrow fd ∷ w ++ 32 ∷ t)).rest).text)
            (gettoken (gettoken (arrow fd ∷ w ++ 32 ∷ t)).rest).rest)
        tok
    ∙ ap (λ (x : Token). parseredirs (redirect (arrow fd) c x.text) x.rest) next
    ∙ ap (λ (x : Cmd). parseredirs x t) (redirect-arrow mode fd c w m)
  where
    an_arrow : (fd : ℕ) → peeks (b'<' ∷ b'>' ∷ []) (arrow fd ∷ w ++ 32 ∷ t) ≡ true
    an_arrow fd = unfold peeks in ground arith
