-- ===== src/Shell/Arguments.antt =====
-- The arguments and redirections of printed commands, srcs/sh.c, and what may stand behind a command.
use mathlib.Core.List.{append_assoc, append-nil}
use os_project_mlfqschedulin.Base.{
  ℕ, suc, ◌+◌, ◌<◌, ◌≡◌, refl, sym, ap, ◌∙◌, true, false, Option, none, some, List, [], ◌∷◌, ◌++◌,
  arith, leb, ◌==◌, has, length, All, length-append,
}
use os_project_mlfqschedulin.Shell.{
  maxargs, symbols, Cmd, exec, redir, pipe, list, back, skip, Token, peeks, Parsed, parsed, ◌>>=◌,
  parseredirs, push_arg, parseargs,
}
use os_project_mlfqschedulin.Shell.Bounds.{skip-none}
use os_project_mlfqschedulin.Shell.Fuel.{
  more, parseredirs-stop, parseargs-step, parseargs-stop, parseargs-end,
}
use os_project_mlfqschedulin.Shell.Print.{IsWord, IsMode, words, arrow}
use os_project_mlfqschedulin.Shell.Tokens.{gettoken-word, parseredirs-arrow}

-- The text is at its end, or goes on with one of the characters.
abbrev pub After : List ℕ → List ℕ → Type 0
After toks [] = Unit
After toks (c ∷ t) = has c toks ≡ true

-- What may stand behind a command in a pipe, behind a pipe, and behind a line.
abbrev pub enders : List ℕ
enders = b'|' ∷ b')' ∷ b'&' ∷ b';' ∷ []

abbrev pub closers : List ℕ
closers = b')' ∷ b'&' ∷ b';' ∷ []

abbrev pub parens : List ℕ
parens = b')' ∷ []

pub skip-After : (t : List ℕ) → After enders t → skip t ≡ t
skip-After [] a = unfold skip in refl
skip-After (c ∷ t) a = skip-none c t (ground arith)

pub After-closers : (t : List ℕ) → After closers t → After enders t
After-closers [] a = tt
After-closers (c ∷ t) a = ground arith

pub After-parens : (t : List ℕ) → After parens t → After closers t
After-parens [] a = tt
After-parens (c ∷ t) a = ground arith

pub peeks-cons : (toks : List ℕ) (c : ℕ) (t : List ℕ) → peeks toks (c ∷ t) ≡ has c toks
peeks-cons toks c t = unfold peeks in refl

peeks-none : (toks : List ℕ) → peeks toks [] ≡ false
peeks-none toks = unfold peeks in refl

no_arrow : (t : List ℕ) → After enders t → peeks (b'<' ∷ b'>' ∷ []) t ≡ false
no_arrow [] a = peeks-none (b'<' ∷ b'>' ∷ [])
no_arrow (c ∷ t) a = peeks-cons (b'<' ∷ b'>' ∷ []) c t ∙ ground arith

pub no_bar : (t : List ℕ) → After closers t → peeks (b'|' ∷ []) t ≡ false
no_bar [] a = peeks-none (b'|' ∷ [])
no_bar (c ∷ t) a = peeks-cons (b'|' ∷ []) c t ∙ ground arith

pub no_amp : (t : List ℕ) → After parens t → peeks (b'&' ∷ []) t ≡ false
no_amp [] a = peeks-none (b'&' ∷ [])
no_amp (c ∷ t) a = peeks-cons (b'&' ∷ []) c t ∙ ground arith

pub no_semi : (t : List ℕ) → After parens t → peeks (b';' ∷ []) t ≡ false
no_semi [] a = peeks-none (b';' ∷ [])
no_semi (c ∷ t) a = peeks-cons (b';' ∷ []) c t ∙ ground arith

-- A word in front.
pub word-start :
    (w t : List ℕ) (toks : List ℕ)
    → IsWord w
    → ((c : ℕ) → has c symbols ≡ false → has c toks ≡ false)
    → (skip (w ++ t) ≡ w ++ t) × (peeks toks (w ++ t) ≡ false)
word-start [] t toks a f = absurd a
word-start (c ∷ w) t toks a f = (skip-none c (w ++ t) a.0.1, peeks-cons toks c (w ++ t) ∙ f c a.0.2)

pub skip-words :
    (ws : List (List ℕ)) (t : List ℕ) → All IsWord ws → skip t ≡ t → skip (words ws t) ≡ words ws t
skip-words [] t a e = e
skip-words (w ∷ ws) t a e = (word-start w (32 ∷ words ws t) [] a.0 (λ c n. refl)).0

push_arg-exec : (pre : List (List ℕ)) (w : List ℕ) → push_arg (exec pre) w ≡ exec (pre ++ w ∷ [])
unfolding push_arg
push_arg-exec pre w = refl

-- One more argument.
more-word :
    (pre : List (List ℕ)) (w u : List ℕ)
    → length pre < 9
    → IsWord w
    → skip u ≡ u
    → more (length pre) (exec pre) (w ++ 32 ∷ u)
      ≡ more (length (pre ++ w ∷ [])) (exec (pre ++ w ∷ [])) u
more-word pre w u lt a e =
    let s : List ℕ = w ++ 32 ∷ u in
    let (sk, na) = word-start w (32 ∷ u) (b'<' ∷ b'>' ∷ []) a (λ c n. ground arith) in
    let (sk', ne) = word-start w (32 ∷ u) enders a (λ c n. ground arith) in
    let tok = gettoken-word w u a e in
    let small : leb maxargs (suc (length pre)) ≡ false = ground arith in
    ap (λ (r : Parsed). r >>= λ c' s'. parseargs (length pre) c' s')
      (parseredirs-stop (exec pre) s sk na)
    ∙ parseargs-step (length pre) (exec pre) s sk ne (ap (λ (x : Token). x.kind == 0) tok)
        (ap (λ (x : Token). x.kind == b'a') tok) small
    ∙ ap (λ (x : Token). more (suc (length pre)) (push_arg (exec pre) x.text) x.rest) tok
    ∙ ap (λ (x : Cmd). more (suc (length pre)) x u) (push_arg-exec pre w)
    ∙ ap (λ (k : ℕ). more k (exec (pre ++ w ∷ [])) u)
        (sym (length-append pre (w ∷ []) ∙ omega arith))

-- The arguments of an EXEC command, one by one, behind the arguments `pre`.
pub more-words :
    (pre ws : List (List ℕ)) (t : List ℕ)
    → length pre + length ws < 10
    → All IsWord ws
    → skip t ≡ t
    → more (length pre) (exec pre) (words ws t) ≡ more (length (pre ++ ws)) (exec (pre ++ ws)) t
more-words pre [] t lt a e =
    ap (λ (x : List (List ℕ)). more (length x) (exec x) t) (sym (append-nil pre))
more-words pre (w ∷ ws) t lt a e =
    let longer = length-append pre (w ∷ []) in
    more-word pre w (words ws t) (omega arith) a.0 (skip-words ws t a.1 e)
    ∙ more-words (pre ++ w ∷ []) ws t (omega arith) a.1 e
    ∙ ap (λ (x : List (List ℕ)). more (length x) (exec x) t) (append_assoc pre (w ∷ []) ws)

-- How many arguments the EXEC command under redirections has.
abbrev pub args_of : Cmd → Option ℕ
args_of (exec args) = some (length args)
args_of (redir c file mode fd) = args_of c
args_of (pipe c d) = none
args_of (list c d) = none
args_of (back c) = none

-- The rest of parseexec or of parseblock behind the command `c`.
abbrev pub go_on : Option ℕ → Cmd → List ℕ → Parsed
go_on none c t = parseredirs c t
go_on (some k) c t = more k c t

pub go_on-After : (o : Option ℕ) (c : Cmd) (t : List ℕ) → After enders t → go_on o c t ≡ parsed c t
go_on-After none c t a = parseredirs-stop c t (skip-After t a) (no_arrow t a)
go_on-After (some k) c t a =
    ap (λ (r : Parsed). r >>= λ c' s'. parseargs k c' s')
      (parseredirs-stop c t (skip-After t a) (no_arrow t a))
    ∙ at_end t a
  where
    at_end : (t : List ℕ) → After enders t → parseargs k c t ≡ parsed c t
    at_end [] a = parseargs-end k c
    at_end (x ∷ t) a = parseargs-stop k c (x ∷ t) (skip-After (x ∷ t) a) (peeks-cons enders x t ∙ a)

pub go_on-arrow :
    (o : Option ℕ) (c : Cmd) (mode fd : ℕ) (w t : List ℕ)
    → IsMode mode fd
    → IsWord w
    → skip t ≡ t
    → go_on o c (arrow fd ∷ w ++ 32 ∷ t) ≡ go_on o (redir c w mode fd) t
go_on-arrow none c mode fd w t m a e = parseredirs-arrow c mode fd w t m a e
go_on-arrow (some k) c mode fd w t m a e =
    ap (λ (r : Parsed). r >>= λ c' s'. parseargs k c' s') (parseredirs-arrow c mode fd w t m a e)
