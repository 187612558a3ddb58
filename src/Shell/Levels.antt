-- ===== src/Shell/Levels.antt =====
-- The parser of srcs/sh.c on each level of a printed command, from the level below.
use os_project_mlfqschedulin.Base.{
  ℕ, zero, suc, ◌<◌, ◌≤◌, ◌≡◌, refl, ap, subst, ◌∙◌, true, false, ◌||◌, not, List, [], ◌∷◌, arith,
  ◌==◌, if◌then◌else◌, has, length,
}
use os_project_mlfqschedulin.Shell.{
  whitespace, Cmd, exec, pipe, list, back, skip, Token, gettoken, peeks, Parsed, parsed, panics,
  no_fuel, not_a_block, missing_paren, ◌>>=◌, parseredirs, parseargs, parseblock, parseexec,
  parsepipe, backs, parseline,
}
use os_project_mlfqschedulin.Shell.Bounds.{skip-none}
use os_project_mlfqschedulin.Shell.Print.{
  IsCommand, on_line, before_semi, in_pipe, in_exec, print_before, skip-print_before,
}
use os_project_mlfqschedulin.Shell.Tokens.{gettoken-symbol}
use os_project_mlfqschedulin.Shell.Arguments.{
  After, closers, parens, skip-After, After-closers, After-parens, peeks-cons, no_bar, no_amp,
  no_semi, args_of, go_on, go_on-After,
}

-- The parts of the parser behind the whitespace, with the calls that they make.
abbrev pub exec_at : (List ℕ → Parsed) → List ℕ → Parsed
exec_at line u =
    if peeks (b'(' ∷ []) u
    then parseblock line u
    else parseredirs (exec []) u >>= λ c s'. parseargs 0 c s'

abbrev pub close_at : Cmd → List ℕ → Parsed
close_at c v =
    if not (peeks (b')' ∷ []) v) then panics missing_paren else parseredirs c (gettoken v).rest

abbrev pub block_at : (List ℕ → Parsed) → List ℕ → Parsed
block_at line u =
    if not (peeks (b'(' ∷ []) u)
    then panics not_a_block
    else line (gettoken u).rest >>= λ c s'. close_at c (skip s')

abbrev pub pipe_at : (List ℕ → Parsed) → Cmd → List ℕ → Parsed
pipe_at rest c u = elim (peeks (b'|' ∷ []) u) [
  | true ↦ rest (gettoken u).rest >>= λ d s''. parsed (pipe c d) s''
  | false ↦ parsed c u
]

abbrev pub backs_at : (Cmd → List ℕ → Parsed) → Cmd → List ℕ → Parsed
backs_at rest c u = if peeks (b'&' ∷ []) u then rest (back c) (gettoken u).rest else parsed c u

abbrev pub line_at : (List ℕ → Parsed) → Cmd → List ℕ → Parsed
line_at rest d u = elim (peeks (b';' ∷ []) u) [
  | true ↦ rest (gettoken u).rest >>= λ e s3. parsed (list d e) s3
  | false ↦ parsed d u
]

pub parseexec-at : (line : List ℕ → Parsed) (s : List ℕ) → parseexec line s ≡ exec_at line (skip s)
unfolding parseexec
parseexec-at line s = refl

pub parseblock-at :
    (line : List ℕ → Parsed) (s : List ℕ) → parseblock line s ≡ block_at line (skip s)
unfolding parseblock
parseblock-at line s = refl

pub parsepipe-at :
    (m : ℕ) (line : List ℕ → Parsed) (s : List ℕ)
    → parsepipe (suc m) line s
      ≡ (parseexec line s >>= λ c s'. pipe_at (parsepipe m line) c (skip s'))
unfolding parsepipe
parsepipe-at m line s = refl

pub backs-at : (n : ℕ) (c : Cmd) (s : List ℕ) → backs (suc n) c s ≡ backs_at (backs n) c (skip s)
unfolding backs
backs-at n c s = refl

-- parsepipe and the loop of parseline, with their rounds.
abbrev pub before_list : ℕ → List ℕ → Parsed
before_list n s =
    parsepipe (suc (length s)) (parseline n) s >>= λ c s'. backs (suc (length s')) c s'

pub bind_assoc :
    (m : Parsed) (f g : Cmd → List ℕ → Parsed) → (m >>= λ c s. f c s >>= g) ≡ ((m >>= f) >>= g)
bind_assoc (parsed c s) f g = refl
bind_assoc (panics e) f g = refl
bind_assoc no_fuel f g = refl

pub parseline-at :
    (n : ℕ) (s : List ℕ)
    → parseline (suc n) s ≡ (before_list n s >>= λ d u. line_at (parseline n) d (skip u))
parseline-at n s =
    opened n s
    ∙ bind_assoc (parsepipe (suc (length s)) (parseline n) s) (λ c s'. backs (suc (length s')) c s')
        (λ d u. line_at (parseline n) d (skip u))
  where
    opened :
        (n : ℕ) (s : List ℕ)
        → parseline (suc n) s ≡ (
            parsepipe (suc (length s)) (parseline n) s >>= λ c s'.
            backs (suc (length s')) c s' >>= λ d u. line_at (parseline n) d (skip u))
    opened n s = unfold parseline in refl

-- The parser reads the text of `c` on each level, with any text behind it that may stand there.
pub record Reads (c : Cmd) : Type 0 where
  pub by_exec :
      (n : ℕ) (t : List ℕ)
      → skip t ≡ t
      → peeks (b'(' ∷ []) t ≡ false
      → length (print_before in_exec c t) ≤ n
      → parseexec (parseline n) (print_before in_exec c t) ≡ go_on (args_of c) c t
  pub by_pipe :
      (n m : ℕ) (t : List ℕ)
      → After closers t
      → length (print_before in_pipe c t) ≤ n
      → length (print_before in_pipe c t) < m
      → parsepipe m (parseline n) (print_before in_pipe c t) ≡ parsed c t
  pub by_semi :
      (n : ℕ) (t : List ℕ)
      → After closers t
      → length (print_before before_semi c t) ≤ n
      → before_list n (print_before before_semi c t) ≡ backs (suc (length t)) c t
  pub by_line :
      (n : ℕ) (t : List ℕ)
      → After parens t
      → length (print_before on_line c t) < n
      → parseline n (print_before on_line c t) ≡ parsed c t

-- The text behind a symbol.
pub passes :
    (c : ℕ) (t : List ℕ)
    → has c whitespace ≡ false
    → (c == b'|' || c == b'(' || c == b')' || c == b';' || c == b'&' || c == b'<') ≡ true
    → skip t ≡ t
    → (gettoken (c ∷ t)).rest ≡ t
passes c t n y e = ap (λ (x : Token). x.rest) (gettoken-symbol c t n y e)

module _ (c : Cmd) where
  -- A command that needs no parentheses in a pipe, and so on.
  pub pipe-of_exec :
      ((n : ℕ) (t : List ℕ)
        → skip t ≡ t
        → peeks (b'(' ∷ []) t ≡ false
        → length (print_before in_exec c t) ≤ n
        → parseexec (parseline n) (print_before in_exec c t) ≡ go_on (args_of c) c t)
      → ((t : List ℕ) → print_before in_pipe c t ≡ print_before in_exec c t)
      → (n m : ℕ) (t : List ℕ) → After closers t
      → length (print_before in_pipe c t) ≤ n
      → length (print_before in_pipe c t) < m
      → parsepipe m (parseline n) (print_before in_pipe c t) ≡ parsed c t
  pipe-of_exec f same n zero t a le lt = absurd (omega arith)
  pipe-of_exec f same n (suc m) t a le lt =
      let e = After-closers t a in
      let shorter : length (print_before in_exec c t) ≤ n =
        subst (λ (x : List ℕ). length x ≤ n) (same t) le in
      let no_pipe : pipe_at (parsepipe m (parseline n)) c t ≡ parsed c t =
        rw (no_bar t a, pipe_at) refl in
      ap (parsepipe (suc m) (parseline n)) (same t)
      ∙ parsepipe-at m (parseline n) (print_before in_exec c t)
      ∙ ap (λ (r : Parsed). r >>= λ c s'. pipe_at (parsepipe m (parseline n)) c (skip s'))
          (f n t (skip-After t e) (no_paren t a) shorter ∙ go_on-After (args_of c) c t e)
      ∙ ap (pipe_at (parsepipe m (parseline n)) c) (skip-After t e)
      ∙ no_pipe
    where
      no_paren : (t : List ℕ) → After closers t → peeks (b'(' ∷ []) t ≡ false
      no_paren [] a = unfold peeks in refl
      no_paren (x ∷ t) a = peeks-cons (b'(' ∷ []) x t ∙ ground arith

  pub semi-of_pipe :
      ((n m : ℕ) (t : List ℕ)
        → After closers t
        → length (print_before in_pipe c t) ≤ n
        → length (print_before in_pipe c t) < m
        → parsepipe m (parseline n) (print_before in_pipe c t) ≡ parsed c t)
      → ((t : List ℕ) → print_before before_semi c t ≡ print_before in_pipe c t)
      → (n : ℕ) (t : List ℕ) → After closers t
      → length (print_before before_semi c t) ≤ n
      → before_list n (print_before before_semi c t) ≡ backs (suc (length t)) c t
  semi-of_pipe f same n t a le =
      let shorter : length (print_before in_pipe c t) ≤ n =
        subst (λ (x : List ℕ). length x ≤ n) (same t) le in
      ap (before_list n) (same t)
      ∙ ap (λ (r : Parsed). r >>= λ c s'. backs (suc (length s')) c s')
          (f n (suc (length (print_before in_pipe c t))) t a shorter (omega arith))

  pub line-of_semi :
      ((n : ℕ) (t : List ℕ)
        → After closers t
        → length (print_before before_semi c t) ≤ n
        → before_list n (print_before before_semi c t) ≡ backs (suc (length t)) c t)
      → ((t : List ℕ) → print_before on_line c t ≡ print_before before_semi c t)
      → (n : ℕ) (t : List ℕ) → After parens t
      → length (print_before on_line c t) < n
      → parseline n (print_before on_line c t) ≡ parsed c t
  line-of_semi f same zero t a lt = absurd (omega arith)
  line-of_semi f same (suc n) t a lt =
      let sk = skip-After t (After-closers t (After-parens t a)) in
      let shorter : length (print_before before_semi c t) ≤ n =
        subst (λ (x : List ℕ). length x ≤ n) (same t) (omega arith) in
      let no_back : backs_at (backs (length t)) c t ≡ parsed c t = rw (no_amp t a) refl in
      let no_list : line_at (parseline n) c t ≡ parsed c t = rw (no_semi t a, line_at) refl in
      ap (parseline (suc n)) (same t)
      ∙ parseline-at n (print_before before_semi c t)
      ∙ ap (λ (r : Parsed). r >>= λ d u. line_at (parseline n) d (skip u))
          (f n t (After-parens t a) shorter
            ∙ backs-at (length t) c t
            ∙ ap (backs_at (backs (length t)) c) sk
            ∙ no_back)
      ∙ ap (line_at (parseline n) c) sk
      ∙ no_list

  -- A command in parentheses.
  pub exec-of_line :
      IsCommand c
      → ((n : ℕ) (t : List ℕ)
          → After parens t
          → length (print_before on_line c t) < n
          → parseline n (print_before on_line c t) ≡ parsed c t)
      → (n : ℕ) (t : List ℕ) → skip t ≡ t
      → length (b'(' ∷ print_before on_line c (b')' ∷ t)) ≤ n
      → parseexec (parseline n) (b'(' ∷ print_before on_line c (b')' ∷ t)) ≡ parseredirs c t
  exec-of_line v f n t e le =
      let u : List ℕ = b')' ∷ t in
      let x : List ℕ = print_before on_line c u in
      let opens : peeks (b'(' ∷ []) (b'(' ∷ x) ≡ true = peeks-cons (b'(' ∷ []) b'(' x in
      let closes : peeks (b')' ∷ []) u ≡ true = peeks-cons (b')' ∷ []) b')' t in
      parseexec-at (parseline n) (b'(' ∷ x)
      ∙ ap (exec_at (parseline n)) (skip-none b'(' x refl)
      ∙ rw opens (parseblock-at (parseline n) (b'(' ∷ x))
      ∙ ap (block_at (parseline n)) (skip-none b'(' x refl)
      ∙ rw opens refl
      ∙ ap (λ (y : List ℕ). parseline n y >>= λ d s'. close_at d (skip s'))
          (passes b'(' x refl refl (skip-print_before on_line c u v (skip-none b')' t refl)))
      ∙ ap (λ (r : Parsed). r >>= λ d s'. close_at d (skip s')) (f n u refl (omega arith))
      ∙ ap (close_at c) (skip-none b')' t refl)
      ∙ rw closes (ap (parseredirs c) (passes b')' t refl refl e))

-- A command that never stands in parentheses.
pub Reads-simple :
    (c : Cmd)
    → ((n : ℕ) (t : List ℕ)
        → skip t ≡ t
        → peeks (b'(' ∷ []) t ≡ false
        → length (print_before in_exec c t) ≤ n
        → parseexec (parseline n) (print_before in_exec c t) ≡ go_on (args_of c) c t)
    → ((t : List ℕ) → print_before in_pipe c t ≡ print_before in_exec c t)
    → ((t : List ℕ) → print_before before_semi c t ≡ print_before in_pipe c t)
    → ((t : List ℕ) → print_before on_line c t ≡ print_before before_semi c t)
    → Reads c
Reads-simple c f p q r =
    let by_pipe = pipe-of_exec c f p in
    let by_semi = semi-of_pipe c by_pipe q in
    record { by_exec = f; by_pipe = by_pipe; by_semi = by_semi; by_line = line-of_semi c by_semi r }
