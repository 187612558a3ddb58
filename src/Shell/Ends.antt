-- ===== src/Shell/Ends.antt =====
-- The parser of srcs/sh.c comes to an end.
use os_project_mlfqschedulin.Base.{
  ℕ, zero, suc, ◌<◌, ◌≤◌, ◌≡◌, refl, ◌⊎◌, inl, inr, Bool, true, false, not, List, [], ◌∷◌, arith,
  Bool-cases, length,
}
use os_project_mlfqschedulin.Shell.{
  Cmd, exec, pipe, list, back, skip, gettoken, peeks, SyntaxError, Parsed, parsed, panics, no_fuel,
  ◌>>=◌, parseredirs, parseargs, parseblock, parseexec, parsepipe, backs, parseline, parsecmd,
  not_a_block, missing_paren, leftovers,
}
use os_project_mlfqschedulin.Shell.Bounds.{
  length-skip, Within, Within-bind, Within-le, Within-if, peeks-less, parseredirs-Within,
  parseargs-Within,
}

-- What a parser `line` of blocks does with texts of fewer than `n` characters.
abbrev Line : ℕ → (List ℕ → Parsed) → Type 0
Line n line = (s : List ℕ) → length s < n → Within (length s) (line s)

parseblock-Within :
    (n : ℕ) (line : List ℕ → Parsed) (s : List ℕ)
    → Line n line
    → length s ≤ n
    → Within (length s) (parseblock line s)
unfolding parseblock
parseblock-Within n line s f le =
    Within-if (length s) (not (peeks (b'(' ∷ []) (skip s))) (panics not_a_block) _ (λ e. tt)
      (λ e.
        let t = (gettoken (skip s)).rest in
        let less = peeks-less (b'(' ∷ []) s (ground arith) in
        Within-bind (length s) (length t) (line t) _ (f t (omega arith)) (λ c s' le'.
          Within-if (length s) (not (peeks (b')' ∷ []) (skip s'))) (panics missing_paren) _
            (λ e'. tt)
            (λ e'.
              let less' = peeks-less (b')' ∷ []) s' (ground arith) in
              Within-le (length (gettoken (skip s')).rest) (length s)
                (parseredirs c (gettoken (skip s')).rest) (omega arith)
                (parseredirs-Within c (gettoken (skip s')).rest))))

parseexec-Within :
    (n : ℕ) (line : List ℕ → Parsed) (s : List ℕ)
    → Line n line
    → length s ≤ n
    → Within (length s) (parseexec line s)
unfolding parseexec
parseexec-Within n line s f le =
    let shorter = length-skip s in
    Within-le (length (skip s)) (length s) _ shorter (
      Within-if (length (skip s)) (peeks (b'(' ∷ []) (skip s)) (parseblock line (skip s)) _
        (λ e. parseblock-Within n line (skip s) f (omega arith))
        (λ e.
          Within-bind (length (skip s)) (length (skip s)) (parseredirs (exec []) (skip s))
            (λ c s'. parseargs 0 c s') (parseredirs-Within (exec []) (skip s))
            (λ c s' le'.
              Within-le (length s') (length (skip s)) (parseargs 0 c s') le'
                (parseargs-Within 0 c s'))))

parsepipe-Within :
    (m n : ℕ) (line : List ℕ → Parsed) (s : List ℕ)
    → Line n line
    → length s ≤ n
    → length s < m
    → Within (length s) (parsepipe m line s)
unfolding parsepipe
parsepipe-Within zero n line s f le lt = absurd (omega arith)
parsepipe-Within (suc m) n line s f le lt =
    Within-bind (length s) (length s) (parseexec line s) _ (parseexec-Within n line s f le)
      (λ c s' le'.
        after (λ t l l'. parsepipe-Within m n line t f l l') c s' le'
          (Bool-cases (peeks (b'|' ∷ []) (skip s'))))
  where
    after :
        ((t : List ℕ) → length t ≤ n → length t < m → Within (length t) (parsepipe m line t))
        → (c : Cmd) (s' : List ℕ) → length s' ≤ length s
        → (peeks (b'|' ∷ []) (skip s') ≡ true) ⊎ (peeks (b'|' ∷ []) (skip s') ≡ false)
        → Within (length s) (elim (peeks (b'|' ∷ []) (skip s')) as (λ (b : Bool). Parsed) [
          | true ↦ parsepipe m line (gettoken (skip s')).rest >>= λ d s''. parsed (pipe c d) s''
          | false ↦ parsed c (skip s')
        ])
    after ih c s' le' (inr e) = rw e (let shorter = length-skip s' in omega arith)
    after ih c s' le' (inl e) =
        let t = (gettoken (skip s')).rest in
        let less = peeks-less (b'|' ∷ []) s' e in
        rw e (
          Within-bind (length s) (length t) (parsepipe m line t) (λ d s''. parsed (pipe c d) s'')
            (ih t (omega arith) (omega arith)) (λ d s'' l. omega arith))

backs-Within : (n : ℕ) (c : Cmd) (s : List ℕ) → length s < n → Within (length s) (backs n c s)
unfolding backs
backs-Within zero c s h = absurd (omega arith)
backs-Within (suc n) c s h =
    Within-if (length s) (peeks (b'&' ∷ []) (skip s)) _ (parsed c (skip s))
      (λ e.
        let less = peeks-less (b'&' ∷ []) s e in
        Within-le (length (gettoken (skip s)).rest) (length s)
          (backs n (back c) (gettoken (skip s)).rest) (omega arith)
          (backs-Within n (back c) (gettoken (skip s)).rest (omega arith)))
      (λ e. length-skip s)

pub parseline-Within : (n : ℕ) (s : List ℕ) → length s < n → Within (length s) (parseline n s)
unfolding parseline
parseline-Within zero s h = absurd (omega arith)
parseline-Within (suc n) s h =
    Within-bind (length s) (length s) (parsepipe (suc (length s)) (parseline n) s) _
      (parsepipe-Within (suc (length s)) n (parseline n) s (λ u lt. parseline-Within n u lt)
        (omega arith) (omega arith))
      (λ c s' le'.
        Within-bind (length s) (length s') (backs (suc (length s')) c s') _
          (backs-Within (suc (length s')) c s' (omega arith))
          (λ d s'' le''.
            after (λ t l. parseline-Within n t l) d s'' (omega arith)
              (Bool-cases (peeks (b';' ∷ []) (skip s'')))))
  where
    after :
        Line n (parseline n)
        → (d : Cmd) (u : List ℕ) → length u ≤ length s
        → (peeks (b';' ∷ []) (skip u) ≡ true) ⊎ (peeks (b';' ∷ []) (skip u) ≡ false)
        → Within (length s) (elim (peeks (b';' ∷ []) (skip u)) as (λ (b : Bool). Parsed) [
          | true ↦ parseline n (gettoken (skip u)).rest >>= λ e s3. parsed (list d e) s3
          | false ↦ parsed d (skip u)
        ])
    after ih d u le (inr e) = rw e (let shorter = length-skip u in omega arith)
    after ih d u le (inl e) =
        let t = (gettoken (skip u)).rest in
        let less = peeks-less (b';' ∷ []) u e in
        rw e (
          Within-bind (length s) (length t) (parseline n t) (λ e s3. parsed (list d e) s3)
            (ih t (omega arith)) (λ e s3 l. omega arith))

-- A call of parsecmd returns a command with nothing left of the text, or panics.
pub data Returns (r : Parsed) : Type 0 where
  command : (c : Cmd) → r ≡ parsed c [] → Returns r
  panic_at : (e : SyntaxError) → r ≡ panics e → Returns r

-- parsecmd of any text ends: with the rounds that each of its loops and recursive calls is given, it
-- returns a command and has then passed the whole text, or it panics.
pub parsecmd-Returns : (s : List ℕ) → Returns (parsecmd s)
unfolding parsecmd
parsecmd-Returns s =
    by_line (parseline (suc (length s)) s) (parseline-Within (suc (length s)) s (omega arith))
  where
    by_rest :
        (c : Cmd) (u : List ℕ)
        → Returns
            (elim u as (λ (x : List ℕ). Parsed) [ [] ↦ parsed c [] | x ∷ r ↦ panics leftovers ])
    by_rest c [] = command c refl
    by_rest c (x ∷ u) = panic_at leftovers refl

    by_line :
        (r : Parsed)
        → Within (length s) r
        → Returns (
            r >>= λ c s'. elim (skip s') as (λ (x : List ℕ). Parsed) [
              | [] ↦ parsed c []
              | x ∷ r ↦ panics leftovers
            ])
    by_line (parsed c u) h = by_rest c (skip u)
    by_line (panics e) h = panic_at e refl
    by_line no_fuel h = absurd h
