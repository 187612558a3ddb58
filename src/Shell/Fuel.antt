-- ===== src/Shell/Fuel.antt =====
-- The loops of srcs/sh.c over the arguments and redirections of a command, one round at a time.
use os_project_mlfqschedulin.Base.{
  ℕ, zero, suc, ◌<◌, ◌≤◌, ◌≡◌, refl, ap, subst, ◌∙◌, inl, inr, true, false, not, List, [], ◌∷◌,
  arith, leb, ◌==◌, if◌then◌else◌, Bool-cases, length,
}
use os_project_mlfqschedulin.Shell.{
  Cmd, skip, lex, gettoken, peeks, Parsed, parsed, panics, no_fuel, ◌>>=◌, redirect, redirs_loop,
  parseredirs, push_arg, args_loop, parseargs, maxargs, missing_file, bad_token, too_many_args,
}
use os_project_mlfqschedulin.Shell.Bounds.{
  Within, length-gettoken, peeks-less, kind-less, parseredirs-Within,
}

-- More rounds than characters make no difference.
redirs_loop-fuel :
    (n m : ℕ) (c : Cmd) (s : List ℕ)
    → length s < n
    → length s < m
    → redirs_loop n c s ≡ redirs_loop m c s
unfolding redirs_loop
redirs_loop-fuel zero m c s h k = absurd (omega arith)
redirs_loop-fuel (suc n) zero c s h k = absurd (omega arith)
redirs_loop-fuel (suc n) (suc m) c s h k = elim (Bool-cases (peeks (b'<' ∷ b'>' ∷ []) (skip s))) [
  | inr e ↦ rw e refl
  | inl e ↦
      let t = gettoken (skip s) in
      let f = gettoken t.rest in
      let less = peeks-less (b'<' ∷ b'>' ∷ []) s e in
      let less' = length-gettoken t.rest in
      rw e (
        rw (redirs_loop-fuel n m (redirect t.kind c f.text) f.rest (omega arith) (omega arith))
          refl)
]

-- A round of parseredirs, behind the whitespace.
abbrev redirs_round : (Cmd → List ℕ → Parsed) → Cmd → List ℕ → Parsed
redirs_round rest c u =
    let t = gettoken u in
    let f = gettoken t.rest in
    if not (peeks (b'<' ∷ b'>' ∷ []) u)
    then parsed c u
    else if not (f.kind == b'a')
    then panics missing_file
    else rest (redirect t.kind c f.text) f.rest

parseredirs-round :
    (c : Cmd) (s : List ℕ) → parseredirs c s ≡ redirs_round (redirs_loop (length s)) c (skip s)
unfolding parseredirs redirs_loop
parseredirs-round c s = refl

parseredirs-fuel :
    (n : ℕ) (c : Cmd) (s : List ℕ) → length s < n → redirs_loop n c s ≡ parseredirs c s
parseredirs-fuel n c s h =
    unfold parseredirs in redirs_loop-fuel n (suc (length s)) c s h (omega arith)

-- A text that does not go on with a redirection.
pub parseredirs-stop :
    (c : Cmd) (s : List ℕ)
    → skip s ≡ s
    → peeks (b'<' ∷ b'>' ∷ []) s ≡ false
    → parseredirs c s ≡ parsed c s
parseredirs-stop c s e p =
    parseredirs-round c s ∙ ap (redirs_round (redirs_loop (length s)) c) e ∙ rw p refl

peeks-less-at :
    (toks s : List ℕ) → skip s ≡ s → peeks toks s ≡ true → length (gettoken s).rest < length s
peeks-less-at toks s e p =
    subst (λ (x : List ℕ). length (gettoken x).rest < length s) e
      (peeks-less toks s (ap (peeks toks) e ∙ p))

-- A redirection with its file.
pub parseredirs-step :
    (c : Cmd) (s : List ℕ)
    → skip s ≡ s
    → peeks (b'<' ∷ b'>' ∷ []) s ≡ true
    → ((gettoken (gettoken s).rest).kind == b'a') ≡ true
    → parseredirs c s
      ≡ parseredirs
          (redirect (gettoken s).kind c (gettoken (gettoken s).rest).text)
          (gettoken (gettoken s).rest).rest
parseredirs-step c s e p k =
    let t = gettoken s in
    let f = gettoken t.rest in
    let less : length t.rest < length s = peeks-less-at (b'<' ∷ b'>' ∷ []) s e p in
    let less' = length-gettoken t.rest in
    parseredirs-round c s
    ∙ ap (redirs_round (redirs_loop (length s)) c) e
    ∙ rw (p, k) (parseredirs-fuel (length s) (redirect t.kind c f.text) f.rest (omega arith))

bind-cong :
    (k : ℕ) (m : Parsed) (f g : Cmd → List ℕ → Parsed)
    → Within k m
    → ((c : Cmd) (s : List ℕ) → length s ≤ k → f c s ≡ g c s)
    → (m >>= f) ≡ (m >>= g)
bind-cong k (parsed c s) f g h e = e c s h
bind-cong k (panics x) f g h e = refl
bind-cong k no_fuel f g h e = refl

args_loop-fuel :
    (n m argc : ℕ) (c : Cmd) (s : List ℕ)
    → length s < n
    → length s < m
    → args_loop n argc c s ≡ args_loop m argc c s
unfolding args_loop
args_loop-fuel zero m argc c s h k = absurd (omega arith)
args_loop-fuel (suc n) zero argc c s h k = absurd (omega arith)
args_loop-fuel (suc n) (suc m) argc c s h k = elim (Bool-cases ((gettoken (skip s)).kind == 0)) [
  | inl e ↦ rw e refl
  | inr e ↦
      let t = gettoken (skip s) in
      let less = kind-less s e in
      rw
        (bind-cong (length t.rest) (parseredirs (push_arg c t.text) t.rest)
          (λ c' s'. args_loop n (suc argc) c' s') (λ c' s'. args_loop m (suc argc) c' s')
          (parseredirs-Within (push_arg c t.text) t.rest)
          (λ c' s' le. args_loop-fuel n m (suc argc) c' s' (omega arith) (omega arith)))
        refl
]

-- The rest of parseexec behind an argument: redirections, and then more arguments.
abbrev pub more : ℕ → Cmd → List ℕ → Parsed
more argc c s = parseredirs c s >>= λ c' s'. parseargs argc c' s'

-- A round of the loop over the arguments, behind the whitespace.
abbrev args_round : (ℕ → Cmd → List ℕ → Parsed) → ℕ → Cmd → List ℕ → Parsed
args_round rest argc c u =
    if peeks (b'|' ∷ b')' ∷ b'&' ∷ b';' ∷ []) u
    then parsed c u
    else if (gettoken u).kind == 0
    then parsed c (gettoken u).rest
    else if not ((gettoken u).kind == b'a')
    then panics bad_token
    else if leb maxargs (suc argc)
    then panics too_many_args
    else parseredirs (push_arg c (gettoken u).text) (gettoken u).rest >>= λ c' s'.
        rest (suc argc) c' s'

parseargs-round :
    (argc : ℕ) (c : Cmd) (s : List ℕ)
    → parseargs argc c s ≡ args_round (args_loop (length s)) argc c (skip s)
unfolding parseargs args_loop
parseargs-round argc c s = refl

parseargs-fuel :
    (n argc : ℕ) (c : Cmd) (s : List ℕ) → length s < n → args_loop n argc c s ≡ parseargs argc c s
parseargs-fuel n argc c s h =
    unfold parseargs in args_loop-fuel n (suc (length s)) argc c s h (omega arith)

-- A word is one more argument.
pub parseargs-step :
    (argc : ℕ) (c : Cmd) (s : List ℕ)
    → skip s ≡ s
    → peeks (b'|' ∷ b')' ∷ b'&' ∷ b';' ∷ []) s ≡ false
    → ((gettoken s).kind == 0) ≡ false
    → ((gettoken s).kind == b'a') ≡ true
    → leb maxargs (suc argc) ≡ false
    → parseargs argc c s ≡ more (suc argc) (push_arg c (gettoken s).text) (gettoken s).rest
parseargs-step argc c s e p z k l =
    let t = gettoken s in
    let less : length t.rest < length s =
      subst (λ (x : List ℕ). length (gettoken x).rest < length s) e
        (kind-less s (ap (λ (x : List ℕ). (gettoken x).kind == 0) e ∙ z)) in
    parseargs-round argc c s
    ∙ ap (args_round (args_loop (length s)) argc c) e
    ∙ rw (p, z, k, l)
        (bind-cong (length t.rest) (parseredirs (push_arg c t.text) t.rest)
          (λ c' s'. args_loop (length s) (suc argc) c' s') (λ c' s'. parseargs (suc argc) c' s')
          (parseredirs-Within (push_arg c t.text) t.rest)
          (λ c' s' le. parseargs-fuel (length s) (suc argc) c' s' (omega arith)))

-- The arguments end.
pub parseargs-stop :
    (argc : ℕ) (c : Cmd) (s : List ℕ)
    → skip s ≡ s
    → peeks (b'|' ∷ b')' ∷ b'&' ∷ b';' ∷ []) s ≡ true
    → parseargs argc c s ≡ parsed c s
parseargs-stop argc c s e p =
    parseargs-round argc c s ∙ ap (args_round (args_loop (length s)) argc c) e ∙ rw p refl

pub parseargs-end : (argc : ℕ) (c : Cmd) → parseargs argc c [] ≡ parsed c []
unfolding parseargs args_loop gettoken lex skip peeks
parseargs-end argc c = refl
