-- ===== src/Shell/Bounds.antt =====
-- How far the loops of srcs/sh.c go on in the text.
use os_project_mlfqschedulin.Base.{
  ℕ, zero, suc, ◌<◌, ◌≤◌, ◌≡◌, refl, sym, ap, ◌∙◌, inl, inr, Bool, true, false, not, List, [], ◌∷◌,
  arith, leb, ◌==◌, if◌then◌else◌, Bool-cases, has, length,
}
use os_project_mlfqschedulin.Shell.{
  whitespace, Cmd, skip, scan_word, greater, lex, gettoken, peeks, Parsed, parsed, panics, no_fuel,
  ◌>>=◌, redirect, redirs_loop, parseredirs, push_arg, args_loop, parseargs, missing_file,
  bad_token, too_many_args, maxargs,
}

pub skip-none : (c : ℕ) (s : List ℕ) → has c whitespace ≡ false → skip (c ∷ s) ≡ c ∷ s
unfolding skip
skip-none c s e = rw e refl

-- What is left behind whitespace.
pub data Skipped (s : List ℕ) : Type 0 where
  nothing_left : skip s ≡ [] → Skipped s
  starts_with :
      (c : ℕ) (r : List ℕ)
      → skip s ≡ c ∷ r
      → has c whitespace ≡ false
      → length r < length s
      → Skipped s

pub skip-Skipped : (s : List ℕ) → Skipped s
unfolding skip
skip-Skipped [] = nothing_left refl
skip-Skipped (c ∷ s) = elim (Bool-cases (has c whitespace)) [
  | inl e ↦ elim (skip-Skipped s) [
    | nothing_left h ↦ nothing_left (rw e h)
    | starts_with d r h n lt ↦ starts_with d r (rw e h) n (omega arith)
  ]
  | inr e ↦ starts_with c s (rw e refl) e (omega arith)
]

pub length-skip : (s : List ℕ) → length (skip s) ≤ length s
length-skip s = elim (skip-Skipped s) [
  | nothing_left h ↦ rw h (omega arith)
  | starts_with d r h n lt ↦ rw h (omega arith)
]

length-scan_word : (s : List ℕ) → length (scan_word s).1 ≤ length s
unfolding scan_word
length-scan_word [] = omega arith
length-scan_word (c ∷ s) = ground (arith, length-scan_word s)

length-greater : (s : List ℕ) → length (greater s).rest ≤ length s
unfolding greater
length-greater [] = omega arith
length-greater (c ∷ s) = ground arith

-- A character that is not whitespace is passed.
lex-less : (c : ℕ) (s : List ℕ) → has c whitespace ≡ false → length (lex (c ∷ s)).rest ≤ length s
unfolding lex scan_word
lex-less c s e = ground (arith, length-greater s, length-scan_word s)

pub gettoken-less :
    (c : ℕ) (s : List ℕ) → has c whitespace ≡ false → length (gettoken (c ∷ s)).rest ≤ length s
unfolding gettoken
gettoken-less c s e =
    rw (skip-none c s e) (omega (arith, length-skip (lex (c ∷ s)).rest, lex-less c s e))

pub length-gettoken : (s : List ℕ) → length (gettoken s).rest ≤ length s
unfolding gettoken lex
length-gettoken s = elim (skip-Skipped s) [
  | nothing_left h ↦ rw h (omega arith)
  | starts_with d r h n lt ↦ rw h (omega (arith, length-skip (lex (d ∷ r)).rest, lex-less d r n))
]

-- The parser returns a command with at most `k` characters behind it, or panics.
abbrev pub Within : ℕ → Parsed → Type 0
Within k (parsed c s) = length s ≤ k
Within k (panics e) = Unit
Within k no_fuel = ⊥

pub Within-bind :
    (j k : ℕ) (m : Parsed) (f : Cmd → List ℕ → Parsed)
    → Within k m
    → ((c : Cmd) (s : List ℕ) → length s ≤ k → Within j (f c s))
    → Within j (m >>= f)
Within-bind j k (parsed c s) f h g = g c s h
Within-bind j k (panics e) f h g = tt
Within-bind j k no_fuel f h g = absurd h

pub Within-le : (j k : ℕ) (m : Parsed) → j ≤ k → Within j m → Within k m
Within-le j k (parsed c s) le h = omega arith
Within-le j k (panics e) le h = tt
Within-le j k no_fuel le h = h

-- A test that holds makes one branch of the other.
pub Within-if :
    (k : ℕ) (b : Bool) (x y : Parsed)
    → (b ≡ true → Within k x)
    → (b ≡ false → Within k y)
    → Within k (if b then x else y)
Within-if k true x y f g = f refl
Within-if k false x y f g = g refl

-- Where peek finds one of `toks`, the token is passed.
pub peeks-less :
    (toks s : List ℕ) → peeks toks (skip s) ≡ true → length (gettoken (skip s)).rest < length s
unfolding peeks
peeks-less toks s e = elim (skip-Skipped s) [
  | nothing_left h ↦
      absurd (let bad : peeks toks [] ≡ true = ap (peeks toks) (sym h) ∙ e in ground arith)
  | starts_with d r h n lt ↦ rw h (omega (arith, gettoken-less d r n))
]

redirs_loop-Within :
    (n : ℕ) (c : Cmd) (s : List ℕ) → length s < n → Within (length s) (redirs_loop n c s)
unfolding redirs_loop
redirs_loop-Within zero c s h = absurd (omega arith)
redirs_loop-Within (suc n) c s h =
    let t = gettoken (skip s) in
    let f = gettoken t.rest in
    Within-if (length s) (not (peeks (b'<' ∷ b'>' ∷ []) (skip s))) (parsed c (skip s)) _
      (λ e. length-skip s)
      (λ e.
        let less = peeks-less (b'<' ∷ b'>' ∷ []) s (ground arith) in
        let less' = length-gettoken t.rest in
        Within-if (length s) (not (f.kind == b'a')) (panics missing_file) _ (λ e'. tt)
          (λ e'.
            Within-le (length f.rest) (length s) (redirs_loop n (redirect t.kind c f.text) f.rest)
              (omega arith) (redirs_loop-Within n (redirect t.kind c f.text) f.rest (omega arith))))

pub parseredirs-Within : (c : Cmd) (s : List ℕ) → Within (length s) (parseredirs c s)
unfolding parseredirs
parseredirs-Within c s = redirs_loop-Within (suc (length s)) c s (omega arith)

gettoken-end : (gettoken []).kind ≡ 0
unfolding gettoken lex skip
gettoken-end = refl

-- A token that is not the end of the text is passed.
pub kind-less :
    (s : List ℕ)
    → ((gettoken (skip s)).kind == 0) ≡ false
    → length (gettoken (skip s)).rest < length s
kind-less s e = elim (skip-Skipped s) [
  | nothing_left h ↦
      let at : (gettoken (skip s)).kind ≡ 0 =
        ap (λ (x : List ℕ). (gettoken x).kind) h ∙ gettoken-end in
      absurd (ground arith)
  | starts_with d r h n lt ↦ rw h (omega (arith, gettoken-less d r n))
]

args_loop-Within :
    (n argc : ℕ) (c : Cmd) (s : List ℕ) → length s < n → Within (length s) (args_loop n argc c s)
unfolding args_loop
args_loop-Within zero argc c s h = absurd (omega arith)
args_loop-Within (suc n) argc c s h =
    let t = gettoken (skip s) in
    Within-if (length s) (peeks (b'|' ∷ b')' ∷ b'&' ∷ b';' ∷ []) (skip s)) (parsed c (skip s)) _
      (λ e. length-skip s)
      (λ e.
        Within-if (length s) (t.kind == 0) (parsed c t.rest) _
          (λ z. let a = length-gettoken (skip s) in let b = length-skip s in omega arith)
          (λ z.
            let less = kind-less s z in
            Within-if (length s) (not (t.kind == b'a')) (panics bad_token) _ (λ w. tt)
              (λ w.
                Within-if (length s) (leb maxargs (suc argc)) (panics too_many_args) _ (λ w. tt)
                  (λ w.
                    Within-bind (length s) (length t.rest) (parseredirs (push_arg c t.text) t.rest)
                      (λ c' s'. args_loop n (suc argc) c' s')
                      (parseredirs-Within (push_arg c t.text) t.rest)
                      (λ c' s' le.
                        Within-le (length s') (length s) (args_loop n (suc argc) c' s')
                          (omega arith) (args_loop-Within n (suc argc) c' s' (omega arith)))))))

pub parseargs-Within : (argc : ℕ) (c : Cmd) (s : List ℕ) → Within (length s) (parseargs argc c s)
unfolding parseargs
parseargs-Within argc c s = args_loop-Within (suc (length s)) argc c s (omega arith)
