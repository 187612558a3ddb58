-- ===== src/Shell.antt =====
-- The parser of the shell, srcs/sh.c. The text from `*ps` to `es` is the list of the characters that are
-- left, none of which is NUL, so `*s` is NUL at its end only; a token is the characters from `q` to `eq`,
-- which are the string that nulterminate makes of them.
pub mod Bounds
pub mod Ends
pub mod Fuel
pub mod Tokens
pub mod Print
pub mod Arguments
pub mod Levels
pub mod Reads
mod Tests
use os_project_mlfqschedulin.Base.{
  ℕ, zero, suc, ◌+◌, Bool, true, false, ◌||◌, not, List, [], ◌∷◌, ◌++◌, leb, ◌==◌, if◌then◌else◌,
  has, length,
}

abbrev pub maxargs : ℕ
maxargs = 10

-- Space, tab, carriage return, newline and vertical tab.
abbrev pub whitespace : List ℕ
whitespace = 32 ∷ 9 ∷ 13 ∷ 10 ∷ 11 ∷ []

abbrev pub symbols : List ℕ
symbols = b'<' ∷ b'|' ∷ b'>' ∷ b'&' ∷ b';' ∷ b'(' ∷ b')' ∷ []

-- struct cmd with its kinds.
pub data Cmd : Type 0 where
  exec : List (List ℕ) → Cmd
  redir : Cmd → List ℕ → ℕ → ℕ → Cmd
  pipe : Cmd → Cmd → Cmd
  list : Cmd → Cmd → Cmd
  back : Cmd → Cmd

-- The loop over whitespace.
unfoldable pub skip : List ℕ → List ℕ
skip [] = []
skip (c ∷ s) = if has c whitespace then skip s else c ∷ s

-- The loop over the characters of a word: the word, and what is behind it.
unfoldable pub scan_word : List ℕ → List ℕ × List ℕ
scan_word [] = ([], [])
scan_word (c ∷ s) =
    let rest = scan_word s in
    if has c whitespace || has c symbols then ([], c ∷ s) else (c ∷ rest.0, rest.1)

-- What gettoken returns, the text from `*q` to `*eq`, and the text from `*ps` on.
pub record Token : Type 0 where
  pub kind : ℕ
  pub text : List ℕ
  pub rest : List ℕ

-- The case `>`.
unfoldable pub greater : List ℕ → Token
greater [] = record { kind = b'>'; text = b'>' ∷ []; rest = [] }
greater (c ∷ s) =
    if c == b'>'
    then record { kind = b'+'; text = b'>' ∷ b'>' ∷ []; rest = s }
    else record { kind = b'>'; text = b'>' ∷ []; rest = c ∷ s }

-- The switch of gettoken.
unfoldable pub lex : List ℕ → Token
unfolding scan_word greater
lex [] = record { kind = 0; text = []; rest = [] }
lex (c ∷ s) =
    if c == b'|' || c == b'(' || c == b')' || c == b';' || c == b'&' || c == b'<'
    then record { kind = c; text = c ∷ []; rest = s }
    else if c == b'>'
    then greater s
    else record { kind = b'a'; text = (scan_word (c ∷ s)).0; rest = (scan_word (c ∷ s)).1 }

unfoldable pub gettoken : List ℕ → Token
unfolding lex skip
gettoken s = let t = lex (skip s) in record t { rest = skip t.rest }

-- What peek returns, of a text without whitespace in front; peek itself moves `*ps` by `skip`.
unfoldable pub peeks : List ℕ → List ℕ → Bool
peeks toks [] = false
peeks toks (c ∷ s) = has c toks

-- The panics.
pub data SyntaxError : Type 0 where
  missing_file not_a_block missing_paren bad_token too_many_args leftovers : SyntaxError

-- A command and the text behind it, or a panic; `no_fuel` is a loop cut short.
pub data Parsed : Type 0 where
  parsed : Cmd → List ℕ → Parsed
  panics : SyntaxError → Parsed
  no_fuel : Parsed

infixl 5 ◌>>=◌
abbrev pub ◌>>=◌ : Parsed → (Cmd → List ℕ → Parsed) → Parsed
parsed c s >>= f = f c s
panics e >>= f = panics e
no_fuel >>= f = no_fuel

-- The switch of parseredirs; 0x201 is O_WRONLY|O_CREATE.
unfoldable pub redirect : ℕ → Cmd → List ℕ → Cmd
redirect tok c file =
    if tok == b'<'
    then redir c file 0 0
    else if tok == b'>' || tok == b'+'
    then redir c file 0x201 1
    else c

-- The loop of parseredirs.
unfoldable pub redirs_loop : ℕ → Cmd → List ℕ → Parsed
unfolding gettoken peeks redirect
redirs_loop zero c s = no_fuel
redirs_loop (suc n) c s =
    let t = gettoken (skip s) in
    let f = gettoken t.rest in
    let rest = redirs_loop n (redirect t.kind c f.text) f.rest in
    if not (peeks (b'<' ∷ b'>' ∷ []) (skip s))
    then parsed c (skip s)
    else if not (f.kind == b'a')
    then panics missing_file
    else rest

-- There are fewer rounds than characters, here and below.
unfoldable pub parseredirs : Cmd → List ℕ → Parsed
unfolding redirs_loop
parseredirs c s = redirs_loop (suc (length s)) c s

-- `cmd->argv[argc] = q; cmd->eargv[argc] = eq`: the EXEC command is below the redirections.
unfoldable pub push_arg : Cmd → List ℕ → Cmd
push_arg (exec args) a = exec (args ++ a ∷ [])
push_arg (redir c file mode fd) a = redir (push_arg c a) file mode fd
push_arg c a = c

-- The loop of parseexec.
unfoldable pub args_loop : ℕ → ℕ → Cmd → List ℕ → Parsed
unfolding parseredirs push_arg
args_loop zero argc c s = no_fuel
args_loop (suc n) argc c s =
    let t = gettoken (skip s) in
    let rest = parseredirs (push_arg c t.text) t.rest >>= λ c' s'. args_loop n (suc argc) c' s' in
    if peeks (b'|' ∷ b')' ∷ b'&' ∷ b';' ∷ []) (skip s)
    then parsed c (skip s)
    else if t.kind == 0
    then parsed c t.rest
    else if not (t.kind == b'a')
    then panics bad_token
    else if leb maxargs (suc argc)
    then panics too_many_args
    else rest

unfoldable pub parseargs : ℕ → Cmd → List ℕ → Parsed
unfolding args_loop
parseargs argc c s = args_loop (suc (length s)) argc c s

-- parseblock, where `line` is parseline.
unfoldable pub parseblock : (List ℕ → Parsed) → List ℕ → Parsed
unfolding gettoken peeks parseredirs
parseblock line s =
    if not (peeks (b'(' ∷ []) (skip s))
    then panics not_a_block
    else line (gettoken (skip s)).rest >>= λ c s'.
        if not (peeks (b')' ∷ []) (skip s'))
        then panics missing_paren
        else parseredirs c (gettoken (skip s')).rest

unfoldable pub parseexec : (List ℕ → Parsed) → List ℕ → Parsed
unfolding parseblock parseargs
parseexec line s =
    if peeks (b'(' ∷ []) (skip s)
    then parseblock line (skip s)
    else parseredirs (exec []) (skip s) >>= λ c s'. parseargs 0 c s'

unfoldable pub parsepipe : ℕ → (List ℕ → Parsed) → List ℕ → Parsed
unfolding parseexec
parsepipe zero line s = no_fuel
parsepipe (suc n) line s = parseexec line s >>= λ c s'. elim (peeks (b'|' ∷ []) (skip s')) [
  | true ↦ parsepipe n line (gettoken (skip s')).rest >>= λ d s''. parsed (pipe c d) s''
  | false ↦ parsed c (skip s')
]

-- The loop of parseline.
unfoldable pub backs : ℕ → Cmd → List ℕ → Parsed
unfolding gettoken peeks
backs zero c s = no_fuel
backs (suc n) c s =
    let rest = backs n (back c) (gettoken (skip s)).rest in
    if peeks (b'&' ∷ []) (skip s) then rest else parsed c (skip s)

unfoldable pub parseline : ℕ → List ℕ → Parsed
unfolding parsepipe backs
parseline zero s = no_fuel
parseline (suc n) s = parsepipe (suc (length s)) (parseline n) s >>= λ c s'.
    backs (suc (length s')) c s' >>= λ d s''. elim (peeks (b';' ∷ []) (skip s'')) [
      | true ↦ parseline n (gettoken (skip s'')).rest >>= λ e s3. parsed (list d e) s3
      | false ↦ parsed d (skip s'')
    ]

unfoldable pub parsecmd : List ℕ → Parsed
unfolding parseline
parsecmd s = parseline (suc (length s)) s >>= λ c s'. elim (skip s') [
  | [] ↦ parsed c []
  | x ∷ r ↦ panics leftovers
]
