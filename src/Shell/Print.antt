-- ===== src/Shell/Print.antt =====
-- Commands of srcs/sh.c as text that the parser reads.
use os_project_mlfqschedulin.Base.{
  ℕ, ◌<◌, ◌≤◌, ◌≡◌, refl, ◌⊎◌, false, List, [], ◌∷◌, ◌++◌, arith, ◌==◌, if◌then◌else◌, has, length,
  All, length-append,
}
use os_project_mlfqschedulin.Shell.{whitespace, symbols, Cmd, exec, redir, pipe, list, back, skip}
use os_project_mlfqschedulin.Shell.Bounds.{skip-none}

-- A character that is neither NUL, nor whitespace, nor a symbol.
abbrev pub Plain : ℕ → Type 0
Plain c = ((c == 0) ≡ false) × (has c whitespace ≡ false) × (has c symbols ≡ false)

abbrev pub IsWord : List ℕ → Type 0
IsWord [] = ⊥
IsWord (c ∷ w) = Plain c × All Plain w

-- The modes and descriptors of `<` and of `>`.
abbrev pub IsMode : ℕ → ℕ → Type 0
IsMode mode fd = ((mode ≡ 0) × (fd ≡ 0)) ⊎ ((mode ≡ 0x201) × (fd ≡ 1))

-- A command with at most nine arguments in each of its EXEC commands, whose arguments and files are words.
abbrev pub IsCommand : Cmd → Type 0
IsCommand (exec args) = (length args < 10) × All IsWord args
IsCommand (redir c file mode fd) = IsCommand c × IsWord file × IsMode mode fd
IsCommand (pipe c d) = IsCommand c × IsCommand d
IsCommand (list c d) = IsCommand c × IsCommand d
IsCommand (back c) = IsCommand c

-- Where a command stands: on a line, in front of `;`, of `&`, or of `|`.
pub data Level : Type 0 where
  on_line before_semi in_pipe in_exec : Level

-- Words with a space behind each, in front of `t`.
abbrev pub words : List (List ℕ) → List ℕ → List ℕ
words [] t = t
words (w ∷ ws) t = w ++ 32 ∷ words ws t

abbrev pub arrow : ℕ → ℕ
arrow fd = if fd == 0 then b'<' else b'>'

-- A command in front of the text `t`, in parentheses where it would be read otherwise without.
unfoldable pub print_before : Level → Cmd → List ℕ → List ℕ
print_before l (exec args) t = words args t
print_before l (redir c file mode fd) t = print_before in_exec c (arrow fd ∷ file ++ 32 ∷ t)
print_before in_exec (pipe c d) t =
    b'(' ∷ print_before in_exec c (b'|' ∷ print_before in_pipe d (b')' ∷ t))
print_before l (pipe c d) t = print_before in_exec c (b'|' ∷ print_before in_pipe d t)
print_before on_line (list c d) t = print_before before_semi c (b';' ∷ print_before on_line d t)
print_before l (list c d) t =
    b'(' ∷ print_before before_semi c (b';' ∷ print_before on_line d (b')' ∷ t))
print_before in_exec (back c) t = b'(' ∷ print_before before_semi c (b'&' ∷ b')' ∷ t)
print_before in_pipe (back c) t = b'(' ∷ print_before before_semi c (b'&' ∷ b')' ∷ t)
print_before l (back c) t = print_before before_semi c (b'&' ∷ t)

unfoldable pub print_cmd : Cmd → List ℕ
unfolding print_before
print_cmd c = print_before on_line c []

length-words : (ws : List (List ℕ)) (t : List ℕ) → length t ≤ length (words ws t)
length-words [] t = omega arith
length-words (w ∷ ws) t =
    let e = length-append w (32 ∷ words ws t) in let e' = length-words ws t in omega arith

pub length-print_before :
    (l : Level) (c : Cmd) (t : List ℕ) → length t ≤ length (print_before l c t)
unfolding print_before
length-print_before l (exec args) t = length-words args t
length-print_before l (redir c file mode fd) t =
    let a = length-print_before in_exec c (arrow fd ∷ file ++ 32 ∷ t) in
    let b = length-append file (32 ∷ t) in omega arith
length-print_before in_exec (pipe c d) t =
    let a = length-print_before in_exec c (b'|' ∷ print_before in_pipe d (b')' ∷ t)) in
    let b = length-print_before in_pipe d (b')' ∷ t) in omega arith
length-print_before l (pipe c d) t =
    let a = length-print_before in_exec c (b'|' ∷ print_before in_pipe d t) in
    let b = length-print_before in_pipe d t in omega arith
length-print_before on_line (list c d) t =
    let a = length-print_before before_semi c (b';' ∷ print_before on_line d t) in
    let b = length-print_before on_line d t in omega arith
length-print_before l (list c d) t =
    let a = length-print_before before_semi c (b';' ∷ print_before on_line d (b')' ∷ t)) in
    let b = length-print_before on_line d (b')' ∷ t) in omega arith
length-print_before in_exec (back c) t =
    let a = length-print_before before_semi c (b'&' ∷ b')' ∷ t) in omega arith
length-print_before in_pipe (back c) t =
    let a = length-print_before before_semi c (b'&' ∷ b')' ∷ t) in omega arith
length-print_before l (back c) t =
    let a = length-print_before before_semi c (b'&' ∷ t) in omega arith

pub skip-arrow : (fd : ℕ) (t : List ℕ) → skip (arrow fd ∷ t) ≡ arrow fd ∷ t
skip-arrow fd t = skip-none (arrow fd) t (no_space fd)
  where
    no_space : (fd : ℕ) → has (arrow fd) whitespace ≡ false
    no_space fd = ground arith

-- A printed command has no whitespace in front.
pub skip-print_before :
    (l : Level) (c : Cmd) (t : List ℕ)
    → IsCommand c
    → skip t ≡ t
    → skip (print_before l c t) ≡ print_before l c t
unfolding print_before
skip-print_before l (exec []) t v e = e
skip-print_before l (exec ([] ∷ ws)) t v e = absurd v.1.0
skip-print_before l (exec ((x ∷ w) ∷ ws)) t v e = skip-none x (w ++ 32 ∷ words ws t) v.1.0.0.1
skip-print_before l (redir c file mode fd) t v e =
    skip-print_before in_exec c (arrow fd ∷ file ++ 32 ∷ t) v.0 (skip-arrow fd (file ++ 32 ∷ t))
skip-print_before in_exec (pipe c d) t v e = skip-none b'(' _ refl
skip-print_before l (pipe c d) t v e =
    skip-print_before in_exec c (b'|' ∷ print_before in_pipe d t) v.0 (skip-none b'|' _ refl)
skip-print_before on_line (list c d) t v e =
    skip-print_before before_semi c (b';' ∷ print_before on_line d t) v.0 (skip-none b';' _ refl)
skip-print_before l (list c d) t v e = skip-none b'(' _ refl
skip-print_before in_exec (back c) t v e = skip-none b'(' _ refl
skip-print_before in_pipe (back c) t v e = skip-none b'(' _ refl
skip-print_before l (back c) t v e =
    skip-print_before before_semi c (b'&' ∷ t) v (skip-none b'&' _ refl)
