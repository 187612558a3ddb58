-- ===== src/Shell/Tests.antt =====
-- Lines that the shell reads.
use os_project_mlfqschedulin.Base.{ℕ, ◌≡◌, refl, inr, List, [], ◌∷◌, arith}
use os_project_mlfqschedulin.Shell.{
  Cmd, exec, redir, pipe, list, back, parsed, panics, bad_token, leftovers, parsecmd,
}
use os_project_mlfqschedulin.Shell.Ends.{Returns, parsecmd-Returns}
use os_project_mlfqschedulin.Shell.Print.{IsCommand, print_cmd}
use os_project_mlfqschedulin.Shell.Reads.{parsecmd-print_cmd}

-- `(a ; b) | c > f & d`.
abbrev line_text : List ℕ
line_text =
    b'(' ∷ b'a' ∷ 32 ∷ b';' ∷ b'b' ∷ b')' ∷ b'|' ∷ 32 ∷ b'c' ∷ b'>' ∷ b'f' ∷ 32 ∷ b'&' ∷ 32 ∷ b';'
    ∷ b'd' ∷ []

abbrev one_word : ℕ → Cmd
one_word c = exec ((c ∷ []) ∷ [])

abbrev line_cmd : Cmd
line_cmd =
    list
      (back
        (pipe (list (one_word b'a') (one_word b'b')) (redir (one_word b'c') (b'f' ∷ []) 0x201 1)))
      (one_word b'd')

line_run : parsecmd line_text ≡ parsed line_cmd []
unfolding parsecmd
line_run = refl

-- Behind a `&` a line goes on with `;` only.
leftovers_run : parsecmd (b'a' ∷ b'&' ∷ b'b' ∷ []) ≡ panics leftovers
unfolding parsecmd
leftovers_run = refl

bad_token_run : parsecmd (b'a' ∷ b'(' ∷ []) ≡ panics bad_token
unfolding parsecmd
bad_token_run = refl

parsecmd-Returns_example : Returns (parsecmd line_text)
parsecmd-Returns_example = parsecmd-Returns line_text

line_cmd-IsCommand : IsCommand line_cmd
line_cmd-IsCommand = (
  (
    ((omega arith, (((refl, refl, refl), tt), tt)), (omega arith, (((refl, refl, refl), tt), tt))),
    ((omega arith, (((refl, refl, refl), tt), tt)), ((refl, refl, refl), tt), inr (refl, refl)),
  ),
  (omega arith, (((refl, refl, refl), tt), tt)),
)

parsecmd-print_cmd_example : parsecmd (print_cmd line_cmd) ≡ parsed line_cmd []
parsecmd-print_cmd_example = parsecmd-print_cmd line_cmd line_cmd-IsCommand
