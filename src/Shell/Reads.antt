-- ===== src/Shell/Reads.antt =====
-- The parser of srcs/sh.c reads every command back from its text.
use os_project_mlfqschedulin.Base.{
  ℕ, zero, suc, ◌<◌, ◌≤◌, ◌≡◌, refl, ap, ◌∙◌, true, false, List, [], ◌∷◌, ◌++◌, arith, length, All,
}
use os_project_mlfqschedulin.Shell.{
  Cmd, exec, redir, pipe, list, back, skip, gettoken, peeks, Parsed, parsed, panics, leftovers,
  ◌>>=◌, parseredirs, parseexec, parsepipe, backs, parseline, parsecmd,
}
use os_project_mlfqschedulin.Shell.Bounds.{skip-none}
use os_project_mlfqschedulin.Shell.Print.{
  IsWord, IsCommand, on_line, before_semi, in_pipe, in_exec, words, arrow, print_before, print_cmd,
  length-print_before, skip-arrow, skip-print_before,
}
use os_project_mlfqschedulin.Shell.Arguments.{
  After, closers, parens, skip-After, After-closers, After-parens, peeks-cons, word-start,
  skip-words, more-words, args_of, go_on-After, go_on-arrow,
}
use os_project_mlfqschedulin.Shell.Levels.{
  exec_at, pipe_at, backs_at, line_at, before_list, parseexec-at, parsepipe-at, backs-at,
  parseline-at, passes, Reads, pipe-of_exec, semi-of_pipe, line-of_semi, exec-of_line, Reads-simple,
}

exec-Reads : (args : List (List ℕ)) → IsCommand (exec args) → Reads (exec args)
unfolding print_before
exec-Reads args v =
    Reads-simple (exec args)
      (λ n t e p le.
        parseexec-at (parseline n) (words args t)
        ∙ ap (exec_at (parseline n)) (skip-words args t v.1 e)
        ∙ rw (at_start args t v.1 p) (more-words [] args t (omega arith) v.1 e))
      (λ t. refl) (λ t. refl) (λ t. refl)
  where
    at_start :
        (ws : List (List ℕ)) (t : List ℕ)
        → All IsWord ws
        → peeks (b'(' ∷ []) t ≡ false
        → peeks (b'(' ∷ []) (words ws t) ≡ false
    at_start [] t a p = p
    at_start (w ∷ ws) t a p =
        (word-start w (32 ∷ words ws t) (b'(' ∷ []) a.0 (λ c n. ground arith)).1

redir-Reads :
    (c : Cmd) (file : List ℕ) (mode fd : ℕ)
    → IsCommand (redir c file mode fd)
    → Reads c
    → Reads (redir c file mode fd)
unfolding print_before
redir-Reads c file mode fd v r =
    Reads-simple (redir c file mode fd)
      (λ n t e p le.
        r.by_exec n (arrow fd ∷ file ++ 32 ∷ t) (skip-arrow fd (file ++ 32 ∷ t))
          (no_paren fd (file ++ 32 ∷ t)) le
        ∙ go_on-arrow (args_of c) c mode fd file t v.2 v.1 e)
      (λ t. refl) (λ t. refl) (λ t. refl)
  where
    no_paren : (fd : ℕ) (t : List ℕ) → peeks (b'(' ∷ []) (arrow fd ∷ t) ≡ false
    no_paren fd t = peeks-cons (b'(' ∷ []) (arrow fd) t ∙ ground arith

pipe-Reads : (c d : Cmd) → IsCommand (pipe c d) → Reads c → Reads d → Reads (pipe c d)
unfolding print_before
pipe-Reads c d v r q =
    let by_semi = semi-of_pipe (pipe c d) by_pipe (λ t. refl) in
    let by_line = line-of_semi (pipe c d) by_semi (λ t. refl) in
    record {
      by_exec = λ n t e p le. exec-of_line (pipe c d) v by_line n t e le;
      by_pipe = by_pipe;
      by_semi = by_semi;
      by_line = by_line;
    }
  where
    by_pipe :
        (n m : ℕ) (t : List ℕ)
        → After closers t
        → length (print_before in_exec c (b'|' ∷ print_before in_pipe d t)) ≤ n
        → length (print_before in_exec c (b'|' ∷ print_before in_pipe d t)) < m
        → parsepipe m (parseline n) (print_before in_exec c (b'|' ∷ print_before in_pipe d t))
          ≡ parsed (pipe c d) t
    by_pipe n zero t a le lt = absurd (omega arith)
    by_pipe n (suc m) t a le lt =
        let x : List ℕ = print_before in_pipe d t in
        let u : List ℕ = b'|' ∷ x in
        let longer = length-print_before in_exec c u in
        let bar : peeks (b'|' ∷ []) u ≡ true = peeks-cons (b'|' ∷ []) b'|' x in
        let no_paren : peeks (b'(' ∷ []) u ≡ false = peeks-cons (b'(' ∷ []) b'|' x in
        let next : pipe_at (parsepipe m (parseline n)) c u
            ≡ (parsepipe m (parseline n) (gettoken u).rest >>= λ d s''. parsed (pipe c d) s'') =
          rw (bar, pipe_at) refl in
        parsepipe-at m (parseline n) (print_before in_exec c u)
        ∙ ap (λ (z : Parsed). z >>= λ c s'. pipe_at (parsepipe m (parseline n)) c (skip s'))
            (r.by_exec n u (skip-none b'|' x refl) no_paren le ∙ go_on-After (args_of c) c u refl)
        ∙ ap (pipe_at (parsepipe m (parseline n)) c) (skip-none b'|' x refl)
        ∙ next
        ∙ ap (λ (y : List ℕ). parsepipe m (parseline n) y >>= λ d s''. parsed (pipe c d) s'')
            (passes b'|' x refl refl
              (skip-print_before in_pipe d t v.1 (skip-After t (After-closers t a))))
        ∙ ap (λ (z : Parsed). z >>= λ d s''. parsed (pipe c d) s'')
            (q.by_pipe n m t a (omega arith) (omega arith))

back-Reads : (c : Cmd) → IsCommand (back c) → Reads c → Reads (back c)
unfolding print_before
back-Reads c v r =
    let by_line = line-of_semi (back c) by_semi (λ t. refl) in
    let by_exec : (n : ℕ) (t : List ℕ)
        → skip t ≡ t
        → peeks (b'(' ∷ []) t ≡ false
        → length (print_before in_exec (back c) t) ≤ n
        → parseexec (parseline n) (print_before in_exec (back c) t) ≡ parseredirs (back c) t =
      λ n t e p le. exec-of_line (back c) v by_line n t e le in
    record {
      by_exec = by_exec;
      by_pipe = pipe-of_exec (back c) by_exec (λ t. refl);
      by_semi = by_semi;
      by_line = by_line;
    }
  where
    by_semi :
        (n : ℕ) (t : List ℕ)
        → After closers t
        → length (print_before before_semi c (b'&' ∷ t)) ≤ n
        → before_list n (print_before before_semi c (b'&' ∷ t)) ≡ backs (suc (length t)) (back c) t
    by_semi n t a le =
        let amp : peeks (b'&' ∷ []) (b'&' ∷ t) ≡ true = peeks-cons (b'&' ∷ []) b'&' t in
        let next : backs_at (backs (suc (length t))) c (b'&' ∷ t)
            ≡ backs (suc (length t)) (back c) (gettoken (b'&' ∷ t)).rest =
          rw amp refl in
        r.by_semi n (b'&' ∷ t) refl le
        ∙ backs-at (suc (length t)) c (b'&' ∷ t)
        ∙ ap (backs_at (backs (suc (length t))) c) (skip-none b'&' t refl)
        ∙ next
        ∙ ap (backs (suc (length t)) (back c))
            (passes b'&' t refl refl (skip-After t (After-closers t a)))

list-Reads : (c d : Cmd) → IsCommand (list c d) → Reads c → Reads d → Reads (list c d)
unfolding print_before
list-Reads c d v r q =
    let by_exec : (n : ℕ) (t : List ℕ)
        → skip t ≡ t
        → peeks (b'(' ∷ []) t ≡ false
        → length (print_before in_exec (list c d) t) ≤ n
        → parseexec (parseline n) (print_before in_exec (list c d) t) ≡ parseredirs (list c d) t =
      λ n t e p le. exec-of_line (list c d) v by_line n t e le in
    let by_pipe = pipe-of_exec (list c d) by_exec (λ t. refl) in
    record {
      by_exec = by_exec;
      by_pipe = by_pipe;
      by_semi = semi-of_pipe (list c d) by_pipe (λ t. refl);
      by_line = by_line;
    }
  where
    by_line :
        (n : ℕ) (t : List ℕ)
        → After parens t
        → length (print_before before_semi c (b';' ∷ print_before on_line d t)) < n
        → parseline n (print_before before_semi c (b';' ∷ print_before on_line d t))
          ≡ parsed (list c d) t
    by_line zero t a lt = absurd (omega arith)
    by_line (suc n) t a lt =
        let x : List ℕ = print_before on_line d t in
        let u : List ℕ = b';' ∷ x in
        let sk : skip u ≡ u = skip-none b';' x refl in
        let longer = length-print_before before_semi c u in
        let semi : peeks (b';' ∷ []) u ≡ true = peeks-cons (b';' ∷ []) b';' x in
        let amp : peeks (b'&' ∷ []) u ≡ false = peeks-cons (b'&' ∷ []) b';' x in
        let no_back : backs_at (backs (length u)) c u ≡ parsed c u = rw amp refl in
        let next : line_at (parseline n) c u
            ≡ (parseline n (gettoken u).rest >>= λ e s3. parsed (list c e) s3) =
          rw (semi, line_at) refl in
        parseline-at n (print_before before_semi c u)
        ∙ ap (λ (z : Parsed). z >>= λ d u. line_at (parseline n) d (skip u))
            (r.by_semi n u refl (omega arith)
              ∙ backs-at (length u) c u
              ∙ ap (backs_at (backs (length u)) c) sk
              ∙ no_back)
        ∙ ap (line_at (parseline n) c) sk
        ∙ next
        ∙ ap (λ (y : List ℕ). parseline n y >>= λ e s3. parsed (list c e) s3)
            (passes b';' x refl refl (
              skip-print_before on_line d t v.1
                (skip-After t (After-closers t (After-parens t a)))))
        ∙ ap (λ (z : Parsed). z >>= λ e s3. parsed (list c e) s3) (q.by_line n t a (omega arith))

IsCommand-Reads : (c : Cmd) → IsCommand c → Reads c
IsCommand-Reads (exec args) v = exec-Reads args v
IsCommand-Reads (redir c file mode fd) v = redir-Reads c file mode fd v (IsCommand-Reads c v.0)
IsCommand-Reads (pipe c d) v = pipe-Reads c d v (IsCommand-Reads c v.0) (IsCommand-Reads d v.1)
IsCommand-Reads (list c d) v = list-Reads c d v (IsCommand-Reads c v.0) (IsCommand-Reads d v.1)
IsCommand-Reads (back c) v = back-Reads c v (IsCommand-Reads c v)

-- parsecmd reads every command back from its text: print_cmd writes words with a space behind each, the
-- symbols of redirections, pipes, lists and background commands, and parentheses only where a command
-- stands on the wrong level without. The EXEC commands have at most nine arguments, and the arguments
-- and files are words; the parser binds `|` before `&`, and `&` before `;`.
pub parsecmd-print_cmd : (c : Cmd) → IsCommand c → parsecmd (print_cmd c) ≡ parsed c []
unfolding parsecmd print_cmd
parsecmd-print_cmd c v =
    let r = IsCommand-Reads c v in
    ap
      (λ (z : Parsed). z >>= λ c s'. elim (skip s') as (λ (x : List ℕ). Parsed) [
        | [] ↦ parsed c []
        | x ∷ r ↦ panics leftovers
      ])
      (r.by_line (suc (length (print_before on_line c []))) [] tt (omega arith))
