-- ===== src/Syscall/Tests.antt =====
-- A process of 4096 bytes with the string `hi` at 1024; its first argument points there.
use os_project_mlfqschedulin.Base.{ℕ, ◌≡◌, refl, none, some, arith, ◌==◌, if◌then◌else◌}
use os_project_mlfqschedulin.Syscall.{User, int_at, arg_addr, argptr, argstr, Sys, syscall}
use os_project_mlfqschedulin.Syscall.Args.{in_space, argptr-in_space, Str, argstr-Str}
use os_project_mlfqschedulin.Syscall.Dispatch.{Dispatched, syscall-Dispatched}

abbrev user_memory : ℕ → ℕ
user_memory a =
    if a == 2053
    then 4
    else if a == 1024
    then b'h'
    else if a == 1025
    then b'i'
    else if a == 1026
    then 0
    else 0

abbrev caller : User
caller = record { sz = 4096; esp = 2048; byte_at = user_memory }

argstr_run : argstr caller 0 ≡ some (1024, 2)
unfolding argstr
argstr_run = refl

-- A block that would wrap around.
argptr_run : argptr caller 0 0x7fff_ffff ≡ none
unfolding argptr
argptr_run = refl

argptr-in_space_example : argptr caller 0 3000 ≡ (
    if in_space caller 0 (int_at user_memory (arg_addr caller 0)) 3000
    then some (int_at user_memory (arg_addr caller 0))
    else none)
argptr-in_space_example = argptr-in_space caller 0 3000 (omega arith) (omega arith)

argstr-Str_example : Str caller 0 (argstr caller 0)
argstr-Str_example = argstr-Str caller 0 (omega arith)

-- Calls that return the state.
abbrev return_state : Sys → ℕ → ℕ × ℕ
return_state s k = (k, k)

syscall-Dispatched_example : Dispatched return_state 5 7 (syscall return_state 5 7)
syscall-Dispatched_example = syscall-Dispatched return_state 5 7 (omega arith)
