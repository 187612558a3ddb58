-- ===== src/Syscall.antt =====
-- Arguments and dispatch of the system calls, srcs/syscall.c, for the process that makes the call.
pub mod Args
pub mod Dispatch
mod Tests
use os_project_mlfqschedulin.Base.{
  ℕ, zero, suc, ◌+◌, ◌-◌, ◌*◌, ◌%◌, ◌^◌, Bool, true, false, ◌||◌, ◌&&◌, Option, none, some, List,
  [], ◌∷◌, ltb, leb, ◌==◌, if◌then◌else◌, slt, minus_one,
}

-- The size and the memory of the process, by bytes, and the esp of its trap frame.
pub record User : Type 0 where
  pub sz : ℕ
  pub esp : ℕ
  pub byte_at : ℕ → ℕ

-- `*(int*)(addr)`.
abbrev pub int_at : (ℕ → ℕ) → ℕ → ℕ
int_at m a = m a + 2 ^ 8 * m (a + 1) + 2 ^ 16 * m (a + 2) + 2 ^ 24 * m (a + 3)

-- The int at `addr`; `none` is -1, here and below.
unfoldable pub fetchint : User → ℕ → Option ℕ
fetchint u addr =
    if leb u.sz addr || ltb u.sz ((addr + 4) % 2 ^ 32) then none else some (int_at u.byte_at addr)

-- The loop of fetchstr: `n` bytes are left before the end of the memory, and `i` are behind it.
unfoldable pub scan_str : ℕ → (ℕ → ℕ) → ℕ → ℕ → Option ℕ
scan_str zero m s i = none
scan_str (suc n) m s i =
    let rest = scan_str n m (suc s) (suc i) in if m s == 0 then some i else rest

-- The length of the string at `addr`.
unfoldable pub fetchstr : User → ℕ → Option ℕ
unfolding scan_str
fetchstr u addr = if leb u.sz addr then none else scan_str (u.sz - addr) u.byte_at addr 0

-- The address of the argument `n`.
abbrev pub arg_addr : User → ℕ → ℕ
arg_addr u n = (u.esp + 4 + 4 * n) % 2 ^ 32

unfoldable pub argint : User → ℕ → Option ℕ
unfolding fetchint
argint u n = fetchint u (arg_addr u n)

-- The pointer, to a block of `size` bytes.
unfoldable pub argptr : User → ℕ → ℕ → Option ℕ
unfolding argint
argptr u n size = elim (argint u n) [
  | none ↦ none
  | some i ↦ if slt size 0 || leb u.sz i || ltb u.sz ((i + size) % 2 ^ 32) then none else some i
]

-- The pointer and the length of the string.
unfoldable pub argstr : User → ℕ → Option (ℕ × ℕ)
unfolding argint fetchstr
argstr u n = elim (argint u n) [
  | none ↦ none
  | some addr ↦ elim (fetchstr u addr) [ none ↦ none | some l ↦ some (addr, l) ]
]

pub data Sys : Type 0 where
  sys_fork sys_exit sys_wait sys_pipe sys_read sys_kill sys_exec sys_fstat : Sys
  sys_chdir sys_dup sys_getpid sys_sbrk sys_sleep sys_uptime sys_open sys_write : Sys
  sys_mknod sys_unlink sys_link sys_mkdir sys_close sys_lseek sys_set_proc_info : Sys

-- The numbers of srcs/syscall.h.
unfoldable pub number : Sys → ℕ
number sys_fork = 1
number sys_exit = 2
number sys_wait = 3
number sys_pipe = 4
number sys_read = 5
number sys_kill = 6
number sys_exec = 7
number sys_fstat = 8
number sys_chdir = 9
number sys_dup = 10
number sys_getpid = 11
number sys_sbrk = 12
number sys_sleep = 13
number sys_uptime = 14
number sys_open = 15
number sys_write = 16
number sys_mknod = 17
number sys_unlink = 18
number sys_link = 19
number sys_mkdir = 20
number sys_close = 21
number sys_lseek = 22
number sys_set_proc_info = 23

-- The table of the calls, from the number 0 on.
abbrev pub syscalls : List (Option Sys)
syscalls =
    none
    ∷ some sys_fork
    ∷ some sys_exit
    ∷ some sys_wait
    ∷ some sys_pipe
    ∷ some sys_read
    ∷ some sys_kill
    ∷ some sys_exec
    ∷ some sys_fstat
    ∷ some sys_chdir
    ∷ some sys_dup
    ∷ some sys_getpid
    ∷ some sys_sbrk
    ∷ some sys_sleep
    ∷ some sys_uptime
    ∷ some sys_open
    ∷ some sys_write
    ∷ some sys_mknod
    ∷ some sys_unlink
    ∷ some sys_link
    ∷ some sys_mkdir
    ∷ some sys_close
    ∷ some sys_lseek
    ∷ some sys_set_proc_info
    ∷ []

-- `syscalls[num]`, where there is one.
unfoldable pub table_entry : ℕ → List (Option Sys) → Option Sys
table_entry num [] = none
table_entry zero (f ∷ fs) = f
table_entry (suc num) (f ∷ fs) = table_entry num fs

-- The call with the number `num`, an int: `run` is what a call does to the kernel and what it returns,
-- which goes to eax.
unfoldable pub syscall : {K : Type 0} → (Sys → K → K × ℕ) → ℕ → K → K × ℕ
unfolding table_entry
syscall run num k =
    if slt 0 num && slt num 24
    then elim (table_entry num syscalls) [ none ↦ (k, minus_one) | some s ↦ run s k ]
    else (k, minus_one)
