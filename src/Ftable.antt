-- ===== src/Ftable.antt =====
-- The table of open files, srcs/file.c: filealloc, filedup, fileclose.
pub mod Refs
mod Tests
use os_project_mlfqschedulin.Base.{
  ℕ, zero, suc, ◌+◌, ◌≡◌, Bool, true, false, Option, none, some, ◌==◌, if◌then◌else◌, update,
}
use os_project_mlfqschedulin.Base.{slt, inc, dec}

abbrev pub nfile : ℕ
nfile = 100

-- The type of a file: FD_NONE, FD_PIPE, FD_INODE.
pub data FileKind : Type 0 where
  fd_none : FileKind
  fd_pipe : FileKind
  fd_inode : FileKind

-- A pipe and an inode are their addresses. `ref` is the pattern of an int.
pub record FileSlot : Type 0 where
  pub kind : FileKind
  pub ref : ℕ
  pub readable : Bool
  pub writable : Bool
  pub pipe : ℕ
  pub ip : ℕ
  pub off : ℕ

abbrev pub Table : Type 0
Table = ℕ → FileSlot

-- The loop of filealloc from `f` on.
unfoldable pub find_unused : ℕ → ℕ → Table → Option ℕ
find_unused zero f t = none
find_unused (suc n) f t =
    let rest = find_unused n (f + 1) t in if (t f).ref == 0 then some f else rest

-- `f->ref = r`.
abbrev pub set_ref : ℕ → ℕ → Table → Table
set_ref f r t = update t f (record (t f) { ref = r })

unfoldable pub filealloc : Table → Option (ℕ × Table)
filealloc t = elim (find_unused nfile 0 t) [ none ↦ none | some f ↦ some (f, set_ref f 1 t) ]

-- `none` is the panic.
unfoldable pub filedup : ℕ → Table → Option Table
filedup f t = if slt (t f).ref 1 then none else some (set_ref f (inc (t f).ref) t)

-- What is left to do behind the lock: pipeclose(), or iput() in an operation of the log.
pub data Closing : Type 0 where
  still_open : Closing
  nothing : Closing
  close_pipe : ℕ → Bool → Closing
  put_inode : ℕ → Closing

unfoldable pub closing_of : FileSlot → Closing
closing_of f = elim f.kind [
  | fd_none ↦ nothing
  | fd_pipe ↦ close_pipe f.pipe f.writable
  | fd_inode ↦ put_inode f.ip
]

-- fileclose under the lock; `none` is the panic.
unfoldable pub fileclose : ℕ → Table → Option (Table × Closing)
unfolding closing_of
fileclose f t =
    if slt (t f).ref 1
    then none
    else let r = dec (t f).ref in
      if slt 0 r
      then some (set_ref f r t, still_open)
      else some (update t f (record (t f) { ref = 0; kind = fd_none }), closing_of (t f))
