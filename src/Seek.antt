-- ===== src/Seek.antt =====
-- The system call lseek, srcs/sys_lseek.c, on the open files of one process. A struct file is told
-- apart by a number; several descriptors can share one.
pub mod Seeks
mod Tests
use os_project_mlfqschedulin.Base.{
  ℕ, zero, suc, ◌+◌, ◌%◌, ◌^◌, Bool, true, false, ◌||◌, not, Option, none, some, if◌then◌else◌,
  update, slt, sle, minus_one,
}

abbrev pub nofile : ℕ
nofile = 16

-- What lseek reads of a struct file and its inode.
pub record File : Type 0 where
  pub is_inode : Bool
  pub off : ℕ
  pub size : ℕ

pub record Files : Type 0 where
  pub ofile : ℕ → Option ℕ
  pub file : ℕ → File

-- `new_offset`, by `whence`; `none` is the default case.
unfoldable pub new_offset : ℕ → ℕ → File → Option ℕ
new_offset zero offset f = some offset
new_offset (suc zero) offset f = some ((f.off + offset) % 2 ^ 32)
new_offset (suc (suc zero)) offset f = some ((f.size + offset) % 2 ^ 32)
new_offset (suc (suc (suc _))) offset f = none

-- The test for a negative offset, and the write.
unfoldable pub store_offset : ℕ → Option ℕ → Files → Files × ℕ
store_offset id none k = (k, minus_one)
store_offset id (some n) k =
    if slt n 0
    then (k, minus_one)
    else (record k { file = update k.file id (record (k.file id) { off = n }) }, n)

-- The call on the file of a descriptor, if there is one.
unfoldable pub seek_file : Option ℕ → ℕ → ℕ → Files → Files × ℕ
unfolding store_offset new_offset
seek_file none offset whence k = (k, minus_one)
seek_file (some id) offset whence k =
    if not (k.file id).is_inode
    then (k, minus_one)
    else store_offset id (new_offset whence offset (k.file id)) k

-- The arguments are those that argint() fetched, 32-bit patterns.
unfoldable pub sys_lseek : ℕ → ℕ → ℕ → Files → Files × ℕ
unfolding seek_file
sys_lseek fd offset whence k =
    if slt fd 0 || sle nofile fd then (k, minus_one) else seek_file (k.ofile fd) offset whence k
