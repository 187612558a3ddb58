-- ===== src/FileIo.antt =====
-- fileread and filewrite of srcs/file.c, over readi and writei. A pipe's part is left to piperead() and
-- pipewrite().
pub mod Chunks
pub mod RoundTrip
mod Tests
use os_project_mlfqschedulin.Base.{
  ℕ, zero, suc, ◌+◌, ◌-◌, ◌*◌, ◌/◌, Bool, true, false, not, Option, none, some, ltb, ◌==◌,
  if◌then◌else◌,
}
use os_project_mlfqschedulin.Log.{maxopblocks}
use os_project_mlfqschedulin.Fs.{Fs, Inode}
use os_project_mlfqschedulin.Fs.Io.{Io, done, fails, panics, no_fuel, min, writei, readi}
use os_project_mlfqschedulin.Ftable.{FileKind, fd_none, fd_pipe, fd_inode, FileSlot}

-- `max` of filewrite.
abbrev pub max_chunk : ℕ
max_chunk = (maxopblocks - 1 - 1 - 2) / 2 * 512

-- Of the offset, `f->off += r` does not wrap: writei ends within 71680 bytes, or fails.
-- The loop of filewrite: the file system, the inode, the file's offset and `i` where it ends. A writei
-- that fails ends it.
unfoldable pub write_chunks : ℕ → ℕ → ℕ → (ℕ → ℕ) → ℕ → Inode → Fs → Io (Fs × Inode × ℕ × ℕ)
write_chunks zero i n addr off ip fs = no_fuel
write_chunks (suc k) i n addr off ip fs =
    if not (ltb i n)
    then done (fs, ip, off, i)
    else let n1 = if ltb max_chunk (n - i) then max_chunk else n - i in
      elim (writei (λ j. addr (i + j)) off n1 ip fs) [
        | done r ↦ if r.2 == n1 then write_chunks k (i + r.2) n addr (off + r.2) r.1 r.0 else panics
        | fails ↦ done (fs, ip, off, i)
        | panics ↦ panics
        | no_fuel ↦ no_fuel
      ]

-- `return i == n ? n : -1`, where `none` is -1.
unfoldable pub finish_chunks :
    ℕ → FileSlot → Io (Fs × Inode × ℕ × ℕ) → Io (Fs × Inode × FileSlot × Option ℕ)
finish_chunks n f (done (fs, ip, off, i)) =
    done (fs, ip, record f { off = off }, if i == n then some n else none)
finish_chunks n f fails = fails
finish_chunks n f panics = panics
finish_chunks n f no_fuel = no_fuel

-- A call on a file comes to a call on its pipe, or to work on its inode.
pub data OnFile (A : Type 0) : Type 0 where
  on_pipe : ℕ → OnFile A
  on_inode : Io A → OnFile A

-- filewrite of `n` bytes, not a negative number; each round of its loop writes a byte at least.
unfoldable pub filewrite :
    FileSlot → (ℕ → ℕ) → ℕ → Inode → Fs → OnFile (Fs × Inode × FileSlot × Option ℕ)
unfolding finish_chunks
filewrite f addr n ip fs = if not (f.writable) then on_inode fails else elim f.kind [
  | fd_pipe ↦ on_pipe f.pipe
  | fd_inode ↦ on_inode (finish_chunks n f (write_chunks (n + 1) 0 n addr f.off ip fs))
  | fd_none ↦ on_inode panics
]

-- `if((r = readi(f->ip, addr, f->off, n)) > 0) f->off += r;`
unfoldable pub finish_fileread :
    FileSlot → Io (Fs × Inode × (ℕ → ℕ) × ℕ) → Io (Fs × Inode × FileSlot × (ℕ → ℕ) × ℕ)
finish_fileread f (done (fs, ip, addr, r)) =
    done (fs, ip, if ltb 0 r then record f { off = f.off + r } else f, addr, r)
finish_fileread f fails = fails
finish_fileread f panics = panics
finish_fileread f no_fuel = no_fuel

-- fileread of `n` bytes, not a negative number, to the memory `addr`.
unfoldable pub fileread :
    FileSlot → (ℕ → ℕ) → ℕ → Inode → Fs → OnFile (Fs × Inode × FileSlot × (ℕ → ℕ) × ℕ)
unfolding finish_fileread
fileread f addr n ip fs = if not (f.readable) then on_inode fails else elim f.kind [
  | fd_pipe ↦ on_pipe f.pipe
  | fd_inode ↦ on_inode (finish_fileread f (readi addr f.off n ip fs))
  | fd_none ↦ on_inode panics
]
