-- ===== src/Fs/Io.antt =====
-- readi and writei of srcs/fs.c for an inode that is not a device.
pub mod Free
pub mod Content
pub mod Loop
pub mod Write
pub mod Read
use os_project_mlfqschedulin.Base.{
  ℕ, zero, suc, ◌+◌, ◌-◌, ◌*◌, ◌/◌, ◌%◌, ◌^◌, Bool, true, false, ◌||◌, ◌&&◌, not, Option, none,
  some, ltb, leb, ◌==◌, if◌then◌else◌, update,
}
use os_project_mlfqschedulin.Fs.{bsize, ndirect, nindirect, Super, Fs, Inode, bmap}

-- `fails` is the return value -1, `panics` a panic of bmap, and `no_fuel` a loop cut short.
pub data Io (A : Type 0) : Type 0 where
  done : A → Io A
  fails : Io A
  panics : Io A
  no_fuel : Io A

abbrev pub min : ℕ → ℕ → ℕ
min a b = if ltb a b then a else b

-- The block `a` with `m` bytes of `src` from `at` on.
abbrev pub put_bytes : ℕ → ℕ → ℕ → (ℕ → ℕ) → Fs → Fs
put_bytes a at m src fs = record fs {
  blk = update fs.blk a (λ o. if leb at o && ltb o (at + m) then src (o - at) else fs.blk a o);
}

-- The loop of writei, with the offset behind it. `src` moves with `tot`.
unfoldable pub write_loop : ℕ → ℕ → ℕ → ℕ → (ℕ → ℕ) → Inode → Fs → Io (Fs × Inode × ℕ)
write_loop zero tot off n src ip fs = no_fuel
write_loop (suc k) tot off n src ip fs =
    if not (ltb tot n) then done (fs, ip, off) else elim (bmap (off / bsize) ip fs) [
      | none ↦ panics
      | some r ↦
          let m = min (n - tot) (bsize - off % bsize) in
          write_loop k (tot + m) (off + m) n src r.1
            (put_bytes r.2 (off % bsize) m (λ i. src (tot + i)) r.0)
    ]

-- The size behind a write that ended at `off`.
abbrev pub grow : ℕ → ℕ → Inode → Inode
grow n off ip = if ltb 0 n && ltb ip.size off then record ip { size = off } else ip

unfoldable pub finish_write : ℕ → Io (Fs × Inode × ℕ) → Io (Fs × Inode × ℕ)
finish_write n (done (fs, ip, off)) = done (fs, grow n off ip, n)
finish_write n fails = fails
finish_write n panics = panics
finish_write n no_fuel = no_fuel

-- The file system, the inode and the number of bytes. Each round writes a byte at least.
unfoldable pub writei : (ℕ → ℕ) → ℕ → ℕ → Inode → Fs → Io (Fs × Inode × ℕ)
unfolding finish_write
writei src off n ip fs =
    if ltb ip.size off || ltb ((off + n) % 2 ^ 32) off
    then fails
    else if ltb ((ndirect + nindirect) * bsize) ((off + n) % 2 ^ 32)
    then fails
    else finish_write n (write_loop (n + 1) 0 off n src ip fs)

-- `m` bytes of a block copied to `dst` from `tot` on.
abbrev pub get_bytes : ℕ → ℕ → ℕ → ℕ → Fs → (ℕ → ℕ) → ℕ → ℕ
get_bytes a at m tot fs dst i =
    if leb tot i && ltb i (tot + m) then fs.blk a (at + (i - tot)) else dst i

-- The loop of readi.
unfoldable pub read_loop : ℕ → ℕ → ℕ → ℕ → (ℕ → ℕ) → Inode → Fs → Io (Fs × Inode × (ℕ → ℕ))
read_loop zero tot off n dst ip fs = no_fuel
read_loop (suc k) tot off n dst ip fs =
    if not (ltb tot n) then done (fs, ip, dst) else elim (bmap (off / bsize) ip fs) [
      | none ↦ panics
      | some r ↦
          let m = min (n - tot) (bsize - off % bsize) in
          read_loop k (tot + m) (off + m) n (get_bytes r.2 (off % bsize) m tot r.0 dst) r.1 r.0
    ]

-- The number of bytes that readi is going to read.
abbrev pub capped : ℕ → ℕ → ℕ → ℕ
capped size off n = if ltb size ((off + n) % 2 ^ 32) then size - off else n

unfoldable pub finish_read : ℕ → Io (Fs × Inode × (ℕ → ℕ)) → Io (Fs × Inode × (ℕ → ℕ) × ℕ)
finish_read n (done (fs, ip, dst)) = done (fs, ip, dst, n)
finish_read n fails = fails
finish_read n panics = panics
finish_read n no_fuel = no_fuel

-- The file system, the inode, the destination and the number of bytes.
unfoldable pub readi : (ℕ → ℕ) → ℕ → ℕ → Inode → Fs → Io (Fs × Inode × (ℕ → ℕ) × ℕ)
unfolding finish_read
readi dst off n ip fs =
    if ltb ip.size off || ltb ((off + n) % 2 ^ 32) off
    then fails
    else finish_read (capped ip.size off n)
        (read_loop (capped ip.size off n + 1) 0 off (capped ip.size off n) dst ip fs)
