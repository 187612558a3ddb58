-- ===== src/Fs.antt =====
-- Blocks and inodes of the file system, srcs/fs.c and srcs/fs.h, over the buffers that bread() returns
-- and log_write() logs. A panic is `none`.
pub mod Bits
pub mod Alloc
pub mod Words
pub mod Slots
pub mod Map
pub mod Io
pub mod Trunc
mod Tests
use os_project_mlfqschedulin.Base.{
  ℕ, zero, suc, ◌+◌, ◌-◌, ◌*◌, ◌/◌, ◌%◌, ◌^◌, Bool, true, false, ◌||◌, ◌&&◌, not, Option, none,
  some, ltb, leb, ◌==◌, if◌then◌else◌, update,
}

abbrev pub bsize : ℕ
bsize = 512

-- Bits in a block.
abbrev pub bpb : ℕ
bpb = 4096

abbrev pub ndirect : ℕ
ndirect = 12

abbrev pub nindirect : ℕ
nindirect = 128

-- The fields of the superblock that are read here.
pub record Super : Type 0 where
  pub size : ℕ
  pub bmapstart : ℕ

-- The bytes of every block, as the buffers have them.
pub record Fs : Type 0 where
  pub sb : Super
  pub blk : ℕ → ℕ → ℕ

-- The in-memory inode, without what only locks and the cache read.
pub record Inode : Type 0 where
  pub size : ℕ
  pub addrs : ℕ → ℕ

-- `x & (1 << k)` for a byte.
unfoldable pub bit : ℕ → ℕ → Bool
bit x zero = x % 2 == 1
bit x (suc k) = bit (x / 2) k

-- `x | (1 << k)`.
unfoldable pub set_bit : ℕ → ℕ → ℕ
set_bit x zero = if x % 2 == 1 then x else x + 1
set_bit x (suc k) = 2 * set_bit (x / 2) k + x % 2

-- `x & ~(1 << k)`.
unfoldable pub clear_bit : ℕ → ℕ → ℕ
clear_bit x zero = if x % 2 == 1 then x - 1 else x
clear_bit x (suc k) = 2 * clear_bit (x / 2) k + x % 2

-- `BBLOCK(b, sb)`.
abbrev pub bblock : ℕ → Fs → ℕ
bblock b fs = b / bpb + fs.sb.bmapstart

-- A write of one byte of a block.
abbrev pub set_byte : ℕ → ℕ → ℕ → Fs → Fs
set_byte b o v fs = record fs { blk = update fs.blk b (update (fs.blk b) o v) }

unfoldable pub bzero : ℕ → Fs → Fs
bzero b fs = record fs { blk = update fs.blk b (λ o. 0) }

-- The inner loop of balloc, over the bits of one block of the map from `bi` on.
unfoldable pub scan_bits : ℕ → ℕ → ℕ → Fs → Option ℕ
unfolding bit
scan_bits zero bi b fs = none
scan_bits (suc n) bi b fs =
    let rest = scan_bits n (bi + 1) b fs in
    if not (ltb (b + bi) fs.sb.size)
    then none
    else if bit (fs.blk (bblock b fs) (bi / 8)) (bi % 8)
    then rest
    else some bi

-- The outer loop of balloc from block `b` on, with the two counters where it found a free block.
unfoldable pub scan_blocks : ℕ → ℕ → Fs → Option (ℕ × ℕ)
scan_blocks zero b fs = none
scan_blocks (suc n) b fs =
    let rest = scan_blocks n (b + bpb) fs in
    if not (ltb b fs.sb.size)
    then none
    else elim (scan_bits bpb 0 b fs) [ none ↦ rest | some bi ↦ some (b, bi) ]

-- `bp->data[bi/8] |= m`.
unfoldable pub mark : ℕ → ℕ → Fs → Fs
unfolding set_bit
mark b bi fs = set_byte (bblock b fs) (bi / 8) (set_bit (fs.blk (bblock b fs) (bi / 8)) (bi % 8)) fs

-- balloc at the place that its loops found.
unfoldable pub alloc_at : Option (ℕ × ℕ) → Fs → Option (Fs × ℕ)
unfolding mark bzero
alloc_at none fs = none
alloc_at (some (b, bi)) fs = some (bzero (b + bi) (mark b bi fs), b + bi)

-- A round of the outer loop passes 4096 blocks, so `size` rounds are enough.
unfoldable pub balloc : Fs → Option (Fs × ℕ)
unfolding alloc_at
balloc fs = alloc_at (scan_blocks fs.sb.size 0 fs) fs

unfoldable pub bfree : ℕ → Fs → Option Fs
unfolding bit clear_bit
bfree b fs =
    let bi = b % bpb in
    let x = fs.blk (bblock b fs) (bi / 8) in
    if bit x (bi % 8)
    then some (set_byte (bblock b fs) (bi / 8) (clear_bit x (bi % 8)) fs)
    else none

-- `a[i]` in a block read as 32-bit words.
unfoldable pub word_at : (ℕ → ℕ) → ℕ → ℕ
word_at d i = d (4 * i) + 256 * d (4 * i + 1) + 65536 * d (4 * i + 2) + 16777216 * d (4 * i + 3)

-- `a[i] = v`.
unfoldable pub put_word : (ℕ → ℕ) → ℕ → ℕ → ℕ → ℕ
put_word d i v =
    update
      (update (update (update d (4 * i) (v % 256)) (4 * i + 1) (v / 256 % 256)) (4 * i + 2)
        (v / 65536 % 256))
      (4 * i + 3) (v / 16777216 % 256)

abbrev pub set_addr : ℕ → ℕ → Inode → Inode
set_addr i a ip = record ip { addrs = update ip.addrs i a }

-- `if((addr = ip->addrs[i]) == 0) ip->addrs[i] = addr = balloc(ip->dev);`
unfoldable pub get_addr : ℕ → Inode → Fs → Option (Fs × Inode × ℕ)
get_addr i ip fs =
    if ip.addrs i == 0
    then elim (balloc fs) [ none ↦ none | some r ↦ some (r.0, set_addr i r.1 ip, r.1) ]
    else some (fs, ip, ip.addrs i)

-- The entry `bn` of the indirect block at `addr`, allocated if it is not there.
unfoldable pub get_entry : ℕ → ℕ → Fs → Option (Fs × ℕ)
unfolding word_at put_word
get_entry addr bn fs =
    if word_at (fs.blk addr) bn == 0
    then elim (balloc fs) [
      | none ↦ none
      | some r ↦
          some (record (r.0) { blk = update r.0.blk addr (put_word (r.0.blk addr) bn r.1) }, r.1)
    ]
    else some (fs, word_at (fs.blk addr) bn)

-- bmap behind the indirect block.
unfoldable pub map_indirect : ℕ → Option (Fs × Inode × ℕ) → Option (Fs × Inode × ℕ)
unfolding get_entry
map_indirect bn none = none
map_indirect bn (some (fs, ip, addr)) = elim (get_entry addr bn fs) [
  | none ↦ none
  | some r ↦ some (r.0, ip, r.1)
]

unfoldable pub bmap : ℕ → Inode → Fs → Option (Fs × Inode × ℕ)
unfolding get_addr map_indirect
bmap bn ip fs =
    if ltb bn ndirect
    then get_addr bn ip fs
    else if ltb (bn - ndirect) nindirect
    then map_indirect (bn - ndirect) (get_addr ndirect ip fs)
    else none
