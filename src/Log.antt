-- ===== src/Log.antt =====
-- The write-ahead log, srcs/log.c, over the blocks of a disk.
pub mod Install
pub mod Recovery
pub mod Crash
pub mod Admission
mod Tests
use os_project_mlfqschedulin.Base.{
  ℕ, zero, suc, ◌+◌, ◌-◌, ◌*◌, ◌%◌, ◌^◌, Bool, true, false, ◌||◌, ◌&&◌, not, Option, none, some,
  ltb, leb, ◌==◌, if◌then◌else◌, update, inc, dec,
}

-- A block as its 32-bit words.
abbrev pub Block : Type 0
Block = ℕ → ℕ

abbrev pub logsize : ℕ
logsize = 30

abbrev pub maxopblocks : ℕ
maxopblocks = 10

-- The disk, and the buffers that log_write pinned with B_DIRTY. `power` is the number of writes that
-- reach the disk before the machine stops.
pub record Store : Type 0 where
  pub disk : ℕ → Block
  pub dirty : ℕ → Option Block
  pub power : ℕ

-- What bread() finds: the buffer, if it is pinned, or the block on disk.
unfoldable pub bread : ℕ → Store → Block
bread b s = elim (s.dirty b) [ none ↦ s.disk b | some x ↦ x ]

-- What bwrite() does to the disk; the buffer is clean behind it.
unfoldable pub bwrite : ℕ → Block → Store → Store
bwrite b x s =
    if s.power == 0
    then s
    else record { disk = update s.disk b x; dirty = update s.dirty b none; power = s.power - 1 }

-- The log header in memory.
pub record Header : Type 0 where
  pub n : ℕ
  pub block : ℕ → ℕ

-- The log, without its lock and its device.
pub record Log : Type 0 where
  pub start : ℕ
  pub size : ℕ
  pub outstanding : ℕ
  pub committing : Bool
  pub lh : Header

-- `log.lh.block[i] = lh->block[i]` for `n` values of `i`.
unfoldable pub read_blocks : ℕ → ℕ → Block → (ℕ → ℕ) → ℕ → ℕ
read_blocks zero i w f = f
read_blocks (suc n) i w f = read_blocks n (i + 1) w (update f i (w (i + 1)))

-- `hb->block[i] = log.lh.block[i]` for `n` values of `i`.
unfoldable pub write_blocks : ℕ → ℕ → (ℕ → ℕ) → Block → Block
write_blocks zero i f w = w
write_blocks (suc n) i f w = write_blocks n (i + 1) f (update w (i + 1) (f i))

-- The header block read from disk.
unfoldable pub read_head : Log → Store → Log
unfolding bread read_blocks
read_head l s =
    let w = bread l.start s in
    record l { lh = record { n = w 0; block = read_blocks (w 0) 0 w l.lh.block } }

-- The header block as write_head changes it.
unfoldable pub head_block : Header → Block → Block
unfolding write_blocks
head_block h w = write_blocks h.n 0 h.block (update w 0 h.n)

unfoldable pub write_head : Log → Store → Store
unfolding head_block bread bwrite
write_head l s = bwrite l.start (head_block l.lh (bread l.start s)) s

-- The loop of install_trans from `tail` on.
unfoldable pub install_from : ℕ → ℕ → Log → Store → Store
unfolding bread bwrite
install_from zero tail l s = s
install_from (suc n) tail l s =
    install_from n (tail + 1) l (bwrite (l.lh.block tail) (bread (l.start + tail + 1) s) s)

unfoldable pub install_trans : Log → Store → Store
install_trans l s = install_from l.lh.n 0 l s

-- The loop of write_log from `tail` on.
unfoldable pub write_log_from : ℕ → ℕ → Log → Store → Store
unfolding bread bwrite
write_log_from zero tail l s = s
write_log_from (suc n) tail l s =
    write_log_from n (tail + 1) l (bwrite (l.start + tail + 1) (bread (l.lh.block tail) s) s)

unfoldable pub write_log : Log → Store → Store
write_log l s = write_log_from l.lh.n 0 l s

-- `log.lh.n = 0`.
abbrev pub clear_head : Log → Log
clear_head l = record l { lh = record { n = 0; block = l.lh.block } }

unfoldable pub recover_from_log : Log → Store → Log × Store
unfolding read_head install_trans write_head
recover_from_log l s =
    let l1 = read_head l s in (clear_head l1, write_head (clear_head l1) (install_trans l1 s))

-- initlog of a log at `start` with `size` blocks, as the superblock has them.
unfoldable pub initlog : ℕ → ℕ → Store → Log × Store
initlog start size s =
    recover_from_log
      (record {
        start = start;
        size = size;
        outstanding = 0;
        committing = false;
        lh = record { n = 0; block = λ i. 0 };
      })
      s

unfoldable pub commit : Log → Store → Log × Store
unfolding write_log write_head install_trans
commit l s =
    if ltb 0 l.lh.n
    then (clear_head l, write_head (clear_head l) (install_trans l (write_head l (write_log l s))))
    else (l, s)

-- begin_op up to its return, or `none` where it goes to sleep.
unfoldable pub begin_op : Log → Option Log
begin_op l =
    if l.committing || ltb logsize (l.lh.n + (l.outstanding + 1) * maxopblocks)
    then none
    else some (record l { outstanding = l.outstanding + 1 })

-- end_op under the lock, and whether the caller commits; `none` is the panic.
unfoldable pub end_op : Log → Option (Log × Bool)
end_op l =
    let l1 = record l { outstanding = dec l.outstanding } in
    if l.committing
    then none
    else if l1.outstanding == 0
    then some (record l1 { committing = true }, true)
    else some (l1, false)

-- What end_op does behind a commit.
unfoldable pub end_commit : Log → Log
end_commit l = record l { committing = false }

-- The loop of log_write: the first index from `i` on whose block is `b`, or the end.
unfoldable pub find_block : ℕ → ℕ → ℕ → (ℕ → ℕ) → ℕ
find_block zero i b f = i
find_block (suc n) i b f = let rest = find_block n (i + 1) b f in if f i == b then i else rest

-- log_write of a buffer with the contents `x`; `none` is one of its two panics.
unfoldable pub log_write : ℕ → Block → Log → Store → Option (Log × Store)
unfolding find_block
log_write b x l s =
    if leb logsize l.lh.n || leb (l.size - 1) l.lh.n || ltb l.outstanding 1
    then none
    else (let i = find_block l.lh.n 0 b l.lh.block in
        let f = update l.lh.block i b in
        let lh' : Header = record { n = if i == l.lh.n then l.lh.n + 1 else l.lh.n; block = f } in
        some (record l { lh = lh' }, record s { dirty = update s.dirty b (some x) }))
