-- ===== src/Pipe.antt =====
-- Pipes, srcs/pipe.c: a ring of 512 bytes between the readers and the writers. Each function is what
-- runs under one holding of `p->lock`, up to a sleep or the return.
pub mod Fifo
pub mod Counters
mod Tests
use os_project_mlfqschedulin.Base.{
  ℕ, zero, suc, ◌+◌, ◌%◌, ◌^◌, Bool, true, false, ◌||◌, ◌&&◌, not, List, [], ◌∷◌, ◌==◌,
  if◌then◌else◌, update, inc, length,
}

abbrev pub pipesize : ℕ
pipesize = 512

-- The counters are 32-bit patterns; the lock is left out.
pub record Pipe : Type 0 where
  pub data_at : ℕ → ℕ
  pub nread : ℕ
  pub nwrite : ℕ
  pub readopen : Bool
  pub writeopen : Bool

-- A pipe as pipealloc hands it out, in a page that may hold anything.
unfoldable pub pipe_init : (ℕ → ℕ) → Pipe
pipe_init junk = record { data_at = junk; nread = 0; nwrite = 0; readopen = true; writeopen = true }

abbrev pub is_full : Pipe → Bool
is_full p = p.nwrite == ((p.nread + pipesize) % 2 ^ 32)

-- `p->data[p->nwrite++ % PIPESIZE] = b;`
unfoldable pub put : ℕ → Pipe → Pipe
put b p = record p { data_at = update p.data_at (p.nwrite % pipesize) b; nwrite = inc p.nwrite }

-- The bytes that the writer can put before the pipe is full, and what is left of them.
unfoldable pub fill : List ℕ → Pipe → Pipe × List ℕ
unfolding put
fill [] p = (p, [])
fill (b ∷ bs) p = let rest = fill bs (put b p) in if is_full p then (p, b ∷ bs) else rest

-- What a call of pipewrite comes to: it returns after a wakeup of the readers, fails, or wakes the
-- readers and sleeps on `nwrite` with bytes left.
pub data Wrote : Type 0 where
  all_written : Wrote
  write_failed : Wrote
  write_sleeps : List ℕ → Wrote

-- The loop of pipewrite behind `fill`.
unfoldable pub pipewrite_stop : Bool → Pipe × List ℕ → Pipe × Wrote
pipewrite_stop killed (p, []) = (p, all_written)
pipewrite_stop killed (p, b ∷ bs) =
    if not p.readopen || killed then (p, write_failed) else (p, write_sleeps (b ∷ bs))

-- pipewrite up to its return or its next sleep, for the bytes that are left to write.
unfoldable pub pipewrite : Bool → List ℕ → Pipe → Pipe × Wrote
unfolding fill pipewrite_stop
pipewrite killed bs p = pipewrite_stop killed (fill bs p)

-- The byte at `nread`, and the pipe behind it.
unfoldable pub take_byte : Pipe → Pipe
take_byte p = record p { nread = inc p.nread }

-- The loop that copies at most `n` bytes.
unfoldable pub drain : ℕ → Pipe → Pipe × List ℕ
unfolding take_byte
drain zero p = (p, [])
drain (suc n) p =
    let rest = drain n (take_byte p) in
    if p.nread == p.nwrite then (p, []) else (rest.0, p.data_at (p.nread % pipesize) ∷ rest.1)

-- What a call of piperead comes to: the bytes, after a wakeup of the writers; or it fails; or it
-- sleeps on `nread`.
pub data Got : Type 0 where
  bytes : List ℕ → Got
  read_failed : Got
  read_sleeps : Got

-- piperead up to its return or its next sleep.
unfoldable pub piperead : Bool → ℕ → Pipe → Pipe × Got
unfolding drain
piperead killed n p =
    let copied = drain n p in
    if (p.nread == p.nwrite) && p.writeopen
    then (if killed then (p, read_failed) else (p, read_sleeps))
    else (copied.0, bytes copied.1)

-- pipeclose, with whether the page is freed.
unfoldable pub pipeclose : Bool → Pipe → Pipe × Bool
pipeclose writable p =
    let q : Pipe =
      if writable then record p { writeopen = false } else record p { readopen = false } in
    (q, not q.readopen && not q.writeopen)
