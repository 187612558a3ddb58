-- ===== src/FileIo/RoundTrip.antt =====
-- fileread of srcs/file.c behind filewrite.
use os_project_mlfqschedulin.Base.{
  ℕ, ◌+◌, ◌-◌, ◌*◌, ◌<◌, ◌≤◌, ◌≡◌, refl, ap, ◌∙◌, true, ◌&&◌, not, Option, some, arith, ltb, leb,
  if◌then◌else◌, Bool, Bool-cases, inl, inr,
}
use os_project_mlfqschedulin.Fs.{Fs, Inode}
use os_project_mlfqschedulin.Fs.Alloc.{IsFs}
use os_project_mlfqschedulin.Fs.Slots.{Owns}
use os_project_mlfqschedulin.Fs.Io.{done, fails, panics, min, readi}
use os_project_mlfqschedulin.Fs.Io.Content.{max_bytes, content}
use os_project_mlfqschedulin.Fs.Io.Free.{free_blocks}
use os_project_mlfqschedulin.Fs.Io.Write.{Filled}
use os_project_mlfqschedulin.Fs.Io.Read.{readi-copied}
use os_project_mlfqschedulin.Ftable.{FileKind, fd_none, fd_pipe, fd_inode, FileSlot}
use os_project_mlfqschedulin.FileIo.{
  OnFile, on_pipe, on_inode, filewrite, finish_fileread, fileread,
}
use os_project_mlfqschedulin.FileIo.Chunks.{chunks_of, filewrite-FileWritten}

fileread-run :
    (f : FileSlot) (addr : ℕ → ℕ) (n : ℕ) (ip : Inode) (fs : Fs)
    → f.readable ≡ true
    → f.kind ≡ fd_inode
    → fileread f addr n ip fs ≡ on_inode (finish_fileread f (readi addr f.off n ip fs))
fileread-run f addr n ip fs r e =
    unfold fileread in
    ap (λ (b : Bool). if not b then on_inode fails else by_kind f.kind) r ∙ ap by_kind e
  where
    by_kind : FileKind → OnFile (Fs × Inode × FileSlot × (ℕ → ℕ) × ℕ)
    by_kind k = elim k [
      | fd_pipe ↦ on_pipe f.pipe
      | fd_inode ↦ on_inode (finish_fileread f (readi addr f.off n ip fs))
      | fd_none ↦ on_inode panics
    ]

finish_fileread-done :
    (f : FileSlot) (n : ℕ) (fs : Fs) (ip : Inode) (d : ℕ → ℕ)
    → finish_fileread f (done (fs, ip, d, n)) ≡ done (fs, ip, record f { off = f.off + n }, d, n)
unfolding finish_fileread
finish_fileread-done f n fs ip d = elim (Bool-cases (ltb 0 n)) [
  | inl e ↦ rw e refl
  | inr e ↦ let same : f.off + n ≡ f.off = ground arith in rw (e, same) refl
]

-- The bytes that filewrite has written to `f` are those that fileread gives back on `g`.
pub record ReadBack (f g : FileSlot) (src dst : ℕ → ℕ) (n : ℕ)
    (r : OnFile (Fs × Inode × FileSlot × Option ℕ)) : Type 0 where
  pub fs' : Fs
  pub ip' : Inode
  pub dst' : ℕ → ℕ
  pub wrote : r ≡ on_inode (done (fs', ip', record f { off = f.off + n }, some n))
  pub read :
      fileread g dst n ip' fs' ≡ on_inode (done (fs', ip', record g { off = g.off + n }, dst', n))
  pub same : (i : ℕ) → i < n → dst' i ≡ src i

-- In a file system that is in order, let the file `f` be open for writing on an inode without holes, of
-- 71680 bytes at most, with its offset inside the file, and let `g` be open for reading with the same
-- offset on that inode. If `n` bytes from there end within 71680 bytes, and eight blocks are free for
-- each call of writei, filewrite of `n` bytes to `f` returns `n`, and fileread of `n` bytes from `g`
-- then returns `n` and the bytes that were written; each moves its file's offset by `n`.
pub filewrite-fileread :
    (f g : FileSlot) (src dst : ℕ → ℕ) (n : ℕ) (ip : Inode) (fs : Fs)
    → f.writable ≡ true
    → f.kind ≡ fd_inode
    → g.readable ≡ true
    → g.kind ≡ fd_inode
    → g.off ≡ f.off
    → IsFs fs
    → Owns fs ip
    → Filled fs ip
    → f.off ≤ ip.size
    → ip.size ≤ max_bytes
    → f.off + n ≤ max_bytes
    → 8 * chunks_of n ≤ free_blocks fs
    → ReadBack f g src dst n (filewrite f src n ip fs)
filewrite-fileread f g src dst n ip fs wf kf rg kg at h own filled le most room free =
    let w = filewrite-FileWritten f src n ip fs wf kf h own le room free in
    let size = w.size in
    let all : min n (w.ip'.size - g.off) ≡ n = ground arith in
    record {
      fs' = w.fs';
      ip' = w.ip';
      dst' = λ i. if ltb i n then content w.fs' w.ip' (g.off + i) else dst i;
      wrote = w.run;
      read =
          fileread-run g dst n w.ip' w.fs' rg kg
          ∙ ap (λ r. on_inode (finish_fileread g r))
              (readi-copied dst g.off n w.ip' w.fs' (w.filled filled) (ground arith) (ground arith)
                  (omega arith)
                ∙ ap
                    (λ (m : ℕ). done (
                      w.fs',
                      w.ip',
                      (λ i. if ltb i m then content w.fs' w.ip' (g.off + i) else dst i),
                      m,
                    ))
                    all)
          ∙ ap on_inode (
              finish_fileread-done g n w.fs' w.ip'
                (λ i. if ltb i n then content w.fs' w.ip' (g.off + i) else dst i));
      same = λ i lt.
          let inside : ltb i n ≡ true = ground arith in
          let there : (leb f.off (g.off + i) && ltb (g.off + i) (f.off + n)) ≡ true =
            ground arith in
          let from : g.off + i - f.off ≡ i = ground arith in
          rw inside (w.bytes (g.off + i) (omega arith) ∙ rw there (ap src from));
    }
