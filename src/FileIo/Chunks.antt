-- ===== src/FileIo/Chunks.antt =====
-- filewrite of srcs/file.c against the bytes of the file.
use os_project_mlfqschedulin.Base.{
  ℕ, zero, suc, ◌+◌, ◌-◌, ◌*◌, ◌/◌, ◌<◌, ◌≤◌, ◌≡◌, refl, ap, subst, ◌∙◌, inl, inr, Bool, true,
  false, ◌&&◌, not, Option, some, arith, ltb, leb, ◌==◌, if◌then◌else◌, Bool-cases,
}
use os_project_mlfqschedulin.Fs.{Fs, Inode}
use os_project_mlfqschedulin.Fs.Alloc.{IsFs}
use os_project_mlfqschedulin.Fs.Slots.{Owns}
use os_project_mlfqschedulin.Fs.Io.{Io, done, fails, panics, no_fuel, writei}
use os_project_mlfqschedulin.Fs.Io.Content.{max_bytes, content}
use os_project_mlfqschedulin.Fs.Io.Free.{free_blocks}
use os_project_mlfqschedulin.Fs.Io.Loop.{blocks_of, overwritten}
use os_project_mlfqschedulin.Fs.Io.Write.{Filled, writei-Written}
use os_project_mlfqschedulin.Ftable.{FileKind, fd_none, fd_pipe, fd_inode, FileSlot}
use os_project_mlfqschedulin.FileIo.{
  max_chunk, write_chunks, finish_chunks, OnFile, on_pipe, on_inode, filewrite,
}

-- The calls of writei for `m` bytes.
abbrev pub chunks_of : ℕ → ℕ
chunks_of m = (m + max_chunk - 1) / max_chunk

-- `n1` of filewrite.
abbrev chunk : ℕ → ℕ → ℕ
chunk n i = if ltb max_chunk (n - i) then max_chunk else n - i

write_chunks-end :
    (k i n off : ℕ) (addr : ℕ → ℕ) (ip : Inode) (fs : Fs)
    → ltb i n ≡ false
    → write_chunks (suc k) i n addr off ip fs ≡ done (fs, ip, off, i)
write_chunks-end k i n off addr ip fs e = unfold write_chunks in rw e refl

-- The rounds from the next one on, behind a writei.
abbrev later :
    ℕ → ℕ → ℕ → (ℕ → ℕ) → ℕ → ℕ → Inode → Fs → Io (Fs × Inode × ℕ) → Io (Fs × Inode × ℕ × ℕ)
later k i n addr off n1 ip fs q = elim q [
  | done r ↦ if r.2 == n1 then write_chunks k (i + r.2) n addr (off + r.2) r.1 r.0 else panics
  | fails ↦ done (fs, ip, off, i)
  | panics ↦ panics
  | no_fuel ↦ no_fuel
]

write_chunks-later :
    (k i n off : ℕ) (addr : ℕ → ℕ) (ip : Inode) (fs : Fs)
    → ltb i n ≡ true
    → write_chunks (suc k) i n addr off ip fs
      ≡ later k i n addr off (chunk n i) ip fs (writei (λ j. addr (i + j)) off (chunk n i) ip fs)
unfolding write_chunks
write_chunks-later k i n off addr ip fs e = rw e refl

later-done :
    (k i n off n1 : ℕ) (addr : ℕ → ℕ) (ip ip1 : Inode) (fs fs1 : Fs)
    → later k i n addr off n1 ip fs (done (fs1, ip1, n1))
      ≡ write_chunks k (i + n1) n addr (off + n1) ip1 fs1
later-done k i n off n1 addr ip ip1 fs fs1 =
    let same : (n1 == n1) ≡ true = ground arith in rw same refl

-- What the loop of filewrite does with the bytes from `i` on.
record ChunksWrote (i off n : ℕ) (addr : ℕ → ℕ) (ip : Inode) (fs : Fs) (r : Io (Fs × Inode × ℕ × ℕ))
    : Type 0 where
  fs' : Fs
  ip' : Inode
  run : r ≡ done (fs', ip', off + (n - i), n)
  fs_ok : IsFs fs'
  owns : Owns fs' ip'
  size : ip'.size ≡ (if ltb ip.size (off + (n - i)) then off + (n - i) else ip.size)
  filled : Filled fs ip → Filled fs' ip'
  bytes :
      (o : ℕ)
      → o < max_bytes
      → content fs' ip' o ≡ overwritten off (n - i) (λ j. addr (i + j)) (content fs ip) o

-- The numbers of one round.
record Progress (i off n n1 size free : ℕ) : Type 0 where
  up : i + n1 ≤ n
  rounds : 0 < n1
  few : n1 ≤ max_chunk
  room : off + n1 + (n - (i + n1)) ≡ off + (n - i)
  blocks : 2 * blocks_of off n1 ≤ 8
  free_now : 8 ≤ free
  free_later : 8 * chunks_of (n - (i + n1)) + 8 ≤ free

chunk-Progress :
    (i off n size free : ℕ)
    → i < n
    → 8 * chunks_of (n - i) ≤ free
    → Progress i off n (chunk n i) size free
chunk-Progress i off n size free lt le = record {
  up = ground arith;
  rounds = ground arith;
  few = ground arith;
  room = ground arith;
  blocks = ground arith;
  free_now = ground arith;
  free_later = ground arith;
}

overwritten-next :
    (i off n n1 o : ℕ) (addr f g h : ℕ → ℕ)
    → i + n1 ≤ n
    → g o ≡ overwritten off n1 (λ j. addr (i + j)) f o
    → h o ≡ overwritten (off + n1) (n - (i + n1)) (λ j. addr (i + n1 + j)) g o
    → h o ≡ overwritten off (n - i) (λ j. addr (i + j)) f o
overwritten-next i off n n1 o addr f g h le eg eh =
    eh ∙ elim (Bool-cases (leb (off + n1) o && ltb o (off + n1 + (n - (i + n1))))) [
      | inl e ↦
          let inside : (leb off o && ltb o (off + (n - i))) ≡ true = ground arith in
          let at : i + n1 + (o - (off + n1)) ≡ i + (o - off) = ground arith in
          rw (e, inside) (ap addr at)
      | inr e ↦ rw e (
          eg ∙ elim (Bool-cases (leb off o && ltb o (off + n1))) [
            | inl s ↦
                let inside : (leb off o && ltb o (off + (n - i))) ≡ true = ground arith in
                rw (s, inside) refl
            | inr s ↦
                let out : (leb off o && ltb o (off + (n - i))) ≡ false = ground arith in
                rw (s, out) refl
          ])
    ]

write_chunks-ChunksWrote :
    (k i n off : ℕ) (addr : ℕ → ℕ) (ip : Inode) (fs : Fs)
    → IsFs fs
    → Owns fs ip
    → i ≤ n
    → n - i < k
    → off ≤ ip.size
    → off + (n - i) ≤ max_bytes
    → 8 * chunks_of (n - i) ≤ free_blocks fs
    → ChunksWrote i off n addr ip fs (write_chunks k i n addr off ip fs)
write_chunks-ChunksWrote zero i n off addr ip fs h own le fuel in_file room free =
    absurd (omega arith)
write_chunks-ChunksWrote (suc k) i n off addr ip fs h own le fuel in_file room free =
    elim (Bool-cases (ltb i n)) [
      | inr e ↦
          let stay : off + (n - i) ≡ off = ground arith in
          let whole : i ≡ n = ground arith in
          record {
            fs' = fs;
            ip' = ip;
            run =
                write_chunks-end k i n off addr ip fs e
                ∙ rw stay (ap (λ (y : ℕ). done (fs, ip, off, y)) whole);
            fs_ok = h;
            owns = own;
            size = let out : ltb ip.size (off + (n - i)) ≡ false = ground arith in rw out refl;
            filled = λ f. f;
            bytes = λ o lo.
                let out : (leb off o && ltb o (off + (n - i))) ≡ false = ground arith in
                rw out refl;
          }
      | inl e ↦
          let n1 : ℕ = chunk n i in
          let q = chunk-Progress i off n ip.size (free_blocks fs) (ground arith) free in
          let up = q.up in
          let rounds = q.rounds in
          let blocks = q.blocks in
          let whole = q.room in
          let now = q.free_now in
          let rest = q.free_later in
          let w =
            writei-Written (λ j. addr (i + j)) off n1 ip fs h own in_file (omega arith)
              (omega arith) in
          let left = w.left in
          let size = w.size in
          let v =
            write_chunks-ChunksWrote k (i + n1) n (off + n1) addr w.ip' w.fs' w.fs_ok w.owns up
              (omega arith) (ground arith) (omega arith) (omega arith) in
          record {
            fs' = v.fs';
            ip' = v.ip';
            run =
                write_chunks-later k i n off addr ip fs e
                ∙ ap (later k i n addr off n1 ip fs) w.run
                ∙ later-done k i n off n1 addr ip w.ip' fs w.fs'
                ∙ v.run
                ∙ ap (λ (y : ℕ). done (v.fs', v.ip', y, n)) whole;
            fs_ok = v.fs_ok;
            owns = v.owns;
            size =
                larger off n1 (off + (n - i)) (off + n1 + (n - (i + n1))) ip.size w.ip'.size
                  v.ip'.size whole (omega arith) size v.size;
            filled = λ f. v.filled (w.filled f);
            bytes = λ o lo.
                overwritten-next i off n n1 o addr (content fs ip) (content w.fs' w.ip')
                  (content v.fs' v.ip') up (w.bytes o lo) (v.bytes o lo);
          }
    ]
  where
    larger :
        (off n1 end end' s s1 s2 : ℕ)
        → end' ≡ end
        → off + n1 ≤ end
        → s1 ≡ (if ltb s (off + n1) then off + n1 else s)
        → s2 ≡ (if ltb s1 end' then end' else s1)
        → s2 ≡ (if ltb s end then end else s)
    larger off n1 end end' s s1 s2 e le a b = ground arith

-- What a filewrite of all its bytes does.
pub record FileWritten (f : FileSlot) (addr : ℕ → ℕ) (n : ℕ) (ip : Inode) (fs : Fs)
    (r : OnFile (Fs × Inode × FileSlot × Option ℕ)) : Type 0 where
  pub fs' : Fs
  pub ip' : Inode
  pub run : r ≡ on_inode (done (fs', ip', record f { off = f.off + n }, some n))
  pub fs_ok : IsFs fs'
  pub owns : Owns fs' ip'
  pub size : ip'.size ≡ (if ltb ip.size (f.off + n) then f.off + n else ip.size)
  pub filled : Filled fs ip → Filled fs' ip'
  pub bytes :
      (o : ℕ) → o < max_bytes → content fs' ip' o ≡ overwritten f.off n addr (content fs ip) o

filewrite-run :
    (f : FileSlot) (addr : ℕ → ℕ) (n : ℕ) (ip : Inode) (fs : Fs)
    → f.writable ≡ true
    → f.kind ≡ fd_inode
    → filewrite f addr n ip fs
      ≡ on_inode (finish_chunks n f (write_chunks (n + 1) 0 n addr f.off ip fs))
filewrite-run f addr n ip fs w e =
    unfold filewrite in
    ap (λ (b : Bool). if not b then on_inode fails else by_kind f.kind) w ∙ ap by_kind e
  where
    by_kind : FileKind → OnFile (Fs × Inode × FileSlot × Option ℕ)
    by_kind k = elim k [
      | fd_pipe ↦ on_pipe f.pipe
      | fd_inode ↦ on_inode (finish_chunks n f (write_chunks (n + 1) 0 n addr f.off ip fs))
      | fd_none ↦ on_inode panics
    ]

finish_chunks-done :
    (n off : ℕ) (f : FileSlot) (fs : Fs) (ip : Inode)
    → finish_chunks n f (done (fs, ip, off, n)) ≡ done (fs, ip, record f { off = off }, some n)
finish_chunks-done n off f fs ip =
    unfold finish_chunks in (let same : (n == n) ≡ true = ground arith in rw same refl)

-- A write to a file that is open for it and is an inode, with the offset inside the file, an end within
-- the 140 blocks that a file can have, and eight free blocks for each call of writei, returns the number
-- of its bytes after its calls of writei, none of which fails. The bytes of the file are those at `addr`
-- in the range and as before elsewhere, the offset moves by their number, the size grows if the range
-- ends behind it, and the inode's blocks stay in use and different; a file without holes stays so.
pub filewrite-FileWritten :
    (f : FileSlot) (addr : ℕ → ℕ) (n : ℕ) (ip : Inode) (fs : Fs)
    → f.writable ≡ true
    → f.kind ≡ fd_inode
    → IsFs fs
    → Owns fs ip
    → f.off ≤ ip.size
    → f.off + n ≤ max_bytes
    → 8 * chunks_of n ≤ free_blocks fs
    → FileWritten f addr n ip fs (filewrite f addr n ip fs)
filewrite-FileWritten f addr n ip fs writable kind h own le room free =
    let all : n - 0 ≡ n = omega arith in
    let w =
      write_chunks-ChunksWrote (n + 1) 0 n f.off addr ip fs h own (omega arith) (omega arith) le
        (rw all room) (rw all free) in
    let size = w.size in
    record {
      fs' = w.fs';
      ip' = w.ip';
      run =
          filewrite-run f addr n ip fs writable kind
          ∙ ap (λ (r : Io (Fs × Inode × ℕ × ℕ)). on_inode (finish_chunks n f r))
              (w.run ∙ ap (λ (y : ℕ). done (w.fs', w.ip', f.off + y, n)) all)
          ∙ ap on_inode (finish_chunks-done n (f.off + n) f w.fs' w.ip');
      fs_ok = w.fs_ok;
      owns = w.owns;
      size =
          subst (λ (k : ℕ). w.ip'.size ≡ (if ltb ip.size (f.off + k) then f.off + k else ip.size))
            all size;
      filled = w.filled;
      bytes = λ o lo. w.bytes o lo ∙ from_zero f.off n o (content fs ip);
    }
  where
    from_zero :
        (off n o : ℕ) (g : ℕ → ℕ)
        → overwritten off (n - 0) (λ j. addr (0 + j)) g o ≡ overwritten off n addr g o
    from_zero off n o g = ground arith
