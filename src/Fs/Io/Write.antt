-- ===== src/Fs/Io/Write.antt =====
-- writei of srcs/fs.c against the bytes of the file.
use os_project_mlfqschedulin.Base.{
  subst, ℕ, ◌+◌, ◌-◌, ◌*◌, ◌%◌, ◌^◌, ◌<◌, ◌≤◌, ◌≡◌, refl, ap, ◌∙◌, inl, inr, true, false, ◌||◌,
  ◌&&◌, arith, ltb, if◌then◌else◌, Bool-cases,
}
use os_project_mlfqschedulin.Fs.{bsize, ndirect, nindirect, Fs, Inode}
use os_project_mlfqschedulin.Fs.Alloc.{IsFs}
use os_project_mlfqschedulin.Fs.Slots.{Owns}
use os_project_mlfqschedulin.Fs.Io.{Io, done, write_loop, grow, finish_write, writei}
use os_project_mlfqschedulin.Fs.Io.Content.{max_bytes, content, has_block}
use os_project_mlfqschedulin.Fs.Io.Free.{free_blocks}
use os_project_mlfqschedulin.Fs.Io.Loop.{blocks_of, overwritten, write_loop-LoopWrote}

-- A file without holes.
abbrev pub Filled : Fs → Inode → Type 0
Filled fs ip = (o : ℕ) → o < ip.size → o < max_bytes → has_block fs ip o ≡ true

-- What a call of writei that returns the number of its bytes does.
pub record Written (src : ℕ → ℕ) (off n : ℕ) (ip : Inode) (fs : Fs) (r : Io (Fs × Inode × ℕ))
    : Type 0 where
  pub fs' : Fs
  pub ip' : Inode
  pub run : r ≡ done (fs', ip', n)
  pub fs_ok : IsFs fs'
  pub owns : Owns fs' ip'
  pub size : ip'.size ≡ (if ltb ip.size (off + n) then off + n else ip.size)
  pub left : free_blocks fs ≤ free_blocks fs' + 2 * blocks_of off n
  pub filled : Filled fs ip → Filled fs' ip'
  pub bytes : (o : ℕ) → o < max_bytes → content fs' ip' o ≡ overwritten off n src (content fs ip) o

writei-run :
    (src : ℕ → ℕ) (off n : ℕ) (ip : Inode) (fs : Fs)
    → off ≤ ip.size
    → off + n ≤ max_bytes
    → writei src off n ip fs ≡ finish_write n (write_loop (n + 1) 0 off n src ip fs)
unfolding writei
writei-run src off n ip fs le room =
    let t : (ltb ip.size off || ltb ((off + n) % 2 ^ 32) off) ≡ false = ground arith in
    let u : ltb ((ndirect + nindirect) * bsize) ((off + n) % 2 ^ 32) ≡ false = ground arith in
    rw (t, u) refl

finish_write-done :
    (n off : ℕ) (fs : Fs) (ip : Inode)
    → finish_write n (done (fs, ip, off)) ≡ done (fs, grow n off ip, n)
unfolding finish_write
finish_write-done n off fs ip = refl

-- A write that starts inside the file, ends within the 140 blocks that a file can have, and finds two
-- free blocks for each block that it reaches into, returns the number of its bytes with no panic. The
-- bytes of the file are those of `src` in the range and as before elsewhere, the size grows if the
-- range ends behind it, the inode's blocks stay in use and different, a file without holes stays so,
-- and two blocks at most are taken for each block that the range reaches into.
pub writei-Written :
    (src : ℕ → ℕ) (off n : ℕ) (ip : Inode) (fs : Fs)
    → IsFs fs
    → Owns fs ip
    → off ≤ ip.size
    → off + n ≤ max_bytes
    → 2 * blocks_of off n ≤ free_blocks fs
    → Written src off n ip fs (writei src off n ip fs)
writei-Written src off n ip fs h own le room free =
    let all : n - 0 ≡ n = omega arith in
    let w =
      write_loop-LoopWrote (n + 1) 0 off n src ip fs h own (omega arith) (omega arith) (omega arith)
        (rw all free) in
    let size = w.size in
    record {
      fs' = w.fs';
      ip' = grow n (off + n) w.ip';
      run =
          writei-run src off n ip fs le room
          ∙ ap (finish_write n) (w.run ∙ ap (λ (y : ℕ). done (w.fs', w.ip', off + y)) all)
          ∙ finish_write-done n (off + n) w.fs' w.ip';
      fs_ok = w.fs_ok;
      owns = grow-Owns n (off + n) w.fs' w.ip' w.owns;
      size = grow-size n off w.ip' ip size le;
      left = subst (λ (k : ℕ). free_blocks fs ≤ free_blocks w.fs' + 2 * blocks_of off k) all w.left;
      filled = λ f o lo small.
          grow-has_block n (off + n) w.fs' w.ip' o
          ∙ filled_after w.fs' w.ip' (grow n (off + n) w.ip').size
              (grow-size n off w.ip' ip size le) w.kept w.made f o lo small;
      bytes = λ o lo.
          grow-content n (off + n) w.fs' w.ip' o
          ∙ w.bytes o lo
          ∙ (grow-range off n src (content fs ip) o);
    }
  where
    grow-range :
        (off n : ℕ) (src f : ℕ → ℕ) (o : ℕ)
        → overwritten off (n - 0) (λ i. src (0 + i)) f o ≡ overwritten off n src f o
    grow-range off n src f o = ground arith

    grow-Owns : (n off : ℕ) (fs : Fs) (ip : Inode) → Owns fs ip → Owns fs (grow n off ip)
    grow-Owns n off fs ip o = elim (Bool-cases (ltb 0 n && ltb ip.size off)) [
      | inl e ↦ rw e (record { range = o.range; once = o.once })
      | inr e ↦ rw e o
    ]

    grow-size :
        (n off : ℕ) (ip' ip : Inode)
        → ip'.size ≡ ip.size
        → off ≤ ip.size
        → (grow n (off + n) ip').size ≡ (if ltb ip.size (off + n) then off + n else ip.size)
    grow-size n off ip' ip e le = ground arith

    grow-content :
        (n off : ℕ) (fs : Fs) (ip : Inode) (o : ℕ) → content fs (grow n off ip) o ≡ content fs ip o
    grow-content n off fs ip o = elim (Bool-cases (ltb 0 n && ltb ip.size off)) [
      | inl e ↦ rw e refl
      | inr e ↦ rw e refl
    ]

    grow-has_block :
        (n off : ℕ) (fs : Fs) (ip : Inode) (o : ℕ)
        → has_block fs (grow n off ip) o ≡ has_block fs ip o
    grow-has_block n off fs ip o = elim (Bool-cases (ltb 0 n && ltb ip.size off)) [
      | inl e ↦ rw e refl
      | inr e ↦ rw e refl
    ]

    filled_after :
        (fs' : Fs) (ip' : Inode) (s : ℕ)
        → s ≡ (if ltb ip.size (off + n) then off + n else ip.size)
        → ((o : ℕ) → o < max_bytes → has_block fs ip o ≡ true → has_block fs' ip' o ≡ true)
        → ((o : ℕ) → off ≤ o → o < off + (n - 0) → has_block fs' ip' o ≡ true)
        → Filled fs ip
        → (o : ℕ) → o < s
        → o < max_bytes
        → has_block fs' ip' o ≡ true
    filled_after fs' ip' s e kept made f o lo small = elim (Bool-cases (ltb o ip.size)) [
      | inl b ↦ kept o small (f o (ground arith) small)
      | inr b ↦ made o (ground arith) (ground arith)
    ]
