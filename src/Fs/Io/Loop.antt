-- ===== src/Fs/Io/Loop.antt =====
-- The loop of writei of srcs/fs.c against the bytes of the file.
use os_project_mlfqschedulin.Base.{
  ℕ, zero, suc, ◌+◌, ◌-◌, ◌*◌, ◌/◌, ◌%◌, ◌<◌, ◌≤◌, ◌≡◌, refl, sym, ap, ◌∙◌, ◌⊎◌, inl, inr, true,
  false, ◌&&◌, not, some, arith, ltb, leb, ◌==◌, if◌then◌else◌, Bool-cases, update,
}
use os_project_mlfqschedulin.Fs.{bsize, ndirect, nindirect, Fs, Inode, bmap}
use os_project_mlfqschedulin.Fs.Bits.{is_used}
use os_project_mlfqschedulin.Fs.Alloc.{IsFs}
use os_project_mlfqschedulin.Fs.Slots.{slot, slot_of, Owns, Mapped}
use os_project_mlfqschedulin.Fs.Map.{bmap-Mapped}
use os_project_mlfqschedulin.Fs.Io.{Io, done, min, put_bytes, write_loop}
use os_project_mlfqschedulin.Fs.Io.Content.{
  max_bytes, content, has_block, Mapped-has_block, Mapped-content, written, written-slot,
  written-used, written-IsFs, written-Owns, written-content,
}
use os_project_mlfqschedulin.Fs.Io.Free.{free_blocks, AlmostFull-free, Mapped-free, free_below-ext}

-- The blocks that `m` bytes from `off` on reach into.
abbrev pub blocks_of : ℕ → ℕ → ℕ
blocks_of off m = if m == 0 then 0 else (off % bsize + m + 511) / bsize

-- The bytes of the file with `m` bytes of `src` written at `off`.
abbrev pub overwritten : ℕ → ℕ → (ℕ → ℕ) → (ℕ → ℕ) → ℕ → ℕ
overwritten off m src f o = if leb off o && ltb o (off + m) then src (o - off) else f o

-- What the loop of writei does with the bytes of `src` from `tot` on.
pub record LoopWrote (tot off n : ℕ) (src : ℕ → ℕ) (ip : Inode) (fs : Fs) (r : Io (Fs × Inode × ℕ))
    : Type 0 where
  pub fs' : Fs
  pub ip' : Inode
  pub run : r ≡ done (fs', ip', off + (n - tot))
  pub fs_ok : IsFs fs'
  pub owns : Owns fs' ip'
  pub size : ip'.size ≡ ip.size
  pub left : free_blocks fs ≤ free_blocks fs' + 2 * blocks_of off (n - tot)
  pub kept : (o : ℕ) → o < max_bytes → has_block fs ip o ≡ true → has_block fs' ip' o ≡ true
  pub made : (o : ℕ) → off ≤ o → o < off + (n - tot) → has_block fs' ip' o ≡ true
  pub bytes :
      (o : ℕ)
      → o < max_bytes
      → content fs' ip' o ≡ overwritten off (n - tot) (λ i. src (tot + i)) (content fs ip) o

write_loop-end :
    (k tot off n : ℕ) (src : ℕ → ℕ) (ip : Inode) (fs : Fs)
    → ltb tot n ≡ false
    → write_loop (suc k) tot off n src ip fs ≡ done (fs, ip, off)
unfolding write_loop
write_loop-end k tot off n src ip fs e = rw e refl

write_loop-step :
    (k tot off n : ℕ) (src : ℕ → ℕ) (ip : Inode) (fs fs1 : Fs) (ip1 : Inode) (a : ℕ)
    → ltb tot n ≡ true
    → bmap (off / bsize) ip fs ≡ some (fs1, ip1, a)
    → write_loop (suc k) tot off n src ip fs
      ≡ write_loop k
          (tot + min (n - tot) (bsize - off % bsize))
          (off + min (n - tot) (bsize - off % bsize))
          n
          src
          ip1
          (put_bytes a (off % bsize) (min (n - tot) (bsize - off % bsize)) (λ i. src (tot + i)) fs1)
unfolding write_loop
write_loop-step k tot off n src ip fs fs1 ip1 a e run = rw (e, run) refl

-- One round's bytes and the later rounds' bytes together.
overwritten-split :
    (tot off n m o : ℕ) (src f g h : ℕ → ℕ)
    → tot < n
    → m ≡ min (n - tot) (bsize - off % bsize)
    → g o ≡ (
        if off / bsize == o / bsize
        then (if leb (off % bsize) (o % bsize) && ltb (o % bsize) (off % bsize + m)
            then src (tot + (o % bsize - off % bsize))
            else f o)
        else f o)
    → h o ≡ overwritten (off + m) (n - (tot + m)) (λ i. src (tot + m + i)) g o
    → h o ≡ overwritten off (n - tot) (λ i. src (tot + i)) f o
overwritten-split tot off n m o src f g h lt em eg eh =
    eh ∙ elim (Bool-cases (leb (off + m) o && ltb o (off + m + (n - (tot + m))))) [
      | inl e ↦
          let inside : (leb off o && ltb o (off + (n - tot))) ≡ true = ground arith in
          let at : tot + m + (o - (off + m)) ≡ tot + (o - off) = ground arith in
          rw (e, inside) (ap src at)
      | inr e ↦ rw e (
          eg ∙ elim (Bool-cases (leb off o && ltb o (off + m))) [
            | inl s ↦
                let one : (off / bsize == o / bsize) ≡ true = ground arith in
                let two : (leb (off % bsize) (o % bsize) && ltb (o % bsize) (off % bsize + m))
                    ≡ true =
                  ground arith in
                let inside : (leb off o && ltb o (off + (n - tot))) ≡ true = ground arith in
                let at : tot + (o % bsize - off % bsize) ≡ tot + (o - off) = ground arith in
                rw (one, two, inside) (ap src at)
            | inr s ↦
                let out : (leb off o && ltb o (off + (n - tot))) ≡ false = ground arith in
                rw out (elim (Bool-cases (off / bsize == o / bsize)) [
                  | inr u ↦ rw u refl
                  | inl u ↦
                      let two : (leb (off % bsize) (o % bsize) && ltb (o % bsize) (off % bsize + m))
                          ≡ false =
                        ground arith in
                      rw (u, two) refl
                ])
          ])
    ]

-- One round of the loop.
record Round (tot off n : ℕ) (src : ℕ → ℕ) (ip : Inode) (fs : Fs) (k : ℕ) : Type 0 where
  m : ℕ
  m_lem : m ≡ min (n - tot) (bsize - off % bsize)
  fs2 : Fs
  ip2 : Inode
  step : write_loop (suc k) tot off n src ip fs ≡ write_loop k (tot + m) (off + m) n src ip2 fs2
  fs_ok : IsFs fs2
  owns : Owns fs2 ip2
  size : ip2.size ≡ ip.size
  free : free_blocks fs ≤ free_blocks fs2 + 2
  blocks :
      (o : ℕ)
      → o < max_bytes
      → ((off / bsize == o / bsize) ≡ true) ⊎ (has_block fs ip o ≡ true)
      → has_block fs2 ip2 o ≡ true
  bytes :
      (o : ℕ)
      → o < max_bytes
      → content fs2 ip2 o ≡ (
          if off / bsize == o / bsize
          then (if leb (off % bsize) (o % bsize) && ltb (o % bsize) (off % bsize + m)
              then src (tot + (o % bsize - off % bsize))
              else content fs ip o)
          else content fs ip o)

bmap-Round :
    (k tot off n : ℕ) (src : ℕ → ℕ) (ip : Inode) (fs fs1 : Fs) (ip1 : Inode) (a : ℕ)
    → ltb tot n ≡ true
    → off < max_bytes
    → Owns fs ip
    → bmap (off / bsize) ip fs ≡ some (fs1, ip1, a)
    → Mapped fs ip (slot_of (off / bsize)) fs1 ip1 a
    → Round tot off n src ip fs k
bmap-Round k tot off n src ip fs fs1 ip1 a t lt own run p =
    let m : ℕ = min (n - tot) (bsize - off % bsize) in
    let bn : ℕ = off / bsize in
    let d : ℕ → ℕ = λ o.
      if leb (off % bsize) o && ltb o (off % bsize + m)
      then src (tot + (o - off % bsize))
      else fs1.blk a o in
    let nz : (slot fs1 ip1 (slot_of bn) == 0) ≡ false = ap (λ (y : ℕ). y == 0) p.here ∙ p.nonzero in
    let lb : bn < ndirect + nindirect = omega arith in
    let fs2 : Fs = written fs1 ip1 bn d p.fs_ok p.owns lb nz in
    let eq : put_bytes a (off % bsize) m (λ i. src (tot + i)) fs1 ≡ fs2 =
      ap (λ (y : ℕ). record fs1 { blk = update fs1.blk y d }) (sym p.here) in
    record {
      m = m;
      m_lem = refl;
      fs2 = fs2;
      ip2 = ip1;
      step =
          write_loop-step k tot off n src ip fs fs1 ip1 a t run
          ∙ ap (write_loop k (tot + m) (off + m) n src ip1) eq;
      fs_ok = written-IsFs fs1 ip1 bn d p.fs_ok p.owns lb nz;
      owns = written-Owns fs1 ip1 bn d p.fs_ok p.owns lb nz;
      size = p.size;
      free =
          let two = Mapped-free fs fs1 ip ip1 (slot_of bn) a p in
          let same =
            free_below-ext fs1.sb.size (is_used fs2) (is_used fs1)
              (written-used fs1 ip1 bn d p.fs_ok p.owns lb nz) in
          ground arith;
      blocks = λ o lo b.
          ap (λ (y : ℕ). not (y == 0))
            (written-slot fs1 ip1 bn d p.fs_ok p.owns lb nz (slot_of (o / bsize)))
          ∙ Mapped-has_block fs fs1 ip ip1 bn a o p lo b;
      bytes = λ o lo.
          written-content fs1 ip1 bn d p.fs_ok p.owns lb nz o lo
          ∙ elim (Bool-cases (bn == o / bsize)) [
            | inr e ↦ rw e (Mapped-content fs fs1 ip ip1 bn a o own p lb lo)
            | inl e ↦
                let s : bn ≡ o / bsize = ground arith in
                let here : slot fs1 ip1 (slot_of (o / bsize)) ≡ a =
                  sym (ap (λ (b : ℕ). slot fs1 ip1 (slot_of b)) s) ∙ p.here in
                let old : content fs1 ip1 o ≡ fs1.blk a (o % bsize) = rw (here, p.nonzero) refl in
                rw e (
                  ap
                    (λ (w : ℕ).
                      if leb (off % bsize) (o % bsize) && ltb (o % bsize) (off % bsize + m)
                      then src (tot + (o % bsize - off % bsize))
                      else w)
                    (sym old ∙ Mapped-content fs fs1 ip ip1 bn a o own p lb lo))
          ];
    }

fewer_blocks :
    (tot off n m f f' : ℕ)
    → tot < n
    → m ≡ min (n - tot) (bsize - off % bsize)
    → 2 * blocks_of off (n - tot) ≤ f
    → f ≤ f' + 2
    → 2 * blocks_of (off + m) (n - (tot + m)) ≤ f'
fewer_blocks tot off n m f f' lt em le step = ground arith

behind :
    (tot off n m : ℕ)
    → tot < n
    → m ≡ min (n - tot) (bsize - off % bsize)
    → off + m + (n - (tot + m)) ≡ off + (n - tot)
behind tot off n m lt em = ground arith

spent :
    (tot off n m f f' f'' : ℕ)
    → tot < n
    → m ≡ min (n - tot) (bsize - off % bsize)
    → f ≤ f' + 2
    → f' ≤ f'' + 2 * blocks_of (off + m) (n - (tot + m))
    → f ≤ f'' + 2 * blocks_of off (n - tot)
spent tot off n m f f' f'' lt em step le = ground arith

same_block :
    (tot off n m o : ℕ)
    → tot < n
    → m ≡ min (n - tot) (bsize - off % bsize)
    → off ≤ o
    → o < off + m
    → (off / bsize == o / bsize) ≡ true
same_block tot off n m o lt em le l = ground arith

in_range :
    (tot off n m o : ℕ)
    → tot < n
    → m ≡ min (n - tot) (bsize - off % bsize)
    → o < off + (n - tot)
    → o < off + m + (n - (tot + m))
in_range tot off n m o lt em l = ground arith

some_block : (tot off n f : ℕ) → tot < n → 2 * blocks_of off (n - tot) ≤ f → 2 ≤ f
some_block tot off n f lt le = ground arith

pub write_loop-LoopWrote :
    (k tot off n : ℕ) (src : ℕ → ℕ) (ip : Inode) (fs : Fs)
    → IsFs fs
    → Owns fs ip
    → tot ≤ n
    → n - tot < k
    → off + (n - tot) ≤ max_bytes
    → 2 * blocks_of off (n - tot) ≤ free_blocks fs
    → LoopWrote tot off n src ip fs (write_loop k tot off n src ip fs)
write_loop-LoopWrote zero tot off n src ip fs h own le fuel room free = absurd (omega arith)
write_loop-LoopWrote (suc k) tot off n src ip fs h own le fuel room free =
    elim (Bool-cases (ltb tot n)) [
      | inr e ↦ record {
        fs' = fs;
        ip' = ip;
        run =
            write_loop-end k tot off n src ip fs e
            ∙ (let stay : off + (n - tot) ≡ off = ground arith in rw stay refl);
        fs_ok = h;
        owns = own;
        size = refl;
        left = omega arith;
        kept = λ o lo b. b;
        made = λ o le' lt. absurd (ground arith);
        bytes = λ o lo.
            let out : (leb off o && ltb o (off + (n - tot))) ≡ false = ground arith in rw out refl;
      }
      | inl e ↦ elim (bmap-Mapped (off / bsize) ip fs h own (ground arith)) [
        | inl (run, full) ↦ absurd (
            let few = AlmostFull-free fs full in
            let many = some_block tot off n (free_blocks fs) (ground arith) free in omega arith)
        | inr (fs1, ip1, a, run, p) ↦
            let w = bmap-Round k tot off n src ip fs fs1 ip1 a e (ground arith) own run p in
            let em = w.m_lem in
            let left = w.free in
            let v =
              write_loop-LoopWrote k (tot + w.m) (off + w.m) n src w.ip2 w.fs2 w.fs_ok w.owns
                (ground arith) (ground arith) (ground arith)
                (fewer_blocks tot off n w.m (free_blocks fs) (free_blocks w.fs2) (ground arith) em
                  free left) in
            record {
              fs' = v.fs';
              ip' = v.ip';
              run =
                  w.step
                  ∙ v.run
                  ∙ ap (λ (y : ℕ). done (v.fs', v.ip', y)) (behind tot off n w.m (ground arith) em);
              fs_ok = v.fs_ok;
              owns = v.owns;
              size = v.size ∙ w.size;
              left =
                  spent tot off n w.m (free_blocks fs) (free_blocks w.fs2) (free_blocks v.fs')
                    (ground arith) em left v.left;
              kept = λ o lo b. v.kept o lo (w.blocks o lo (inr b));
              made = λ o le' lt. elim (Bool-cases (ltb o (off + w.m))) [
                | inl b ↦ v.kept o (omega arith) (
                    w.blocks o (omega arith)
                      (inl (same_block tot off n w.m o (ground arith) em le' (ground arith))))
                | inr b ↦ v.made o (ground arith) (in_range tot off n w.m o (ground arith) em lt)
              ];
              bytes = λ o lo.
                  overwritten-split tot off n w.m o src (content fs ip) (content w.fs2 w.ip2)
                    (content v.fs' v.ip') (ground arith) em (w.bytes o lo) (v.bytes o lo);
            }
      ]
    ]
