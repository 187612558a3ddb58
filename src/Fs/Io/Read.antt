-- ===== src/Fs/Io/Read.antt =====
-- readi of srcs/fs.c against the bytes of the file.
use os_project_mlfqschedulin.Base.{
  ℕ, zero, suc, ◌+◌, ◌-◌, ◌/◌, ◌%◌, ◌^◌, ◌<◌, ◌≤◌, ◌≡◌, refl, sym, ap, fun_ext, ◌∙◌, inl, inr, true,
  false, ◌||◌, ◌&&◌, some, arith, ltb, leb, ◌==◌, if◌then◌else◌, Bool-cases,
}
use os_project_mlfqschedulin.Fs.{bsize, ndirect, nindirect, Fs, Inode, word_at, map_indirect, bmap}
use os_project_mlfqschedulin.Fs.Slots.{slot, slot_of}
use os_project_mlfqschedulin.Fs.Slots.Addrs.{get_addr-old}
use os_project_mlfqschedulin.Fs.Slots.Entries.{get_entry-old, entry_of}
use os_project_mlfqschedulin.Fs.Map.{map_indirect-some, bmap-direct, bmap-indirect}
use os_project_mlfqschedulin.Fs.Io.{done, min, get_bytes, read_loop, capped, finish_read, readi}
use os_project_mlfqschedulin.Fs.Io.Content.{max_bytes, content, has_block}
use os_project_mlfqschedulin.Fs.Io.Write.{Filled}

-- bmap of a block that is there changes nothing.
bmap-old :
    (bn : ℕ) (ip : Inode) (fs : Fs)
    → bn < ndirect + nindirect
    → (slot fs ip (slot_of bn) == 0) ≡ false
    → bmap bn ip fs ≡ some (fs, ip, slot fs ip (slot_of bn))
bmap-old bn ip fs lt nz = elim (Bool-cases (ltb bn ndirect)) [
  | inl e ↦
      let low : leb bn ndirect ≡ true = ground arith in
      let here : slot fs ip (slot_of bn) ≡ ip.addrs bn = rw (e, low) refl in
      bmap-direct bn ip fs (ground arith)
      ∙ get_addr-old bn ip fs (sym (ap (λ (y : ℕ). y == 0) here) ∙ nz)
      ∙ ap (λ (y : ℕ). some (fs, ip, y)) (sym here)
  | inr e ↦
      let high : leb (bn + 1) ndirect ≡ false = ground arith in
      let room : ltb (bn - ndirect) nindirect ≡ true = ground arith in
      let entry : bn + 1 - 13 ≡ bn - ndirect = ground arith in
      elim (Bool-cases (ip.addrs ndirect == 0)) [
        | inl z ↦
            let gone : slot fs ip (slot_of bn) ≡ 0 = rw (e, high, z) refl in absurd (ground arith)
        | inr z ↦
            let here : slot fs ip (slot_of bn)
                ≡ word_at (fs.blk (ip.addrs ndirect)) (bn - ndirect) =
              rw (e, high, z, entry) refl in
            bmap-indirect bn ip fs (ground arith) lt
            ∙ ap (map_indirect (bn - ndirect)) (get_addr-old ndirect ip fs z)
            ∙ map_indirect-some (bn - ndirect) (ip.addrs ndirect) ip fs refl
            ∙ ap (entry_of ip) (
                get_entry-old (ip.addrs ndirect) (bn - ndirect) fs
                  (sym (ap (λ (y : ℕ). y == 0) here) ∙ nz))
            ∙ ap (λ (y : ℕ). some (fs, ip, y)) (sym here)
      ]
]

-- `dst` with the bytes of `f` from `off` on at the places `tot` to `n`.
abbrev copied : ℕ → ℕ → ℕ → (ℕ → ℕ) → (ℕ → ℕ) → ℕ → ℕ
copied tot n off f dst i = if leb tot i && ltb i n then f (off + (i - tot)) else dst i

read_loop-end :
    (k tot off n : ℕ) (dst : ℕ → ℕ) (ip : Inode) (fs : Fs)
    → ltb tot n ≡ false
    → read_loop (suc k) tot off n dst ip fs ≡ done (fs, ip, dst)
unfolding read_loop
read_loop-end k tot off n dst ip fs e = rw e refl

read_loop-step :
    (k tot off n : ℕ) (dst : ℕ → ℕ) (ip : Inode) (fs : Fs) (a : ℕ)
    → ltb tot n ≡ true
    → bmap (off / bsize) ip fs ≡ some (fs, ip, a)
    → read_loop (suc k) tot off n dst ip fs
      ≡ read_loop k
          (tot + min (n - tot) (bsize - off % bsize))
          (off + min (n - tot) (bsize - off % bsize))
          n
          (get_bytes a (off % bsize) (min (n - tot) (bsize - off % bsize)) tot fs dst)
          ip
          fs
unfolding read_loop
read_loop-step k tot off n dst ip fs a e run = rw (e, run) refl

-- One round's bytes and the later rounds' bytes together.
copied-split :
    (tot off n m : ℕ) (ip : Inode) (fs : Fs) (dst : ℕ → ℕ) (i : ℕ)
    → tot < n
    → m ≡ min (n - tot) (bsize - off % bsize)
    → (slot fs ip (slot_of (off / bsize)) == 0) ≡ false
    → copied
        (tot + m)
        n
        (off + m)
        (content fs ip)
        (get_bytes (slot fs ip (slot_of (off / bsize))) (off % bsize) m tot fs dst)
        i
      ≡ copied tot n off (content fs ip) dst i
copied-split tot off n m ip fs dst i lt em nz = elim (Bool-cases (leb (tot + m) i && ltb i n)) [
  | inl e ↦
      let inside : (leb tot i && ltb i n) ≡ true = ground arith in
      let at : off + m + (i - (tot + m)) ≡ off + (i - tot) = ground arith in
      rw (e, inside) (ap (content fs ip) at)
  | inr e ↦ rw e (elim (Bool-cases (leb tot i && ltb i (tot + m))) [
    | inl s ↦
        let inside : (leb tot i && ltb i n) ≡ true = ground arith in
        let block : (off + (i - tot)) / bsize ≡ off / bsize = ground arith in
        let byte : (off + (i - tot)) % bsize ≡ off % bsize + (i - tot) = ground arith in
        rw (s, inside, block, byte, nz) refl
    | inr s ↦ let out : (leb tot i && ltb i n) ≡ false = ground arith in rw (s, out) refl
  ])
]

read_loop-copied :
    (k tot off n : ℕ) (dst : ℕ → ℕ) (ip : Inode) (fs : Fs)
    → tot ≤ n
    → n - tot < k
    → off + (n - tot) ≤ max_bytes
    → ((o : ℕ) → off ≤ o → o < off + (n - tot) → has_block fs ip o ≡ true)
    → read_loop k tot off n dst ip fs ≡ done (fs, ip, copied tot n off (content fs ip) dst)
read_loop-copied zero tot off n dst ip fs le fuel room h = absurd (omega arith)
read_loop-copied (suc k) tot off n dst ip fs le fuel room h = elim (Bool-cases (ltb tot n)) [
  | inr e ↦
      read_loop-end k tot off n dst ip fs e
      ∙ ap (λ (d : ℕ → ℕ). done (fs, ip, d))
          (fun_ext (λ i. let out : (leb tot i && ltb i n) ≡ false = ground arith in rw out refl))
  | inl e ↦
      let m : ℕ = min (n - tot) (bsize - off % bsize) in
      let here = h off (omega arith) (ground arith) in
      let nz : (slot fs ip (slot_of (off / bsize)) == 0) ≡ false = ground arith in
      let a : ℕ = slot fs ip (slot_of (off / bsize)) in
      let (up, rounds, room', within) = progress tot off n k (ground arith) fuel room in
      read_loop-step k tot off n dst ip fs a e (bmap-old (off / bsize) ip fs (ground arith) nz)
      ∙ read_loop-copied k (tot + m) (off + m) n (get_bytes a (off % bsize) m tot fs dst) ip fs up
          rounds room' (λ o lo hi. h o (omega arith) (within o hi))
      ∙ ap (λ (d : ℕ → ℕ). done (fs, ip, d))
          (fun_ext (λ i. copied-split tot off n m ip fs dst i (ground arith) refl nz))
]
  where
    progress :
        (tot off n k : ℕ)
        → tot < n
        → n - tot < suc k
        → off + (n - tot) ≤ max_bytes
        → (tot + min (n - tot) (bsize - off % bsize) ≤ n)
          × (n - (tot + min (n - tot) (bsize - off % bsize)) < k)
          × (off
                + min (n - tot) (bsize - off % bsize)
                + (n - (tot + min (n - tot) (bsize - off % bsize)))
              ≤ max_bytes)
          × ((o : ℕ)
              → o
                < off
                  + min (n - tot) (bsize - off % bsize)
                  + (n - (tot + min (n - tot) (bsize - off % bsize)))
              → o < off + (n - tot))
    progress tot off n k lt fuel room =
        (ground arith, ground arith, ground arith, λ o l. ground arith)

readi-run :
    (dst : ℕ → ℕ) (off n : ℕ) (ip : Inode) (fs : Fs)
    → off ≤ ip.size
    → off + n < 2 ^ 32
    → readi dst off n ip fs
      ≡ finish_read
          (min n (ip.size - off))
          (read_loop (min n (ip.size - off) + 1) 0 off (min n (ip.size - off)) dst ip fs)
unfolding readi
readi-run dst off n ip fs le small =
    let t : (ltb ip.size off || ltb ((off + n) % 2 ^ 32) off) ≡ false = ground arith in
    let c : capped ip.size off n ≡ min n (ip.size - off) = ground arith in rw (t, c) refl

finish_read-done :
    (n : ℕ) (fs : Fs) (ip : Inode) (d : ℕ → ℕ)
    → finish_read n (done (fs, ip, d)) ≡ done (fs, ip, d, n)
unfolding finish_read
finish_read-done n fs ip d = refl

-- A read that starts inside a file without holes, of 71680 bytes at most, and whose offset and number of
-- bytes add up to less than 2^32, returns the number of bytes between `off` and the end
-- of the file, `n` at most. These bytes are those of the file in order, `dst` is kept behind them, and
-- the inode and the blocks do not change.
pub readi-copied :
    (dst : ℕ → ℕ) (off n : ℕ) (ip : Inode) (fs : Fs)
    → Filled fs ip
    → ip.size ≤ max_bytes
    → off ≤ ip.size
    → off + n < 2 ^ 32
    → readi dst off n ip fs
      ≡ done (
        fs,
        ip,
        (λ i. if ltb i (min n (ip.size - off)) then content fs ip (off + i) else dst i),
        min n (ip.size - off),
      )
readi-copied dst off n ip fs filled room le small =
    let m : ℕ = min n (ip.size - off) in
    let bound : off + (m - 0) ≤ ip.size = ground arith in
    readi-run dst off n ip fs le small
    ∙ ap (finish_read m) (
        read_loop-copied (m + 1) 0 off m dst ip fs (omega arith) (omega arith) (omega arith)
          (λ o lo hi. filled o (omega arith) (omega arith)))
    ∙ finish_read-done m fs ip (copied 0 m off (content fs ip) dst)
    ∙ ap (λ (d : ℕ → ℕ). done (fs, ip, d, m)) (fun_ext (λ i. from_zero m i (content fs ip) (dst i)))
  where
    from_zero :
        (m i : ℕ) (f : ℕ → ℕ) (x : ℕ)
        → (if leb 0 i && ltb i m then f (off + (i - 0)) else x)
          ≡ (if ltb i m then f (off + i) else x)
    from_zero m i f x =
        let all : i - 0 ≡ i = omega arith in
        let t : leb 0 i ≡ true = ground arith in rw (all, t) refl
