-- ===== src/Seek/Seeks.antt =====
-- When lseek moves the offset of a file, and to where.
use os_project_mlfqschedulin.Base.{
  ℕ, zero, suc, ◌+◌, ◌%◌, ◌^◌, ◌<◌, ◌≤◌, ◌≡◌, refl, ◌⊎◌, inl, inr, true, false, ◌||◌, not, none,
  some, arith, ltb, Bool-cases, update, slt, sle, minus_one,
}
use os_project_mlfqschedulin.Seek.{
  nofile, File, Files, new_offset, store_offset, seek_file, sys_lseek,
}

-- The new offset of a file by the call's manual: 0 is SEEK_SET, 1 is SEEK_CUR and 2 is SEEK_END.
abbrev pub Asks : ℕ → ℕ → File → ℕ → Type 0
Asks whence offset f n =
    ((whence ≡ 0) × (n ≡ offset))
    ⊎ (((whence ≡ 1) × (n ≡ (f.off + offset) % 2 ^ 32))
        ⊎ ((whence ≡ 2) × (n ≡ (f.size + offset) % 2 ^ 32)))

-- The call is right: the descriptor is open on an inode, and the offset that `whence` asks for is
-- there and not negative.
pub record IsRight (fd offset whence id n : ℕ) (k : Files) : Type 0 where
  pub within : fd < nofile
  pub opened : k.ofile fd ≡ some id
  pub inode : (k.file id).is_inode ≡ true
  pub asked : Asks whence offset (k.file id) n
  pub positive : n < 2 ^ 31

abbrev pub moved_to : ℕ → ℕ → Files → Files
moved_to id n k = record k { file = update k.file id (record (k.file id) { off = n }) }

new_offset-Asks :
    (whence offset n : ℕ) (f : File) → Asks whence offset f n → new_offset whence offset f ≡ some n
unfolding new_offset
new_offset-Asks whence offset n f (inl (w, e)) = rw (w, e) refl
new_offset-Asks whence offset n f (inr (inl (w, e))) = rw (w, e) refl
new_offset-Asks whence offset n f (inr (inr (w, e))) = rw (w, e) refl

new_offset-unknown : (whence offset : ℕ) (f : File) → 2 < whence → new_offset whence offset f ≡ none
unfolding new_offset
new_offset-unknown zero offset f lt = absurd (omega arith)
new_offset-unknown (suc zero) offset f lt = absurd (omega arith)
new_offset-unknown (suc (suc zero)) offset f lt = absurd (omega arith)
new_offset-unknown (suc (suc (suc w))) offset f lt = refl

range_lem : (fd : ℕ) → fd < 2 ^ 32 → (slt fd 0 || sle nofile fd) ≡ not (ltb fd nofile)
range_lem fd small = ground arith

positive_lem : (n : ℕ) → n < 2 ^ 31 → slt n 0 ≡ false
positive_lem n lt = ground arith

negative_lem : (n : ℕ) → 2 ^ 31 ≤ n → n < 2 ^ 32 → slt n 0 ≡ true
negative_lem n lo hi = ground arith

-- A call of lseek on a descriptor from 0 to 15 that is open on an inode, where the new offset is not
-- negative, returns it, and sets the offset of the file to it and nothing else. The new offset is the
-- argument for a `whence` of 0, the file's offset plus the argument for 1, and the file's size plus
-- the argument for 2, as 32-bit sums.
pub sys_lseek-IsRight :
    (fd offset whence id n : ℕ) (k : Files)
    → IsRight fd offset whence id n k
    → sys_lseek fd offset whence k ≡ (moved_to id n k, n)
unfolding sys_lseek seek_file store_offset
sys_lseek-IsRight fd offset whence id n k h =
    let lt = h.within in
    let fits : (slt fd 0 || sle nofile fd) ≡ false = ground arith in
    let asked = new_offset-Asks whence offset n (k.file id) h.asked in
    rw (fits, h.opened, asked, h.inode, positive_lem n h.positive) refl

-- Where a call of SEEK_SET to a non-negative offset on an open inode succeeds, a call of SEEK_CUR
-- by 0 on the same descriptor then returns that offset, and sets the offset of the file to it and
-- nothing else.
sys_lseek-tell :
    (fd n id : ℕ) (k : Files)
    → fd < nofile
    → k.ofile fd ≡ some id
    → (k.file id).is_inode ≡ true
    → n < 2 ^ 31
    → (k' : Files) × (sys_lseek fd n 0 k ≡ (k', n)) × (sys_lseek fd 0 1 k' ≡ (moved_to id n k', n))
sys_lseek-tell fd n id k lt opened inode positive =
    let k' = moved_to id n k in
    (
      k',
      sys_lseek-IsRight fd n 0 id n k (record {
        within = lt;
        opened = opened;
        inode = inode;
        asked = inl (refl, refl);
        positive = positive;
      }),
      sys_lseek-IsRight fd 0 1 id n k' (record {
        within = lt;
        opened = opened;
        inode = ground arith;
        asked = inr (inl (refl, ground arith));
        positive = positive;
      }),
    )

-- A call with a descriptor outside the table, a closed one, a file that is not an inode, a `whence`
-- above 2 or a new offset that is negative returns -1 and changes nothing.
pub sys_lseek-refused :
    (fd offset whence : ℕ) (k : Files)
    → fd < 2 ^ 32
    → (nofile ≤ fd)
      ⊎ ((k.ofile fd ≡ none)
          ⊎ ((id : ℕ) × (k.ofile fd ≡ some id)
              × (((k.file id).is_inode ≡ false)
                  ⊎ ((2 < whence)
                      ⊎ ((n : ℕ) × Asks whence offset (k.file id) n
                          × (2 ^ 31 ≤ n)
                          × (n < 2 ^ 32))))))
    → sys_lseek fd offset whence k ≡ (k, minus_one)
unfolding sys_lseek seek_file store_offset
sys_lseek-refused fd offset whence k small why = elim (Bool-cases (slt fd 0 || sle nofile fd)) [
  | inl e ↦ rw e refl
  | inr e ↦ rw e (by_file (ground (arith, range_lem fd small)) why)
]
  where
    by_file :
        ltb fd nofile ≡ true
        → (nofile ≤ fd)
          ⊎ ((k.ofile fd ≡ none)
              ⊎ ((id : ℕ) × (k.ofile fd ≡ some id)
                  × (((k.file id).is_inode ≡ false)
                      ⊎ ((2 < whence)
                          ⊎ ((n : ℕ) × Asks whence offset (k.file id) n
                              × (2 ^ 31 ≤ n)
                              × (n < 2 ^ 32))))))
        → seek_file (k.ofile fd) offset whence k ≡ (k, minus_one)
    by_file lt (inl lo) = absurd (ground arith)
    by_file lt (inr (inl closed)) = rw closed refl
    by_file lt (inr (inr (id, opened, inl device))) = rw (opened, device) refl
    by_file lt (inr (inr (id, opened, inr (inl unknown)))) =
        elim (Bool-cases (k.file id).is_inode) [
          | inl e ↦ rw (opened, new_offset-unknown whence offset (k.file id) unknown, e) refl
          | inr e ↦ rw (opened, e) refl
        ]
    by_file lt (inr (inr (id, opened, inr (inr (n, asked, lo, hi))))) =
        elim (Bool-cases (k.file id).is_inode) [
          | inl e ↦
              let asks = new_offset-Asks whence offset n (k.file id) asked in
              rw (opened, asks, e, negative_lem n lo hi) refl
          | inr e ↦ rw (opened, e) refl
        ]
