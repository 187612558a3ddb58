-- ===== src/Fs/Trunc.antt =====
-- itrunc of srcs/fs.c, without the iupdate at its end.
pub mod Frees
pub mod Whole
use os_project_mlfqschedulin.Base.{
  ℕ, zero, suc, ◌+◌, ◌≡◌, Bool, true, false, Option, none, some, ◌==◌, if◌then◌else◌, update,
}
use os_project_mlfqschedulin.Fs.{ndirect, nindirect, Fs, Inode, word_at, set_addr, bfree}

-- One round of the first loop.
unfoldable pub free_direct : ℕ → Inode → Fs → Option (Fs × Inode)
free_direct i ip fs =
    if ip.addrs i == 0
    then some (fs, ip)
    else elim (bfree (ip.addrs i) fs) [ none ↦ none | some fs1 ↦ some (fs1, set_addr i 0 ip) ]

-- The first loop from `i` on.
unfoldable pub trunc_direct : ℕ → ℕ → Inode → Fs → Option (Fs × Inode)
trunc_direct zero i ip fs = some (fs, ip)
trunc_direct (suc n) i ip fs = elim (free_direct i ip fs) [
  | none ↦ none
  | some r ↦ trunc_direct n (i + 1) r.1 r.0
]

-- One round of the second loop, over the words of the indirect block `addr`.
unfoldable pub free_entry : ℕ → ℕ → Fs → Option Fs
unfolding word_at
free_entry addr j fs =
    if word_at (fs.blk addr) j == 0 then some fs else bfree (word_at (fs.blk addr) j) fs

-- The second loop from `j` on.
unfoldable pub trunc_entries : ℕ → ℕ → ℕ → Fs → Option Fs
trunc_entries zero j addr fs = some fs
trunc_entries (suc n) j addr fs = elim (free_entry addr j fs) [
  | none ↦ none
  | some fs1 ↦ trunc_entries n (j + 1) addr fs1
]

-- itrunc behind the direct blocks.
unfoldable pub trunc_indirect : Inode → Fs → Option (Fs × Inode)
trunc_indirect ip fs =
    if ip.addrs ndirect == 0
    then some (fs, ip)
    else elim (trunc_entries nindirect 0 (ip.addrs ndirect) fs) [
      | none ↦ none
      | some fs1 ↦ elim (bfree (ip.addrs ndirect) fs1) [
        | none ↦ none
        | some fs2 ↦ some (fs2, set_addr ndirect 0 ip)
      ]
    ]

unfoldable pub itrunc : Inode → Fs → Option (Fs × Inode)
itrunc ip fs = elim (trunc_direct ndirect 0 ip fs) [
  | none ↦ none
  | some r ↦ elim (trunc_indirect r.1 r.0) [
    | none ↦ none
    | some q ↦ some (q.0, record (q.1) { size = 0 })
  ]
]
