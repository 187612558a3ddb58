-- ===== src/Page.antt =====
-- The allocator of physical pages, srcs/kalloc.c. The free pages form a list through their first
-- words. Memory is a function from addresses to 32-bit words; `end`, the first address behind the
-- kernel, comes from the linker and is an argument.
pub mod Free
mod Tests
use os_project_mlfqschedulin.Base.{
  ℕ, ◌+◌, ◌-◌, ◌%◌, ◌^◌, Bool, true, false, ◌||◌, ◌&&◌, not, Option, none, some, ltb, leb, ◌==◌,
  if◌then◌else◌, update,
}

abbrev pub pgsize : ℕ
pgsize = 4096

-- `KERNBASE` and `PHYSTOP` of srcs/memlayout.h.
abbrev pub kernbase : ℕ
kernbase = 0x8000_0000

abbrev pub phystop : ℕ
phystop = 0xe00_0000

-- A null `freelist` is 0; the lock is left out.
pub record Kmem : Type 0 where
  pub word_at : ℕ → ℕ
  pub freelist : ℕ

-- The test for an address that is not a page that can be freed.
abbrev pub is_bad : ℕ → ℕ → Bool
is_bad end v = not (v % pgsize == 0) || ltb v end || leb phystop ((v + 2 ^ 32 - kernbase) % 2 ^ 32)

-- `memset(v, 1, PGSIZE)`, seen by words.
abbrev pub junk : ℕ → (ℕ → ℕ) → ℕ → ℕ
junk v m a = if leb v a && ltb a (v + pgsize) then 0x101_0101 else m a

-- `none` is panic("kfree").
unfoldable pub kfree : ℕ → ℕ → Kmem → Option Kmem
kfree end v k =
    if is_bad end v
    then none
    else some (record { word_at = update (junk v k.word_at) v k.freelist; freelist = v })

-- The page, or 0.
unfoldable pub kalloc : Kmem → Kmem × ℕ
kalloc k =
    if k.freelist == 0 then (k, 0) else (record k { freelist = k.word_at k.freelist }, k.freelist)
