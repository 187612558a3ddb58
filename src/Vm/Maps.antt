-- ===== src/Vm/Maps.antt =====
-- mappages of srcs/vm.c against the pages that a directory maps.
use os_project_mlfqschedulin.Base.{
  ℕ, ◌+◌, ◌*◌, ◌/◌, ◌%◌, ◌^◌, ◌<◌, ◌≡◌, true, false, List, ◌==◌, if◌then◌else◌, update,
}
use os_project_mlfqschedulin.Page.{pgsize, Kmem}
use os_project_mlfqschedulin.Vm.{is_present, walkpgdir, pte_word}
use os_project_mlfqschedulin.Vm.Tables.{entry, Tables}

-- A round that writes the entry of the page `q`.
record WritesEntry (end pgdir q pa perm : ℕ) (k : Kmem) : Type 0 where
  k1 : Kmem
  at : ℕ
  pages' : List ℕ
  run : walkpgdir pgdir (q * pgsize) true k ≡ (k1, at)
  some_at : (at == 0) ≡ false
  unmapped : is_present (k1.word_at at) ≡ false
  tables : Tables end pgdir pages' (record k1 { word_at = update k1.word_at at (pte_word pa perm) })
  same : (t : ℕ) → t < 2 ^ 20 → entry pgdir k1 t ≡ entry pgdir k t
  written :
      (t : ℕ)
      → t < 2 ^ 20
      → entry pgdir (record k1 { word_at = update k1.word_at at (pte_word pa perm) }) t
        ≡ (if q == t then pte_word pa perm else entry pgdir k1 t)
  gone : is_present (entry pgdir k1 q) ≡ false

-- The virtual pages that `size` bytes from `va` on reach into.
abbrev pub pages_of : ℕ → ℕ → ℕ
pages_of va size = (va % pgsize + size + 4095) / pgsize
