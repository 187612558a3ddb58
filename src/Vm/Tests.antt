-- ===== src/Vm/Tests.antt =====
-- Two pages are mapped behind an empty directory; the allocator has two pages.
use os_project_mlfqschedulin.Base.{ℕ, List, [], ◌∷◌, ◌==◌, if◌then◌else◌}
use os_project_mlfqschedulin.Page.{Kmem}
use os_project_mlfqschedulin.Vm.Tables.{Tables}

abbrev kernel_end : ℕ
kernel_end = 0x8010_0000

abbrev directory : ℕ
directory = 0x8020_0000

abbrev two_free : Kmem
two_free = record {
  word_at = λ a. if a == 0x8030_0000 then 0x8030_1000 else 0;
  freelist = 0x8030_0000;
}

abbrev free_pages : List ℕ
free_pages = 0x8030_0000 ∷ 0x8030_1000 ∷ []
