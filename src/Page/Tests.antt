-- ===== src/Page/Tests.antt =====
-- A page is freed and allocated.
use os_project_mlfqschedulin.Base.{ℕ, ◌≡◌, arith, refl, ◌⊎◌, true, false, none, some, [], ◌∷◌}
use os_project_mlfqschedulin.Page.{Kmem, kfree, kalloc}
use os_project_mlfqschedulin.Page.Free.{is_frame, Free, Allocates, kfree-Free, kalloc-Allocates}

abbrev kernel_end : ℕ
kernel_end = 0x8010_0000

abbrev page : ℕ
page = 0x8020_0000

no_pages : Kmem
no_pages = record { word_at = λ a. 0; freelist = 0 }

no_pages-Free : Free kernel_end no_pages []
unfolding no_pages
no_pages-Free = record { chain = refl; distinct = tt; pages = tt }

one_page : Kmem
one_page = record { word_at = λ a. 0; freelist = page }

kfree-Free_example :
    ((is_frame kernel_end page ≡ false) × (kfree kernel_end page no_pages ≡ none))
    ⊎ ((is_frame kernel_end page ≡ true)
        × (k' : Kmem) × (kfree kernel_end page no_pages ≡ some k')
        × Free kernel_end k' (page ∷ []))
kfree-Free_example = kfree-Free kernel_end page no_pages [] no_pages-Free refl (omega arith)

one_page-Free : Free kernel_end one_page (page ∷ [])
unfolding one_page
one_page-Free = record { chain = (refl, refl); distinct = (refl, tt); pages = (refl, tt) }

kalloc-Allocates_example : Allocates kernel_end one_page (kalloc one_page) (page ∷ [])
kalloc-Allocates_example = kalloc-Allocates kernel_end one_page (page ∷ []) one_page-Free
