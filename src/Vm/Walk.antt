-- ===== src/Vm/Walk.antt =====
-- walkpgdir of srcs/vm.c.
use os_project_mlfqschedulin.Base.{
  ℕ, ◌+◌, ◌*◌, ◌/◌, ◌%◌, ◌^◌, ◌<◌, ◌≡◌, refl, sym, ap, subst, ◌∙◌, inl, inr, Bool, true, false,
  List, [], ◌∷◌, arith, ◌==◌, Bool-cases, update,
}
use os_project_mlfqschedulin.Page.{Kmem, kalloc}
use os_project_mlfqschedulin.Page.Free.{IsPage, Allocates, exhausted, allocated, kalloc-Allocates}
use os_project_mlfqschedulin.Vm.{pdx, ptx, is_present, zeros, pde_word, new_table, walkpgdir}
use os_project_mlfqschedulin.Vm.Tables.{dir_entry, table, entry, Tables}
use os_project_mlfqschedulin.Vm.NewTable.{
  add_table, add_table-new, add_table-Tables, add_table-entry,
}

walkpgdir-there :
    (pgdir va : ℕ) (alloc : Bool) (k : Kmem)
    → is_present (dir_entry pgdir k (pdx va)) ≡ true
    → walkpgdir pgdir va alloc k ≡ (k, table pgdir k (pdx va) + 4 * ptx va)
walkpgdir-there pgdir va alloc k e = unfold walkpgdir in rw e refl

walkpgdir-new :
    (pgdir va : ℕ) (k : Kmem)
    → is_present (dir_entry pgdir k (pdx va)) ≡ false
    → walkpgdir pgdir va true k ≡ new_table (pgdir + 4 * pdx va) va (kalloc k)
walkpgdir-new pgdir va k e = unfold walkpgdir in rw e refl

pub walkpgdir-none :
    (pgdir va : ℕ) (k : Kmem)
    → is_present (dir_entry pgdir k (pdx va)) ≡ false
    → walkpgdir pgdir va false k ≡ (k, 0)
walkpgdir-none pgdir va k e = unfold walkpgdir in rw e refl

new_table-none : (pde va : ℕ) (k : Kmem) → new_table pde va (k, 0) ≡ (k, 0)
new_table-none pde va k = unfold new_table in refl

new_table-some :
    (pde va x : ℕ) (k : Kmem)
    → (x == 0) ≡ false
    → new_table pde va (k, x)
      ≡ (record k { word_at = update (zeros x k.word_at) pde (pde_word x) }, x + 4 * ptx va)
new_table-some pde va x k e = unfold new_table in rw e refl

kalloc-word_at : (k : Kmem) → (kalloc k).0.word_at ≡ k.word_at
kalloc-word_at k =
    unfold kalloc in (elim (Bool-cases (k.freelist == 0)) [ inl e ↦ rw e refl | inr e ↦ rw e refl ])

-- What a call of walkpgdir that may allocate does for the virtual page `q`.
pub data Walked (end pgdir q : ℕ) (pages : List ℕ) (k : Kmem) (r : Kmem × ℕ) : Type 0 where
  exhausts : r ≡ (k, 0) → pages ≡ [] → Walked end pgdir q pages k r
  walks :
      (k' : Kmem) (pages' : List ℕ)
      → r ≡ (k', table pgdir k' (q / 1024) + 4 * (q % 1024))
      → Tables end pgdir pages' k'
      → is_present (dir_entry pgdir k' (q / 1024)) ≡ true
      → ((t : ℕ) → t < 2 ^ 20 → entry pgdir k' t ≡ entry pgdir k t)
      → Walked end pgdir q pages k r

page-some : (end x : ℕ) → IsPage end x → (x == 0) ≡ false
page-some end x p = ground arith

pub walkpgdir-Walked :
    (end pgdir va : ℕ) (pages : List ℕ) (k : Kmem)
    → Tables end pgdir pages k
    → va < 2 ^ 32
    → Walked end pgdir (va / 4096) pages k (walkpgdir pgdir va true k)
walkpgdir-Walked end pgdir va pages k h lt =
    let at : pdx va ≡ va / 4096 / 1024 = omega arith in
    let slot : ptx va ≡ va / 4096 % 1024 = omega arith in
    elim (Bool-cases (is_present (dir_entry pgdir k (pdx va)))) [
      | inl e ↦
          walks k pages
            (walkpgdir-there pgdir va true k e
              ∙ ap (λ (y : ℕ). (k, table pgdir k y + 4 * ptx va)) at
              ∙ ap (λ (y : ℕ). (k, table pgdir k (va / 4096 / 1024) + 4 * y)) slot)
            h (subst (λ (y : ℕ). is_present (dir_entry pgdir k y) ≡ true) at e) (λ t l. refl)
      | inr e ↦
          let absent : is_present (dir_entry pgdir k (va / 4096 / 1024)) ≡ false =
            subst (λ (y : ℕ). is_present (dir_entry pgdir k y) ≡ false) at e in
          let run : walkpgdir pgdir va true k
              ≡ new_table (pgdir + 4 * (va / 4096 / 1024)) va (kalloc k) =
            walkpgdir-new pgdir va k e
            ∙ ap (λ (y : ℕ). new_table (pgdir + 4 * y) va (kalloc k)) at in
          by_page pages h (omega arith) absent slot run (kalloc-Allocates end k pages h.free)
    ]
  where
    by_page :
        (pages : List ℕ)
        → Tables end pgdir pages k
        → va / 4096 / 1024 < 1024
        → is_present (dir_entry pgdir k (va / 4096 / 1024)) ≡ false
        → ptx va ≡ va / 4096 % 1024
        → walkpgdir pgdir va true k ≡ new_table (pgdir + 4 * (va / 4096 / 1024)) va (kalloc k)
        → Allocates end k (kalloc k) pages
        → Walked end pgdir (va / 4096) pages k (walkpgdir pgdir va true k)
    by_page [] h li absent slot run (exhausted e) =
        exhausts
          (run
            ∙ ap (new_table (pgdir + 4 * (va / 4096 / 1024)) va) e
            ∙ new_table-none (pgdir + 4 * (va / 4096 / 1024)) va k)
          refl
    by_page (x ∷ xs) h li absent slot run (allocated _ _ k1 e page f new) =
        let i : ℕ = va / 4096 / 1024 in
        let words : k1.word_at ≡ k.word_at =
          sym (ap (λ (r : Kmem × ℕ). r.0.word_at) e) ∙ kalloc-word_at k in
        let (p, here) =
          add_table-new end pgdir x i xs k k1 h li absent page f new words i li (ground arith) in
        let k2 : Kmem = add_table end pgdir x i xs k k1 h li absent page f new words in
        walks k2 xs
          (run
            ∙ ap (new_table (pgdir + 4 * i) va) e
            ∙ new_table-some (pgdir + 4 * i) va x k1 (page-some end x page)
            ∙ ap (λ (y : ℕ). (k2, y + 4 * ptx va)) (sym here)
            ∙ ap (λ (y : ℕ). (k2, table pgdir k2 i + 4 * y)) slot)
          (add_table-Tables end pgdir x i xs k k1 h li absent page f new words) p
          (add_table-entry end pgdir x i xs k k1 h li absent page f new words)
