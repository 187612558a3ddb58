-- ===== src/Vm/NewTable.antt =====
-- A new page table in a page directory, for walkpgdir of srcs/vm.c.
use os_project_mlfqschedulin.Base.{
  ℕ, ◌+◌, ◌*◌, ◌/◌, ◌%◌, ◌^◌, ◌<◌, ◌≡◌, refl, sym, ap, subst, ◌∙◌, ◌⊎◌, inl, inr, Bool, true, false,
  ◌&&◌, List, ◌∷◌, arith, ltb, leb, ◌==◌, if◌then◌else◌, Bool-cases, update, has,
}
use os_project_mlfqschedulin.Page.{pgsize, Kmem}
use os_project_mlfqschedulin.Page.Free.{IsPage, Free}
use os_project_mlfqschedulin.Vm.{pte_addr, p2v, is_present, zeros, pde_word}
use os_project_mlfqschedulin.Vm.Bits.{pde_word-table}
use os_project_mlfqschedulin.Vm.Tables.{
  dir_entry, table, entry, Tables, Chain-ext, words-apart, has-IsPage, has-apart, word-not_free,
}

-- The directory `pgdir` gets the page `x` for the table `i`.
module _ (end pgdir x i : ℕ) (xs : List ℕ) (k k1 : Kmem) (h : Tables end pgdir (x ∷ xs) k)
    (li : i < 1024) (gone : is_present (dir_entry pgdir k i) ≡ false) (page : IsPage end x)
    (f : Free end k1 xs) (new : has x xs ≡ false) (words : k1.word_at ≡ k.word_at) where
  abbrev pub add_table : Kmem
  add_table = record k1 { word_at = update (zeros x k1.word_at) (pgdir + 4 * i) (pde_word x) }

  not_dir : (x == pgdir) ≡ false
  not_dir = let u = h.dir_used in ground arith

  not_dir' : (pgdir == x) ≡ false
  not_dir' = let u = not_dir in ground arith

  others_used : (y : ℕ) → has y (x ∷ xs) ≡ false → has y xs ≡ false
  others_used y u = ground arith

  small_x : x < 2 ^ 32
  small_x = h.small.0

  outside :
      (y t : ℕ)
      → IsPage end y
      → (x == y) ≡ false
      → t < 1024
      → zeros x k1.word_at (y + 4 * t) ≡ k.word_at (y + 4 * t)
  outside y t p ne lt = out y t p ne lt ∙ ap (λ (m : ℕ → ℕ). m (y + 4 * t)) words
    where
      out :
          (y t : ℕ)
          → IsPage end y
          → (x == y) ≡ false
          → t < 1024
          → zeros x k1.word_at (y + 4 * t) ≡ k1.word_at (y + 4 * t)
      out y t p ne lt =
          let no : (leb x (y + 4 * t) && ltb (y + 4 * t) (x + pgsize)) ≡ false = ground arith in
          rw no refl

  kept :
      (y t : ℕ)
      → IsPage end y
      → (x == y) ≡ false
      → (pgdir == y) ≡ false
      → t < 1024
      → add_table.word_at (y + 4 * t) ≡ k.word_at (y + 4 * t)
  kept y t p ne ne' lt = rw (words-apart end pgdir y i t h.dir p ne' li lt) (outside y t p ne lt)

  add_table-dir :
      (t : ℕ)
      → t < 1024
      → dir_entry pgdir add_table t ≡ (if i == t then pde_word x else dir_entry pgdir k t)
  add_table-dir t lt =
      let slot : (pgdir + 4 * i == pgdir + 4 * t) ≡ (i == t) = same_word pgdir t in
      rw slot (ap (λ (w : ℕ). if i == t then pde_word x else w) (outside pgdir t h.dir not_dir lt))
    where
      same_word : (a t : ℕ) → (a + 4 * i == a + 4 * t) ≡ (i == t)
      same_word a t = ground arith

  pub add_table-new :
      (t : ℕ)
      → t < 1024
      → (i == t) ≡ true
      → (is_present (dir_entry pgdir add_table t) ≡ true) × (table pgdir add_table t ≡ x)
  add_table-new t lt e =
      let at : dir_entry pgdir add_table t ≡ pde_word x = add_table-dir t lt ∙ rw e refl in
      let (b, c) = pde_word-table end x page small_x in
      (ap (λ (w : ℕ). is_present w) at ∙ b, ap (λ (w : ℕ). p2v (pte_addr w)) at ∙ c)

  add_table-old :
      (t : ℕ)
      → t < 1024
      → (i == t) ≡ false
      → (is_present (dir_entry pgdir add_table t) ≡ is_present (dir_entry pgdir k t))
        × (table pgdir add_table t ≡ table pgdir k t)
  add_table-old t lt e =
      let at : dir_entry pgdir add_table t ≡ dir_entry pgdir k t = add_table-dir t lt ∙ rw e refl in
      (ap (λ (w : ℕ). is_present w) at, ap (λ (w : ℕ). p2v (pte_addr w)) at)

  -- The page of an old table is not the new one.
  old_apart :
      (t : ℕ)
      → t < 1024
      → is_present (dir_entry pgdir k t) ≡ true
      → ((x == table pgdir k t) ≡ false) × ((table pgdir k t == x) ≡ false)
  old_apart t lt b = apart (table pgdir k t) (h.tab t lt b).1
    where
      apart : (y : ℕ) → has y (x ∷ xs) ≡ false → ((x == y) ≡ false) × ((y == x) ≡ false)
      apart y u = (ground arith, ground arith)

  pub add_table-Tables : Tables end pgdir xs add_table
  add_table-Tables = record {
    free = record {
      chain =
          Chain-ext k1.word_at add_table.word_at k1.freelist xs
            (λ y b.
              rw (word-not_free end pgdir i y xs h.dir (others_used pgdir h.dir_used) li f.pages b)
                (in_list y (has-IsPage end y xs f.pages b) (has-apart x y xs new b)))
            f.chain;
      distinct = f.distinct;
      pages = f.pages;
    };
    small = h.small.1;
    dir = h.dir;
    dir_used = others_used pgdir h.dir_used;
    tab = λ t lt b. tab_of t lt b (Bool-cases (i == t));
    once = λ t u lt lu ne b c. once_of t u lt lu ne b c (Bool-cases (i == t)) (Bool-cases (i == u));
  }
    where
      in_list : (y : ℕ) → IsPage end y → (x == y) ≡ false → zeros x k1.word_at y ≡ k1.word_at y
      in_list y p ne = let no : (leb x y && ltb y (x + pgsize)) ≡ false = ground arith in rw no refl

      tab_of :
          (t : ℕ)
          → t < 1024
          → is_present (dir_entry pgdir add_table t) ≡ true
          → ((i == t) ≡ true) ⊎ ((i == t) ≡ false)
          → (IsPage end (table pgdir add_table t))
            × (has (table pgdir add_table t) xs ≡ false)
            × ((table pgdir add_table t == pgdir) ≡ false)
      tab_of t lt b (inl e) =
          subst (λ (y : ℕ). (IsPage end y) × (has y xs ≡ false) × ((y == pgdir) ≡ false))
            (sym (add_table-new t lt e).1) (page, new, not_dir)
      tab_of t lt b (inr e) =
          let (p, same) = add_table-old t lt e in
          let (q, u, ne) = h.tab t lt (sym p ∙ b) in
          subst (λ (y : ℕ). (IsPage end y) × (has y xs ≡ false) × ((y == pgdir) ≡ false)) (sym same)
            (q, others_used (table pgdir k t) u, ne)

      once_of :
          (t u : ℕ)
          → t < 1024
          → u < 1024
          → (t == u) ≡ false
          → is_present (dir_entry pgdir add_table t) ≡ true
          → is_present (dir_entry pgdir add_table u) ≡ true
          → ((i == t) ≡ true) ⊎ ((i == t) ≡ false)
          → ((i == u) ≡ true) ⊎ ((i == u) ≡ false)
          → (table pgdir add_table t == table pgdir add_table u) ≡ false
      once_of t u lt lu ne b c (inl e) (inl e') = absurd (ground arith)
      once_of t u lt lu ne b c (inl e) (inr e') =
          let (p, same) = add_table-old u lu e' in
          rw ((add_table-new t lt e).1, same) (old_apart u lu (sym p ∙ c)).0
      once_of t u lt lu ne b c (inr e) (inl e') =
          let (p, same) = add_table-old t lt e in
          rw ((add_table-new u lu e').1, same) (old_apart t lt (sym p ∙ b)).1
      once_of t u lt lu ne b c (inr e) (inr e') =
          let (p, same) = add_table-old t lt e in
          let (p', same') = add_table-old u lu e' in
          rw (same, same') (h.once t u lt lu ne (sym p ∙ b) (sym p' ∙ c))

  -- The new table is empty, so it maps no page.
  pub add_table-entry : (q : ℕ) → q < 2 ^ 20 → entry pgdir add_table q ≡ entry pgdir k q
  add_table-entry q lt = by_table (Bool-cases (i == q / 1024))
    where
      cleared : (a j : ℕ) → a ≡ x → j < 1024 → add_table.word_at (a + 4 * j) ≡ 0
      cleared a j e lj =
          let there : (pgdir + 4 * i == x + 4 * j) ≡ false =
            words-apart end pgdir x i j h.dir page not_dir' li lj in
          let within : (leb x (x + 4 * j) && ltb (x + 4 * j) (x + pgsize)) ≡ true =
            in_page x j lj in
          rw (e, there, within) refl
        where
          in_page :
              (x j : ℕ) → j < 1024 → (leb x (x + 4 * j) && ltb (x + 4 * j) (x + pgsize)) ≡ true
          in_page x j lj = ground arith

      by_table :
          ((i == q / 1024) ≡ true) ⊎ ((i == q / 1024) ≡ false)
          → entry pgdir add_table q ≡ entry pgdir k q
      by_table (inl e) =
          let same : i ≡ q / 1024 = ground arith in
          let none_there : is_present (dir_entry pgdir k (q / 1024)) ≡ false =
            subst (λ (t : ℕ). is_present (dir_entry pgdir k t) ≡ false) same gone in
          let (p, at) = add_table-new (q / 1024) (omega arith) e in
          ap
            (λ (b : Bool).
              if b
              then add_table.word_at (table pgdir add_table (q / 1024) + 4 * (q % 1024))
              else 0)
            p
          ∙ cleared (table pgdir add_table (q / 1024)) (q % 1024) at (omega arith)
          ∙ sym (
              ap
                (λ (b : Bool).
                  if b then k.word_at (table pgdir k (q / 1024) + 4 * (q % 1024)) else 0)
                none_there)
      by_table (inr e) =
          let (p, at) = add_table-old (q / 1024) (omega arith) e in
          ap
            (λ (b : Bool).
              if b
              then add_table.word_at (table pgdir add_table (q / 1024) + 4 * (q % 1024))
              else 0)
            p
          ∙ ap
              (λ (y : ℕ).
                if is_present (dir_entry pgdir k (q / 1024))
                then add_table.word_at (y + 4 * (q % 1024))
                else 0)
              at
          ∙ old_word (Bool-cases (is_present (dir_entry pgdir k (q / 1024))))
        where
          old_word :
              (is_present (dir_entry pgdir k (q / 1024)) ≡ true)
                ⊎ (is_present (dir_entry pgdir k (q / 1024)) ≡ false)
              → (if is_present (dir_entry pgdir k (q / 1024))
                  then add_table.word_at (table pgdir k (q / 1024) + 4 * (q % 1024))
                  else 0)
                ≡ entry pgdir k q
          old_word (inr b) = rw b refl
          old_word (inl b) =
              let (pg, u, ne) = h.tab (q / 1024) (omega arith) b in
              rw b (
                kept (table pgdir k (q / 1024)) (q % 1024) pg
                  (old_apart (q / 1024) (omega arith) b).0
                  (flip (table pgdir k (q / 1024)) pgdir ne) (omega arith))
            where
              flip : (a b : ℕ) → (a == b) ≡ false → (b == a) ≡ false
              flip a b e = ground arith
