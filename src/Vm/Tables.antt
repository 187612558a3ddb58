-- ===== src/Vm/Tables.antt =====
-- What a page directory of srcs/vm.c maps, and that its tables do not overlap.
use os_project_mlfqschedulin.Base.{
  ℕ, ◌+◌, ◌*◌, ◌/◌, ◌%◌, ◌^◌, ◌<◌, ◌≡◌, refl, sym, ap, subst, ◌∙◌, ◌⊎◌, inl, inr, Bool, true, false,
  ◌||◌, List, [], ◌∷◌, arith, ◌==◌, if◌then◌else◌, Bool-cases, update, has, All,
}
use os_project_mlfqschedulin.Page.{Kmem}
use os_project_mlfqschedulin.Page.Free.{Chain, IsPage, Free}
use os_project_mlfqschedulin.Vm.{pte_addr, p2v, is_present}

-- The directory entry `i`, and the table that it leads to.
abbrev pub dir_entry : ℕ → Kmem → ℕ → ℕ
dir_entry pgdir k i = k.word_at (pgdir + 4 * i)

abbrev pub table : ℕ → Kmem → ℕ → ℕ
table pgdir k i = p2v (pte_addr (dir_entry pgdir k i))

-- The table entry of the virtual page `q`, or 0 where there is no table for it.
abbrev pub entry : ℕ → Kmem → ℕ → ℕ
entry pgdir k q =
    if is_present (dir_entry pgdir k (q / 1024))
    then k.word_at (table pgdir k (q / 1024) + 4 * (q % 1024))
    else 0

-- The directory, its tables and the free pages are pages, and all different.
pub record Tables (end pgdir : ℕ) (pages : List ℕ) (k : Kmem) : Type 0 where
  pub free : Free end k pages
  pub small : All (λ (x : ℕ). x < 2 ^ 32) pages
  pub dir : IsPage end pgdir
  pub dir_used : has pgdir pages ≡ false
  pub tab :
      (i : ℕ)
      → i < 1024
      → is_present (dir_entry pgdir k i) ≡ true
      → (IsPage end (table pgdir k i))
        × (has (table pgdir k i) pages ≡ false)
        × ((table pgdir k i == pgdir) ≡ false)
  pub once :
      (i j : ℕ)
      → i < 1024
      → j < 1024
      → (i == j) ≡ false
      → is_present (dir_entry pgdir k i) ≡ true
      → is_present (dir_entry pgdir k j) ≡ true
      → (table pgdir k i == table pgdir k j) ≡ false

pub Chain-ext :
    (m m' : ℕ → ℕ) (p : ℕ) (xs : List ℕ)
    → ((x : ℕ) → has x xs ≡ true → m' x ≡ m x)
    → Chain m p xs
    → Chain m' p xs
Chain-ext m m' p [] h c = c
Chain-ext m m' p (x ∷ xs) h c =
    let same : m' x ≡ m x = h x (here x (has x xs)) in
    (c.0, rw same (Chain-ext m m' (m x) xs (λ y b. h y (later x y (has y xs) b)) c.1))
  where
    here : (x : ℕ) (b : Bool) → (x == x || b) ≡ true
    here x b = ground arith

    later : (x y : ℕ) (b : Bool) → b ≡ true → (x == y || b) ≡ true
    later x y b e = ground arith

-- A word of one page is no word of another.
pub words-apart :
    (end x y i j : ℕ)
    → IsPage end x
    → IsPage end y
    → (x == y) ≡ false
    → i < 1024
    → j < 1024
    → (x + 4 * i == y + 4 * j) ≡ false
words-apart end x y i j px py ne li lj = ground arith

pub has-IsPage : (end x : ℕ) (xs : List ℕ) → All (IsPage end) xs → has x xs ≡ true → IsPage end x
has-IsPage end x [] a h = absurd (ground arith)
has-IsPage end x (y ∷ ys) a h = elim (Bool-cases (y == x)) [
  | inl e ↦ let same : y ≡ x = ground arith in subst (IsPage end) same a.0
  | inr e ↦ has-IsPage end x ys a.1 (ground arith)
]

pub has-apart : (x y : ℕ) (xs : List ℕ) → has x xs ≡ false → has y xs ≡ true → (x == y) ≡ false
has-apart x y xs h h' = elim (Bool-cases (x == y)) [
  | inl e ↦
      let same : x ≡ y = ground arith in
      let bad = ap (λ (z : ℕ). has z xs) same in absurd (ground arith)
  | inr e ↦ e
]

-- A word of a page `x` that is not free.
pub word-not_free :
    (end x i y : ℕ) (xs : List ℕ)
    → IsPage end x
    → has x xs ≡ false
    → i < 1024
    → All (IsPage end) xs
    → has y xs ≡ true
    → (x + 4 * i == y) ≡ false
word-not_free end x i y xs p h li a h' =
    let zero_word : y + 4 * 0 ≡ y = omega arith in
    sym (ap (λ (z : ℕ). x + 4 * i == z) zero_word)
    ∙ words-apart end x y i 0 p (has-IsPage end y xs a h') (has-apart x y xs h h') li (omega arith)

-- A write of a table entry.
module _ (end pgdir : ℕ) (pages : List ℕ) (k : Kmem) (h : Tables end pgdir pages k) (i j v : ℕ)
    (li : i < 1024) (lj : j < 1024) (here : is_present (dir_entry pgdir k i) ≡ true) where
  abbrev pub set_entry : Kmem
  set_entry = record k { word_at = update k.word_at (table pgdir k i + 4 * j) v }

  set_entry-dir : (t : ℕ) → t < 1024 → dir_entry pgdir set_entry t ≡ dir_entry pgdir k t
  set_entry-dir t lt =
      let (p, f, ne) = h.tab i li here in
      rw (words-apart end (table pgdir k i) pgdir j t p h.dir ne lj lt) refl

  set_entry-table : (t : ℕ) → t < 1024 → table pgdir set_entry t ≡ table pgdir k t
  set_entry-table t lt = ap (λ (e : ℕ). p2v (pte_addr e)) (set_entry-dir t lt)

  set_entry-present :
      (t : ℕ)
      → t < 1024
      → is_present (dir_entry pgdir set_entry t) ≡ is_present (dir_entry pgdir k t)
  set_entry-present t lt = ap (λ (e : ℕ). is_present e) (set_entry-dir t lt)

  pub set_entry-Tables : Tables end pgdir pages set_entry
  set_entry-Tables = record {
    free = record {
      chain =
          let (p, f, ne) = h.tab i li here in
          Chain-ext k.word_at set_entry.word_at k.freelist pages
            (λ x b. rw (word-not_free end (table pgdir k i) j x pages p f lj h.free.pages b) refl)
            h.free.chain;
      distinct = h.free.distinct;
      pages = h.free.pages;
    };
    small = h.small;
    dir = h.dir;
    dir_used = h.dir_used;
    tab = λ t lt b.
        subst (λ (x : ℕ). (IsPage end x) × (has x pages ≡ false) × ((x == pgdir) ≡ false))
          (sym (set_entry-table t lt)) (h.tab t lt (sym (set_entry-present t lt) ∙ b));
    once = λ t u lt lu ne b c.
        ap (λ (x : ℕ). x == table pgdir set_entry u) (set_entry-table t lt)
        ∙ ap (λ (x : ℕ). table pgdir k t == x) (set_entry-table u lu)
        ∙ h.once t u lt lu ne (sym (set_entry-present t lt) ∙ b) (sym (set_entry-present u lu) ∙ c);
  }

  pub set_entry-entry :
      (q : ℕ)
      → q < 2 ^ 20
      → entry pgdir set_entry q ≡ (if i * 1024 + j == q then v else entry pgdir k q)
  set_entry-entry q lt =
      let lt' : q / 1024 < 1024 = omega arith in
      ap
        (λ (b : Bool).
          if b then set_entry.word_at (table pgdir set_entry (q / 1024) + 4 * (q % 1024)) else 0)
        (set_entry-present (q / 1024) lt')
      ∙ ap
          (λ (x : ℕ).
            if is_present (dir_entry pgdir k (q / 1024))
            then set_entry.word_at (x + 4 * (q % 1024))
            else 0)
          (set_entry-table (q / 1024) lt')
      ∙ by_table (Bool-cases (i == q / 1024))
    where
      by_table :
          ((i == q / 1024) ≡ true) ⊎ ((i == q / 1024) ≡ false)
          → (if is_present (dir_entry pgdir k (q / 1024))
              then set_entry.word_at (table pgdir k (q / 1024) + 4 * (q % 1024))
              else 0)
            ≡ (if i * 1024 + j == q then v else entry pgdir k q)
      by_table (inl e) =
          let same : q / 1024 ≡ i = ground arith in
          let now : is_present (dir_entry pgdir k (q / 1024)) ≡ true =
            ap (λ (t : ℕ). is_present (dir_entry pgdir k t)) same ∙ here in
          let there : table pgdir k (q / 1024) ≡ table pgdir k i = ap (table pgdir k) same in
          let slot : (table pgdir k i + 4 * j == table pgdir k i + 4 * (q % 1024))
              ≡ (i * 1024 + j == q) =
            same_word (table pgdir k i) same in
          rw (now, there, slot) refl
        where
          same_word :
              (a : ℕ) → q / 1024 ≡ i → (a + 4 * j == a + 4 * (q % 1024)) ≡ (i * 1024 + j == q)
          same_word a s = ground arith
      by_table (inr e) =
          let other : (i * 1024 + j == q) ≡ false = ground arith in
          elim (Bool-cases (is_present (dir_entry pgdir k (q / 1024)))) [
            | inr b ↦ rw (b, other) refl
            | inl b ↦
                let lt' : q / 1024 < 1024 = omega arith in
                let apart : (table pgdir k i + 4 * j == table pgdir k (q / 1024) + 4 * (q % 1024))
                    ≡ false =
                  words-apart end (table pgdir k i) (table pgdir k (q / 1024)) j (q % 1024)
                    (h.tab i li here).0 (h.tab (q / 1024) lt' b).0
                    (h.once i (q / 1024) li lt' e here b) lj (omega arith) in
                rw (b, other, apart) refl
          ]
