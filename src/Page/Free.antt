-- ===== src/Page/Free.antt =====
-- The free list of srcs/kalloc.c against the list of pages that it holds.
use os_project_mlfqschedulin.Base.{
  ℕ, ◌%◌, ◌^◌, ◌<◌, ◌≡◌, refl, sym, ap, subst, ◌∙◌, ◌⊎◌, inl, inr, Bool, true, false, not, ◌&&◌,
  none, some, List, [], ◌∷◌, arith, ltb, leb, ◌==◌, Bool-cases, update, has, Distinct, All,
}
use os_project_mlfqschedulin.Page.{pgsize, Kmem, is_bad, junk, kfree, kalloc}

-- From `p` the first words lead through `xs`.
abbrev pub Chain : (ℕ → ℕ) → ℕ → List ℕ → Type 0
Chain m p [] = p ≡ 0
Chain m p (x ∷ xs) = (p ≡ x) × Chain m (m x) xs

-- An address that kfree takes.
abbrev pub IsPage : ℕ → ℕ → Type 0
IsPage end v = is_bad end v ≡ false

-- The free list holds the pages `xs`, each once.
pub record Free (end : ℕ) (k : Kmem) (xs : List ℕ) : Type 0 where
  pub chain : Chain k.word_at k.freelist xs
  pub distinct : Distinct xs
  pub pages : All (IsPage end) xs

page-aligned : (end v : ℕ) → IsPage end v → v % pgsize ≡ 0
page-aligned end v h = ground arith

page-not_null : (end v : ℕ) → IsPage end v → (v == 0) ≡ false
page-not_null end v h = ground arith

-- The junk in one page does not reach another.
apart :
    (m : ℕ → ℕ) (v x p : ℕ)
    → v % pgsize ≡ 0
    → x % pgsize ≡ 0
    → (x == v) ≡ false
    → update (junk v m) v p x ≡ m x
apart m v x p a b ne = ground arith

Chain-kept :
    (end : ℕ) (m : ℕ → ℕ) (v q p : ℕ) (xs : List ℕ)
    → v % pgsize ≡ 0
    → has v xs ≡ false
    → All (IsPage end) xs
    → Chain m p xs
    → Chain (update (junk v m) v q) p xs
Chain-kept end m v q p [] a new pages c = c
Chain-kept end m v q p (x ∷ xs) a new pages c =
    let same : update (junk v m) v q x ≡ m x =
      apart m v x q a (page-aligned end x pages.0) (ground arith) in
    (c.0, rw same (Chain-kept end m v q (m x) xs a (ground arith) pages.1 c.1))

-- The test for a page frame of the kernel's memory: aligned to 4096 bytes, not below `end`, and of
-- a physical address below the 0xE000000 bytes of the memory, which is mapped from 0x80000000 on.
abbrev pub is_frame : ℕ → ℕ → Bool
is_frame end v = v % 4096 == 0 && leb end v && leb 0x8000_0000 v && ltb v 0x8e00_0000

is_bad-not : (end v : ℕ) → v < 2 ^ 32 → is_bad end v ≡ not (is_frame end v)
is_bad-not end v lt = ground arith

-- kfree of an address below 2^32 that is not in the free list panics if it is not a page frame, that
-- is not aligned to 4096 bytes, below `end` or outside 0x80000000 to 0x8E000000; otherwise it puts the
-- page in front of the list.
pub kfree-Free :
    (end v : ℕ) (k : Kmem) (xs : List ℕ)
    → Free end k xs
    → has v xs ≡ false
    → v < 2 ^ 32
    → ((is_frame end v ≡ false) × (kfree end v k ≡ none))
      ⊎ ((is_frame end v ≡ true) × (k' : Kmem) × (kfree end v k ≡ some k') × Free end k' (v ∷ xs))
unfolding kfree
kfree-Free end v k xs f new lt = elim (Bool-cases (is_bad end v)) [
  | inl e ↦ inl (ground (arith, is_bad-not end v lt), rw e refl)
  | inr e ↦
      let frame : is_frame end v ≡ true = ground (arith, is_bad-not end v lt) in
      let a = page-aligned end v e in
      let m : ℕ → ℕ = update (junk v k.word_at) v k.freelist in
      let first : m v ≡ k.freelist = ground arith in
      inr (
        frame,
        record { word_at = m; freelist = v },
        rw e refl,
        record {
          chain = (
            refl,
            rw first (Chain-kept end k.word_at v k.freelist k.freelist xs a new f.pages f.chain),
          );
          distinct = (new, f.distinct);
          pages = (e, f.pages);
        },
      )
]

-- What kalloc comes to: 0 if no page is free, and otherwise the first page, which leaves the list.
pub data Allocates (end : ℕ) (k : Kmem) (r : Kmem × ℕ) : List ℕ → Type 0 where
  exhausted : r ≡ (k, 0) → Allocates end k r []
  allocated :
      (x : ℕ) (xs : List ℕ) (k' : Kmem)
      → r ≡ (k', x)
      → IsPage end x
      → Free end k' xs
      → has x xs ≡ false
      → Allocates end k r (x ∷ xs)

-- kalloc returns 0 exactly if no page is free, and otherwise a page that was free and is no longer in
-- the free list.
pub kalloc-Allocates :
    (end : ℕ) (k : Kmem) (xs : List ℕ) → Free end k xs → Allocates end k (kalloc k) xs
unfolding kalloc
kalloc-Allocates end k [] f =
    let e : (k.freelist == 0) ≡ true = let c = f.chain in ground arith in exhausted (rw e refl)
kalloc-Allocates end k (x ∷ xs) f =
    let same = f.chain.0 in
    let e : (k.freelist == 0) ≡ false =
      ap (λ (p : ℕ). p == 0) same ∙ page-not_null end x f.pages.0 in
    let k' : Kmem = record k { freelist = k.word_at k.freelist } in
    allocated x xs k' (rw e (ap (λ (p : ℕ). (k', p)) same)) f.pages.0
      (record {
        chain = subst (λ (p : ℕ). Chain k.word_at (k.word_at p) xs) (sym same) f.chain.1;
        distinct = f.distinct.1;
        pages = f.pages.1;
      })
      f.distinct.0
