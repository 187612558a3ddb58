-- ===== src/Vm/Rounds.antt =====
-- The rounds of the loop of mappages, srcs/vm.c, and what a call maps.
use os_project_mlfqschedulin.Base.{
  ℕ, suc, ◌+◌, ◌-◌, ◌*◌, ◌%◌, ◌^◌, ◌<◌, ◌≤◌, ◌≡◌, refl, sym, ap, subst, ◌∙◌, inl, inr, true, false,
  ◌&&◌, List, [], arith, ltb, leb, ◌==◌, if◌then◌else◌, Bool-cases, update,
}
use os_project_mlfqschedulin.Page.{pgsize, Kmem}
use os_project_mlfqschedulin.Vm.{
  is_present, walkpgdir, MapResult, maps, no_memory, remap, pte_word, map_loop,
}
use os_project_mlfqschedulin.Vm.Bits.{pte_word-present}
use os_project_mlfqschedulin.Vm.Tables.{entry, Tables}

-- The entries with the `n` pages from `q` on mapped to the addresses from `pa` on.
abbrev pub remapped : ℕ → ℕ → ℕ → ℕ → (ℕ → ℕ) → ℕ → ℕ
remapped q n pa perm f t =
    if leb q t && ltb t (q + n) then pte_word ((pa + pgsize * (t - q)) % 2 ^ 32) perm else f t

-- The entries of `k` become those of `k'`, and the `n` pages from `q` on were not mapped and are now.
pub record Mapped (pgdir q n pa perm : ℕ) (k k' : Kmem) : Type 0 where
  pub entries : (t : ℕ) → t < 2 ^ 20 → entry pgdir k' t ≡ remapped q n pa perm (entry pgdir k) t
  pub present : (t : ℕ) → q ≤ t → t < q + n → is_present (entry pgdir k' t) ≡ true
  pub absent : (t : ℕ) → q ≤ t → t < q + n → is_present (entry pgdir k t) ≡ false

-- What mappages of the `n` virtual pages from `q` on comes to: all of them are mapped; the memory ran
-- out behind `m` of them; or one of them was mapped already.
pub data Outcome (end pgdir q n pa perm : ℕ) (k : Kmem) (r : MapResult) : Type 0 where
  whole :
      (k' : Kmem) (pages' : List ℕ)
      → r ≡ maps k'
      → Tables end pgdir pages' k'
      → Mapped pgdir q n pa perm k k'
      → Outcome end pgdir q n pa perm k r
  partial :
      (k' : Kmem) (m : ℕ)
      → r ≡ no_memory k'
      → m < n
      → Tables end pgdir [] k'
      → Mapped pgdir q m pa perm k k'
      → Outcome end pgdir q n pa perm k r
  clashes :
      (t : ℕ)
      → r ≡ remap
      → q ≤ t
      → t < q + n
      → is_present (entry pgdir k t) ≡ true
      → Outcome end pgdir q n pa perm k r

-- A round behind its call of walkpgdir.
abbrev pub round : ℕ → ℕ → ℕ → ℕ → ℕ → ℕ → Kmem × ℕ → MapResult
round n pgdir a last pa perm r =
    if r.1 == 0
    then no_memory r.0
    else if is_present (r.0.word_at r.1)
    then remap
    else if a == last
    then maps (record (r.0) { word_at = update r.0.word_at r.1 (pte_word pa perm) })
    else map_loop n pgdir ((a + pgsize) % 2 ^ 32) last ((pa + pgsize) % 2 ^ 32) perm
        (record (r.0) { word_at = update r.0.word_at r.1 (pte_word pa perm) })

pub map_loop-round :
    (n pgdir a last pa perm : ℕ) (k : Kmem)
    → map_loop (suc n) pgdir a last pa perm k
      ≡ round n pgdir a last pa perm (walkpgdir pgdir a true k)
unfolding map_loop
map_loop-round n pgdir a last pa perm k = refl

pub round-none :
    (n pgdir a last pa perm : ℕ) (k : Kmem) → round n pgdir a last pa perm (k, 0) ≡ no_memory k
round-none n pgdir a last pa perm k = refl

pub round-remap :
    (n pgdir a last pa perm at : ℕ) (k : Kmem)
    → (at == 0) ≡ false
    → is_present (k.word_at at) ≡ true
    → round n pgdir a last pa perm (k, at) ≡ remap
round-remap n pgdir a last pa perm at k nz e = rw (nz, e) refl

pub round-last :
    (n pgdir a last pa perm at : ℕ) (k : Kmem)
    → (at == 0) ≡ false
    → is_present (k.word_at at) ≡ false
    → (a == last) ≡ true
    → round n pgdir a last pa perm (k, at)
      ≡ maps (record k { word_at = update k.word_at at (pte_word pa perm) })
round-last n pgdir a last pa perm at k nz e l = rw (nz, e, l) refl

pub round-next :
    (n pgdir a last pa perm at : ℕ) (k : Kmem)
    → (at == 0) ≡ false
    → is_present (k.word_at at) ≡ false
    → (a == last) ≡ false
    → round n pgdir a last pa perm (k, at)
      ≡ map_loop n pgdir
          ((a + pgsize) % 2 ^ 32)
          last
          ((pa + pgsize) % 2 ^ 32)
          perm
          (record k { word_at = update k.word_at at (pte_word pa perm) })
round-next n pgdir a last pa perm at k nz e l = rw (nz, e, l) refl

pub Mapped-none : (pgdir q pa perm : ℕ) (k : Kmem) → Mapped pgdir q 0 pa perm k k
Mapped-none pgdir q pa perm k = record {
  entries = λ t lt. let out : (leb q t && ltb t (q + 0)) ≡ false = ground arith in rw out refl;
  present = λ t lo hi. absurd (omega arith);
  absent = λ t lo hi. absurd (omega arith);
}

-- One page, and the later ones.
pub Mapped-suc :
    (pgdir q n pa perm : ℕ) (k k1 k2 k' : Kmem)
    → ((t : ℕ) → t < 2 ^ 20 → entry pgdir k1 t ≡ entry pgdir k t)
    → ((t : ℕ)
        → t < 2 ^ 20
        → entry pgdir k2 t ≡ (if q == t then pte_word pa perm else entry pgdir k1 t))
    → pa < 2 ^ 32
    → q + suc n ≤ 2 ^ 20
    → is_present (entry pgdir k1 q) ≡ false
    → Mapped pgdir (q + 1) n ((pa + pgsize) % 2 ^ 32) perm k2 k'
    → Mapped pgdir q (suc n) pa perm k k'
Mapped-suc pgdir q n pa perm k k1 k2 k' e1 e2 lp room gone m = record {
  entries = λ t lt.
      m.entries t lt
      ∙ joined t (entry pgdir k t) (entry pgdir k2 t)
          (e2 t lt ∙ ap (λ (x : ℕ). if q == t then pte_word pa perm else x) (e1 t lt));
  present = λ t lo hi. elim (Bool-cases (q == t)) [
    | inl e ↦
        let out : (leb (q + 1) t && ltb t (q + 1 + n)) ≡ false = ground arith in
        let here : entry pgdir k' t ≡ pte_word pa perm =
          m.entries t (omega arith) ∙ rw out (e2 t (omega arith) ∙ rw e refl) in
        ap (λ (x : ℕ). is_present x) here ∙ pte_word-present pa perm
    | inr e ↦ m.present t (ground arith) (omega arith)
  ];
  absent = λ t lo hi. elim (Bool-cases (q == t)) [
    | inl e ↦
        let same : q ≡ t = ground arith in
        subst (λ (y : ℕ). is_present (entry pgdir k y) ≡ false) same
          (sym (ap (λ (x : ℕ). is_present x) (e1 q (omega arith))) ∙ gone)
    | inr e ↦
        let here : entry pgdir k2 t ≡ entry pgdir k t =
          e2 t (omega arith) ∙ rw e (e1 t (omega arith)) in
        sym (ap (λ (x : ℕ). is_present x) here) ∙ m.absent t (ground arith) (omega arith)
  ];
}
  where
    joined :
        (t x y : ℕ)
        → y ≡ (if q == t then pte_word pa perm else x)
        → (if leb (q + 1) t && ltb t (q + 1 + n)
            then pte_word (((pa + pgsize) % 2 ^ 32 + pgsize * (t - (q + 1))) % 2 ^ 32) perm
            else y)
          ≡ (if leb q t && ltb t (q + suc n)
              then pte_word ((pa + pgsize * (t - q)) % 2 ^ 32) perm
              else x)
    joined t x y e = elim (Bool-cases (leb (q + 1) t && ltb t (q + 1 + n))) [
      | inl s ↦
          let inside : (leb q t && ltb t (q + suc n)) ≡ true = ground arith in
          let at : ((pa + pgsize) % 2 ^ 32 + pgsize * (t - (q + 1))) % 2 ^ 32
              ≡ (pa + pgsize * (t - q)) % 2 ^ 32 =
            ground arith in
          rw (s, inside) (ap (λ (w : ℕ). pte_word w perm) at)
      | inr s ↦ rw s (
          e ∙ elim (Bool-cases (q == t)) [
            | inl u ↦
                let inside : (leb q t && ltb t (q + suc n)) ≡ true = ground arith in
                let at : (pa + pgsize * (t - q)) % 2 ^ 32 ≡ pa = ground arith in
                rw (u, inside, at) refl
            | inr u ↦
                let out : (leb q t && ltb t (q + suc n)) ≡ false = ground arith in rw (u, out) refl
          ])
    ]
