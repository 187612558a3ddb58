-- ===== src/Ftable/Refs.antt =====
-- The reference counts of srcs/file.c against the references that are held.
use os_project_mlfqschedulin.Base.{
  ℕ, zero, suc, ◌+◌, ◌-◌, ◌^◌, ◌<◌, ◌≤◌, ◌≡◌, refl, sym, ap, subst, ◌∙◌, ◌⊎◌, inl, inr, true, false,
  not, Option, none, some, arith, ◌==◌, if◌then◌else◌, Bool-cases, update,
}
use os_project_mlfqschedulin.Base.{slt, inc, dec}
use os_project_mlfqschedulin.Ftable.{
  nfile, fd_none, FileSlot, Table, find_unused, set_ref, filealloc, filedup, Closing, still_open,
  FileKind, fd_pipe, fd_inode, nothing, close_pipe, put_inode, closing_of, fileclose,
}

-- The tables that the calls reach, with the number of references to each file that are held. A holder of
-- a reference may change what the file says, but not its count.
pub data Opened : Table → (ℕ → ℕ) → Type 0 where
  starts : (t : Table) → ((f : ℕ) → (t f).ref ≡ 0) → Opened t (λ f. 0)
  allocs :
      {t : Table} {n : ℕ → ℕ} (f : ℕ) (t' : Table)
      → Opened t n
      → filealloc t ≡ some (f, t')
      → Opened t' (update n f (n f + 1))
  dups :
      {t : Table} {n : ℕ → ℕ} (f : ℕ) (t' : Table)
      → Opened t n
      → (n f == 0) ≡ false
      → n f + 1 < 2 ^ 31
      → filedup f t ≡ some t'
      → Opened t' (update n f (n f + 1))
  closes :
      {t : Table} {n : ℕ → ℕ} (f : ℕ) (t' : Table) (c : Closing)
      → Opened t n
      → (n f == 0) ≡ false
      → fileclose f t ≡ some (t', c)
      → Opened t' (update n f (n f - 1))
  changes :
      {t : Table} {n : ℕ → ℕ} (f : ℕ) (x : FileSlot)
      → Opened t n
      → x.ref ≡ (t f).ref
      → Opened (update t f x) n

-- Each count is the number of references held, which an int can have.
record Counted (t : Table) (n : ℕ → ℕ) : Type 0 where
  same : (f : ℕ) → (t f).ref ≡ n f
  small : (f : ℕ) → n f < 2 ^ 31

find_unused-cases :
    (k f : ℕ) (t : Table)
    → ((find_unused k f t ≡ none) × ((g : ℕ) → f ≤ g → g < f + k → ((t g).ref == 0) ≡ false))
      ⊎ ((g : ℕ) × (find_unused k f t ≡ some g) × (f ≤ g) × (g < f + k) × ((t g).ref ≡ 0))
unfolding find_unused
find_unused-cases zero f t = inl (refl, λ g lo hi. absurd (omega arith))
find_unused-cases (suc k) f t = elim (Bool-cases ((t f).ref == 0)) [
  | inl e ↦ inr (f, rw e refl, omega arith, omega arith, ground arith)
  | inr e ↦ rw e (elim (find_unused-cases k (f + 1) t) [
    | inl (run, all) ↦ inl (
      run,
      λ g lo hi. elim (Bool-cases (f == g)) [
        | inl s ↦
            let same : f ≡ g = ground arith in subst (λ (y : ℕ). ((t y).ref == 0) ≡ false) same e
        | inr s ↦ all g (ground arith) (omega arith)
      ],
    )
    | inr (g, run, lo, hi, z) ↦ inr (g, run, omega arith, omega arith, z)
  ])
]

-- filealloc gives a file that nobody holds, or there is none.
filealloc-cases :
    (t : Table)
    → ((filealloc t ≡ none) × ((g : ℕ) → g < nfile → ((t g).ref == 0) ≡ false))
      ⊎ ((f : ℕ) × (filealloc t ≡ some (f, set_ref f 1 t)) × (f < nfile) × ((t f).ref ≡ 0))
filealloc-cases t = elim (find_unused-cases nfile 0 t) [
  | inl (run, all) ↦ inl (filealloc-ap t ∙ ap found run, λ g lt. all g (omega arith) (omega arith))
  | inr (f, run, lo, hi, z) ↦ inr (f, filealloc-ap t ∙ ap found run, omega arith, z)
]
  where
    found : Option ℕ → Option (ℕ × Table)
    found r = elim r [ none ↦ none | some f ↦ some (f, set_ref f 1 t) ]

    filealloc-ap :
        (u : Table)
        → filealloc u
          ≡ elim (find_unused nfile 0 u) [ none ↦ none | some f ↦ some (f, set_ref f 1 u) ]
    filealloc-ap u = unfold filealloc in refl

filedup-run :
    (f : ℕ) (t : Table) → slt (t f).ref 1 ≡ false → filedup f t ≡ some (set_ref f (inc (t f).ref) t)
filedup-run f t e = unfold filedup in rw e refl

-- The table and the work left behind a close.
abbrev closed : ℕ → Table → Table × Closing
closed f t =
    if (t f).ref == 1
    then (update t f (record (t f) { ref = 0; kind = fd_none }), closing_of (t f))
    else (set_ref f ((t f).ref - 1) t, still_open)

fileclose-run :
    (f : ℕ) (t : Table)
    → ((t f).ref == 0) ≡ false
    → (t f).ref < 2 ^ 31
    → fileclose f t ≡ some (closed f t)
fileclose-run f t nz lt =
    let a : slt (t f).ref 1 ≡ false = ground arith in
    let b : slt 0 (dec (t f).ref) ≡ not ((t f).ref == 1) = ground arith in
    elim (Bool-cases ((t f).ref == 1)) [
      | inl e ↦ unfold fileclose in rw (a, b, e) refl
      | inr e ↦
          let c : dec (t f).ref ≡ (t f).ref - 1 = ground arith in
          unfold fileclose in rw (a, b, e, c) refl
    ]

set_ref-Counted :
    (f r : ℕ) (t : Table) (n : ℕ → ℕ)
    → r < 2 ^ 31
    → Counted t n
    → Counted (set_ref f r t) (update n f r)
set_ref-Counted f r t n lt c = record {
  same = λ g. elim (Bool-cases (f == g)) [ inl e ↦ rw e refl | inr e ↦ rw e (c.same g) ];
  small = λ g. elim (Bool-cases (f == g)) [ inl e ↦ rw e lt | inr e ↦ rw e (c.small g) ];
}

Opened-Counted : {t : Table} {n : ℕ → ℕ} → Opened t n → Counted t n
Opened-Counted (starts t z) = record { same = z; small = λ f. omega arith }
Opened-Counted (allocs {t} {n} f t' o run) = elim (filealloc-cases t) [
  | inl (run', all) ↦ let bad = sym run' ∙ run in absurd (none_some bad)
  | inr (g, run', lt, z) ↦
      let c = Opened-Counted o in
      let pair = sym run' ∙ run in
      let at : g ≡ f = ap (λ (r : Option (ℕ × Table)). elim r [ none ↦ g | some p ↦ p.0 ]) pair in
      let now : set_ref g 1 t ≡ t' =
        ap (λ (r : Option (ℕ × Table)). elim r [ none ↦ t' | some p ↦ p.1 ]) pair in
      let one : n f + 1 ≡ 1 =
        let a = sym (c.same f) ∙ sym (ap (λ (y : ℕ). (t y).ref) at) ∙ z in omega arith in
      subst (λ (m : ℕ). Counted t' (update n f m)) (sym one)
        (subst (λ (u : Table). Counted u (update n f 1)) now
          (subst (λ (y : ℕ). Counted (set_ref g 1 t) (update n y 1)) at
            (set_ref-Counted g 1 t n (omega arith) c)))
]
  where
    none_some : {A : Type 0} {x : A} → none ≡ some x → ⊥
    none_some {A} {x} e =
        let bad : true ≡ false = ap (λ (r : Option A). elim r [ none ↦ true | some y ↦ false ]) e in
        ground arith
Opened-Counted (dups {t} {n} f t' o held lt run) =
    let c = Opened-Counted o in
    let same = c.same f in
    let ok : slt (t f).ref 1 ≡ false = ground arith in
    let more : inc (t f).ref ≡ n f + 1 = ground arith in
    let now : set_ref f (inc (t f).ref) t ≡ t' =
      ap (λ (r : Option Table). elim r [ none ↦ t' | some u ↦ u ])
        (sym (filedup-run f t ok) ∙ run) in
    subst (λ (u : Table). Counted u (update n f (n f + 1))) now
      (rw more (set_ref-Counted f (n f + 1) t n lt c))
Opened-Counted (closes {t} {n} f t' x o held run) =
    let c = Opened-Counted o in
    let same = c.same f in
    let small = c.small f in
    let now : (closed f t).0 ≡ t' =
      ap (λ (r : Option (Table × Closing)). elim r [ none ↦ t' | some u ↦ u.0 ])
        (sym (fileclose-run f t (ground arith) (ground arith)) ∙ run) in
    subst (λ (u : Table). Counted u (update n f (n f - 1))) now (closed-Counted f t n c)
  where
    closed-Counted :
        (f : ℕ) (t : Table) (n : ℕ → ℕ)
        → Counted t n
        → Counted (closed f t).0 (update n f (n f - 1))
    closed-Counted f t n c =
        let same = c.same f in
        let small = c.small f in
        elim (Bool-cases ((t f).ref == 1)) [
          | inl e ↦
              let z : n f - 1 ≡ 0 = ground arith in
              rw (e, z)
                (record {
                  same = λ g. elim (Bool-cases (f == g)) [
                    | inl s ↦ rw s refl
                    | inr s ↦ rw s (c.same g)
                  ];
                  small = λ g. elim (Bool-cases (f == g)) [
                    | inl s ↦ rw s (omega arith)
                    | inr s ↦ rw s (c.small g)
                  ];
                })
          | inr e ↦ rw (e, same) (set_ref-Counted f (n f - 1) t n (omega arith) c)
        ]
Opened-Counted (changes {t} {n} f x o e) =
    let c = Opened-Counted o in
    record {
      same = λ g. elim (Bool-cases (f == g)) [
        | inl s ↦
            let at : f ≡ g = ground arith in rw s (e ∙ ap (λ (y : ℕ). (t y).ref) at ∙ c.same g)
        | inr s ↦ rw s (c.same g)
      ];
      small = c.small;
    }

-- What the last reference to a file leaves to do: to close that end of its pipe, or to put its inode.
abbrev pub due : FileKind → FileSlot → Closing
due fd_none f = nothing
due fd_pipe f = close_pipe f.pipe f.writable
due fd_inode f = put_inode f.ip

closing_of-due : (f : FileSlot) → closing_of f ≡ due f.kind f
unfolding closing_of
closing_of-due f = by_kind f.kind
  where
    by_kind :
        (kind : FileKind)
        → (elim kind [
          | fd_none ↦ nothing
          | fd_pipe ↦ close_pipe f.pipe f.writable
          | fd_inode ↦ put_inode f.ip
        ])
          ≡ due kind f
    by_kind fd_none = refl
    by_kind fd_pipe = refl
    by_kind fd_inode = refl

-- What the calls do on a table where `n f` references to the file `f` are held.
pub record CallsRight (t : Table) (n : ℕ → ℕ) : Type 0 where
  pub alloc :
      ((filealloc t ≡ none) × ((f : ℕ) → f < nfile → (n f == 0) ≡ false))
      ⊎ ((f : ℕ) × (t' : Table) × (filealloc t ≡ some (f, t')) × (f < nfile) × (n f ≡ 0))
  pub dup :
      (f : ℕ) → (n f == 0) ≡ false → n f + 1 < 2 ^ 31 → filedup f t ≡ some (set_ref f (n f + 1) t)
  pub close :
      (f : ℕ)
      → (n f == 0) ≡ false
      → fileclose f t
        ≡ some (
            if n f == 1
            then (update t f (record (t f) { ref = 0; kind = fd_none }), due (t f).kind (t f))
            else (set_ref f (n f - 1) t, still_open))

-- After any calls by holders of references, filealloc gives a file that nobody holds, or all of them are
-- held; a holder's filedup does not panic and counts one more, below 2^31 references; and a holder's
-- fileclose does not panic, and counts one less. Exactly if the reference is the last, it frees the
-- file, and closes that end of the pipe of a file of kind FD_PIPE, or puts the inode of one of kind
-- FD_INODE.
pub Opened-CallsRight : {t : Table} {n : ℕ → ℕ} → Opened t n → CallsRight t n
Opened-CallsRight {t} {n} o =
    let c = Opened-Counted o in
    record {
      alloc = elim (filealloc-cases t) [
        | inl (run, all) ↦
            inl (run, λ f lt. let same = c.same f in let no = all f lt in ground arith)
        | inr (f, run, lt, z) ↦ inr (f, set_ref f 1 t, run, lt, sym (c.same f) ∙ z)
      ];
      dup = λ f held lt.
          let same = c.same f in
          let more : inc (t f).ref ≡ n f + 1 = ground arith in
          filedup-run f t (ground arith) ∙ ap (λ (r : ℕ). some (set_ref f r t)) more;
      close = λ f held.
          let same = c.same f in
          let small = c.small f in
          fileclose-run f t (ground arith) (ground arith)
          ∙ ap
              (λ (r : ℕ). some (
                if r == 1
                then (update t f (record (t f) { ref = 0; kind = fd_none }), closing_of (t f))
                else (set_ref f (r - 1) t, still_open)))
              same
          ∙ ap
              (λ (x : Closing). some (
                if n f == 1
                then (update t f (record (t f) { ref = 0; kind = fd_none }), x)
                else (set_ref f (n f - 1) t, still_open)))
              (closing_of-due (t f));
    }
