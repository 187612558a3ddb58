-- ===== src/Syscall/Args.antt =====
-- The arguments that srcs/syscall.c fetches lie in the memory of the process.
use os_project_mlfqschedulin.Base.{
  ℕ, zero, suc, ◌+◌, ◌-◌, ◌%◌, ◌^◌, ◌<◌, ◌≤◌, ◌≡◌, refl, sym, ap, subst, ◌∙◌, ◌≢◌, inl, inr, Bool,
  true, false, ◌||◌, ◌&&◌, Option, none, some, arith, ltb, leb, ◌==◌, if◌then◌else◌, Bool-cases,
  slt,
}
use os_project_mlfqschedulin.Syscall.{
  User, int_at, fetchint, scan_str, fetchstr, arg_addr, argint, argptr, argstr,
}

-- The block of `size` bytes at `i` lies in the memory, and so does the argument `n` that is its address.
-- These sums do not wrap around.
abbrev pub in_space : User → ℕ → ℕ → ℕ → Bool
in_space u n i size =
    leb (arg_addr u n + 4) u.sz && ltb size (2 ^ 31) && ltb i u.sz && leb (i + size) u.sz

-- In a process of at most 2 ^ 31 bytes, which is where the kernel starts, argptr returns the argument as
-- a pointer if the argument and the block of `size` bytes that it points to lie in the memory of the
-- process and `size` is not negative, and -1 if not: no sum in its tests wraps around.
pub argptr-in_space :
    (u : User) (n size : ℕ)
    → u.sz ≤ 2 ^ 31
    → size < 2 ^ 32
    → argptr u n size ≡ (
        if in_space u n (int_at u.byte_at (arg_addr u n)) size
        then some (int_at u.byte_at (arg_addr u n))
        else none)
unfolding argptr argint fetchint
argptr-in_space u n size sl ll =
    by_value u.sz (arg_addr u n) (int_at u.byte_at (arg_addr u n)) size sl ll (omega arith)
  where
    by_value :
        (sz a i size : ℕ)
        → sz ≤ 2 ^ 31
        → size < 2 ^ 32
        → a < 2 ^ 32
        → (elim (if leb sz a || ltb sz ((a + 4) % 2 ^ 32) then none else some i)
            as (λ (o : Option ℕ). Option ℕ) [
              | none ↦ none
              | some i ↦
                  if slt size 0 || leb sz i || ltb sz ((i + size) % 2 ^ 32) then none else some i
            ])
          ≡ (if leb (a + 4) sz && ltb size (2 ^ 31) && ltb i sz && leb (i + size) sz
              then some i
              else none)
    by_value sz a i size p q r = ground arith

-- What the search for a NUL among `n` bytes comes to.
data Scanned (n : ℕ) (m : ℕ → ℕ) (s i : ℕ) (r : Option ℕ) : Type 0 where
  ends_at :
      (l : ℕ)
      → r ≡ some (i + l)
      → l < n
      → m (s + l) ≡ 0
      → ((j : ℕ) → j < l → m (s + j) ≢ 0)
      → Scanned n m s i r
  runs_over : r ≡ none → ((j : ℕ) → j < n → m (s + j) ≢ 0) → Scanned n m s i r

scan_str-Scanned : (n : ℕ) (m : ℕ → ℕ) (s i : ℕ) → Scanned n m s i (scan_str n m s i)
unfolding scan_str
scan_str-Scanned zero m s i = runs_over refl (λ j h. absurd (omega arith))
scan_str-Scanned (suc n) m s i = elim (Bool-cases (m s == 0)) [
  | inl e ↦
      let here : s + 0 ≡ s = omega arith in
      let first : i ≡ i + 0 = omega arith in
      rw e (
        ends_at 0 (ap {B = Option ℕ} some first) (omega arith) (ap m here ∙ ground arith)
          (λ j h. absurd (omega arith)))
  | inr e ↦
      rw e (
        behind (scan_str n m (suc s) (suc i)) (ground arith) (scan_str-Scanned n m (suc s) (suc i)))
]
  where
    at : (l : ℕ) → m (s + suc l) ≡ m (suc s + l)
    at l = let same : s + suc l ≡ suc s + l = omega arith in ap m same

    longer :
        (k : ℕ)
        → m s ≢ 0
        → ((j : ℕ) → j < k → m (suc s + j) ≢ 0)
        → (j : ℕ) → j < suc k
        → m (s + j) ≢ 0
    longer k ne f zero h = let here : s + 0 ≡ s = omega arith in rw (ap m here) ne
    longer k ne f (suc j) h = rw (at j) (f j (omega arith))

    behind : (r : Option ℕ) → m s ≢ 0 → Scanned n m (suc s) (suc i) r → Scanned (suc n) m s i r
    behind r ne (ends_at l e lt z f) =
        let step : suc i + l ≡ i + suc l = omega arith in
        ends_at (suc l) (e ∙ ap {B = Option ℕ} some step) (omega arith) (at l ∙ z) (longer l ne f)
    behind r ne (runs_over e f) = runs_over e (longer n ne f)

fetchstr-Scanned : (u : User) (addr : ℕ) → Scanned (u.sz - addr) u.byte_at addr 0 (fetchstr u addr)
unfolding fetchstr
fetchstr-Scanned u addr = elim (Bool-cases (leb u.sz addr)) [
  | inl e ↦ rw e (runs_over refl (λ j h. absurd (ground arith)))
  | inr e ↦ rw e (scan_str-Scanned (u.sz - addr) u.byte_at addr 0)
]

-- What argstr comes to: a string that ends within the memory of the process, with its length; or -1, as
-- the argument does not lie in the memory, or as no NUL does from its address on.
pub data Str (u : User) (n : ℕ) (r : Option (ℕ × ℕ)) : Type 0 where
  string :
      (l : ℕ)
      → r ≡ some (int_at u.byte_at (arg_addr u n), l)
      → arg_addr u n + 4 ≤ u.sz
      → int_at u.byte_at (arg_addr u n) + l < u.sz
      → u.byte_at (int_at u.byte_at (arg_addr u n) + l) ≡ 0
      → ((j : ℕ) → j < l → u.byte_at (int_at u.byte_at (arg_addr u n) + j) ≢ 0)
      → Str u n r
  no_argument : r ≡ none → u.sz < arg_addr u n + 4 → Str u n r
  no_end :
      r ≡ none
      → arg_addr u n + 4 ≤ u.sz
      → ((j : ℕ)
          → int_at u.byte_at (arg_addr u n) + j < u.sz
          → u.byte_at (int_at u.byte_at (arg_addr u n) + j) ≢ 0)
      → Str u n r

-- In a process of at most 2 ^ 31 bytes argstr returns the argument as a pointer with the number of bytes
-- before the first NUL, if the argument and the string with its NUL lie in the memory of the process. If
-- the argument does not lie there, or no NUL does from its address on, it returns -1.
pub argstr-Str : (u : User) (n : ℕ) → u.sz ≤ 2 ^ 31 → Str u n (argstr u n)
unfolding argstr argint fetchint
argstr-Str u n sl =
    elim (Bool-cases (leb u.sz (arg_addr u n) || ltb u.sz ((arg_addr u n + 4) % 2 ^ 32))) [
      | inl e ↦
          subst (λ (b : Bool). Str u n (fetched b)) (sym e)
            (no_argument refl (outside u.sz (arg_addr u n) sl (omega arith) e))
      | inr e ↦
          subst (λ (b : Bool). Str u n (fetched b)) (sym e)
            (by_fetch (fetchstr u i) (inside u.sz (arg_addr u n) sl (omega arith) e)
              (fetchstr-Scanned u i))
    ]
  where
    i : ℕ
    i = int_at u.byte_at (arg_addr u n)

    fetched : Bool → Option (ℕ × ℕ)
    fetched b = elim (if b then none else some i) as (λ (x : Option ℕ). Option (ℕ × ℕ)) [
      | none ↦ none
      | some addr ↦ elim (fetchstr u addr) as (λ (x : Option ℕ). Option (ℕ × ℕ)) [
        | none ↦ none
        | some l ↦ some (addr, l)
      ]
    ]

    outside :
        (sz a : ℕ)
        → sz ≤ 2 ^ 31
        → a < 2 ^ 32
        → (leb sz a || ltb sz ((a + 4) % 2 ^ 32)) ≡ true
        → sz < a + 4
    outside sz a p q e = ground arith

    inside :
        (sz a : ℕ)
        → sz ≤ 2 ^ 31
        → a < 2 ^ 32
        → (leb sz a || ltb sz ((a + 4) % 2 ^ 32)) ≡ false
        → a + 4 ≤ sz
    inside sz a p q e = ground arith

    by_fetch :
        (o : Option ℕ)
        → arg_addr u n + 4 ≤ u.sz
        → Scanned (u.sz - i) u.byte_at i 0 o
        → Str u n
            (elim o as (λ (x : Option ℕ). Option (ℕ × ℕ)) [ none ↦ none | some l ↦ some (i, l) ])
    by_fetch o h (ends_at l e lt z f) =
        string l
          (ap
            (λ (x : Option ℕ). elim x as (λ (y : Option ℕ). Option (ℕ × ℕ)) [
              | none ↦ none
              | some l ↦ some (i, l)
            ])
            (e ∙ ap {B = Option ℕ} some (omega arith)))
          h (omega arith) z f
    by_fetch o h (runs_over e f) =
        no_end
          (ap
            (λ (x : Option ℕ). elim x as (λ (y : Option ℕ). Option (ℕ × ℕ)) [
              | none ↦ none
              | some l ↦ some (i, l)
            ])
            e)
          h (λ j lt. f j (omega arith))
