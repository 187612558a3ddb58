-- ===== src/Lock/Guard.antt =====
-- One lock of srcs/spinlock.c with the CPUs that hold it or are on their way.
use os_project_mlfqschedulin.Base.{
  ℕ, suc, ◌+◌, ◌^◌, ◌<◌, ◌≡◌, refl, sym, ◌∙◌, inl, inr, Bool, true, false, Option, none, some, List,
  [], ◌∷◌, arith, ◌==◌, if◌then◌else◌, Bool-cases, has, erase, length, Distinct,
}
use os_project_mlfqschedulin.Lock.{
  Cpu, Lock, is_owner, Pc, outside, spinning, taken, releasing, Machine,
}
use os_project_mlfqschedulin.Lock.Steps.{busy}

-- The CPU has the lock `l` locked, but its field cpu is null.
abbrev pub is_passing : Pc → ℕ → Bool
is_passing outside l = false
is_passing (spinning x) l = false
is_passing (taken x) l = x == l
is_passing (releasing x) l = x == l

-- One CPU with the locks that it holds.
pub record Quiet (q : Cpu) (p : Pc) (hs : List ℕ) : Type 0 where
  pub count : q.ncli ≡ length hs + busy p
  pub small : q.ncli + 1 < 2 ^ 31
  pub off : (q.ncli == 0) ≡ false → q.flag ≡ false
  pub distinct : Distinct hs

-- One lock with the CPUs that hold it and those on their way.
pub record Guarded (lk : Lock) (mine passes : ℕ → Bool) : Type 0 where
  pub same : (c : ℕ) → is_owner c lk ≡ mine c
  pub locked : (c : ℕ) → mine c ≡ true → lk.locked ≡ true
  pub pass : (c : ℕ) → passes c ≡ true → lk.locked ≡ true
  pub no_owner : (c d : ℕ) → passes c ≡ true → mine d ≡ false
  pub alone : (c d : ℕ) → passes c ≡ true → passes d ≡ true → (c == d) ≡ true

pub record Inv (m : Machine) (held : ℕ → List ℕ) : Type 0 where
  pub cpus : (c : ℕ) → Quiet (m.cpu c) (m.pc c) (held c)
  pub locks : (l : ℕ) → Guarded (m.lock l) (λ c. has l (held c)) (λ c. is_passing (m.pc c) l)

-- At most one CPU is the owner.
pub owner-once :
    (c d : ℕ) (lk : Lock) → is_owner c lk ≡ true → is_owner d lk ≡ true → (c == d) ≡ true
owner-once c d lk a b = by_owner lk.owner a b
  where
    by_owner :
        (o : Option ℕ)
        → (elim o [ none ↦ false | some x ↦ x == c ]) ≡ true
        → (elim o [ none ↦ false | some x ↦ x == d ]) ≡ true
        → (c == d) ≡ true
    by_owner none a b = absurd (ground arith)
    by_owner (some x) a b = ground arith

pub length-erase : (l : ℕ) (xs : List ℕ) → has l xs ≡ true → suc (length (erase l xs)) ≡ length xs
unfolding erase
length-erase l [] h = absurd (ground arith)
length-erase l (x ∷ xs) h = ground (arith, length-erase l xs)

-- A lock whose CPUs are as before.
pub Guarded-ext :
    (lk : Lock) (mine mine' passes passes' : ℕ → Bool)
    → ((c : ℕ) → mine' c ≡ mine c)
    → ((c : ℕ) → passes' c ≡ passes c)
    → Guarded lk mine passes
    → Guarded lk mine' passes'
Guarded-ext lk mine mine' passes passes' a b g = record {
  same = λ c. g.same c ∙ sym (a c);
  locked = λ c h. g.locked c (sym (a c) ∙ h);
  pass = λ c h. g.pass c (sym (b c) ∙ h);
  no_owner = λ c d h. a d ∙ g.no_owner c d (sym (b c) ∙ h);
  alone = λ c d h h'. g.alone c d (sym (b c) ∙ h) (sym (b d) ∙ h');
}

-- The lock is free: xchg takes it for `c`.
pub Guarded-taken :
    (c : ℕ) (lk : Lock) (mine passes passes' : ℕ → Bool)
    → lk.locked ≡ false
    → ((d : ℕ) → passes' d ≡ (if c == d then true else passes d))
    → Guarded lk mine passes
    → Guarded (record lk { locked = true }) mine passes'
Guarded-taken c lk mine passes passes' free b g =
    let none_passes : (d : ℕ) → passes d ≡ false = λ d. flip (passes d) (g.pass d) in
    let none_holds : (d : ℕ) → mine d ≡ false = λ d. flip (mine d) (g.locked d) in
    record {
      same = g.same;
      locked = λ d h. refl;
      pass = λ d h. refl;
      no_owner = λ d e h. none_holds e;
      alone = λ d e h h'. only d e (b d) (b e) (none_passes d) (none_passes e) h h';
    }
  where
    flip : (t : Bool) → (t ≡ true → lk.locked ≡ true) → t ≡ false
    flip true f = absurd (let h = f refl in ground arith)
    flip false f = refl

    only :
        (d e : ℕ)
        → passes' d ≡ (if c == d then true else passes d)
        → passes' e ≡ (if c == e then true else passes e)
        → passes d ≡ false
        → passes e ≡ false
        → passes' d ≡ true
        → passes' e ≡ true
        → (d == e) ≡ true
    only d e a a' n n' h h' = ground arith

-- The CPU that passes the lock becomes its owner.
pub Guarded-owned :
    (c : ℕ) (lk : Lock) (mine mine' passes passes' : ℕ → Bool)
    → passes c ≡ true
    → ((d : ℕ) → mine' d ≡ (if c == d then true else mine d))
    → ((d : ℕ) → passes' d ≡ (if c == d then false else passes d))
    → Guarded lk mine passes
    → Guarded (record lk { owner = some c }) mine' passes'
Guarded-owned c lk mine mine' passes passes' here a b g =
    let gone : (d : ℕ) → passes' d ≡ false = λ d. gone_at d (b d) (g.alone c d here) in
    record {
      same = λ d. let none_holds = g.no_owner c d here in let x = a d in ground arith;
      locked = λ d h. g.pass c here;
      pass = λ d h. g.pass c here;
      no_owner = λ d e h. let x = gone d in absurd (ground arith);
      alone = λ d e h h'. let x = gone d in absurd (ground arith);
    }
  where
    gone_at :
        (d : ℕ)
        → passes' d ≡ (if c == d then false else passes d)
        → (passes d ≡ true → (c == d) ≡ true)
        → passes' d ≡ false
    gone_at d e only = elim (Bool-cases (passes d)) [
      | inl h ↦ let x = only h in ground arith
      | inr h ↦ ground arith
    ]

-- The owner writes null over its name.
pub Guarded-disowned :
    (c : ℕ) (lk : Lock) (mine mine' passes passes' : ℕ → Bool)
    → mine c ≡ true
    → ((d : ℕ) → mine' d ≡ (if c == d then false else mine d))
    → ((d : ℕ) → passes' d ≡ (if c == d then true else passes d))
    → Guarded lk mine passes
    → Guarded (record lk { owner = none }) mine' passes'
Guarded-disowned c lk mine mine' passes passes' here a b g =
    let none_holds : (d : ℕ) → mine' d ≡ false = λ d. none_at d (a d) (only d) in
    let none_passes : (d : ℕ) → passes d ≡ false = λ d. flip (passes d) (λ h. g.no_owner d c h) in
    record {
      same = λ d. sym (none_holds d);
      locked = λ d h. g.locked c here;
      pass = λ d h. g.locked c here;
      no_owner = λ d e h. none_holds e;
      alone = λ d e h h'.
          let x = none_passes d in
          let y = none_passes e in let u = b d in let v = b e in ground arith;
    }
  where
    only : (d : ℕ) → mine d ≡ true → (c == d) ≡ true
    only d h = owner-once c d lk (g.same c ∙ here) (g.same d ∙ h)

    none_at :
        (d : ℕ)
        → mine' d ≡ (if c == d then false else mine d)
        → (mine d ≡ true → (c == d) ≡ true)
        → mine' d ≡ false
    none_at d e f = elim (Bool-cases (mine d)) [
      | inl h ↦ let x = f h in ground arith
      | inr h ↦ ground arith
    ]

    flip : (t : Bool) → (t ≡ true → mine c ≡ false) → t ≡ false
    flip true f = absurd (let h = f refl in ground arith)
    flip false f = refl

-- The lock is free again.
pub Guarded-freed :
    (c : ℕ) (lk : Lock) (mine passes passes' : ℕ → Bool)
    → passes c ≡ true
    → ((d : ℕ) → passes' d ≡ (if c == d then false else passes d))
    → Guarded lk mine passes
    → Guarded (record lk { locked = false }) mine passes'
Guarded-freed c lk mine passes passes' here b g =
    let gone : (d : ℕ) → passes' d ≡ false = λ d. gone_at d (b d) (g.alone c d here) in
    record {
      same = g.same;
      locked = λ d h. let x = g.no_owner c d here in absurd (ground arith);
      pass = λ d h. let x = gone d in absurd (ground arith);
      no_owner = λ d e h. let x = gone d in absurd (ground arith);
      alone = λ d e h h'. let x = gone d in absurd (ground arith);
    }
  where
    gone_at :
        (d : ℕ)
        → passes' d ≡ (if c == d then false else passes d)
        → (passes d ≡ true → (c == d) ≡ true)
        → passes' d ≡ false
    gone_at d e only = elim (Bool-cases (passes d)) [
      | inl h ↦ let x = only h in ground arith
      | inr h ↦ ground arith
    ]
