-- ===== src/Lock/Moves.antt =====
-- A step of one CPU at one lock of srcs/spinlock.c, as seen from all others.
use os_project_mlfqschedulin.Base.{
  ℕ, ◌≡◌, refl, sym, ap, subst, fun_ext, ◌∙◌, inl, inr, Bool, true, false, Option, none, some, List,
  [], arith, ◌==◌, if◌then◌else◌, Bool-cases, update, has,
}
use os_project_mlfqschedulin.Lock.{Cpu, Lock, initlock, Pc, outside, Machine}
use os_project_mlfqschedulin.Lock.Guard.{is_passing, Quiet, Guarded, Inv, Guarded-ext}

pub update-same : {A : Type 0} (f : ℕ → A) (c : ℕ) → update f c (f c) ≡ f
update-same {A} f c = fun_ext (λ d. elim (Bool-cases (c == d)) [
  | inl e ↦ let same : c ≡ d = ground arith in rw e (ap f same)
  | inr e ↦ rw e refl
])

-- A step of the CPU `c` at the lock `l`.
pub Inv-step :
    (m : Machine) (held : ℕ → List ℕ) (c l : ℕ) (q : Cpu) (lk : Lock) (p : Pc) (hs : List ℕ)
    → Inv m held
    → Quiet q p hs
    → ((x : ℕ)
        → (l == x) ≡ false
        → (has x hs ≡ has x (held c)) × (is_passing p x ≡ is_passing (m.pc c) x))
    → Guarded lk (λ d. has l (update held c hs d)) (λ d. is_passing (update m.pc c p d) l)
    → Inv
        (record { cpu = update m.cpu c q; lock = update m.lock l lk; pc = update m.pc c p })
        (update held c hs)
Inv-step m held c l q lk p hs v quiet others g = record {
  cpus = λ d. elim (Bool-cases (c == d)) [ inl e ↦ rw e quiet | inr e ↦ rw e (v.cpus d) ];
  locks = λ x. elim (Bool-cases (l == x)) [
    | inl e ↦
        let same : l ≡ x = ground arith in
        rw e (
          subst
            (λ (y : ℕ).
              Guarded lk (λ d. has y (update held c hs d)) (λ d. is_passing (update m.pc c p d) y))
            same g)
    | inr e ↦ rw e (
        Guarded-ext (m.lock x) (λ d. has x (held d)) (λ d. has x (update held c hs d))
          (λ d. is_passing (m.pc d) x) (λ d. is_passing (update m.pc c p d) x)
          (λ d. elim (Bool-cases (c == d)) [
            | inl u ↦
                let same : c ≡ d = ground arith in
                rw u ((others x e).0 ∙ ap (λ (y : ℕ). has x (held y)) same)
            | inr u ↦ rw u refl
          ])
          (λ d. elim (Bool-cases (c == d)) [
            | inl u ↦
                let same : c ≡ d = ground arith in
                rw u ((others x e).1 ∙ ap (λ (y : ℕ). is_passing (m.pc y) x) same)
            | inr u ↦ rw u refl
          ])
          (v.locks x))
  ];
}

pub some_once : {A : Type 0} (x y : A) → some x ≡ some y → x ≡ y
some_once {A} x y e = ap (λ (o : Option A). elim o [ none ↦ x | some z ↦ z ]) e

pub none_some : {A B : Type 0} (x : A) (o : Option A) → o ≡ none → o ≡ some x → B
none_some {A} {B} x o e f =
    let bad : true ≡ false =
      ap (λ (r : Option A). elim r [ none ↦ true | some y ↦ false ]) (sym e ∙ f) in
    absurd (ground arith)

-- Where a CPU's `pc` is known, its other facts are those of that place.
pub Quiet-at :
    (m : Machine) (held : ℕ → List ℕ) (c : ℕ) (p : Pc)
    → Inv m held
    → m.pc c ≡ p
    → Quiet (m.cpu c) p (held c)
Quiet-at m held c p v e = subst (λ (x : Pc). Quiet (m.cpu c) x (held c)) e (v.cpus c)

pub passing-at :
    (m : Machine) (c l : ℕ) (p : Pc) → m.pc c ≡ p → is_passing (m.pc c) l ≡ is_passing p l
passing-at m c l p e = ap (λ (x : Pc). is_passing x l) e

-- The CPUs on their way at `l`, where only `c` moves.
pub passing-update :
    (m : Machine) (c l : ℕ) (p : Pc) (b : Bool) (d : ℕ)
    → is_passing p l ≡ b
    → is_passing (update m.pc c p d) l ≡ (if c == d then b else is_passing (m.pc d) l)
passing-update m c l p b d e = elim (Bool-cases (c == d)) [ inl u ↦ rw u e | inr u ↦ rw u refl ]

pub Inv-boots :
    (m : Machine)
    → ((c : ℕ) → (m.cpu c).ncli ≡ 0)
    → ((l : ℕ) → m.lock l ≡ initlock)
    → ((c : ℕ) → m.pc c ≡ outside)
    → Inv m (λ c. [])
Inv-boots m z free out = record {
  cpus = λ c.
      let none_yet = z c in
      subst (λ (p : Pc). Quiet (m.cpu c) p []) (sym (out c))
        (record {
          count = z c;
          small = omega arith;
          off = λ e. absurd (ground arith);
          distinct = tt;
        });
  locks = λ l.
      subst (λ (lk : Lock). Guarded lk (λ c. false) (λ c. is_passing (m.pc c) l)) (sym (free l))
        (record {
          same = λ c. refl;
          locked = λ c h. absurd (ground arith);
          pass = λ c h. absurd (let x = passing-at m c l outside (out c) in ground arith);
          no_owner = λ c d h. refl;
          alone = λ c d h h'. absurd (let x = passing-at m c l outside (out c) in ground arith);
        });
}

-- A step that leaves the CPU's own state and the locks that it holds as they are.
pub Inv-move :
    (m : Machine) (held : ℕ → List ℕ) (c l : ℕ) (q : Cpu) (lk : Lock) (p : Pc)
    → Inv m held
    → Quiet q p (held c)
    → ((x : ℕ) → (l == x) ≡ false → is_passing p x ≡ is_passing (m.pc c) x)
    → Guarded lk (λ d. has l (held d)) (λ d. is_passing (update m.pc c p d) l)
    → Inv (record { cpu = update m.cpu c q; lock = update m.lock l lk; pc = update m.pc c p }) held
Inv-move m held c l q lk p v quiet others g =
    let stay = update-same held c in
    let moved : Machine = record {
      cpu = update m.cpu c q;
      lock = update m.lock l lk;
      pc = update m.pc c p;
    } in
    subst (Inv moved) stay (
      Inv-step m held c l q lk p (held c) v quiet (λ x ne. (refl, others x ne))
        (subst
          (λ (f : ℕ → List ℕ).
            Guarded lk (λ d. has l (f d)) (λ d. is_passing (update m.pc c p d) l))
          (sym stay) g))

-- A CPU that moves to a place that does not differ at `l`.
passing-still :
    (m : Machine) (c l : ℕ) (p : Pc)
    → is_passing p l ≡ is_passing (m.pc c) l
    → (d : ℕ) → is_passing (update m.pc c p d) l ≡ is_passing (m.pc d) l
passing-still m c l p e d = elim (Bool-cases (c == d)) [
  | inl u ↦ let same : c ≡ d = ground arith in rw u (e ∙ ap (λ (y : ℕ). is_passing (m.pc y) l) same)
  | inr u ↦ rw u refl
]

pub Guarded-still :
    (m : Machine) (held : ℕ → List ℕ) (c l : ℕ) (p : Pc)
    → Inv m held
    → is_passing p l ≡ is_passing (m.pc c) l
    → Guarded (m.lock l) (λ d. has l (held d)) (λ d. is_passing (update m.pc c p d) l)
Guarded-still m held c l p v e =
    Guarded-ext (m.lock l) (λ d. has l (held d)) (λ d. has l (held d)) (λ d. is_passing (m.pc d) l)
      (λ d. is_passing (update m.pc c p d) l) (λ d. refl) (passing-still m c l p e) (v.locks l)
