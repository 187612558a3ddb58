-- ===== src/Lock/Invariant.antt =====
-- Mutual exclusion and the interrupt flag under the locks of srcs/spinlock.c.
use os_project_mlfqschedulin.Base.{
  ℕ, ◌+◌, ◌^◌, ◌<◌, ◌≡◌, refl, sym, ap, subst, ◌∙◌, inl, inr, Bool, true, false, none, some, List,
  ◌∷◌, arith, ◌==◌, if◌then◌else◌, Bool-cases, update, has, erase, length, has-erase,
  erase-Distinct, ==_refl,
}
use os_project_mlfqschedulin.Lock.{
  Cpu, Lock, pushcli, is_owner, Pc, outside, spinning, taken, releasing, Machine, begin_acquire,
  try_lock, end_acquire, begin_release, end_release,
}
use os_project_mlfqschedulin.Lock.Steps.{
  Reach, boots, begins, tries, owns, disowns, frees, switches,
}
use os_project_mlfqschedulin.Lock.Runs.{
  pushcli-Quiet, begin_acquire-run, begin_acquire-panic, begin_release-panic, begin_release-run,
  popped, end_release-run, popped-Quiet,
}
use os_project_mlfqschedulin.Lock.Guard.{
  is_passing, Quiet, Guarded, Inv, length-erase, Guarded-taken, Guarded-owned, Guarded-disowned,
  Guarded-freed,
}
use os_project_mlfqschedulin.Lock.Moves.{
  update-same, Inv-step, some_once, none_some, Quiet-at, passing-at, passing-update, Inv-boots,
  Inv-move, Guarded-still,
}

Inv-begins :
    (m : Machine) (held : ℕ → List ℕ) (c l : ℕ) (m' : Machine)
    → Inv m held
    → m.pc c ≡ outside
    → length (held c) + 2 < 2 ^ 31
    → begin_acquire c l m ≡ some m'
    → Inv m' held
Inv-begins m held c l m' v out lt run = elim (Bool-cases (is_owner c (m.lock l))) [
  | inl e ↦
      let g = v.locks l in
      none_some m' (begin_acquire c l m)
        (begin_acquire-panic c l m (g.locked c (sym (g.same c) ∙ e)) e) run
  | inr e ↦
      let h = Quiet-at m held c outside v out in
      let q : Cpu = pushcli (m.cpu c) in
      let made : Inv
          (record {
            cpu = update m.cpu c q;
            lock = update m.lock l (m.lock l);
            pc = update m.pc c (spinning l);
          })
          held =
        Inv-move m held c l q (m.lock l) (spinning l) v (pushcli-Quiet (m.cpu c) (held c) l h lt)
          (λ x ne. sym (passing-at m c x outside out))
          (Guarded-still m held c l (spinning l) v (sym (passing-at m c l outside out))) in
      subst (λ (x : Machine). Inv x held)
        (some_once (record m { cpu = update m.cpu c q; pc = update m.pc c (spinning l) }) m'
          (sym (begin_acquire-run c l m (held c) h lt e) ∙ run))
        (subst
          (λ (f : ℕ → Lock).
            Inv (record { cpu = update m.cpu c q; lock = f; pc = update m.pc c (spinning l) }) held)
          (update-same m.lock l) made)
]

abbrev tried : ℕ → ℕ → Machine → Bool → Machine
tried c l m b = record m {
  lock = update m.lock l (record (m.lock l) { locked = true });
  pc = update m.pc c (if b then spinning l else taken l);
}

try_lock-tried : (c l : ℕ) (m : Machine) → try_lock c l m ≡ tried c l m (m.lock l).locked
unfolding try_lock
try_lock-tried c l m = refl

-- A step that does not touch the CPU's own state.
Inv-cpu :
    (m : Machine) (held : ℕ → List ℕ) (c : ℕ) (f : ℕ → Lock) (p : ℕ → Pc)
    → Inv (record { cpu = update m.cpu c (m.cpu c); lock = f; pc = p }) held
    → Inv (record { cpu = m.cpu; lock = f; pc = p }) held
Inv-cpu m held c f p v =
    subst (λ (g : ℕ → Cpu). Inv (record { cpu = g; lock = f; pc = p }) held) (update-same m.cpu c) v

Inv-tries :
    (m : Machine) (held : ℕ → List ℕ) (c l : ℕ)
    → Inv m held
    → m.pc c ≡ spinning l
    → Inv (try_lock c l m) held
Inv-tries m held c l v at =
    let lk : Lock = record (m.lock l) { locked = true } in
    let h = Quiet-at m held c (spinning l) v at in
    let still : Quiet (m.cpu c) (taken l) (held c) = record {
      count = h.count;
      small = h.small;
      off = h.off;
      distinct = h.distinct;
    } in
    subst (λ (x : Machine). Inv x held) (sym (try_lock-tried c l m))
      (elim (Bool-cases (m.lock l).locked) [
        | inl e ↦
            let same : m.lock l ≡ lk = ap (λ (b : Bool). record (m.lock l) { locked = b }) e in
            subst (λ (b : Bool). Inv (tried c l m b) held) (sym e)
              (Inv-cpu m held c (update m.lock l lk) (update m.pc c (spinning l)) (
                Inv-move m held c l (m.cpu c) lk (spinning l) v h
                  (λ x ne. sym (passing-at m c x (spinning l) at))
                  (subst
                    (λ (y : Lock).
                      Guarded y (λ d. has l (held d))
                        (λ d. is_passing (update m.pc c (spinning l) d) l))
                    same
                    (Guarded-still m held c l (spinning l) v
                      (sym (passing-at m c l (spinning l) at))))))
        | inr e ↦
            subst (λ (b : Bool). Inv (tried c l m b) held) (sym e)
              (Inv-cpu m held c (update m.lock l lk) (update m.pc c (taken l)) (
                Inv-move m held c l (m.cpu c) lk (taken l) v still
                  (λ x ne. ne ∙ sym (passing-at m c x (spinning l) at))
                  (Guarded-taken c (m.lock l) (λ d. has l (held d)) (λ d. is_passing (m.pc d) l)
                    (λ d. is_passing (update m.pc c (taken l) d) l) e
                    (λ d. passing-update m c l (taken l) true d (==_refl l)) (v.locks l))))
      ])

-- Whether a CPU holds `l`, where only `c` changes what it holds.
held-update :
    (held : ℕ → List ℕ) (c l : ℕ) (hs : List ℕ) (b : Bool) (d : ℕ)
    → has l hs ≡ b
    → has l (update held c hs d) ≡ (if c == d then b else has l (held d))
held-update held c l hs b d e = elim (Bool-cases (c == d)) [ inl u ↦ rw u e | inr u ↦ rw u refl ]

Inv-owns :
    (m : Machine) (held : ℕ → List ℕ) (c l : ℕ)
    → Inv m held
    → m.pc c ≡ taken l
    → Inv (end_acquire c l m) (update held c (l ∷ held c))
unfolding end_acquire
Inv-owns m held c l v at =
    let h = Quiet-at m held c (taken l) v at in
    let g = v.locks l in
    let here : is_passing (m.pc c) l ≡ true = passing-at m c l (taken l) at ∙ ==_refl l in
    let count = h.count in
    let lk : Lock = record (m.lock l) { owner = some c } in
    let quiet : Quiet (m.cpu c) outside (l ∷ held c) = record {
      count = omega arith;
      small = h.small;
      off = h.off;
      distinct = (g.no_owner c c here, h.distinct);
    } in
    Inv-cpu m (update held c (l ∷ held c)) c (update m.lock l lk) (update m.pc c outside) (
      Inv-step m held c l (m.cpu c) lk outside (l ∷ held c) v quiet
        (λ x ne. (rw ne refl, sym (passing-at m c x (taken l) at ∙ ne)))
        (Guarded-owned c (m.lock l) (λ d. has l (held d))
          (λ d. has l (update held c (l ∷ held c) d)) (λ d. is_passing (m.pc d) l)
          (λ d. is_passing (update m.pc c outside d) l) here
          (λ d. held-update held c l (l ∷ held c) true d (ground arith))
          (λ d. passing-update m c l outside false d refl) g))

Inv-disowns :
    (m : Machine) (held : ℕ → List ℕ) (c l : ℕ) (m' : Machine)
    → Inv m held
    → m.pc c ≡ outside
    → begin_release c l m ≡ some m'
    → Inv m' (update held c (erase l (held c)))
Inv-disowns m held c l m' v at run = elim (Bool-cases (has l (held c))) [
  | inr e ↦
      none_some m' (begin_release c l m) (begin_release-panic c l m ((v.locks l).same c ∙ e)) run
  | inl e ↦
      let h = Quiet-at m held c outside v at in
      let g = v.locks l in
      let lk : Lock = record (m.lock l) { owner = none } in
      let less = length-erase l (held c) e in
      let count = h.count in
      let without : (x : ℕ)
          → has x (erase l (held c)) ≡ (if l == x then false else has x (held c)) =
        λ x. has-erase l x (held c) h.distinct in
      let quiet : Quiet (m.cpu c) (releasing l) (erase l (held c)) = record {
        count = omega arith;
        small = h.small;
        off = h.off;
        distinct = erase-Distinct l (held c) h.distinct;
      } in
      subst (λ (x : Machine). Inv x (update held c (erase l (held c))))
        (some_once
          (record {
            cpu = update m.cpu c (m.cpu c);
            lock = update m.lock l lk;
            pc = update m.pc c (releasing l);
          })
          m' (sym (begin_release-run c l m (held c) h e (g.locked c e) (g.same c ∙ e)) ∙ run))
        (Inv-step m held c l (m.cpu c) lk (releasing l) (erase l (held c)) v quiet
          (λ x ne. (without x ∙ rw ne refl, ne ∙ sym (passing-at m c x outside at)))
          (Guarded-disowned c (m.lock l) (λ d. has l (held d))
            (λ d. has l (update held c (erase l (held c)) d)) (λ d. is_passing (m.pc d) l)
            (λ d. is_passing (update m.pc c (releasing l) d) l) e
            (λ d. held-update held c l (erase l (held c)) false d (without l ∙ rw (==_refl l) refl))
            (λ d. passing-update m c l (releasing l) true d (==_refl l)) g))
]

Inv-frees :
    (m : Machine) (held : ℕ → List ℕ) (c l : ℕ) (m' : Machine)
    → Inv m held
    → m.pc c ≡ releasing l
    → end_release c l m ≡ some m'
    → Inv m' held
Inv-frees m held c l m' v at run =
    let h = Quiet-at m held c (releasing l) v at in
    let lk : Lock = record (m.lock l) { locked = false } in
    subst (λ (x : Machine). Inv x held)
      (some_once
        (record {
          cpu = update m.cpu c (popped (m.cpu c));
          lock = update m.lock l lk;
          pc = update m.pc c outside;
        })
        m' (sym (end_release-run c l m (held c) h) ∙ run))
      (Inv-move m held c l (popped (m.cpu c)) lk outside v (popped-Quiet (m.cpu c) l (held c) h)
        (λ x ne. sym (passing-at m c x (releasing l) at ∙ ne))
        (Guarded-freed c (m.lock l) (λ d. has l (held d)) (λ d. is_passing (m.pc d) l)
          (λ d. is_passing (update m.pc c outside d) l)
          (passing-at m c l (releasing l) at ∙ ==_refl l)
          (λ d. passing-update m c l outside false d refl) (v.locks l)))

Inv-switches :
    (m : Machine) (held : ℕ → List ℕ) (c : ℕ) (b : Bool)
    → Inv m held
    → (m.cpu c).ncli ≡ 0
    → Inv (record m { cpu = update m.cpu c (record (m.cpu c) { flag = b }) }) held
Inv-switches m held c b v z = record {
  cpus = λ d. elim (Bool-cases (c == d)) [
    | inl e ↦
        let same : c ≡ d = ground arith in
        let h = v.cpus c in
        rw e (
          subst (λ (y : ℕ). Quiet (record (m.cpu c) { flag = b }) (m.pc y) (held y)) same
            (record {
              count = h.count;
              small = h.small;
              off = λ n. absurd (ground arith);
              distinct = h.distinct;
            }))
    | inr e ↦ rw e (v.cpus d)
  ];
  locks = v.locks;
}

-- Every machine that the CPUs reach is in order.
pub Reach-Inv : {m : Machine} {held : ℕ → List ℕ} → Reach m held → Inv m held
Reach-Inv (boots m z free out) = Inv-boots m z free out
Reach-Inv (begins {m = m} {held = held} c l m' r out lt run) =
    Inv-begins m held c l m' (Reach-Inv r) out lt run
Reach-Inv (tries {m = m} {held = held} c l r at) = Inv-tries m held c l (Reach-Inv r) at
Reach-Inv (owns {m = m} {held = held} c l r at) = Inv-owns m held c l (Reach-Inv r) at
Reach-Inv (disowns {m = m} {held = held} c l m' r out run) =
    Inv-disowns m held c l m' (Reach-Inv r) out run
Reach-Inv (frees {m = m} {held = held} c l m' r at run) =
    Inv-frees m held c l m' (Reach-Inv r) at run
Reach-Inv (switches {m = m} {held = held} c b r z) = Inv-switches m held c b (Reach-Inv r) z
