-- ===== src/Lock/Runs.antt =====
-- The parts of acquire and release, srcs/spinlock.c, where a CPU stands right for them.
use os_project_mlfqschedulin.Base.{
  ℕ, ◌+◌, ◌-◌, ◌^◌, ◌<◌, ◌≡◌, refl, ap, ◌∙◌, Bool, true, false, ◌&&◌, not, Option, none, some, List,
  [], ◌∷◌, arith, ◌==◌, if◌then◌else◌, update, has, length,
}
use os_project_mlfqschedulin.Lock.{
  Cpu, Lock, pushcli, popcli, is_owner, holding, Pc, outside, spinning, releasing, Machine,
  begin_acquire, begin_release, end_release,
}
use os_project_mlfqschedulin.Lock.Steps.{busy, holding-off, popcli-run}
use os_project_mlfqschedulin.Lock.Guard.{Quiet}

-- The CPU's interrupts are off while it is busy or holds a lock.
pub Quiet-off :
    (q : Cpu) (p : Pc) (hs : List ℕ)
    → Quiet q p hs
    → (length hs + busy p == 0) ≡ false
    → (q.flag ≡ false) × ((q.ncli == 0) ≡ false)
Quiet-off q p hs h e =
    let same = h.count in
    let nz : (q.ncli == 0) ≡ false = ap (λ (y : ℕ). y == 0) same ∙ e in (h.off nz, nz)

pub has-length : (l : ℕ) (xs : List ℕ) (n : ℕ) → has l xs ≡ true → (length xs + n == 0) ≡ false
has-length l [] n h = absurd (ground arith)
has-length l (x ∷ xs) n h = ground arith

pub pushcli-Quiet :
    (q : Cpu) (hs : List ℕ) (l : ℕ)
    → Quiet q outside hs
    → length hs + 2 < 2 ^ 31
    → Quiet (pushcli q) (spinning l) hs
pushcli-Quiet q hs l h lt =
    let same = h.count in
    record { count = ground arith; small = ground arith; off = λ e. refl; distinct = h.distinct }

-- What holding() says behind its popcli.
abbrev tested : ℕ → Lock → Option Cpu → Option (Cpu × Bool)
tested c lk o = elim o [ none ↦ none | some x ↦ some (x, lk.locked && is_owner c lk) ]

-- begin_acquire and begin_release behind holding().
abbrev entered : ℕ → ℕ → Machine → Option (Cpu × Bool) → Option Machine
entered c l m r = elim r [
  | none ↦ none
  | some x ↦
      if x.1
      then none
      else some (record m { cpu = update m.cpu c (x.0); pc = update m.pc c (spinning l) })
]

abbrev left : ℕ → ℕ → Machine → Option (Cpu × Bool) → Option Machine
left c l m r = elim r [
  | none ↦ none
  | some x ↦
      if not (x.1)
      then none
      else some (record {
        cpu = update m.cpu c (x.0);
        lock = update m.lock l (record (m.lock l) { owner = none });
        pc = update m.pc c (releasing l);
      })
]

-- begin_acquire of a lock that the CPU does not hold.
pub begin_acquire-run :
    (c l : ℕ) (m : Machine) (hs : List ℕ)
    → Quiet (m.cpu c) outside hs
    → length hs + 2 < 2 ^ 31
    → is_owner c (m.lock l) ≡ false
    → begin_acquire c l m
      ≡ some
          (record m { cpu = update m.cpu c (pushcli (m.cpu c)); pc = update m.pc c (spinning l) })
unfolding begin_acquire holding
begin_acquire-run c l m hs h lt e =
    let h' = pushcli-Quiet (m.cpu c) hs l h lt in
    let (off, nz) = Quiet-off (pushcli (m.cpu c)) (spinning l) hs h' (ground arith) in
    let not_mine : ((m.lock l).locked && is_owner c (m.lock l)) ≡ false =
      rw e (both (m.lock l).locked) in
    ap (entered c l m) (holding-off c (m.lock l) (pushcli (m.cpu c)) off nz h'.small)
    ∙ ap
        (λ (b : Bool).
          if b
          then none
          else some (record m {
            cpu = update m.cpu c (pushcli (m.cpu c));
            pc = update m.pc c (spinning l);
          }))
        not_mine
  where
    both : (b : Bool) → (b && false) ≡ false
    both true = refl
    both false = refl

-- acquire panics on a lock that the CPU holds.
pub begin_acquire-panic :
    (c l : ℕ) (m : Machine)
    → (m.lock l).locked ≡ true
    → is_owner c (m.lock l) ≡ true
    → begin_acquire c l m ≡ none
unfolding begin_acquire holding
begin_acquire-panic c l m a b = by_pop (popcli (pushcli (pushcli (m.cpu c))))
  where
    by_pop : (o : Option Cpu) → entered c l m (tested c (m.lock l) o) ≡ none
    by_pop none = refl
    by_pop (some x) = rw (a, b) refl

-- release panics on a lock that the CPU does not hold.
pub begin_release-panic :
    (c l : ℕ) (m : Machine) → is_owner c (m.lock l) ≡ false → begin_release c l m ≡ none
unfolding begin_release holding
begin_release-panic c l m b = by_pop (popcli (pushcli (m.cpu c)))
  where
    both : (t : Bool) → (t && false) ≡ false
    both true = refl
    both false = refl

    by_pop : (o : Option Cpu) → left c l m (tested c (m.lock l) o) ≡ none
    by_pop none = refl
    by_pop (some x) = rw (b, both (m.lock l).locked) refl

pub begin_release-run :
    (c l : ℕ) (m : Machine) (hs : List ℕ)
    → Quiet (m.cpu c) outside hs
    → has l hs ≡ true
    → (m.lock l).locked ≡ true
    → is_owner c (m.lock l) ≡ true
    → begin_release c l m
      ≡ some (record {
        cpu = update m.cpu c (m.cpu c);
        lock = update m.lock l (record (m.lock l) { owner = none });
        pc = update m.pc c (releasing l);
      })
unfolding begin_release holding
begin_release-run c l m hs h here a b =
    let (off, nz) = Quiet-off (m.cpu c) outside hs h (has-length l hs 0 here) in
    let mine : ((m.lock l).locked && is_owner c (m.lock l)) ≡ true = rw (a, b) refl in
    ap (left c l m) (holding-off c (m.lock l) (m.cpu c) off nz h.small)
    ∙ ap
        (λ (t : Bool).
          if not t
          then none
          else some (record {
            cpu = update m.cpu c (m.cpu c);
            lock = update m.lock l (record (m.lock l) { owner = none });
            pc = update m.pc c (releasing l);
          }))
        mine

-- A CPU behind the popcli of its release.
abbrev pub popped : Cpu → Cpu
popped q = record { ncli = q.ncli - 1; intena = q.intena; flag = q.ncli == 1 && q.intena }

pub end_release-run :
    (c l : ℕ) (m : Machine) (hs : List ℕ)
    → Quiet (m.cpu c) (releasing l) hs
    → end_release c l m
      ≡ some (record {
        cpu = update m.cpu c (popped (m.cpu c));
        lock = update m.lock l (record (m.lock l) { locked = false });
        pc = update m.pc c outside;
      })
unfolding end_release
end_release-run c l m hs h =
    let (off, nz) = Quiet-off (m.cpu c) (releasing l) hs h (ground arith) in
    let small = h.small in
    ap
      (λ (o : Option Cpu). elim o as (λ (r : Option Cpu). Option Machine) [
        | none ↦ none
        | some q ↦ some (record {
          cpu = update m.cpu c q;
          lock = update m.lock l (record (m.lock l) { locked = false });
          pc = update m.pc c outside;
        })
      ])
      (popcli-run (m.cpu c) off nz (omega arith))

pub popped-Quiet :
    (q : Cpu) (l : ℕ) (hs : List ℕ) → Quiet q (releasing l) hs → Quiet (popped q) outside hs
popped-Quiet q l hs h =
    let count = h.count in
    let small = h.small in
    record {
      count = omega arith;
      small = omega arith;
      off = λ e. let more : (q.ncli == 1) ≡ false = ground arith in rw more refl;
      distinct = h.distinct;
    }
