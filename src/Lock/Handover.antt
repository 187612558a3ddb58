-- ===== src/Lock/Handover.antt =====
-- A lock of srcs/spinlock.c that is released goes to a CPU that waits for it.
use os_project_mlfqschedulin.Base.{
  ℕ, ◌≡◌, refl, sym, ap, ◌∙◌, inl, inr, true, false, none, some, List, ◌∷◌, arith, ◌==◌, Bool-cases,
  update, has, erase, ==_refl,
}
use os_project_mlfqschedulin.Lock.{
  outside, spinning, taken, releasing, Machine, begin_release, end_release, try_lock, end_acquire,
}
use os_project_mlfqschedulin.Lock.Steps.{Reach, disowns, frees, tries, owns}
use os_project_mlfqschedulin.Lock.Runs.{begin_release-run, end_release-run, popped}
use os_project_mlfqschedulin.Lock.Moves.{Quiet-at}
use os_project_mlfqschedulin.Lock.Invariant.{Reach-Inv}

-- The CPU `d` runs its release of `l` to the end, and then the next xchg of `c` takes the lock.
pub record Handed (m : Machine) (held : ℕ → List ℕ) (d c l : ℕ) : Type 0 where
  pub m1 : Machine
  pub m2 : Machine
  pub begins_release : begin_release d l m ≡ some m1
  pub ends_release : end_release d l m1 ≡ some m2
  pub frees_lock : (m2.lock l).locked ≡ false
  pub takes : (try_lock c l m2).pc c ≡ taken l
  pub held' : ℕ → List ℕ
  pub reached : Reach (end_acquire c l (try_lock c l m2)) held'
  pub owned : has l (held' c) ≡ true

apart : (m : Machine) (d c l : ℕ) → m.pc d ≡ outside → m.pc c ≡ spinning l → (d == c) ≡ false
apart m d c l out spin = elim (Bool-cases (d == c)) [
  | inr e ↦ e
  | inl e ↦
      let same : d ≡ c = ground arith in
      let bad : outside ≡ spinning l = sym out ∙ ap m.pc same ∙ spin in absurd (cc)
]

-- Where a CPU that is in no call holds the lock `l` and another one is in the loop of acquire for it,
-- both halves of the holder's release return, the lock is then free, and the next xchg of the waiting
-- CPU takes it: behind its acquire it holds the lock, on a machine that is reached.
pub Reach-Handed :
    (m : Machine) (held : ℕ → List ℕ) (d c l : ℕ)
    → Reach m held
    → m.pc d ≡ outside
    → has l (held d) ≡ true
    → m.pc c ≡ spinning l
    → Handed m held d c l
unfolding try_lock
Reach-Handed m held d c l r out here spin =
    let v = Reach-Inv r in
    let g = v.locks l in
    let ne = apart m d c l out spin in
    let m1 : Machine = record {
      cpu = update m.cpu d (m.cpu d);
      lock = update m.lock l (record (m.lock l) { owner = none });
      pc = update m.pc d (releasing l);
    } in
    let m2 : Machine = record {
      cpu = update m1.cpu d (popped (m1.cpu d));
      lock = update m1.lock l (record (m1.lock l) { locked = false });
      pc = update m1.pc d outside;
    } in
    let run1 : begin_release d l m ≡ some m1 =
      begin_release-run d l m (held d) (Quiet-at m held d outside v out) here (g.locked d here)
        (g.same d ∙ here) in
    let held1 : ℕ → List ℕ = update held d (erase l (held d)) in
    let r1 : Reach m1 held1 = disowns d l m1 r out run1 in
    let at1 : m1.pc d ≡ releasing l = rw (==_refl d) refl in
    let run2 : end_release d l m1 ≡ some m2 =
      end_release-run d l m1 (held1 d) (Quiet-at m1 held1 d (releasing l) (Reach-Inv r1) at1) in
    let r2 : Reach m2 held1 = frees d l m2 r1 at1 run2 in
    let free : (m2.lock l).locked ≡ false = rw (==_refl l) refl in
    let waits : m2.pc c ≡ spinning l = rw ne spin in
    let takes : (try_lock c l m2).pc c ≡ taken l = rw (==_refl c, free) refl in
    record {
      m1 = m1;
      m2 = m2;
      begins_release = run1;
      ends_release = run2;
      frees_lock = free;
      takes = takes;
      held' = update held1 c (l ∷ held1 c);
      reached = owns c l (tries c l r2 waits) takes;
      owned = rw (==_refl c, ==_refl l) refl;
    }
