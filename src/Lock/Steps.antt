-- ===== src/Lock/Steps.antt =====
-- The steps of CPUs that acquire and release the locks of srcs/spinlock.c.
use os_project_mlfqschedulin.Base.{
  ℕ, ◌+◌, ◌-◌, ◌^◌, ◌<◌, ◌≡◌, refl, sym, ap, Bool, false, ◌&&◌, Option, none, some, List, [], ◌∷◌,
  arith, ◌==◌, update, slt, inc, dec, erase, length,
}
use os_project_mlfqschedulin.Lock.{
  Cpu, Lock, initlock, pushcli, popcli, is_owner, holding, Pc, outside, spinning, taken, releasing,
  Machine, begin_acquire, try_lock, end_acquire, begin_release, end_release,
}

-- A CPU that is on its way through a call.
abbrev pub busy : Pc → ℕ
busy outside = 0
busy (spinning l) = 1
busy (taken l) = 1
busy (releasing l) = 1

-- The machines that the CPUs reach, with the locks that each one holds. They interleave at each access
-- to a lock. A CPU acquires fewer than 2^31 locks, and it turns its interrupts on and off itself where
-- it holds none.
pub data Reach : Machine → (ℕ → List ℕ) → Type 0 where
  boots :
      (m : Machine)
      → ((c : ℕ) → (m.cpu c).ncli ≡ 0)
      → ((l : ℕ) → m.lock l ≡ initlock)
      → ((c : ℕ) → m.pc c ≡ outside)
      → Reach m (λ c. [])
  begins :
      {m : Machine} {held : ℕ → List ℕ} (c l : ℕ) (m' : Machine)
      → Reach m held
      → m.pc c ≡ outside
      → length (held c) + 2 < 2 ^ 31
      → begin_acquire c l m ≡ some m'
      → Reach m' held
  tries :
      {m : Machine} {held : ℕ → List ℕ} (c l : ℕ)
      → Reach m held
      → m.pc c ≡ spinning l
      → Reach (try_lock c l m) held
  owns :
      {m : Machine} {held : ℕ → List ℕ} (c l : ℕ)
      → Reach m held
      → m.pc c ≡ taken l
      → Reach (end_acquire c l m) (update held c (l ∷ held c))
  disowns :
      {m : Machine} {held : ℕ → List ℕ} (c l : ℕ) (m' : Machine)
      → Reach m held
      → m.pc c ≡ outside
      → begin_release c l m ≡ some m'
      → Reach m' (update held c (erase l (held c)))
  frees :
      {m : Machine} {held : ℕ → List ℕ} (c l : ℕ) (m' : Machine)
      → Reach m held
      → m.pc c ≡ releasing l
      → end_release c l m ≡ some m'
      → Reach m' held
  switches :
      {m : Machine} {held : ℕ → List ℕ} (c : ℕ) (b : Bool)
      → Reach m held
      → (m.cpu c).ncli ≡ 0
      → Reach (record m { cpu = update m.cpu c (record (m.cpu c) { flag = b }) }) held

pub popcli-pushcli :
    (q : Cpu)
    → q.flag ≡ false
    → (q.ncli == 0) ≡ false
    → q.ncli + 1 < 2 ^ 31
    → popcli (pushcli q) ≡ some q
popcli-pushcli q off some_cli lt =
    let back : dec (inc q.ncli) ≡ q.ncli = ground arith in
    let pos : slt (dec (inc q.ncli)) 0 ≡ false = ground arith in
    rw (pos, back, some_cli) (ap (λ (b : Bool). some (record q { flag = b })) (sym off))

-- A call of holding() leaves a CPU whose interrupts are off as it is.
pub holding-off :
    (c : ℕ) (lk : Lock) (q : Cpu)
    → q.flag ≡ false
    → (q.ncli == 0) ≡ false
    → q.ncli + 1 < 2 ^ 31
    → holding c lk q ≡ some (q, lk.locked && is_owner c lk)
unfolding holding
holding-off c lk q off some_cli lt =
    ap (λ (r : Option Cpu). elim r [ none ↦ none | some x ↦ some (x, lk.locked && is_owner c lk) ])
      (popcli-pushcli q off some_cli lt)

-- The last popcli turns the interrupts on as they were.
pub popcli-run :
    (q : Cpu)
    → q.flag ≡ false
    → (q.ncli == 0) ≡ false
    → q.ncli < 2 ^ 31
    → popcli q
      ≡ some (record { ncli = q.ncli - 1; intena = q.intena; flag = q.ncli == 1 && q.intena })
popcli-run q off some_cli lt =
    let less : dec q.ncli ≡ q.ncli - 1 = ground arith in
    let pos : slt (q.ncli - 1) 0 ≡ false = ground arith in
    let last : (q.ncli - 1 == 0) ≡ (q.ncli == 1) = ground arith in rw (off, less, pos, last) refl
