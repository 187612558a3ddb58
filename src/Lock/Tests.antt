-- ===== src/Lock/Tests.antt =====
-- One CPU takes a lock that is free, and another one waits for it.
use os_project_mlfqschedulin.Base.{ℕ, ◌≡◌, refl, true, false, some, List, [], ◌∷◌, arith, update}
use os_project_mlfqschedulin.Lock.{
  initlock, outside, spinning, taken, Machine, begin_acquire, try_lock, end_acquire,
}
use os_project_mlfqschedulin.Lock.Steps.{Reach, boots, begins, tries, owns}
use os_project_mlfqschedulin.Lock.Handover.{Handed, Reach-Handed}

abbrev at_boot : Machine
at_boot = record {
  cpu = λ c. record { ncli = 0; intena = false; flag = true };
  lock = λ l. initlock;
  pc = λ c. outside;
}

abbrev begun : Machine
begun = record at_boot {
  cpu = update at_boot.cpu 1 (record { ncli = 1; intena = true; flag = false });
  pc = update at_boot.pc 1 (spinning 5);
}

begin_acquire-boot : begin_acquire 1 5 at_boot ≡ some begun
unfolding begin_acquire
begin_acquire-boot = refl

abbrev won : Machine
won = try_lock 1 5 begun

won-taken : won.pc 1 ≡ taken 5
unfolding try_lock
won-taken = refl

abbrev held_one : ℕ → List ℕ
held_one = update (λ c. []) 1 (5 ∷ [])

held-Reach : Reach (end_acquire 1 5 won) held_one
held-Reach =
    owns 1 5
      (tries 1 5
        (begins 1 5 begun (boots at_boot (λ c. refl) (λ l. refl) (λ c. refl)) refl (omega arith)
          begin_acquire-boot)
        refl)
      won-taken

held-outside : (end_acquire 1 5 won).pc 1 ≡ outside
unfolding end_acquire try_lock
held-outside = refl

-- Another CPU waits for the lock.
abbrev waiting : Machine
waiting = record (end_acquire 1 5 won) {
  cpu = update (end_acquire 1 5 won).cpu 2 (record { ncli = 1; intena = true; flag = false });
  pc = update (end_acquire 1 5 won).pc 2 (spinning 5);
}

begin_acquire-waiting : begin_acquire 2 5 (end_acquire 1 5 won) ≡ some waiting
unfolding begin_acquire end_acquire try_lock
begin_acquire-waiting = refl

held-outside_two : (end_acquire 1 5 won).pc 2 ≡ outside
unfolding end_acquire try_lock
held-outside_two = refl

Reach-Handed_example : Handed waiting held_one 1 2 5
Reach-Handed_example =
    Reach-Handed waiting held_one 1 2 5
      (begins 2 5 waiting held-Reach held-outside_two (omega arith) begin_acquire-waiting)
      held-outside refl refl
