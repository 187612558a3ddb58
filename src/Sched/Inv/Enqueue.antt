-- ===== src/Sched/Inv/Enqueue.antt =====
-- A process that becomes RUNNABLE enters a queue, one that ceases to be leaves it.
use os_project_mlfqschedulin.Base.{
  ℕ, ◌<◌, ◌≡◌, refl, sym, subst, ◌∙◌, ◌≢◌, inl, inr, true, false, ◌||◌, List, arith, slt, sle, ◌==◌,
  Bool-cases, update, has, has-erase, erase,
}
use os_project_mlfqschedulin.Sched.{nproc, levels, Proc, Links, Kernel, ok}
use os_project_mlfqschedulin.Sched.Queue.{link_in, unlink, add_to_queue, remove_from_queue}
use os_project_mlfqschedulin.Sched.Queue.Remove.{is_unlinked-false, is_unlinked-true}
use os_project_mlfqschedulin.Sched.Queue.Insert.{insert_sorted}
use os_project_mlfqschedulin.Sched.Queue.Linked.{
  Linked, Absent, has-insert_sorted, link_in-Linked, unlink-Linked,
}
use os_project_mlfqschedulin.Sched.Queue.Order.{
  SameKey, Sorted, Sorted-SameKey, Sorted-erase, insert_sorted-Sorted,
}
use os_project_mlfqschedulin.Sched.Inv.{is_runnable, is_live, Inv}

-- What a process may be given in place of `a` while the queues stay as they are.
pub record Kept (a b : Proc) : Type 0 where
  pub run : is_runnable b ≡ is_runnable a
  pub same_level : is_runnable a ≡ true → b.q_level ≡ a.q_level
  pub key : is_runnable a ≡ true → SameKey a b
  pub level : a.q_level < levels → b.q_level < levels
  pub stack : (is_live a.state ≡ true → a.kstack ≢ 0) → is_live b.state ≡ true → b.kstack ≢ 0

pub Kept-refl : (a : Proc) → Kept a a
Kept-refl a = record {
  run = refl;
  same_level = λ h. refl;
  key = λ h. record { io = refl; entry = refl };
  level = λ h. h;
  stack = λ h. h;
}

Sorted-update :
    (f : ℕ → Proc) (p : ℕ) (new : Proc) (xs : List ℕ)
    → has p xs ≡ false
    → Sorted f xs
    → Sorted (update f p new) xs
Sorted-update f p new xs h = Sorted-SameKey f (update f p new) xs (λ x m.
    let off : (p == x) ≡ false = ground arith in rw off (record { io = refl; entry = refl }))

module _ (f : ℕ → Proc) (l : Links) (qs : ℕ → List ℕ) (v : Inv f l qs) where
  open v use {linked, queued, complete, sorted, level, stack}

  pub Inv-Kept : (g : ℕ → Proc) → ((x : ℕ) → x < nproc → Kept (f x) (g x)) → Inv g l qs
  Inv-Kept g same = record {
    linked = linked;
    queued = λ lv x h.
        let k = same x (linked.bound lv x h) in
        let (r, e) = queued lv x h in (k.run ∙ r, k.same_level r ∙ e);
    complete = λ x b h.
        let k = same x b in
        let r : is_runnable (f x) ≡ true = sym k.run ∙ h in
        subst (λ lv. has x (qs lv) ≡ true) (sym (k.same_level r)) (complete x b r);
    sorted = λ lv.
        Sorted-SameKey f g (qs lv) (λ x h. (same x (linked.bound lv x h)).key (queued lv x h).0)
          (sorted lv);
    level = λ x b. (same x b).level (level x b);
    stack = λ x b. (same x b).stack (stack x b);
  }

  pub Absent-of_idle : (p : ℕ) → is_runnable (f p) ≡ false → Absent qs p
  Absent-of_idle p h lv = ground (arith, queued lv p)

  module _ (p : ℕ) (new : Proc) (b : p < nproc) (lt : new.q_level < levels)
      (st : is_live new.state ≡ true → new.kstack ≢ 0) where
    abbrev g : ℕ → Proc
    g = update f p new

    kept-Sorted : (u : ℕ) → has p (qs u) ≡ false → Sorted g (qs u)
    kept-Sorted u h = Sorted-update f p new (qs u) h (sorted u)

    stack_at : (x : ℕ) → x < nproc → is_live (g x).state ≡ true → (g x).kstack ≢ 0
    stack_at x bx = elim (Bool-cases (p == x)) [ inl e ↦ rw e st | inr e ↦ rw e (stack x bx) ]

    -- A change outside the queues.
    pub Inv-outside : is_runnable (f p) ≡ false → is_runnable new ≡ false → Inv g l qs
    Inv-outside old h = Inv-Kept g λ x bx. elim (Bool-cases (p == x)) [
      | inl e ↦
          let e' : p ≡ x = ground arith in
          rw e (
            subst (λ y. Kept (f y) new) e'
              (record {
                run = h ∙ sym old;
                same_level = λ r. cc;
                key = λ r. absurd (ground arith);
                level = λ r. lt;
                stack = λ r. st;
              }))
      | inr e ↦ rw e (Kept-refl (f x))
    ]

    pub Inv-enqueue :
        is_runnable (f p) ≡ false
        → is_runnable new ≡ true
        → (m : Links) × (link_in g p new.q_level l ≡ ok m)
          × Inv g m (update qs new.q_level (insert_sorted g p (qs new.q_level)))
    Inv-enqueue old h =
        let new_one = Absent-of_idle p old in
        let lv = new.q_level in
        let (m, run, k) = link_in-Linked l qs linked lv p lt g b new_one in
        let mem = λ (x : ℕ). has-insert_sorted g p x (qs lv) in
        (
          m,
          run,
          record {
            linked = k;
            queued = λ u x e. ground (arith, mem x, queued u x);
            complete = λ x bx e. ground (arith, mem x, complete x bx);
            sorted = λ u. elim (Bool-cases (lv == u)) [
              | inl e ↦ rw e (insert_sorted-Sorted g p (qs lv) (kept-Sorted lv (new_one lv)))
              | inr e ↦ rw e (kept-Sorted u (new_one u))
            ];
            level = λ x bx. ground (arith, level x bx);
            stack = stack_at;
          },
        )

    pub Inv-dequeue :
        is_runnable (f p) ≡ true
        → is_runnable new ≡ false
        → (m : Links) × (unlink p (f p).q_level l ≡ ok m)
          × Inv g m (update qs (f p).q_level (erase p (qs (f p).q_level)))
    Inv-dequeue old h =
        let lv = (f p).q_level in
        let (m, run, k) = unlink-Linked l qs linked lv p (level p b) (complete p b old) in
        let mem = λ (x : ℕ). has-erase p x (qs lv) (linked.distinct lv) in
        let gone = λ (x : ℕ). has-erase p p (qs x) (linked.distinct x) in
        (
          m,
          run,
          record {
            linked = k;
            queued = λ u x e. ground (arith, mem x, queued u x, linked.apart u lv x);
            complete = λ x bx e. ground (arith, mem x, complete x bx);
            sorted = λ u. elim (Bool-cases (lv == u)) [
              | inl e ↦ rw e (
                  Sorted-update f p new (erase p (qs lv)) (ground (arith, gone lv))
                    (Sorted-erase f p (qs lv) (sorted lv)))
              | inr e ↦ rw e (kept-Sorted u (ground (arith, linked.apart u lv p, complete p b old)))
            ];
            level = λ x bx. ground (arith, level x bx);
            stack = stack_at;
          },
        )

-- The two queue functions on the kernel, from what they do to the links.
pub add_to_queue-run :
    (p lv : ℕ) (k : Kernel) (m : Links)
    → lv < levels
    → let p' : Proc = record (k.proc p) { q_level = lv; queue_entry_time = k.ticks } in
      link_in (update k.proc p p') p lv k.links ≡ ok m
      → add_to_queue p lv k ≡ ok (record k { proc = update k.proc p p'; links = m })
unfolding add_to_queue
add_to_queue-run p lv k m lt e =
    let test : (slt lv 0 || sle levels lv) ≡ false = ground arith in rw (test, e)

-- A process that is not queued and has null links stays where it is.
pub remove_from_queue-idle :
    (p : ℕ) (k : Kernel) (qs : ℕ → List ℕ)
    → p < nproc
    → Inv k.proc k.links qs
    → is_runnable (k.proc p) ≡ false
    → remove_from_queue p k ≡ ok k
unfolding remove_from_queue
remove_from_queue-idle p k qs b v h =
    let off = Absent-of_idle k.proc k.links qs v p h in
    let lv = (k.proc p).q_level in
    let test =
      is_unlinked-true k.links lv p (qs lv) (v.level p b) (off lv) (v.linked.alone p off)
        (v.linked.holds lv (v.level p b)) in
    rw test

pub remove_from_queue-run :
    (p : ℕ) (k : Kernel) (m : Links) (qs : ℕ → List ℕ)
    → (k.proc p).q_level < levels
    → Linked k.links qs
    → has p (qs (k.proc p).q_level) ≡ true
    → unlink p (k.proc p).q_level k.links ≡ ok m
    → remove_from_queue p k ≡ ok (record k { links = m })
unfolding remove_from_queue
remove_from_queue-run p k m qs lt v h e =
    let lv = (k.proc p).q_level in
    let test = is_unlinked-false k.links lv p (qs lv) lt h (v.holds lv lt) in rw (test, e)
