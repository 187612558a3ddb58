-- ===== src/Sched/Queue/Remove.antt =====
-- Taking a process out of its queue, by the links alone.
use os_project_mlfqschedulin.Base.{
  subst, ℕ, ◌<◌, ◌≡◌, refl, sym, ap, ◌∙◌, true, false, none, some, List, [], ◌∷◌, ◌++◌, arith, has,
  has-append, Distinct, Distinct-append, Cut, cut, erase, erase-middle,
}
use os_project_mlfqschedulin.Sched.{levels, Ptr, Links, ok}
use os_project_mlfqschedulin.Sched.Queue.{set_next, set_prev, unlink, queue_at, is_unlinked}
use os_project_mlfqschedulin.Sched.Queue.Seg.{
  Seg, Holds, last_or, last_or-ne_none, first_or, frame, Seg-first, Seg-append, Seg-split,
  NextWritten, link_next-Seg, PrevWritten, link_prev-Seg, Rewired,
}

-- Both link fields of `p` are null.
abbrev pub Cleared : Links → ℕ → Type 0
Cleared m p = (m.next p ≡ none) × (m.prev p ≡ none)

module _ (l : Links) (lv p : ℕ) (pre post : List ℕ) (lt : lv < levels)
    (d : Distinct (pre ++ p ∷ post)) (s : Holds l lv (pre ++ p ∷ post)) where
  abbrev b : Ptr
  b = last_or none pre

  abbrev a : Ptr
  a = first_or none post

  apart :
      Distinct pre
      × Distinct post
      × (has p pre ≡ false)
      × (has p post ≡ false)
      × ((x : ℕ) → has x pre ≡ true → has x post ≡ false)
  apart =
      let (dpre, dpost, off) = Distinct-append pre (p ∷ post) d in
      (dpre, dpost.1, ground (arith, off p), dpost.0, λ x h. ground (arith, off x))

  split :
      Seg l none (l.queues lv).head pre b (some p)
      × (l.prev p ≡ b)
      × Seg l (some p) a post (l.queues lv).tail none
      × (l.next p ≡ a)
  split =
      let (left, right) =
        Seg-split l none (l.queues lv).head (l.queues lv).tail none pre (p ∷ post) s in
      let e = Seg-first l (some p) (l.next p) (l.queues lv).tail none post right.2 in
      (left, right.1, rw (← e) right.2, e)

  module _ (m1 m2 : Links) (w1 : NextWritten l m1 lv pre a) (w2 : PrevWritten m1 m2 lv post b) where
    abbrev m3 : Links
    m3 = set_prev p none (set_next p none m2)

    unlinked-Rewired : Rewired l m3 lv (pre ++ post) (pre ++ p ∷ post)
    unfolding set_next set_prev
    unlinked-Rewired =
        let (dpre, dpost, ppre, ppost, off) = apart in
        record {
          holds =
              Seg-append m3 none (m3.queues lv).head (m3.queues lv).tail none pre post
                (rw w2.same_head (
                  frame m1 m3 none (m1.queues lv).head b a pre w1.seg
                    (λ x h. ground (arith, w2.same_next x, w2.same_prev x, off x))))
                (frame m2 m3 b a (m2.queues lv).tail none post w2.seg (λ x h. ground arith));
          away = λ x h. ground (
            arith,
            has-append x pre (p ∷ post),
            w1.same_next x,
            w1.same_prev x,
            w2.same_next x,
            w2.same_prev x,
          );
          others = λ v h. w2.same_queues v h ∙ w1.same_queues v h;
        }

  unlink-append :
      (m : Links) × (unlink p lv l ≡ ok m)
      × Rewired l m lv (pre ++ post) (pre ++ p ∷ post)
      × Cleared m p
  unfolding unlink
  unlink-append =
      let (dpre, dpost, ppre, ppost, off) = apart in
      let (left, eb, right, ea) = split in
      let (m1, e1, w1) = link_next-Seg l lv a (some p) pre lt dpre left in
      let right' : Seg m1 (some p) a post (m1.queues lv).tail none = rw w1.same_tail (
        frame l m1 (some p) a (l.queues lv).tail none post right
          (λ x h. ground (arith, w1.same_next x, w1.same_prev x, off x))) in
      let (m2, e2, w2) = link_prev-Seg m1 lv (some p) b post lt dpost right' in
      (
        set_prev p none (set_next p none m2),
        rw (eb, ea, e1, w1.same_next p ppre, ea, w1.same_prev p, eb, e2) refl,
        unlinked-Rewired m1 m2 w1 w2,
        ground arith,
      )

-- From a queue of the levels 0 to 3 that holds a list with `p` in it, each process once, unlink takes
-- `p` and no other process, and clears the two links of `p`. The links of all processes outside the
-- list and the other queues do not change.
pub unlink-Rewired :
    (l : Links) (lv p : ℕ) (xs : List ℕ)
    → lv < levels
    → Distinct xs
    → has p xs ≡ true
    → Holds l lv xs
    → (m : Links) × (unlink p lv l ≡ ok m) × Rewired l m lv (erase p xs) xs × Cleared m p
unlink-Rewired l lv p xs lt d h s =
    let c : Cut p xs = cut p xs h in
    let d' : Distinct (c.before ++ p ∷ c.after) = subst Distinct c.whole d in
    let s' : Holds l lv (c.before ++ p ∷ c.after) = subst (Holds l lv) c.whole s in
    let e : erase p xs ≡ c.before ++ c.after =
      ap (erase p) c.whole
      ∙ erase-middle p c.before c.after (apart l lv p c.before c.after lt d' s').2 in
    let (m, run, r, k) = unlink-append l lv p c.before c.after lt d' s' in
    (m, run, rw e (subst (Rewired l m lv (c.before ++ c.after)) (sym c.whole) r), k)

-- A member of the queue is found to be linked, whatever its place.
pub is_unlinked-false :
    (l : Links) (lv p : ℕ) (xs : List ℕ)
    → lv < levels
    → has p xs ≡ true
    → Holds l lv xs
    → is_unlinked p lv l ≡ ok false
unfolding is_unlinked queue_at
is_unlinked-false l lv p xs lt h s =
    let c : Cut p xs = cut p xs h in by_before c.before (subst (Holds l lv) c.whole s)
  where
    by_before :
        (pre : List ℕ) → Holds l lv (pre ++ p ∷ (cut p xs h).after) → is_unlinked p lv l ≡ ok false
    by_before [] t = ground arith
    by_before (x ∷ pre) t = ground (
      arith,
      last_or-ne_none x pre,
      (Seg-split l none (l.queues lv).head (l.queues lv).tail none (x ∷ pre)
          (p ∷ (cut p xs h).after) t).1,
    )

-- A process with null links that is in no queue is found to be alone.
pub is_unlinked-true :
    (l : Links) (lv p : ℕ) (xs : List ℕ)
    → lv < levels
    → has p xs ≡ false
    → Cleared l p
    → Holds l lv xs
    → is_unlinked p lv l ≡ ok true
unfolding is_unlinked queue_at
is_unlinked-true l lv p [] lt h c s = ground arith
is_unlinked-true l lv p (x ∷ xs) lt h c s = ground arith
