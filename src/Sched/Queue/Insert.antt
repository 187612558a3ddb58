-- ===== src/Sched/Queue/Insert.antt =====
-- Linking a process into a queue: the loop of add_to_queue against insertion into a list.
use mathlib.Core.List.{append_assoc, append-nil}
use os_project_mlfqschedulin.Base.{
  Option-cases, ℕ, zero, suc, ◌+◌, ◌<◌, ◌≤◌, ◌≡◌, refl, sym, subst, ◌∙◌, ◌≢◌, inl, inr, false, none,
  some, List, [], ◌∷◌, ◌++◌, arith, ◌==◌, if◌then◌else◌, Bool-cases, update, length, has,
  has-append, Distinct, Distinct-append,
}
use os_project_mlfqschedulin.Sched.{ProcList, nproc, levels, Proc, Links, ok}
use os_project_mlfqschedulin.Sched.Queue.{
  set_next, set_prev, set_head, set_tail, is_higher, insert_before, append_tail, insert_scan, enter,
  link_in,
}
use os_project_mlfqschedulin.Sched.Queue.Seg.{
  last_or-ne_none, Seg, Holds, last_or, first_or, frame, Seg-first, Seg-last, Seg-append, Seg-split,
  redirect_last, NextWritten, link_next-Seg, Rewired, last_or-has,
}

-- Where a process with the priority of `p` stands in a queue.
unfoldable pub insert_sorted : (ℕ → Proc) → ℕ → List ℕ → List ℕ
unfolding is_higher
insert_sorted proc p [] = p ∷ []
insert_sorted proc p (c ∷ cs) =
    if is_higher (proc p) (proc c) then p ∷ c ∷ cs else c ∷ insert_sorted proc p cs

module _ (l : Links) (lv p : ℕ) (lt : lv < levels) where
  module _ (c : ℕ) (pre post : List ℕ) (d : Distinct (pre ++ c ∷ post))
      (new : has p (pre ++ c ∷ post) ≡ false) (s : Holds l lv (pre ++ c ∷ post)) where
    abbrev l1 : Links
    l1 = set_prev p (last_or none pre) (set_next p (some c) l)

    before-Rewired :
        (m1 : Links)
        → NextWritten l1 m1 lv pre (some p)
        → Rewired l (set_prev c (some p) m1) lv (pre ++ p ∷ c ∷ post) (p ∷ pre ++ c ∷ post)
    unfolding set_next set_prev
    before-Rewired m1 w =
        let m : Links = set_prev c (some p) m1 in
        let (dpre, dpost, off) = Distinct-append pre (c ∷ post) d in
        let (left, right) =
          Seg-split l none (l.queues lv).head (l.queues lv).tail none pre (c ∷ post) s in
        let nc : has c pre ≡ false = ground (arith, off c) in
        let np : (has p pre ≡ false) × (has p post ≡ false) × ((c == p) ≡ false) =
          ground (arith, has-append p pre (c ∷ post)) in
        let nx : m1.next c ≡ l.next c = ground (arith, w.same_next c nc) in
        record {
          holds =
              Seg-append m none (m.queues lv).head (m.queues lv).tail none pre (p ∷ c ∷ post)
                (frame m1 m none (m1.queues lv).head (last_or none pre) (some p) pre w.seg
                  (λ x h. (refl, ground arith)))
                (
                  refl,
                  ground (arith, w.same_prev p),
                  (
                    ground (arith, w.same_next p),
                    ground arith,
                    rw (nx, w.same_tail)
                        (frame l m (some c) (l.next c) (l.queues lv).tail none post right.2
                          (λ x h. ground (arith, off x, w.same_next x, w.same_prev x))),
                  ),
                );
          away = λ x h. ground (arith, has-append x pre (c ∷ post), w.same_next x, w.same_prev x);
          others = λ v h. w.same_queues v h;
        }

    insert_before-Rewired :
        (m : Links) × (insert_before p c lv l ≡ ok m)
        × Rewired l m lv (pre ++ p ∷ c ∷ post) (p ∷ pre ++ c ∷ post)
    unfolding insert_before set_next set_prev
    insert_before-Rewired =
        let (dpre, dpost, off) = Distinct-append pre (c ∷ post) d in
        let (left, right) =
          Seg-split l none (l.queues lv).head (l.queues lv).tail none pre (c ∷ post) s in
        let left' : Seg l1 none (l.queues lv).head pre (last_or none pre) (some c) =
          frame l l1 none (l.queues lv).head (last_or none pre) (some c) pre left
            (λ x h. ground (arith, has-append p pre (c ∷ post))) in
        let (m1, run, w) = link_next-Seg l1 lv (some p) (some c) pre lt dpre left' in
        (set_prev c (some p) m1, rw (right.1, run), before-Rewired m1 w)

  -- Behind the last member of a queue that has one.
  append_tail-Rewired :
      (x : ℕ) (xs : List ℕ)
      → Distinct (x ∷ xs)
      → has p (x ∷ xs) ≡ false
      → l.next p ≡ none
      → Holds l lv (x ∷ xs)
      → (m : Links) × (append_tail p lv l ≡ ok m) × Rewired l m lv ((x ∷ xs) ++ p ∷ []) (p ∷ x ∷ xs)
  unfolding append_tail set_tail set_next set_prev
  append_tail-Rewired x xs d new null s = elim (Option-cases (last_or (some x) xs)) [
    | inl e ↦ absurd (last_or-ne_none x xs e)
    | inr (t, e) ↦
        let et : (l.queues lv).tail ≡ some t =
          Seg-last l none (l.queues lv).head (l.queues lv).tail none (x ∷ xs) s ∙ e in
        let s' : Seg l none (l.queues lv).head (x ∷ xs) (some t) none = rw et at s in
        let l1 : Links = set_prev p (some t) (set_next t (some p) l) in
        let ends : ProcList = record { head = (l.queues lv).head; tail = some p } in
        let m : Links = record l1 { queues = update l.queues lv ends } in
        let mem = last_or-has t x xs e in
        let qe : m.queues lv ≡ ends = ground arith in
        (
          m,
          ground arith,
          record {
            holds = rw qe (
                Seg-append m none (l.queues lv).head (some p) none (x ∷ xs) (p ∷ [])
                  (rw e (
                    frame (set_next t (some p) l) m none (l.queues lv).head (some t) (some p)
                      (x ∷ xs) (redirect_last l none (l.queues lv).head none (some p) t x xs d s')
                      (λ y h. (refl, ground arith))))
                  (refl, ground arith, (refl, ground arith)));
            away = λ y h. ground arith;
            others = λ v h. ground arith;
          },
        )
  ]

  -- The loop from the rest `ys` of the queue `xs` on.
  scan-Rewired :
      (proc : ℕ → Proc) (n : ℕ) (xs pre ys : List ℕ)
      → xs ≡ pre ++ ys
      → xs ≢ []
      → Distinct xs
      → has p xs ≡ false
      → l.next p ≡ none
      → Holds l lv xs
      → length ys < n
      → (m : Links) × (insert_scan proc n p lv (first_or none ys) l ≡ ok m)
        × Rewired l m lv (pre ++ insert_sorted proc p ys) (p ∷ xs)
  unfolding insert_scan insert_sorted
  scan-Rewired proc zero xs pre ys e ne d new null s f = absurd (omega arith)
  scan-Rewired proc (suc n) [] pre [] e ne d new null s f = absurd (ne refl)
  scan-Rewired proc (suc n) (x ∷ xs) pre [] e ne d new null s f =
      rw (← (e ∙ append-nil pre)) (append_tail-Rewired x xs d new null s)
  scan-Rewired proc (suc n) xs pre (c ∷ cs) e ne d new null s f =
      elim (Bool-cases (is_higher (proc p) (proc c))) [
        | inl y ↦
            rw (y, e)
              (insert_before-Rewired c pre cs (subst Distinct e d)
                (subst (λ zs. has p zs ≡ false) e new) (subst (Holds l lv) e s))
        | inr y ↦
            let s' : Holds l lv (pre ++ c ∷ cs) = subst (Holds l lv) e s in
            let right =
              (Seg-split l none (l.queues lv).head (l.queues lv).tail none pre (c ∷ cs) s').1 in
            let nx = Seg-first l (some c) (l.next c) (l.queues lv).tail none cs right.2 in
            let regroup : (zs : List ℕ) → (pre ++ c ∷ []) ++ zs ≡ pre ++ c ∷ zs =
              λ zs. append_assoc pre (c ∷ []) zs in
            let (m, run, r) =
              scan-Rewired proc n xs (pre ++ c ∷ []) cs (e ∙ sym (regroup cs)) ne d new null s
                (omega arith) in
            (
              m,
              rw (y, nx) run,
              rw y (subst (λ zs. Rewired l m lv zs (p ∷ xs)) (regroup (insert_sorted proc p cs)) r),
            )
      ]

enter-some :
    (proc : ℕ → Proc) (p lv x : ℕ) (l : Links)
    → (l.queues lv).head ≡ some x
    → enter proc p lv l ≡ insert_scan proc (nproc + 1) p lv (some x) l
unfolding enter
enter-some proc p lv x l e = rw (e, enter)

-- A process that is not in a queue of the levels 0 to 3, which holds a list of at most 64 processes,
-- each once, is linked in with the fuel given: the queue then holds the list with the process before
-- the first one that it is higher than. The links of all others and the other queues do not change.
pub link_in-Rewired :
    (l : Links) (lv p : ℕ)
    → lv < levels
    → (proc : ℕ → Proc) (xs : List ℕ) → Distinct xs
    → has p xs ≡ false
    → length xs ≤ nproc
    → Holds l lv xs
    → (m : Links) × (link_in proc p lv l ≡ ok m) × Rewired l m lv (insert_sorted proc p xs) (p ∷ xs)
unfolding link_in enter set_head set_tail set_next set_prev insert_sorted
link_in-Rewired l lv p lt proc [] d new few s =
    let q : ProcList = l.queues lv in
    let l0 : Links = set_next p none (set_prev p none l) in
    let l1 : Links = record l0 {
      queues = update l.queues lv (record { head = some p; tail = q.tail });
    } in
    let m : Links = record l1 {
      queues = update l1.queues lv (record { head = (l1.queues lv).head; tail = some p });
    } in
    (
      m,
      ground arith,
      record {
        holds = (ground arith, ground arith, (ground arith, ground arith));
        away = λ y h. ground arith;
        others = λ v h. ground arith;
      },
    )
link_in-Rewired l lv p lt proc (x ∷ xs) d new few s =
    let l0 : Links = set_next p none (set_prev p none l) in
    let s0 : Holds l0 lv (x ∷ xs) =
      frame l l0 none (l.queues lv).head (l.queues lv).tail none (x ∷ xs) s (λ y h. ground arith) in
    let (m, run, r) =
      scan-Rewired l0 lv p lt proc (nproc + 1) (x ∷ xs) [] (x ∷ xs) refl (λ h. cc) d new
        (ground arith) s0 (omega arith) in
    (
      m,
      enter-some proc p lv x l0 s.0 ∙ run,
      record { holds = r.holds; away = λ y h. ground (arith, r.away y); others = r.others },
    )
