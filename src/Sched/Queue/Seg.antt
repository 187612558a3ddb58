-- ===== src/Sched/Queue/Seg.antt =====
-- Doubly linked segments of the process table, and how the two link writes of srcs/proc.c act.
use os_project_mlfqschedulin.Base.{
  ℕ, ◌<◌, ◌≡◌, refl, sym, ◌≢◌, inl, inr, true, false, none, some, List, [], ◌∷◌, ◌++◌, arith, ◌==◌,
  Option-cases, update, has, Distinct,
}
use os_project_mlfqschedulin.Sched.{levels, Ptr, Links, ok}
use os_project_mlfqschedulin.Sched.Queue.{
  set_next, set_prev, set_head, set_tail, link_next, link_prev,
}

-- From `cur` the `next` pointers lead through `xs` to `stop`; the `prev` pointers lead back to
-- `prev`, and `last` is where the way back starts.
abbrev pub Seg : Links → Ptr → Ptr → List ℕ → Ptr → Ptr → Type 0
Seg l prev cur [] last stop = (prev ≡ last) × (cur ≡ stop)
Seg l prev cur (x ∷ xs) last stop =
    (cur ≡ some x) × (l.prev x ≡ prev) × Seg l (some x) (l.next x) xs last stop

-- The queue `lv` holds `xs`, head first.
abbrev pub Holds : Links → ℕ → List ℕ → Type 0
Holds l lv xs = Seg l none (l.queues lv).head xs (l.queues lv).tail none

abbrev pub last_or : Ptr → List ℕ → Ptr
last_or d [] = d
last_or d (x ∷ xs) = last_or (some x) xs

abbrev pub first_or : Ptr → List ℕ → Ptr
first_or d [] = d
first_or d (x ∷ xs) = some x

-- `m` has the links of `l` at the members of `xs`.
abbrev pub SameAt : Links → Links → List ℕ → Type 0
SameAt l m xs = (x : ℕ) → has x xs ≡ true → (m.next x ≡ l.next x) × (m.prev x ≡ l.prev x)

pub frame :
    (l m : Links) (prev cur last stop : Ptr) (xs : List ℕ)
    → Seg l prev cur xs last stop
    → SameAt l m xs
    → Seg m prev cur xs last stop
frame l m prev cur last stop [] s same = s
frame l m prev cur last stop (x ∷ xs) s same =
    let rest = frame l m (some x) (l.next x) last stop xs s.2 (λ y h. same y (ground arith)) in
    (s.0, ground (arith, same x), rw (same x (ground arith)).0 rest)

pub Seg-last :
    (l : Links) (prev cur last stop : Ptr) (xs : List ℕ)
    → Seg l prev cur xs last stop
    → last ≡ last_or prev xs
Seg-last l prev cur last stop [] s = ground arith
Seg-last l prev cur last stop (x ∷ xs) s = Seg-last l (some x) (l.next x) last stop xs s.2

pub Seg-first :
    (l : Links) (prev cur last stop : Ptr) (xs : List ℕ)
    → Seg l prev cur xs last stop
    → cur ≡ first_or stop xs
Seg-first l prev cur last stop [] s = s.1
Seg-first l prev cur last stop (x ∷ xs) s = s.0

pub Seg-append :
    (l : Links) (prev cur last stop : Ptr) (xs ys : List ℕ)
    → Seg l prev cur xs (last_or prev xs) (first_or stop ys)
    → Seg l (last_or prev xs) (first_or stop ys) ys last stop
    → Seg l prev cur (xs ++ ys) last stop
Seg-append l prev cur last stop [] ys s t = rw s.1 t
Seg-append l prev cur last stop (x ∷ xs) ys s t =
    (s.0, s.1, Seg-append l (some x) (l.next x) last stop xs ys s.2 t)

pub Seg-split :
    (l : Links) (prev cur last stop : Ptr) (xs ys : List ℕ)
    → Seg l prev cur (xs ++ ys) last stop
    → Seg l prev cur xs (last_or prev xs) (first_or stop ys)
      × Seg l (last_or prev xs) (first_or stop ys) ys last stop
Seg-split l prev cur last stop [] ys s =
    let e = Seg-first l prev cur last stop ys s in ((refl, e), rw (← e) s)
Seg-split l prev cur last stop (x ∷ xs) ys s =
    let (p, q) = Seg-split l (some x) (l.next x) last stop xs ys s.2 in ((s.0, s.1, p), q)

pub last_or-has : (b x : ℕ) (xs : List ℕ) → last_or (some x) xs ≡ some b → has b (x ∷ xs) ≡ true
last_or-has b x [] h = ground arith
last_or-has b x (y ∷ ys) h = ground (arith, last_or-has b y ys h)

pub last_or-ne_none : (x : ℕ) (xs : List ℕ) → last_or (some x) xs ≢ none
last_or-ne_none x [] h = cc
last_or-ne_none x (y ∷ ys) h = last_or-ne_none y ys h

-- A write to the `next` link of the last member moves the segment's end.
pub redirect_last :
    (l : Links) (prev cur stop q : Ptr) (b x : ℕ) (xs : List ℕ)
    → Distinct (x ∷ xs)
    → Seg l prev cur (x ∷ xs) (some b) stop
    → Seg (set_next b q l) prev cur (x ∷ xs) (some b) q
unfolding set_next
redirect_last l prev cur stop q b x [] d s = (s.0, s.1, (s.2.0, ground arith))
redirect_last l prev cur stop q b x (y ∷ ys) d s =
    let rest = redirect_last l (some x) (l.next x) stop q b y ys d.1 s.2 in
    let mem =
      last_or-has b y ys (sym (Seg-last l (some x) (l.next x) (some b) stop (y ∷ ys) s.2)) in
    let off : (b == x) ≡ false = ground arith in (s.0, s.1, rw off rest)

-- What link_next leaves behind in the queue `lv`.
pub record NextWritten (l m : Links) (lv : ℕ) (xs : List ℕ) (q : Ptr) : Type 0 where
  pub seg : Seg m none (m.queues lv).head xs (last_or none xs) q
  pub same_prev : (x : ℕ) → m.prev x ≡ l.prev x
  pub same_next : (x : ℕ) → has x xs ≡ false → m.next x ≡ l.next x
  pub same_tail : (m.queues lv).tail ≡ (l.queues lv).tail
  pub same_queues : (v : ℕ) → v ≢ lv → m.queues v ≡ l.queues v

-- link_next behind the last member, which writes the head of the queue where there is no member.
pub link_next-Seg :
    (l : Links) (lv : ℕ) (q stop : Ptr) (xs : List ℕ)
    → lv < levels
    → Distinct xs
    → Seg l none (l.queues lv).head xs (last_or none xs) stop
    → (m : Links) × (link_next (last_or none xs) q lv l ≡ ok m) × NextWritten l m lv xs q
unfolding link_next set_head set_next
link_next-Seg l lv q stop [] lt d s = (
  record l { queues = update l.queues lv (record { head = q; tail = (l.queues lv).tail }) },
  ground arith,
  record {
    seg = ground arith;
    same_prev = λ x. refl;
    same_next = λ x h. refl;
    same_tail = ground arith;
    same_queues = λ v h. ground arith;
  },
)
link_next-Seg l lv q stop (x ∷ xs) lt d s = elim (Option-cases (last_or (some x) xs)) [
  | inl e ↦ absurd (last_or-ne_none x xs e)
  | inr (b, e) ↦
      let mem = last_or-has b x xs e in
      let s' : Seg l none (l.queues lv).head (x ∷ xs) (some b) stop = rw e at s in
      (
        set_next b q l,
        rw e,
        record {
          seg = rw e (redirect_last l none (l.queues lv).head stop q b x xs d s');
          same_prev = λ y. refl;
          same_next = λ y h. ground arith;
          same_tail = refl;
          same_queues = λ v h. refl;
        },
      )
]

-- What link_prev leaves behind in the queue `lv`.
pub record PrevWritten (l m : Links) (lv : ℕ) (xs : List ℕ) (q : Ptr) : Type 0 where
  pub seg : Seg m q (first_or none xs) xs (m.queues lv).tail none
  pub same_next : (x : ℕ) → m.next x ≡ l.next x
  pub same_prev : (x : ℕ) → has x xs ≡ false → m.prev x ≡ l.prev x
  pub same_head : (m.queues lv).head ≡ (l.queues lv).head
  pub same_queues : (v : ℕ) → v ≢ lv → m.queues v ≡ l.queues v

-- link_prev before the first member, which writes the tail of the queue where there is none.
pub link_prev-Seg :
    (l : Links) (lv : ℕ) (prev q : Ptr) (xs : List ℕ)
    → lv < levels
    → Distinct xs
    → Seg l prev (first_or none xs) xs (l.queues lv).tail none
    → (m : Links) × (link_prev (first_or none xs) q lv l ≡ ok m) × PrevWritten l m lv xs q
unfolding link_prev set_tail set_prev
link_prev-Seg l lv prev q [] lt d s = (
  record l { queues = update l.queues lv (record { head = (l.queues lv).head; tail = q }) },
  ground arith,
  record {
    seg = ground arith;
    same_next = λ x. refl;
    same_prev = λ x h. refl;
    same_head = ground arith;
    same_queues = λ v h. ground arith;
  },
)
link_prev-Seg l lv prev q (x ∷ xs) lt d s =
    let m : Links = set_prev x q l in
    (
      m,
      refl,
      record {
        seg = (
          refl,
          ground arith,
          frame l m (some x) (l.next x) (l.queues lv).tail none xs s.2
              (λ y h. (refl, ground arith)),
        );
        same_next = λ y. refl;
        same_prev = λ y h. ground arith;
        same_head = refl;
        same_queues = λ v h. refl;
      },
    )

-- `m` has the list `ys` in the queue `lv`, and differs from `l` at most in that queue's ends and in
-- the links of the members of `touched`.
pub record Rewired (l m : Links) (lv : ℕ) (ys touched : List ℕ) : Type 0 where
  pub holds : Holds m lv ys
  pub away : (x : ℕ) → has x touched ≡ false → (m.next x ≡ l.next x) × (m.prev x ≡ l.prev x)
  pub others : (v : ℕ) → v ≢ lv → m.queues v ≡ l.queues v
