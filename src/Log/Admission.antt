-- ===== src/Log/Admission.antt =====
-- The space that begin_op of srcs/log.c reserves, and log_write within it.
use os_project_mlfqschedulin.Base.{
  ℕ, zero, suc, ◌+◌, ◌-◌, ◌*◌, ◌<◌, ◌≤◌, ◌≡◌, refl, sym, ap, subst, ◌∙◌, ◌⊎◌, inl, inr, Bool, true,
  false, ◌||◌, Option, none, some, arith, ltb, leb, ◌==◌, if◌then◌else◌, Bool-cases, update, dec,
}
use os_project_mlfqschedulin.Log.{
  Block, Store, Log, logsize, maxopblocks, bread, clear_head, begin_op, end_op, end_commit,
  find_block, log_write,
}
use os_project_mlfqschedulin.Log.Install.{is_home, Homes}
use os_project_mlfqschedulin.Log.Crash.{IsReady}

-- The uses of the log in which no operation logs more than the 10 blocks that begin_op reserves for it,
-- with the number of blocks that the operations under way may still log.
pub data Uses : Log → ℕ → Type 0 where
  fresh :
      (start size : ℕ)
      → Uses
          (record {
            start = start;
            size = size;
            outstanding = 0;
            committing = false;
            lh = record { n = 0; block = λ i. 0 };
          })
          0
  begins :
      {l : Log} {left : ℕ} (l' : Log)
      → Uses l left
      → begin_op l ≡ some l'
      → Uses l' (left + maxopblocks)
  writes :
      {l : Log} {left : ℕ} (b : ℕ) (x : Block) (s s' : Store) (l' : Log)
      → Uses l (suc left)
      → log_write b x l s ≡ some (l', s')
      → Uses l' left
  -- An operation ends that could still log `r` blocks.
  ends :
      {l : Log} {all : ℕ} (left r : ℕ) (l' : Log) (last : Bool)
      → Uses l all
      → all ≡ left + r
      → 0 < l.outstanding
      → left ≤ (l.outstanding - 1) * maxopblocks
      → end_op l ≡ some (l', last)
      → Uses l' left
  commits :
      {l : Log} {left : ℕ}
      → Uses l left
      → l.committing ≡ true
      → Uses (end_commit (clear_head l)) left

record Admitted (l : Log) (left : ℕ) : Type 0 where
  room : l.lh.n + left ≤ logsize
  owned : left ≤ l.outstanding * maxopblocks
  few : l.outstanding ≤ 3
  quiet : l.committing ≡ true → l.outstanding ≡ 0

begin_op-Admitted :
    (l l' : Log) (left : ℕ)
    → Admitted l left
    → begin_op l ≡ some l'
    → Admitted l' (left + maxopblocks)
unfolding begin_op
begin_op-Admitted l l' left h e =
    elim (Bool-cases (l.committing || ltb logsize (l.lh.n + (l.outstanding + 1) * maxopblocks))) [
      | inl t ↦ absurd (ground arith)
      | inr t ↦ ground arith
    ]

find_block-le : (n i b : ℕ) (f : ℕ → ℕ) → (i ≤ find_block n i b f) × (find_block n i b f ≤ i + n)
unfolding find_block
find_block-le zero i b f = (omega arith, omega arith)
find_block-le (suc n) i b f = ground (arith, find_block-le n (i + 1) b f)

find_block-hit : (n i b : ℕ) (f : ℕ → ℕ) → find_block n i b f < i + n → f (find_block n i b f) ≡ b
unfolding find_block
find_block-hit zero i b f lt = absurd (omega arith)
find_block-hit (suc n) i b f lt = elim (Bool-cases (f i == b)) [
  | inl e ↦ rw e (ground arith)
  | inr e ↦
      let later : find_block n (i + 1) b f < i + 1 + n = ground arith in
      rw e (find_block-hit n (i + 1) b f later)
]

-- What a call of log_write that does not panic does: the buffer gets its contents and no other one
-- changes, the header lists the block and all that it listed before, and gains at most one.
pub record Logged (b : ℕ) (x : Block) (l l' : Log) (s s' : Store) : Type 0 where
  pub held : bread b s' ≡ x
  pub others : (c : ℕ) → (b == c) ≡ false → bread c s' ≡ bread c s
  pub disk : s'.disk ≡ s.disk
  pub logged : (j : ℕ) × (j < l'.lh.n) × (l'.lh.block j ≡ b)
  pub kept : (j : ℕ) → j < l.lh.n → l'.lh.block j ≡ l.lh.block j
  pub grows : (l.lh.n ≤ l'.lh.n) × (l'.lh.n ≤ l.lh.n + 1)
  pub same :
      (l'.start ≡ l.start)
      × (l'.size ≡ l.size)
      × (l'.outstanding ≡ l.outstanding)
      × (l'.committing ≡ l.committing)
  pub ready : is_home l b ≡ true → IsReady l s → IsReady l' s'

-- The log and the buffers behind log_write.
abbrev grown : ℕ → Log → Log
grown b l =
    let i = find_block l.lh.n 0 b l.lh.block in
    record l {
      lh = record { n = if i == l.lh.n then l.lh.n + 1 else l.lh.n; block = update l.lh.block i b };
    }

abbrev pinned : ℕ → Block → Store → Store
pinned b x s = record s { dirty = update s.dirty b (some x) }

-- The tests of log_write for its panics.
abbrev is_refused : Log → Bool
is_refused l = leb logsize l.lh.n || leb (l.size - 1) l.lh.n || ltb l.outstanding 1

log_write-run :
    (b : ℕ) (x : Block) (l : Log) (s : Store)
    → log_write b x l s ≡ (if is_refused l then none else some (grown b l, pinned b x s))
unfolding log_write
log_write-run b x l s = refl

grown-Homes :
    (b : ℕ) (l : Log) → is_home l b ≡ true → Homes l.lh.n 0 l → Homes (grown b l).lh.n 0 (grown b l)
grown-Homes b l home h j lo hi =
    let le = find_block-le l.lh.n 0 b l.lh.block in
    elim (Bool-cases (find_block l.lh.n 0 b l.lh.block == j)) [
      | inl e ↦ rw e home
      | inr e ↦ rw e (h j lo (ground arith))
    ]

grown-Logged :
    (b : ℕ) (x : Block) (l : Log) (s : Store)
    → is_refused l ≡ false
    → Logged b x l (grown b l) s (pinned b x s)
unfolding bread
grown-Logged b x l s t =
    let i = find_block l.lh.n 0 b l.lh.block in
    let le = find_block-le l.lh.n 0 b l.lh.block in
    let grows : (l.lh.n ≤ (grown b l).lh.n) × ((grown b l).lh.n ≤ l.lh.n + 1) = ground arith in
    record {
      held = let e : (b == b) ≡ true = ground arith in rw (e, bread) refl;
      others = λ c ne. rw (ne, bread) refl;
      disk = refl;
      logged = let hit : (i == i) ≡ true = ground arith in (i, ground arith, rw hit refl);
      kept = λ j lt. elim (Bool-cases (i == j)) [
        | inl e ↦
            let same : i ≡ j = ground arith in
            let old : l.lh.block i ≡ b = find_block-hit l.lh.n 0 b l.lh.block (omega arith) in
            rw e (sym old ∙ ap l.lh.block same)
        | inr e ↦ rw e refl
      ];
      grows = grows;
      same = (refl, refl, refl, refl);
      ready = λ home r. record {
        fits = ground arith;
        homes = grown-Homes b l home r.homes;
        clean = λ c out. let ne : (b == c) ≡ false = apart b c home out in rw ne (r.clean c out);
        clear = r.clear;
      };
    }
  where
    apart : (b c : ℕ) → is_home l b ≡ true → is_home l c ≡ false → (b == c) ≡ false
    apart b c h o = elim (Bool-cases (b == c)) [
      | inl e ↦
          let same : b ≡ c = ground arith in
          let bad = subst (λ y. is_home l y ≡ true) same h in absurd (ground arith)
      | inr e ↦ e
    ]

some-injective : {A : Type 0} {a b : A} → ◌≡◌ {A = Option A} (some a) (some b) → a ≡ b
some-injective e = cc

log_write-Logged :
    (b : ℕ) (x : Block) (l l' : Log) (s s' : Store)
    → log_write b x l s ≡ some (l', s')
    → Logged b x l l' s s'
log_write-Logged b x l l' s s' e = elim (Bool-cases (is_refused l)) [
  | inl t ↦
      let clash : ◌≡◌ {A = Option (Log × Store)} none (some (l', s')) =
        sym (log_write-run b x l s ∙ rw t refl) ∙ e in
      absurd (cc)
  | inr t ↦
      let eq : (grown b l, pinned b x s) ≡ (l', s') =
        some-injective (sym (log_write-run b x l s ∙ rw t refl) ∙ e) in
      subst (λ (y : Log × Store). Logged b x l y.0 s y.1) eq (grown-Logged b x l s t)
]

end_op-Admitted :
    (l l' : Log) (all left r : ℕ) (last : Bool)
    → Admitted l all
    → all ≡ left + r
    → 0 < l.outstanding
    → left ≤ (l.outstanding - 1) * maxopblocks
    → end_op l ≡ some (l', last)
    → Admitted l' left
unfolding end_op
end_op-Admitted l l' all left r last h e lt le run =
    let few = h.few in
    let room = h.room in
    let fewer : dec l.outstanding ≡ l.outstanding - 1 = omega arith in
    elim (Bool-cases l.committing) [
      | inl t ↦ absurd (ground (arith, h.quiet t))
      | inr t ↦ elim (Bool-cases (dec l.outstanding == 0)) [
        | inl z ↦
            let now : ◌≡◌ {A = Option (Log × Bool)}
                (some (record l { outstanding = dec l.outstanding; committing = true }, true))
                (some (l', last)) =
              sym (rw (t, z) refl) ∙ run in
            subst (λ (y : Log × Bool). Admitted y.0 left) (some-injective now)
              (record {
                room = omega arith;
                owned = ground arith;
                few = omega arith;
                quiet = λ q. ground arith;
              })
        | inr z ↦
            let now : ◌≡◌ {A = Option (Log × Bool)}
                (some (record l { outstanding = dec l.outstanding }, false)) (some (l', last)) =
              sym (rw (t, z) refl) ∙ run in
            subst (λ (y : Log × Bool). Admitted y.0 left) (some-injective now)
              (record {
                room = omega arith;
                owned = ground arith;
                few = omega arith;
                quiet = λ q. absurd (ground arith);
              })
      ]
    ]

end_commit-Admitted :
    (l : Log) (left : ℕ)
    → Admitted l left
    → l.committing ≡ true
    → Admitted (end_commit (clear_head l)) left
unfolding end_commit
end_commit-Admitted l left h q =
    let room = h.room in
    record { room = omega arith; owned = h.owned; few = h.few; quiet = λ t. absurd (ground arith) }

Uses-Admitted : {l : Log} {left : ℕ} → Uses l left → Admitted l left
Uses-Admitted (fresh start size) = record {
  room = omega arith;
  owned = omega arith;
  few = omega arith;
  quiet = λ q. refl;
}
Uses-Admitted (begins {l} {left} l' u e) = begin_op-Admitted l l' left (Uses-Admitted u) e
Uses-Admitted (writes {l} {left} b x s s' l' u e) =
    written l left b x s s' l' (Uses-Admitted u) (log_write-Logged b x l l' s s' e)
  where
    written :
        (l : Log) (left b : ℕ) (x : Block) (s s' : Store) (l' : Log)
        → Admitted l (suc left)
        → Logged b x l l' s s'
        → Admitted l' left
    written l left b x s s' l' h w =
        let grows = w.grows in
        let (a, z, o, c) = w.same in
        let room = h.room in
        let owned = h.owned in
        let few = h.few in
        record {
          room = omega arith;
          owned = omega arith;
          few = omega arith;
          quiet = λ q. o ∙ h.quiet (sym c ∙ q);
        }
Uses-Admitted (ends {l} {all} left r l' last u e lt le run) =
    end_op-Admitted l l' all left r last (Uses-Admitted u) e lt le run
Uses-Admitted (commits {l} {left} u q) = end_commit-Admitted l left (Uses-Admitted u) q

-- On a log of 30 blocks or more with its header, a call of log_write within what its operation may still
-- log panics only if the log has 30 blocks and 29 of them are taken, so never on a longer one. Otherwise
-- it lists the block in the header, with all that were listed before in their places and at most one
-- more; pins the buffer with its contents, changes no other buffer and nothing on disk, and keeps a
-- log that can be committed so, if the block lies outside the log.
pub log_write-Succeeds :
    (l : Log) (left b : ℕ) (x : Block) (s : Store)
    → Uses l (suc left)
    → logsize ≤ l.size
    → ((log_write b x l s ≡ none) × (l.size ≡ 30) × (l.lh.n ≡ 29))
      ⊎ ((l' : Log) × (s' : Store) × (log_write b x l s ≡ some (l', s')) × Logged b x l l' s s')
log_write-Succeeds l left b x s u le =
    let h = Uses-Admitted u in
    let room = h.room in
    let owned = h.owned in
    elim (Bool-cases (is_refused l)) [
      | inl t ↦ inl (log_write-run b x l s ∙ rw t refl, ground arith, ground arith)
      | inr t ↦
          inr (grown b l, pinned b x s, log_write-run b x l s ∙ rw t refl, grown-Logged b x l s t)
    ]

-- Within these uses end_op panics only where no operation is under way.
pub end_op-Succeeds :
    (l : Log) (left : ℕ)
    → Uses l left
    → 0 < l.outstanding
    → (l' : Log) × (end_op l ≡ some (l', l.outstanding == 1))
      × (l'.committing ≡ (l.outstanding == 1))
unfolding end_op
end_op-Succeeds l left u lt =
    let h = Uses-Admitted u in
    let few = h.few in
    let free : l.committing ≡ false = elim (Bool-cases l.committing) [
      | inl t ↦ absurd (ground (arith, h.quiet t))
      | inr t ↦ t
    ] in
    let test : (dec l.outstanding == 0) ≡ (l.outstanding == 1) = ground arith in
    elim (Bool-cases (l.outstanding == 1)) [
      | inl z ↦ (
        record l { outstanding = dec l.outstanding; committing = true },
        rw (free, test, z) refl,
        rw z refl,
      )
      | inr z ↦ (record l { outstanding = dec l.outstanding }, rw (free, test, z) refl, rw z free)
    ]
