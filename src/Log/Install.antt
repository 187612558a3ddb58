-- ===== src/Log/Install.antt =====
-- The loops of srcs/log.c that move blocks between the log and their homes, also where the machine
-- stops between two of their writes.
use os_project_mlfqschedulin.Base.{
  ℕ, zero, suc, ◌+◌, ◌-◌, ◌<◌, ◌≤◌, ◌≡◌, refl, ap, subst, ◌∙◌, inl, inr, Bool, true, false, ◌||◌,
  ◌&&◌, none, some, arith, ltb, leb, ◌==◌, if◌then◌else◌, Bool-cases, update,
}
use os_project_mlfqschedulin.Log.{
  Block, Store, Log, bread, bwrite, read_blocks, write_blocks, install_from, write_log_from,
}

-- A block outside the log.
abbrev pub is_home : Log → ℕ → Bool
is_home l b = ltb b l.start || leb (l.start + l.size) b

-- `b` is among the `n` blocks from index `i` on.
unfoldable pub among : ℕ → ℕ → (ℕ → ℕ) → ℕ → Bool
among zero i f b = false
among (suc n) i f b = (f i == b) || among n (i + 1) f b

-- The disk with `c j` written to the block `f j`, for `n` values of `j` from `i` on.
unfoldable pub installed : ℕ → ℕ → (ℕ → Block) → (ℕ → ℕ) → (ℕ → Block) → ℕ → Block
installed zero i c f d = d
installed (suc n) i c f d = installed n (i + 1) c f (update d (f i) (c i))

-- What a later disk has at a block depends on the block only if it is not written.
pub installed-same :
    (n i : ℕ) (c : ℕ → Block) (f : ℕ → ℕ) (d e : ℕ → Block) (b : ℕ)
    → (among n i f b ≡ false → d b ≡ e b)
    → installed n i c f d b ≡ installed n i c f e b
unfolding installed among
installed-same zero i c f d e b h = h refl
installed-same (suc n) i c f d e b h =
    installed-same n (i + 1) c f (update d (f i) (c i)) (update e (f i) (c i)) b λ out.
      elim (Bool-cases (f i == b)) [ inl eq ↦ rw eq refl | inr ne ↦ rw ne (h (rw (ne, out) refl)) ]

pub installed-away :
    (n i : ℕ) (c : ℕ → Block) (f : ℕ → ℕ) (d : ℕ → Block) (b : ℕ)
    → among n i f b ≡ false
    → installed n i c f d b ≡ d b
unfolding installed among
installed-away zero i c f d b h = refl
installed-away (suc n) i c f d b h =
    installed-away n (i + 1) c f (update d (f i) (c i)) b (ground arith) ∙ ground arith

-- Where every block gets the contents that `g` has for it, the disk is `g` there.
pub installed-by :
    (n i : ℕ) (c : ℕ → Block) (f : ℕ → ℕ) (d g : ℕ → Block) (b : ℕ)
    → ((j : ℕ) → i ≤ j → j < i + n → c j ≡ g (f j))
    → installed n i c f d b ≡ (if among n i f b then g b else d b)
unfolding installed among
installed-by zero i c f d g b h = refl
installed-by (suc n) i c f d g b h =
    installed-by n (i + 1) c f (update d (f i) (c i)) g b
      (λ j lo hi. h j (omega arith) (omega arith))
    ∙ elim (Bool-cases (f i == b)) [
      | inl e ↦
          let same : f i ≡ b = ground arith in
          let now : c i ≡ g b = h i (omega arith) (omega arith) ∙ ap g same in
          rw (e, now) (either (among n (i + 1) f b) (g b))
      | inr e ↦ rw e refl
    ]
  where
    either : (t : Bool) (x : Block) → (if t then x else x) ≡ x
    either true x = refl
    either false x = refl

-- Functions that agree on the `n` indices from `i` on are installed alike.
pub installed-ext :
    (n i : ℕ) (c c' : ℕ → Block) (f f' : ℕ → ℕ) (d : ℕ → Block) (b : ℕ)
    → ((j : ℕ) → i ≤ j → j < i + n → (c j ≡ c' j) × (f j ≡ f' j))
    → installed n i c f d b ≡ installed n i c' f' d b
unfolding installed
installed-ext zero i c c' f f' d b h = refl
installed-ext (suc n) i c c' f f' d b h =
    let now = h i (omega arith) (omega arith) in
    rw (now.0, now.1)
      (installed-ext n (i + 1) c c' f f' (update d (f' i) (c' i)) b
        (λ j lo hi. h j (omega arith) (omega arith)))

-- The header's block numbers survive their way through a block.
pub read_blocks-at :
    (n i : ℕ) (w : Block) (f : ℕ → ℕ) (j : ℕ)
    → read_blocks n i w f j ≡ (if leb i j && ltb j (i + n) then w (j + 1) else f j)
unfolding read_blocks
read_blocks-at zero i w f j = ground arith
read_blocks-at (suc n) i w f j =
    read_blocks-at n (i + 1) w (update f i (w (i + 1))) j ∙ ground arith

pub write_blocks-at :
    (n i : ℕ) (f : ℕ → ℕ) (w : Block) (j : ℕ)
    → write_blocks n i f w j ≡ (if leb (i + 1) j && ltb j (i + 1 + n) then f (j - 1) else w j)
unfolding write_blocks
write_blocks-at zero i f w j = ground arith
write_blocks-at (suc n) i f w j =
    write_blocks-at n (i + 1) f (update w (i + 1) (f i)) j ∙ ground arith

-- The log's own blocks are not pinned.
abbrev pub NotPinned : Log → Store → Type 0
NotPinned l s = (b : ℕ) → is_home l b ≡ false → s.dirty b ≡ none

pub bread-clean : (b : ℕ) (s : Store) → s.dirty b ≡ none → bread b s ≡ s.disk b
unfolding bread
bread-clean b s e = rw (e, bread) refl

pub bwrite-NotPinned :
    (l : Log) (b : ℕ) (x : Block) (s : Store) → NotPinned l s → NotPinned l (bwrite b x s)
unfolding bwrite
bwrite-NotPinned l b x s h c out = let e = h c out in ground arith

-- What install_from leaves: only homes change, and with enough power each of them is installed.
pub record Installs (n i : ℕ) (c : ℕ → Block) (l : Log) (s s' : Store) : Type 0 where
  pub away : (b : ℕ) → among n i l.lh.block b ≡ false → s'.disk b ≡ s.disk b
  pub full : n ≤ s.power → (b : ℕ) → s'.disk b ≡ installed n i c l.lh.block s.disk b
  pub power : s'.power ≡ s.power - n
  pub clean : NotPinned l s'

abbrev pub Homes : ℕ → ℕ → Log → Type 0
Homes n i l = (j : ℕ) → i ≤ j → j < i + n → is_home l (l.lh.block j) ≡ true

pub bwrite-on :
    (b : ℕ) (x : Block) (s : Store) → 0 < s.power → (bwrite b x s).disk ≡ update s.disk b x
unfolding bwrite
bwrite-on b x s lt = let e : (s.power == 0) ≡ false = ground arith in rw e refl

pub bwrite-other :
    (b : ℕ) (x : Block) (s : Store) (b' : ℕ)
    → (b == b') ≡ false
    → ((bwrite b x s).disk b' ≡ s.disk b') × ((bwrite b x s).dirty b' ≡ s.dirty b')
unfolding bwrite
bwrite-other b x s b' ne = elim (Bool-cases (s.power == 0)) [
  | inl e ↦ rw e (refl, refl)
  | inr e ↦ rw (e, ne) (refl, refl)
]

pub bwrite-power : (b : ℕ) (x : Block) (s : Store) → (bwrite b x s).power ≡ s.power - 1
unfolding bwrite
bwrite-power b x s = ground arith

home-apart :
    (l : Log) (b j : ℕ) → is_home l b ≡ true → j + 1 < l.size → (b == l.start + j + 1) ≡ false
home-apart l b j h lt = ground arith

log_block-inside : (l : Log) (j : ℕ) → j + 1 < l.size → is_home l (l.start + j + 1) ≡ false
log_block-inside l j lt = ground arith

pub install_from-Installs :
    (n i : ℕ) (c : ℕ → Block) (l : Log) (s : Store)
    → Homes n i l
    → i + n < l.size
    → NotPinned l s
    → ((j : ℕ) → i ≤ j → j < i + n → s.disk (l.start + j + 1) ≡ c j)
    → Installs n i c l s (install_from n i l s)
unfolding install_from installed among
install_from-Installs zero i c l s homes fits clean logged = record {
  away = λ b out. refl;
  full = λ le b. refl;
  power = omega arith;
  clean = clean;
}
install_from-Installs (suc n) i c l s homes fits clean logged =
    let b0 : ℕ = l.lh.block i in
    let x = bread (l.start + i + 1) s in
    let s1 = bwrite b0 x s in
    let home = homes i (omega arith) (omega arith) in
    let eq : x ≡ c i =
      bread-clean (l.start + i + 1) s (clean (l.start + i + 1) (log_block-inside l i (omega arith)))
      ∙ logged i (omega arith) (omega arith) in
    let w =
      install_from-Installs n (i + 1) c l s1 (λ j lo hi. homes j (omega arith) (omega arith))
        (omega arith) (bwrite-NotPinned l b0 x s clean)
        (λ j lo hi.
          (bwrite-other b0 x s (l.start + j + 1) (home-apart l b0 j home (omega arith))).0
          ∙ logged j (omega arith) (omega arith)) in
    let p = bwrite-power b0 x s in
    let q = w.power in
    record {
      away = λ b out. w.away b (ground arith) ∙ (bwrite-other b0 x s b (ground arith)).0;
      full = λ le b.
          (w.full (omega arith) b
            ∙ ap (λ d. installed n (i + 1) c l.lh.block d b)
                (bwrite-on b0 x s (omega arith) ∙ ap (update s.disk b0) eq));
      power = omega arith;
      clean = w.clean;
    }

-- What write_log_from leaves: only the log's blocks change, and with enough power they hold the
-- contents of the homes.
pub record Logs (n i : ℕ) (c : ℕ → Block) (l : Log) (s s' : Store) : Type 0 where
  pub away : (b : ℕ) → is_home l b ≡ true → (s'.disk b ≡ s.disk b) × (s'.dirty b ≡ s.dirty b)
  pub below : (b : ℕ) → b ≤ l.start + i → s'.disk b ≡ s.disk b
  pub full : n ≤ s.power → (j : ℕ) → i ≤ j → j < i + n → s'.disk (l.start + j + 1) ≡ c j
  pub power : s'.power ≡ s.power - n
  pub clean : NotPinned l s'

bread-same :
    (b : ℕ) (s s' : Store) → s'.disk b ≡ s.disk b → s'.dirty b ≡ s.dirty b → bread b s' ≡ bread b s
unfolding bread
bread-same b s s' e f = λ i. elim (f i) [ none ↦ e i | some x ↦ x ]

pub write_log_from-Logs :
    (n i : ℕ) (c : ℕ → Block) (l : Log) (s : Store)
    → Homes n i l
    → i + n < l.size
    → NotPinned l s
    → ((j : ℕ) → i ≤ j → j < i + n → bread (l.lh.block j) s ≡ c j)
    → Logs n i c l s (write_log_from n i l s)
unfolding write_log_from
write_log_from-Logs zero i c l s homes fits clean held = record {
  away = λ b h. (refl, refl);
  below = λ b le. refl;
  full = λ le j lo hi. absurd (omega arith);
  power = omega arith;
  clean = clean;
}
write_log_from-Logs (suc n) i c l s homes fits clean held =
    let b0 : ℕ = l.start + i + 1 in
    let x = bread (l.lh.block i) s in
    let s1 = bwrite b0 x s in
    let other = λ (b : ℕ) (h : is_home l b ≡ true). bwrite-other b0 x s b (ground arith) in
    let w =
      write_log_from-Logs n (i + 1) c l s1 (λ j lo hi. homes j (omega arith) (omega arith))
        (omega arith) (bwrite-NotPinned l b0 x s clean)
        (λ j lo hi.
          let o = other (l.lh.block j) (homes j (omega arith) (omega arith)) in
          bread-same (l.lh.block j) s s1 o.0 o.1 ∙ held j (omega arith) (omega arith)) in
    let p = bwrite-power b0 x s in
    let q = w.power in
    record {
      away = λ b h. ((w.away b h).0 ∙ (other b h).0, (w.away b h).1 ∙ (other b h).1);
      below = λ b le. w.below b (omega arith) ∙ (bwrite-other b0 x s b (ground arith)).0;
      full = λ le j lo hi. elim (Bool-cases (i == j)) [
        | inl e ↦
            let same : i ≡ j = ground arith in
            let here : s1.disk b0 ≡ c i =
              ap (λ d. d b0) (bwrite-on b0 x s (omega arith))
              ∙ (ground arith)
              ∙ held i (omega arith) (omega arith) in
            subst (λ (k : ℕ). (write_log_from n (i + 1) l s1).disk (l.start + k + 1) ≡ c k) same
              (w.below b0 (omega arith) ∙ here)
        | inr e ↦ w.full (omega arith) j (ground arith) (omega arith)
      ];
      power = omega arith;
      clean = w.clean;
    }

pub among-ext :
    (n i : ℕ) (f g : ℕ → ℕ) (b : ℕ)
    → ((j : ℕ) → i ≤ j → j < i + n → f j ≡ g j)
    → among n i f b ≡ among n i g b
unfolding among
among-ext zero i f g b h = refl
among-ext (suc n) i f g b h =
    rw
      (
        h i (omega arith) (omega arith),
        among-ext n (i + 1) f g b (λ j lo hi. h j (omega arith) (omega arith)),
      )
      refl

-- A block of the log is not among the homes.
pub among-inside :
    (n i : ℕ) (l : Log) (b : ℕ) → Homes n i l → is_home l b ≡ false → among n i l.lh.block b ≡ false
unfolding among
among-inside zero i l b homes h = refl
among-inside (suc n) i l b homes h = elim (Bool-cases (l.lh.block i == b)) [
  | inl e ↦
      let same : l.lh.block i ≡ b = ground arith in
      let bad : is_home l b ≡ true =
        subst (λ x. is_home l x ≡ true) same (homes i (omega arith) (omega arith)) in
      absurd (ground arith)
  | inr e ↦ rw e (among-inside n (i + 1) l b (λ j lo hi. homes j (omega arith) (omega arith)) h)
]

bwrite-off : (b : ℕ) (x : Block) (s : Store) → s.power ≡ 0 → bwrite b x s ≡ s
unfolding bwrite
bwrite-off b x s e = let off : (s.power == 0) ≡ true = ground arith in rw off refl

pub install_from-off : (n i : ℕ) (l : Log) (s : Store) → s.power ≡ 0 → install_from n i l s ≡ s
unfolding install_from
install_from-off zero i l s e = refl
install_from-off (suc n) i l s e =
    ap (install_from n (i + 1) l) (bwrite-off (l.lh.block i) _ s e)
    ∙ install_from-off n (i + 1) l s e
