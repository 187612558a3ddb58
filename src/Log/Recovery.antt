-- ===== src/Log/Recovery.antt =====
-- Recovery of srcs/log.c, also where the machine stops again during it.
use os_project_mlfqschedulin.Base.{
  ℕ, ◌+◌, ◌<◌, ◌≤◌, ◌≡◌, refl, sym, ap, subst, ◌∙◌, inl, inr, Bool, true, false, none, arith, ◌==◌,
  if◌then◌else◌, Bool-cases, update,
}
use os_project_mlfqschedulin.Log.{
  Block, Store, Log, bread, bwrite, read_head, head_block, write_head, write_blocks, install_trans,
  recover_from_log, initlog,
}
use os_project_mlfqschedulin.Log.Install.{
  among-inside, among-ext, is_home, among, installed, installed-same, installed-ext, read_blocks-at,
  Installs, Homes, install_from-Installs,
}

-- The machine after a restart, which stops again after `p` writes.
abbrev pub boot : (ℕ → Block) → ℕ → Store
boot d p = record { disk = d; dirty = λ b. none; power = p }

-- The disk that initlog leaves.
abbrev pub recovered : ℕ → ℕ → (ℕ → Block) → ℕ → ℕ → Block
recovered start size d p = (initlog start size (boot d p)).1.disk

-- The log that the header block of a disk describes.
abbrev pub log_of : ℕ → ℕ → (ℕ → Block) → Log
log_of start size d = record {
  start = start;
  size = size;
  outstanding = 0;
  committing = false;
  lh = record { n = d start 0; block = λ j. d start (j + 1) };
}

-- The header on a disk has block numbers of homes, and no more than the log has room for.
pub record HasLog (start size : ℕ) (d : ℕ → Block) : Type 0 where
  pub fits : d start 0 < size
  pub homes : (j : ℕ) → j < d start 0 → is_home (log_of start size d) (d start (j + 1)) ≡ true

-- The disk with the logged blocks installed.
abbrev pub replayed : ℕ → (ℕ → Block) → ℕ → Block
replayed start d = installed (d start 0) 0 (λ j. d (start + j + 1)) (λ j. d start (j + 1)) d

-- The header that recovery reads.
read : ℕ → ℕ → (ℕ → Block) → ℕ → Log
read start size d p =
    read_head
      (record {
        start = start;
        size = size;
        outstanding = 0;
        committing = false;
        lh = record { n = 0; block = λ i. 0 };
      })
      (boot d p)

-- The store before recovery clears the header.
middle : ℕ → ℕ → (ℕ → Block) → ℕ → Store
middle start size d p = install_trans (read start size d p) (boot d p)

read-block :
    (start size : ℕ) (d : ℕ → Block) (p j : ℕ)
    → j < d start 0
    → (read start size d p).lh.block j ≡ d start (j + 1)
unfolding read read_head bread
read-block start size d p j lt = read_blocks-at (d start 0) 0 (d start) (λ i. 0) j ∙ ground arith

middle-Installs :
    (start size : ℕ) (d : ℕ → Block) (p : ℕ)
    → HasLog start size d
    → Installs
        (d start 0)
        0
        (λ j. d (start + j + 1))
        (read start size d p)
        (boot d p)
        (middle start size d p)
unfolding middle install_trans read read_head bread
middle-Installs start size d p h =
    install_from-Installs (d start 0) 0 (λ j. d (start + j + 1)) _ (boot d p)
      (λ j lo hi. rw (read-block start size d p j (omega arith)) (h.homes j (omega arith)))
      (let lt = h.fits in omega arith) (λ b out. refl) (λ j lo hi. refl)

read-Homes :
    (start size : ℕ) (d : ℕ → Block) (p : ℕ)
    → HasLog start size d
    → Homes (d start 0) 0 (read start size d p)
unfolding read read_head
read-Homes start size d p h j lo hi =
    rw (read-block start size d p j (omega arith)) (h.homes j (omega arith))

-- Recovery writes the header last, if the machine still runs then.
recovered-run :
    (start size : ℕ) (d : ℕ → Block) (p b : ℕ)
    → recovered start size d p b ≡ (
        let m = middle start size d p in
        if m.power == 0
        then m.disk b
        else update m.disk start
            (head_block (record { n = 0; block = (read start size d p).lh.block }) (bread start m))
            b)
unfolding initlog recover_from_log middle read write_head bwrite read_head
recovered-run start size d p b = ground arith

-- Every home ends as the header says, with power for all the writes.
pub recovered-replayed :
    (start size : ℕ) (d : ℕ → Block) (p b : ℕ)
    → HasLog start size d
    → d start 0 ≤ p
    → is_home (log_of start size d) b ≡ true
    → recovered start size d p b ≡ replayed start d b
recovered-replayed start size d p b h le home =
    let w = middle-Installs start size d p h in
    let lt = h.fits in
    let apart : (start == b) ≡ false = ground arith in
    recovered-run start size d p b
    ∙ rw apart (either ((middle start size d p).power == 0) ((middle start size d p).disk b))
    ∙ w.full le b
    ∙ installed-ext (d start 0) 0 _ _ _ (λ j. d start (j + 1)) d b
        (λ j lo hi. (refl, read-block start size d p j (omega arith)))
  where
    either : (t : Bool) (x : Block) → (if t then x else x) ≡ x
    either true x = refl
    either false x = refl

-- Where the header is clear, recovery changes no home.
pub recovered-clear :
    (start size : ℕ) (d : ℕ → Block) (p b : ℕ)
    → 0 < size
    → d start 0 ≡ 0
    → is_home (log_of start size d) b ≡ true
    → recovered start size d p b ≡ d b
unfolding installed
recovered-clear start size d p b lt e home =
    recovered-replayed start size d p b
      (record { fits = omega arith; homes = λ j hi. absurd (omega arith) }) (omega arith) home
    ∙ rw e refl

-- A clear header has no block.
pub cleared_words : (f : ℕ → ℕ) (w : Block) → head_block (record { n = 0; block = f }) w 0 ≡ 0
unfolding head_block write_blocks
cleared_words f w = refl

-- An interrupted recovery leaves the header, or clears it behind the last home.
data Interrupted (start size : ℕ) (d d' : ℕ → Block) : Type 0 where
  stopped :
      ((x : ℕ) → is_home (log_of start size d) x ≡ false → d' x ≡ d x)
      → ((x : ℕ) → among (d start 0) 0 (λ j. d start (j + 1)) x ≡ false → d' x ≡ d x)
      → Interrupted start size d d'
  finished :
      d' start 0 ≡ 0
      → ((x : ℕ) → is_home (log_of start size d) x ≡ true → d' x ≡ replayed start d x)
      → Interrupted start size d d'

recovered-Interrupted :
    (start size : ℕ) (d : ℕ → Block) (q : ℕ)
    → HasLog start size d
    → Interrupted start size d (recovered start size d q)
recovered-Interrupted start size d q h =
    let m = middle start size d q in
    let w = middle-Installs start size d q h in
    let power = w.power in
    let ext = λ (x : ℕ).
      among-ext (d start 0) 0 (read start size d q).lh.block (λ j. d start (j + 1)) x
        (λ j lo hi. read-block start size d q j (omega arith)) in
    let inside = λ (x : ℕ) (out : is_home (log_of start size d) x ≡ false).
      among-inside (d start 0) 0 (log_of start size d) x (λ j lo hi. h.homes j (omega arith)) out in
    elim (Bool-cases (m.power == 0)) [
      | inl e ↦
          let same = λ (x : ℕ). recovered-run start size d q x ∙ (rw e refl) in
          stopped (λ x out. same x ∙ w.away x (ext x ∙ inside x out))
            (λ x out. same x ∙ w.away x (ext x ∙ out))
      | inr e ↦
          let le : d start 0 ≤ q = ground arith in
          let head : recovered start size d q start
              ≡ head_block (record { n = 0; block = (read start size d q).lh.block })
                  (bread start m) =
            recovered-run start size d q start ∙ rw e (at_start m) in
          finished
            (ap (λ (f : Block). f 0) head
              ∙ cleared_words (read start size d q).lh.block (bread start m))
            (λ x home. recovered-replayed start size d q x h le home)
    ]
  where
    at_start :
        (m : Store)
        → update m.disk start
            (head_block (record { n = 0; block = (read start size d q).lh.block }) (bread start m))
            start
          ≡ head_block (record { n = 0; block = (read start size d q).lh.block }) (bread start m)
    at_start m = ground arith

-- If the machine stops after any number of the writes of recovery, the next recovery brings every home
-- to what the first one would have brought it to.
pub recovered-again :
    (start size : ℕ) (d : ℕ → Block) (q p b : ℕ)
    → HasLog start size d
    → d start 0 ≤ p
    → is_home (log_of start size d) b ≡ true
    → recovered start size (recovered start size d q) p b ≡ recovered start size d p b
recovered-again start size d q p b h le home =
    after_stop (recovered start size d q) (recovered-Interrupted start size d q h)
    ∙ sym (recovered-replayed start size d p b h le home)
  where
    after_stop :
        (d' : ℕ → Block)
        → Interrupted start size d d'
        → recovered start size d' p b ≡ replayed start d b
    after_stop d' (finished e f) =
        recovered-clear start size d' p b (let lt = h.fits in omega arith) e home ∙ f b home
    after_stop d' (stopped kept away) =
        let lt = h.fits in
        let head : d' start ≡ d start = kept start (ground arith) in
        recovered-replayed start size d' p b
          (record {
            fits = rw head h.fits;
            homes = λ j hi. rw head (h.homes j (subst (λ (x : Block). j < x 0) head hi));
          })
          (rw head le) home
        ∙ rw head (
            installed-ext (d start 0) 0 (λ j. d' (start + j + 1)) (λ j. d (start + j + 1))
              (λ j. d start (j + 1)) (λ j. d start (j + 1)) d' b
              (λ j lo hi. (kept (start + j + 1) (ground arith), refl))
            ∙ installed-same (d start 0) 0 (λ j. d (start + j + 1)) (λ j. d start (j + 1)) d' d b
                (away b))
