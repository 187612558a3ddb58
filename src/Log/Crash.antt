-- ===== src/Log/Crash.antt =====
-- commit of srcs/log.c when the machine stops after any number of disk writes.
use os_project_mlfqschedulin.Base.{
  ℕ, ◌+◌, ◌-◌, ◌<◌, ◌≤◌, ◌≡◌, refl, ap, subst, ◌∙◌, inl, inr, Bool, true, false, ◌&&◌, arith, ltb,
  leb, ◌==◌, if◌then◌else◌, Bool-cases, update,
}
use os_project_mlfqschedulin.Log.{
  Block, Store, Header, Log, bread, bwrite, head_block, write_head, install_trans, write_log,
  clear_head, commit,
}
use os_project_mlfqschedulin.Log.Install.{
  install_from-off, bwrite-NotPinned, among-inside, is_home, among, installed-same, installed-by,
  installed-ext, write_blocks-at, NotPinned, Installs, Homes, bwrite-on, bwrite-power,
  install_from-Installs, Logs, write_log_from-Logs,
}
use os_project_mlfqschedulin.Log.Recovery.{
  recovered, recovered-replayed, recovered-clear, cleared_words,
}

-- A log in memory that can be committed: it fits, its blocks are homes, the log's own blocks are not
-- pinned, and the header on disk is clear.
pub record IsReady (l : Log) (s : Store) : Type 0 where
  pub fits : l.lh.n < l.size
  pub homes : Homes l.lh.n 0 l
  pub clean : NotPinned l s
  pub clear : s.disk l.start 0 ≡ 0

-- The disk at a stop after `k` writes of commit.
abbrev pub crashed : Log → Store → ℕ → ℕ → Block
crashed l s k = (commit l (record s { power = k })).1.disk

-- The disk with every logged block as its buffer has it.
abbrev pub committed : Log → Store → ℕ → Block
committed l s b = if among l.lh.n 0 l.lh.block b then bread b s else s.disk b

-- Where a stopped commit left the disk: with the header still clear and the homes as they were, with
-- the header written and all logged blocks in the log, or with the header cleared and all installed.
data Stopped (l : Log) (s : Store) (k : ℕ) (d : ℕ → Block) : Type 0 where
  before :
      k ≤ l.lh.n
      → d l.start 0 ≡ 0
      → ((x : ℕ) → is_home l x ≡ true → d x ≡ s.disk x)
      → Stopped l s k d
  during :
      l.lh.n < k
      → d l.start 0 ≡ l.lh.n
      → ((j : ℕ) → j < l.lh.n → d l.start (j + 1) ≡ l.lh.block j)
      → ((j : ℕ) → j < l.lh.n → d (l.start + j + 1) ≡ bread (l.lh.block j) s)
      → ((x : ℕ) → is_home l x ≡ true → among l.lh.n 0 l.lh.block x ≡ false → d x ≡ s.disk x)
      → Stopped l s k d
  behind :
      l.lh.n < k
      → d l.start 0 ≡ 0
      → ((x : ℕ) → is_home l x ≡ true → d x ≡ committed l s x)
      → Stopped l s k d

-- After a recovery with enough power the homes are as before the commit or as after it.
by-Stopped :
    (l : Log) (s : Store) (k p b : ℕ) (d : ℕ → Block)
    → IsReady l s
    → l.lh.n ≤ p
    → is_home l b ≡ true
    → Stopped l s k d
    → recovered l.start l.size d p b ≡ (if ltb l.lh.n k then committed l s b else s.disk b)
by-Stopped l s k p b d r le home (before lo e f) =
    let fits = r.fits in
    let t : ltb l.lh.n k ≡ false = ground arith in
    recovered-clear l.start l.size d p b (omega arith) e home ∙ f b home ∙ rw t refl
by-Stopped l s k p b d r le home (behind lo e f) =
    let fits = r.fits in
    let t : ltb l.lh.n k ≡ true = ground arith in
    recovered-clear l.start l.size d p b (omega arith) e home ∙ f b home ∙ rw t refl
by-Stopped l s k p b d r le home (during lo e f g away) =
    let t : ltb l.lh.n k ≡ true = ground arith in
    recovered-replayed l.start l.size d p b
      (record {
        fits = rw e r.fits;
        homes = λ j lt.
            let lt' : j < l.lh.n = subst (λ (n : ℕ). j < n) e lt in
            rw (f j lt') (r.homes j (omega arith) (omega arith));
      })
      (rw e le) home
    ∙ rw e (
        installed-ext l.lh.n 0 _ (λ j. bread (l.lh.block j) s) _ l.lh.block d b
          (λ j lo hi. (g j (omega arith), f j (omega arith)))
        ∙ installed-same l.lh.n 0 (λ j. bread (l.lh.block j) s) l.lh.block d s.disk b (away b home)
        ∙ installed-by l.lh.n 0 (λ j. bread (l.lh.block j) s) l.lh.block s.disk (λ x. bread x s) b
            (λ j lo hi. refl)
        ∙ rw t refl)

-- The header block that write_head puts on disk.
head_words :
    (h : Header) (w : Block)
    → (head_block h w 0 ≡ h.n) × ((j : ℕ) → j < h.n → head_block h w (j + 1) ≡ h.block j)
unfolding head_block
head_words h w = (
  write_blocks-at h.n 0 h.block (update w 0 h.n) 0 ∙ ground arith,
  λ j lt.
      let back : j + 1 - 1 ≡ j = omega arith in
      let inside : (leb (0 + 1) (j + 1) && ltb (j + 1) (0 + 1 + h.n)) ≡ true = ground arith in
      write_blocks-at h.n 0 h.block (update w 0 h.n) (j + 1) ∙ rw (inside, back) refl,
)

among-zero : (n : ℕ) (f : ℕ → ℕ) (b : ℕ) → n ≡ 0 → among n 0 f b ≡ false
unfolding among
among-zero n f b e = rw e refl

commit-run :
    (l : Log) (s : Store)
    → ltb 0 l.lh.n ≡ true
    → commit l s
      ≡ (clear_head l, write_head (clear_head l) (install_trans l (write_head l (write_log l s))))
unfolding commit
commit-run l s e = rw e refl

commit-none : (l : Log) (s : Store) → ltb 0 l.lh.n ≡ false → commit l s ≡ (l, s)
unfolding commit
commit-none l s e = rw e refl

write_head-run :
    (l : Log) (s : Store) (x : ℕ)
    → (write_head l s).disk x ≡ (
        if s.power == 0
        then s.disk x
        else update s.disk l.start (head_block l.lh (bread l.start s)) x)
unfolding write_head bwrite
write_head-run l s x = ground arith

-- The three stores between the parts of commit.
module _ (l : Log) (s : Store) (k : ℕ) (r : IsReady l s) where
  logged : Store
  logged = write_log l (record s { power = k })

  headed : Store
  headed = write_head l logged

  homed : Store
  homed = install_trans l headed

  logged-Logs : Logs l.lh.n 0 (λ j. bread (l.lh.block j) s) l (record s { power = k }) logged
  unfolding logged write_log bread
  logged-Logs =
      write_log_from-Logs l.lh.n 0 (λ j. bread (l.lh.block j) s) l (record s { power = k }) r.homes
        (let lt = r.fits in omega arith) r.clean (λ j lo hi. refl)

  -- With the power gone nothing changes.
  headed-off : logged.power ≡ 0 → headed ≡ logged
  unfolding headed write_head bwrite
  headed-off e = rw e refl

  headed-on :
      0 < logged.power
      → (headed.disk ≡ update logged.disk l.start (head_block l.lh (bread l.start logged)))
        × (headed.power ≡ logged.power - 1)
  unfolding headed write_head
  headed-on lt = (bwrite-on l.start _ logged lt, bwrite-power l.start _ logged)

  headed-NotPinned : NotPinned l headed
  unfolding headed write_head
  headed-NotPinned = bwrite-NotPinned l l.start _ logged (logged-Logs).clean

  crashed-run :
      (x : ℕ)
      → ltb 0 l.lh.n ≡ true
      → crashed l s k x ≡ (
          if homed.power == 0
          then homed.disk x
          else update homed.disk l.start
              (head_block (record { n = 0; block = l.lh.block }) (bread l.start homed))
              x)
  unfolding homed headed logged
  crashed-run x e =
      ap (λ (y : Log × Store). y.1.disk x) (commit-run l (record s { power = k }) e)
      ∙ write_head-run (clear_head l) homed x

  homed-off : headed.power ≡ 0 → homed ≡ headed
  unfolding homed install_trans
  homed-off e = install_from-off l.lh.n 0 l headed e

  homed-Installs :
      ((j : ℕ) → j < l.lh.n → headed.disk (l.start + j + 1) ≡ bread (l.lh.block j) s)
      → Installs l.lh.n 0 (λ j. bread (l.lh.block j) s) l headed homed
  unfolding homed install_trans
  homed-Installs held =
      install_from-Installs l.lh.n 0 (λ j. bread (l.lh.block j) s) l headed r.homes
        (let lt = r.fits in omega arith) headed-NotPinned (λ j lo hi. held j (omega arith))

  headed-head : 0 < logged.power → headed.disk l.start ≡ head_block l.lh (bread l.start logged)
  unfolding headed
  headed-head lt =
      let on : (logged.power == 0) ≡ false = ground arith in
      write_head-run l logged l.start ∙ rw on (ground arith)

  headed-other : (x : ℕ) → (l.start == x) ≡ false → headed.disk x ≡ logged.disk x
  unfolding headed
  headed-other x ne = write_head-run l logged x ∙ rw ne (either (logged.power == 0) (logged.disk x))
    where
      either : (t : Bool) (y : Block) → (if t then y else y) ≡ y
      either true y = refl
      either false y = refl

  -- The header is cleared, if the machine still runs then.
  crashed-clear : ltb 0 l.lh.n ≡ true → (homed.power == 0) ≡ false → crashed l s k l.start 0 ≡ 0
  crashed-clear e on =
      let head : crashed l s k l.start
          ≡ head_block (record { n = 0; block = l.lh.block }) (bread l.start homed) =
        crashed-run l.start e ∙ rw on (ground arith) in
      ap (λ (f : Block). f 0) head ∙ cleared_words l.lh.block (bread l.start homed)

  -- The machine stops before the header is written.
  crashed-early : ltb 0 l.lh.n ≡ true → k ≤ l.lh.n → Stopped l s k (crashed l s k)
  crashed-early e le =
      let w = logged-Logs in
      let off : logged.power ≡ 0 = let q = w.power in omega arith in
      let same : homed ≡ logged =
        homed-off (ap (λ (x : Store). x.power) (headed-off off) ∙ off) ∙ headed-off off in
      let none_left : (homed.power == 0) ≡ true =
        let q = ap (λ (x : Store). x.power) same ∙ off in ground arith in
      let disk : (x : ℕ) → crashed l s k x ≡ logged.disk x =
        λ x. crashed-run x e ∙ rw none_left (ap (λ (y : Store). y.disk x) same) in
      before le (ap (λ (f : Block). f 0) (disk l.start ∙ w.below l.start (omega arith)) ∙ r.clear)
        (λ x home. disk x ∙ (w.away x home).0)

  crashed-late : ltb 0 l.lh.n ≡ true → l.lh.n < k → Stopped l s k (crashed l s k)
  crashed-late e lt =
      let w = logged-Logs in
      let fits = r.fits in
      let power = w.power in
      let on = headed-on (omega arith) in
      let held : (j : ℕ) → j < l.lh.n → headed.disk (l.start + j + 1) ≡ bread (l.lh.block j) s =
        λ j hi.
          headed-other (l.start + j + 1) (ground arith)
          ∙ w.full (omega arith) j (omega arith) (omega arith) in
      let v = homed-Installs held in
      let home_same : (x : ℕ) → is_home l x ≡ true → headed.disk x ≡ s.disk x =
        λ x home. headed-other x (ground arith) ∙ (w.away x home).0 in
      let inside : (x : ℕ) → is_home l x ≡ false → homed.disk x ≡ headed.disk x =
        λ x out. v.away x (among-inside l.lh.n 0 l x r.homes out) in
      let at_start : homed.disk l.start ≡ head_block l.lh (bread l.start logged) =
        inside l.start (ground arith) ∙ headed-head (omega arith) in
      elim (Bool-cases (homed.power == 0)) [
        | inl off ↦
            let disk : (x : ℕ) → crashed l s k x ≡ homed.disk x =
              λ x. crashed-run x e ∙ rw off refl in
            let words = head_words l.lh (bread l.start logged) in
            during lt (ap (λ (f : Block). f 0) (disk l.start ∙ at_start) ∙ words.0)
              (λ j hi. ap (λ (f : Block). f (j + 1)) (disk l.start ∙ at_start) ∙ words.1 j hi)
              (λ j hi. disk (l.start + j + 1) ∙ inside (l.start + j + 1) (ground arith) ∙ held j hi)
              (λ x home out. disk x ∙ v.away x out ∙ home_same x home)
        | inr on_still ↦
            let q = v.power in
            let whole : (x : ℕ) → is_home l x ≡ true → homed.disk x ≡ committed l s x = λ x home.
              v.full (ground arith) x
              ∙ installed-same l.lh.n 0 (λ j. bread (l.lh.block j) s) l.lh.block headed.disk s.disk
                  x (λ out. home_same x home)
              ∙ installed-by l.lh.n 0 (λ j. bread (l.lh.block j) s) l.lh.block s.disk
                  (λ y. bread y s) x (λ j lo hi. refl) in
            behind lt (crashed-clear e on_still) (λ x home.
              let ne : (l.start == x) ≡ false = ground arith in
              crashed-run x e ∙ rw (on_still, ne) (whole x home))
      ]

  crashed-Stopped : Stopped l s k (crashed l s k)
  crashed-Stopped = elim (Bool-cases (ltb 0 l.lh.n)) [
    | inr e ↦
        let disk : (x : ℕ) → crashed l s k x ≡ s.disk x =
          λ x. ap (λ (y : Log × Store). y.1.disk x) (commit-none l (record s { power = k }) e) in
        elim (Bool-cases (ltb l.lh.n k)) [
          | inl lt ↦
              behind (ground arith) (ap (λ (f : Block). f 0) (disk l.start) ∙ r.clear)
                (λ x home. disk x ∙ (rw (among-zero l.lh.n l.lh.block x (ground arith)) refl))
          | inr lt ↦
              before (ground arith) (ap (λ (f : Block). f 0) (disk l.start) ∙ r.clear)
                (λ x home. disk x)
        ]
    | inl e ↦ elim (Bool-cases (ltb l.lh.n k)) [
      | inl lt ↦ crashed-late e (ground arith)
      | inr lt ↦ crashed-early e (ground arith)
    ]
  ]

-- A commit is atomic. Let the machine stop after any `k` of its disk writes, and initlog run at the
-- restart with power for all its writes. If the stop came before the header was written, with `k` not
-- above the number of logged blocks, every block outside the log is as it was before the commit;
-- otherwise every logged block is as its buffer had it, and every other one is as before.
pub commit-IsAtomic :
    (l : Log) (s : Store) (k p b : ℕ)
    → IsReady l s
    → l.lh.n ≤ p
    → is_home l b ≡ true
    → recovered l.start l.size (crashed l s k) p b
      ≡ (if ltb l.lh.n k then committed l s b else s.disk b)
commit-IsAtomic l s k p b r le home =
    by-Stopped l s k p b (crashed l s k) r le home (crashed-Stopped l s k r)
