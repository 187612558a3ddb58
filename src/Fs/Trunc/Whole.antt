-- ===== src/Fs/Trunc/Whole.antt =====
-- itrunc of srcs/fs.c against the slots of an inode.
use os_project_mlfqschedulin.Base.{
  ℕ, zero, suc, ◌+◌, ◌-◌, ◌/◌, ◌^◌, ◌<◌, ◌≤◌, ◌≡◌, refl, sym, ap, subst, fun_ext, ◌∙◌, inl, inr,
  Bool, true, false, ◌||◌, ◌&&◌, Option, none, some, arith, ltb, leb, ◌==◌, if◌then◌else◌,
  Bool-cases, update,
}
use os_project_mlfqschedulin.Fs.{
  ndirect, nindirect, bpb, Super, Fs, Inode, word_at, set_addr, bfree,
}
use os_project_mlfqschedulin.Fs.Bits.{is_map}
use os_project_mlfqschedulin.Fs.Alloc.{IsFs}
use os_project_mlfqschedulin.Fs.Slots.{slot, slots, Owns, slot-direct, slot-indirect}
use os_project_mlfqschedulin.Fs.Trunc.{
  free_direct, trunc_direct, free_entry, trunc_entries, trunc_indirect, itrunc,
}
use os_project_mlfqschedulin.Fs.Trunc.Frees.{Frees, Frees-none, Frees-skip, Frees-bfree}

free_direct-zero :
    (i : ℕ) (ip : Inode) (fs : Fs) → (ip.addrs i == 0) ≡ true → free_direct i ip fs ≡ some (fs, ip)
unfolding free_direct
free_direct-zero i ip fs e = rw e refl

free_direct-one :
    (i a : ℕ) (ip : Inode) (fs fs1 : Fs)
    → ip.addrs i ≡ a
    → (a == 0) ≡ false
    → bfree a fs ≡ some fs1
    → free_direct i ip fs ≡ some (fs1, set_addr i 0 ip)
unfolding free_direct
free_direct-one i a ip fs fs1 e nz run = rw (e, nz, run) refl

trunc_direct-step :
    (n i : ℕ) (ip ip1 : Inode) (fs fs1 : Fs)
    → free_direct i ip fs ≡ some (fs1, ip1)
    → trunc_direct (suc n) i ip fs ≡ trunc_direct n (i + 1) ip1 fs1
unfolding trunc_direct
trunc_direct-step n i ip ip1 fs fs1 run =
    ap
      (λ (q : Option (Fs × Inode)). elim q [
        | none ↦ none
        | some r ↦ trunc_direct n (i + 1) r.1 r.0
      ])
      run

trunc_direct-end : (i : ℕ) (ip : Inode) (fs : Fs) → trunc_direct 0 i ip fs ≡ some (fs, ip)
unfolding trunc_direct
trunc_direct-end i ip fs = refl

trunc_entries-step :
    (n j addr : ℕ) (fs fs1 : Fs)
    → free_entry addr j fs ≡ some fs1
    → trunc_entries (suc n) j addr fs ≡ trunc_entries n (j + 1) addr fs1
unfolding trunc_entries
trunc_entries-step n j addr fs fs1 run =
    ap (λ (q : Option Fs). elim q [ none ↦ none | some x ↦ trunc_entries n (j + 1) addr x ]) run

trunc_entries-end : (j addr : ℕ) (fs : Fs) → trunc_entries 0 j addr fs ≡ some fs
unfolding trunc_entries
trunc_entries-end j addr fs = refl

free_entry-zero :
    (addr j : ℕ) (fs : Fs) → (word_at (fs.blk addr) j == 0) ≡ true → free_entry addr j fs ≡ some fs
free_entry-zero addr j fs e = unfold free_entry in rw e refl

free_entry-one :
    (addr j a : ℕ) (fs : Fs)
    → word_at (fs.blk addr) j ≡ a
    → (a == 0) ≡ false
    → free_entry addr j fs ≡ bfree a fs
free_entry-one addr j a fs e nz = unfold free_entry in rw (e, nz) refl

-- The direct slots below `i` are empty, and the others are those of `ip`.
abbrev Emptied : ℕ → Inode → Inode → Type 0
Emptied i ip ip' = (t : ℕ) → ip'.addrs t ≡ (if ltb t i then 0 else ip.addrs t)

module _ (fs : Fs) (ip : Inode) (own : Owns fs ip) where
  trunc_direct-Frees :
      (n i : ℕ) (ip1 : Inode) (fs1 : Fs)
      → i + n ≡ ndirect
      → Emptied i ip ip1
      → Frees fs ip (λ t. ltb t i) fs1
      → (fs' : Fs) × (ip' : Inode) × (trunc_direct n i ip1 fs1 ≡ some (fs', ip'))
        × Emptied ndirect ip ip'
        × Frees fs ip (λ t. ltb t ndirect) fs'
  trunc_direct-Frees zero i ip1 fs1 e at f =
      let same : i ≡ ndirect = omega arith in
      (
        fs1,
        ip1,
        trunc_direct-end i ip1 fs1,
        subst (λ (k : ℕ). Emptied k ip ip1) same at,
        subst (λ (k : ℕ). Frees fs ip (λ t. ltb t k) fs1) same f,
      )
  trunc_direct-Frees (suc n) i ip1 fs1 e at f =
      let low : slot fs ip i ≡ ip.addrs i = slot-direct fs ip i (omega arith) in
      let here : ip1.addrs i ≡ slot fs ip i =
        at i ∙ (let no : ltb i i ≡ false = ground arith in rw no (sym low)) in
      let ext : (t : ℕ) → t < slots → ltb t (i + 1) ≡ (ltb t i || i == t) = λ t lt. ground arith in
      elim (Bool-cases (slot fs ip i == 0)) [
        | inl z ↦
            let z' : slot fs ip i ≡ 0 = ground arith in
            let (fs', ip', run, at', f') =
              trunc_direct-Frees n (i + 1) ip1 fs1 (omega arith)
                (λ t. at t ∙ skipped t (here ∙ z') (at t))
                (Frees-skip fs ip (λ t. ltb t i) (λ t. ltb t (i + 1)) fs1 i ext z' f) in
            (
              fs',
              ip',
              trunc_direct-step n i ip1 ip1 fs1 fs1
                    (free_direct-zero i ip1 fs1 (ap (λ (y : ℕ). y == 0) here ∙ z))
                  ∙ run,
              at',
              f',
            )
        | inr nz ↦
            let (fs2, free, f2) =
              Frees-bfree fs ip (λ t. ltb t i) (λ t. ltb t (i + 1)) fs1 i own (omega arith)
                (ground arith) ext nz f in
            let (fs', ip', run, at', f') =
              trunc_direct-Frees n (i + 1) (set_addr i 0 ip1) fs2 (omega arith)
                (λ t. emptied t (at t)) f2 in
            (
              fs',
              ip',
              trunc_direct-step n i ip1 (set_addr i 0 ip1) fs1 fs2
                    (free_direct-one i (slot fs ip i) ip1 fs1 fs2 here nz free)
                  ∙ run,
              at',
              f',
            )
      ]
    where
      skipped :
          (t : ℕ)
          → ip1.addrs i ≡ 0
          → ip1.addrs t ≡ (if ltb t i then 0 else ip.addrs t)
          → (if ltb t i then 0 else ip.addrs t) ≡ (if ltb t (i + 1) then 0 else ip.addrs t)
      skipped t z a = elim (Bool-cases (i == t)) [
        | inl e ↦
            let same : i ≡ t = ground arith in
            let x : ip1.addrs t ≡ 0 = sym (ap ip1.addrs same) ∙ z in
            let in_range : ltb t (i + 1) ≡ true = ground arith in rw in_range (sym a ∙ x)
        | inr e ↦ let same : ltb t i ≡ ltb t (i + 1) = ground arith in rw same refl
      ]

      emptied :
          (t : ℕ)
          → ip1.addrs t ≡ (if ltb t i then 0 else ip.addrs t)
          → update ip1.addrs i 0 t ≡ (if ltb t (i + 1) then 0 else ip.addrs t)
      emptied t a = elim (Bool-cases (i == t)) [
        | inl e ↦ let in_range : ltb t (i + 1) ≡ true = ground arith in rw (e, in_range) refl
        | inr e ↦ let same : ltb t i ≡ ltb t (i + 1) = ground arith in rw (e, sym same) a
      ]

  -- The direct slots, and the first `j` entries of the indirect block.
  abbrev entries_gone : ℕ → ℕ → Bool
  entries_gone j t = ltb t ndirect || (leb 13 t && ltb t (13 + j))

  trunc_entries-Frees :
      (n j : ℕ) (fs1 : Fs)
      → j + n ≡ nindirect
      → (ip.addrs ndirect == 0) ≡ false
      → Frees fs ip (entries_gone j) fs1
      → (fs' : Fs) × (trunc_entries n j (ip.addrs ndirect) fs1 ≡ some fs')
        × Frees fs ip (entries_gone nindirect) fs'
  trunc_entries-Frees zero j fs1 e nz f =
      let same : j ≡ nindirect = omega arith in
      (
        fs1,
        trunc_entries-end j (ip.addrs ndirect) fs1,
        subst (λ (k : ℕ). Frees fs ip (entries_gone k) fs1) same f,
      )
  trunc_entries-Frees (suc n) j fs1 e nz f =
      let a : ℕ = ip.addrs ndirect in
      let (r0, r1, r2) = own.range ndirect (omega arith) nz in
      let back : 13 + j - 13 ≡ j = omega arith in
      let here : word_at (fs1.blk a) j ≡ slot fs ip (13 + j) =
        ap (λ (d : ℕ → ℕ). word_at d j) (fun_ext (λ o. f.away a o r2))
        ∙ sym (slot-indirect fs ip (13 + j) (omega arith) ∙ rw (nz, back) refl) in
      let ext : (t : ℕ) → t < slots → entries_gone (j + 1) t ≡ (entries_gone j t || 13 + j == t) =
        λ t lt. ground arith in
      elim (Bool-cases (slot fs ip (13 + j) == 0)) [
        | inl z ↦
            let (fs', run, f') = trunc_entries-Frees n (j + 1) fs1 (omega arith) nz (
              Frees-skip fs ip (entries_gone j) (entries_gone (j + 1)) fs1 (13 + j) ext
                (ground arith) f) in
            (
              fs',
              trunc_entries-step n j a fs1 fs1
                    (free_entry-zero a j fs1 (ap (λ (y : ℕ). y == 0) here ∙ z))
                  ∙ run,
              f',
            )
        | inr z ↦
            let (fs2, free, f2) =
              Frees-bfree fs ip (entries_gone j) (entries_gone (j + 1)) fs1 (13 + j) own
                (omega arith) (ground arith) ext z f in
            let (fs', run, f') = trunc_entries-Frees n (j + 1) fs2 (omega arith) nz f2 in
            (
              fs',
              trunc_entries-step n j a fs1 fs2
                    (free_entry-one a j (slot fs ip (13 + j)) fs1 here z ∙ free)
                  ∙ run,
              f',
            )
      ]

trunc_indirect-none :
    (ip : Inode) (fs : Fs) → (ip.addrs ndirect == 0) ≡ true → trunc_indirect ip fs ≡ some (fs, ip)
unfolding trunc_indirect
trunc_indirect-none ip fs e = rw e refl

-- What trunc_indirect does behind its loop.
abbrev last_free : Inode → Option Fs → Option (Fs × Inode)
last_free ip q = elim q [
  | none ↦ none
  | some fs1 ↦ elim (bfree (ip.addrs ndirect) fs1) [
    | none ↦ none
    | some fs2 ↦ some (fs2, set_addr ndirect 0 ip)
  ]
]

trunc_indirect-some :
    (ip : Inode) (fs fs1 fs2 : Fs)
    → (ip.addrs ndirect == 0) ≡ false
    → trunc_entries nindirect 0 (ip.addrs ndirect) fs ≡ some fs1
    → bfree (ip.addrs ndirect) fs1 ≡ some fs2
    → trunc_indirect ip fs ≡ some (fs2, set_addr ndirect 0 ip)
trunc_indirect-some ip fs fs1 fs2 nz run free =
    trunc_indirect-loop ip fs nz
    ∙ ap (last_free ip) run
    ∙ ap (λ (q : Option Fs). elim q [ none ↦ none | some x ↦ some (x, set_addr ndirect 0 ip) ]) free
  where
    trunc_indirect-loop :
        (ip : Inode) (fs : Fs)
        → (ip.addrs ndirect == 0) ≡ false
        → trunc_indirect ip fs ≡ last_free ip (trunc_entries nindirect 0 (ip.addrs ndirect) fs)
    trunc_indirect-loop ip fs nz = unfold trunc_indirect in rw nz refl

itrunc-run :
    (ip ip1 ip2 : Inode) (fs fs1 fs2 : Fs)
    → trunc_direct ndirect 0 ip fs ≡ some (fs1, ip1)
    → trunc_indirect ip1 fs1 ≡ some (fs2, ip2)
    → itrunc ip fs ≡ some (fs2, record ip2 { size = 0 })
unfolding itrunc
itrunc-run ip ip1 ip2 fs fs1 fs2 run run' =
    ap
      (λ (q : Option (Fs × Inode)). elim q [
        | none ↦ none
        | some r ↦ finish (trunc_indirect r.1 r.0)
      ])
      run
    ∙ ap finish run'
  where
    finish : Option (Fs × Inode) → Option (Fs × Inode)
    finish q = elim q [ none ↦ none | some r ↦ some (r.0, record (r.1) { size = 0 }) ]

-- What itrunc does.
pub record Truncated (fs : Fs) (ip : Inode) (r : Option (Fs × Inode)) : Type 0 where
  pub fs' : Fs
  pub ip' : Inode
  pub run : r ≡ some (fs', ip')
  pub size : ip'.size ≡ 0
  pub empty : (s : ℕ) → s < slots → slot fs' ip' s ≡ 0
  pub frees : Frees fs ip (λ s. true) fs'
  pub fs_ok : IsFs fs'

Frees-IsFs :
    (fs fs' : Fs) (ip : Inode) → IsFs fs → Owns fs ip → Frees fs ip (λ s. true) fs' → IsFs fs'
Frees-IsFs fs fs' ip h own f = record {
  small = subst (λ (b : Super). b.size ≤ 2 ^ 32) (sym f.sb) h.small;
  boot = f.kept 0 (λ s lt g nz. nz) ∙ h.boot;
  map = λ z lt m.
      let lt' : z < fs.sb.size = subst (λ (b : Super). z < b.size) f.sb lt in
      let m' : is_map fs z ≡ true =
        sym (
          ap (λ (b : Super). leb b.bmapstart z && ltb z (b.bmapstart + (b.size + bpb - 1) / bpb))
            f.sb)
        ∙ m in
      f.kept z (λ s ls g nz. apart (slot fs ip s) z (own.range s ls nz).2 m') ∙ h.map z lt' m';
}
  where
    apart : (x z : ℕ) → is_map fs x ≡ false → is_map fs z ≡ true → (x == z) ≡ false
    apart x z m m' = elim (Bool-cases (x == z)) [
      | inl e ↦
          let same : x ≡ z = ground arith in let bad = ap (is_map fs) same in absurd (ground arith)
      | inr e ↦ e
    ]

Emptied-slot :
    (fs : Fs) (ip : Inode) (s : ℕ) → ((t : ℕ) → t ≤ ndirect → ip.addrs t ≡ 0) → slot fs ip s ≡ 0
Emptied-slot fs ip s z = elim (Bool-cases (leb s ndirect)) [
  | inl e ↦ slot-direct fs ip s (ground arith) ∙ z s (ground arith)
  | inr e ↦
      slot-indirect fs ip s (ground arith)
      ∙ (let none_there : (ip.addrs ndirect == 0) ≡ true =
            let y = z ndirect (omega arith) in ground arith in
          rw none_there refl)
]

-- itrunc of an inode whose blocks are in use and different never panics. Behind it the inode has size 0
-- and no block, every block that it had is free, the indirect block included, and no other block's mark
-- or contents outside the map have changed.
pub itrunc-Truncated :
    (ip : Inode) (fs : Fs) → IsFs fs → Owns fs ip → Truncated fs ip (itrunc ip fs)
itrunc-Truncated ip fs h own =
    let (fs1, ip1, run1, at, f1) =
      trunc_direct-Frees fs ip own ndirect 0 ip fs refl
        (λ t. let no : ltb t 0 ≡ false = ground arith in rw no refl)
        (Frees-none fs ip (λ t. ltb t 0) (λ s lt. ground arith)) in
    let ind : ip1.addrs ndirect ≡ ip.addrs ndirect = at ndirect in
    elim (Bool-cases (ip.addrs ndirect == 0)) [
      | inl z ↦
          finished fs1 ip1 fs1 ip1 run1
            (trunc_indirect-none ip1 fs1 (ap (λ (y : ℕ). y == 0) ind ∙ z))
            (λ t le. elim (Bool-cases (t == ndirect)) [
              | inl e ↦
                  let same : ndirect ≡ t = ground arith in
                  sym (ap ip1.addrs same) ∙ ind ∙ ground arith
              | inr e ↦ at t ∙ (let low : ltb t ndirect ≡ true = ground arith in rw low refl)
            ])
            (all_freed fs1 z f1)
      | inr nz ↦
          let (fs2, run2, f2) =
            trunc_entries-Frees fs ip own nindirect 0 fs1 refl nz (start fs1 f1) in
          let (fs3, free, f3) =
            Frees-bfree fs ip (entries_gone fs ip own nindirect) (λ s. true) fs2 ndirect own
              (omega arith) refl (λ t lt. ground arith) nz f2 in
          finished fs1 ip1 fs3 (set_addr ndirect 0 ip1) run1
            (trunc_indirect-some ip1 fs1 fs2 fs3 (ap (λ (y : ℕ). y == 0) ind ∙ nz)
              (ap (λ (a : ℕ). trunc_entries nindirect 0 a fs1) ind ∙ run2)
              (ap (λ (a : ℕ). bfree a fs2) ind ∙ free))
            (λ t le. elim (Bool-cases (ndirect == t)) [
              | inl e ↦ rw e refl
              | inr e ↦ let low : ltb t ndirect ≡ true = ground arith in rw e (at t ∙ rw low refl)
            ])
            f3
    ]
  where
    start :
        (fs1 : Fs)
        → Frees fs ip (λ t. ltb t ndirect) fs1
        → Frees fs ip (entries_gone fs ip own 0) fs1
    start fs1 f = record {
      sb = f.sb;
      away = f.away;
      freed = λ s lt g nz. f.freed s lt (ground arith) nz;
      kept = λ y no. f.kept y (λ s lt g nz. no s lt (rw g refl) nz);
    }

    all_freed :
        (fs1 : Fs)
        → (ip.addrs ndirect == 0) ≡ true
        → Frees fs ip (λ t. ltb t ndirect) fs1
        → Frees fs ip (λ s. true) fs1
    all_freed fs1 z f = record {
      sb = f.sb;
      away = f.away;
      freed = λ s lt g nz. f.freed s lt (ground arith) nz;
      kept = λ y no. f.kept y (λ s lt g nz. no s lt refl nz);
    }

    finished :
        (fs1 : Fs) (ip1 : Inode) (fs2 : Fs) (ip2 : Inode)
        → trunc_direct ndirect 0 ip fs ≡ some (fs1, ip1)
        → trunc_indirect ip1 fs1 ≡ some (fs2, ip2)
        → ((t : ℕ) → t ≤ ndirect → ip2.addrs t ≡ 0)
        → Frees fs ip (λ s. true) fs2
        → Truncated fs ip (itrunc ip fs)
    finished fs1 ip1 fs2 ip2 run1 run2 z f = record {
      fs' = fs2;
      ip' = record ip2 { size = 0 };
      run = itrunc-run ip ip1 ip2 fs fs1 fs2 run1 run2;
      size = refl;
      empty = λ s lt. Emptied-slot fs2 ip2 s z;
      frees = f;
      fs_ok = Frees-IsFs fs fs2 ip h own f;
    }
