-- ===== src/Fs/Slots/Entries.antt =====
-- The second half of bmap of srcs/fs.c: the entries of the indirect block.
use os_project_mlfqschedulin.Base.{
  ℕ, ◌+◌, ◌-◌, ◌/◌, ◌<◌, ◌≡◌, refl, sym, ap, subst, ◌∙◌, inl, inr, true, false, ◌&&◌, Option, none,
  some, arith, ltb, leb, ◌==◌, if◌then◌else◌, Bool-cases, update,
}
use os_project_mlfqschedulin.Fs.{
  ndirect, nindirect, bpb, Super, Fs, Inode, bblock, balloc, word_at, put_word, get_entry,
}
use os_project_mlfqschedulin.Fs.Bits.{is_used, is_map}
use os_project_mlfqschedulin.Fs.Alloc.{IsFs, Allocated, balloc-Allocated, Allocated-IsFs}
use os_project_mlfqschedulin.Fs.Words.{word_at-put_word}
use os_project_mlfqschedulin.Fs.Slots.{
  slot, slots, Owns, Mapped, word_at-ext, Allocated-apart, Allocated-nonzero, Allocated-keeps,
  slot-indirect, slot-direct, Full, Mapped-refl, MapsSlot,
}
use os_project_mlfqschedulin.Fs.Slots.Grow.{Owns-grow}

-- The entry `bn` of the indirect block of an inode that has one.
pub get_entry-old :
    (addr bn : ℕ) (fs : Fs)
    → (word_at (fs.blk addr) bn == 0) ≡ false
    → get_entry addr bn fs ≡ some (fs, word_at (fs.blk addr) bn)
get_entry-old addr bn fs e = unfold get_entry in rw e refl

get_entry-none :
    (addr bn : ℕ) (fs : Fs)
    → (word_at (fs.blk addr) bn == 0) ≡ true
    → balloc fs ≡ none
    → get_entry addr bn fs ≡ none
get_entry-none addr bn fs e run = unfold get_entry in rw (e, run) refl

entered : ℕ → ℕ → ℕ → Fs → Fs
entered addr bn x fs = record fs { blk = update fs.blk addr (put_word (fs.blk addr) bn x) }

get_entry-new :
    (addr bn x : ℕ) (fs fs1 : Fs)
    → (word_at (fs.blk addr) bn == 0) ≡ true
    → balloc fs ≡ some (fs1, x)
    → get_entry addr bn fs ≡ some (entered addr bn x fs1, x)
unfolding entered
get_entry-new addr bn x fs fs1 e run = unfold get_entry in rw (e, run) refl

entered-away :
    (addr bn x : ℕ) (fs : Fs) (z : ℕ)
    → (addr == z) ≡ false
    → (entered addr bn x fs).blk z ≡ fs.blk z
unfolding entered
entered-away addr bn x fs z ne = rw ne refl

entered-here :
    (addr bn x : ℕ) (fs : Fs) → (entered addr bn x fs).blk addr ≡ put_word (fs.blk addr) bn x
unfolding entered
entered-here addr bn x fs = let e : (addr == addr) ≡ true = ground arith in rw e refl

entered-sb : (addr bn x : ℕ) (fs : Fs) → (entered addr bn x fs).sb ≡ fs.sb
unfolding entered
entered-sb addr bn x fs = refl

entered-used :
    (addr bn x : ℕ) (fs : Fs) (y : ℕ)
    → is_map fs addr ≡ false
    → y < fs.sb.size
    → is_used (entered addr bn x fs) y ≡ is_used fs y
unfolding entered
entered-used addr bn x fs y m lt =
    let ne : (addr == bblock y fs) ≡ false = ground arith in rw ne refl

entered-IsFs :
    (addr bn x : ℕ) (fs : Fs)
    → is_map fs addr ≡ false
    → 0 < fs.sb.size
    → IsFs fs
    → IsFs (entered addr bn x fs)
entered-IsFs addr bn x fs m pos h = record {
  small = rw (entered-sb addr bn x fs) h.small;
  boot = entered-used addr bn x fs 0 m pos ∙ h.boot;
  map = λ z lt mz.
      let lt' : z < fs.sb.size = subst (λ (b : Super). z < b.size) (entered-sb addr bn x fs) lt in
      let mz' : is_map fs z ≡ true =
        sym (
          ap (λ (b : Super). leb b.bmapstart z && ltb z (b.bmapstart + (b.size + bpb - 1) / bpb))
            (entered-sb addr bn x fs))
        ∙ mz in
      entered-used addr bn x fs z m lt' ∙ h.map z lt' mz';
}

-- The slots behind an allocation for an entry of the indirect block.
slot-entered :
    (fs fs1 : Fs) (ip : Inode) (bn x t : ℕ)
    → IsFs fs
    → Owns fs ip
    → Allocated fs fs1 x
    → (ip.addrs ndirect == 0) ≡ false
    → slot (entered (ip.addrs ndirect) bn x fs1) ip t ≡ (if bn + 13 == t then x else slot fs ip t)
slot-entered fs fs1 ip bn x t h o a nz = elim (Bool-cases (leb t ndirect)) [
  | inl low ↦
      let ne : (bn + 13 == t) ≡ false = ground arith in
      slot-direct (entered addr bn x fs1) ip t (ground arith)
      ∙ rw ne (sym (slot-direct fs ip t (ground arith)))
  | inr high ↦
      let (r0, r1, r2) = o.range ndirect (omega arith) nz in
      let small = h.small in
      let within = a.within in
      let same : (bn == t - 13) ≡ (bn + 13 == t) = ground arith in
      slot-indirect (entered addr bn x fs1) ip t (ground arith)
      ∙ rw (nz, entered-here addr bn x fs1)
          (word_at-put_word (fs1.blk addr) bn x (t - 13) (omega arith)
            ∙ rw (same, high)
                (ap (λ (w : ℕ). if bn + 13 == t then x else w)
                  (word_at-ext (fs1.blk addr) (fs.blk addr) (t - 13)
                    (λ p. a.others addr p (Allocated-apart fs fs1 x addr a r1) r2))))
]
  where
    addr : ℕ
    addr = ip.addrs ndirect

-- The entry of an inode, as `map_indirect` reads it.
abbrev pub entry_of : Inode → Option (Fs × ℕ) → Option (Fs × Inode × ℕ)
entry_of ip r = elim r [ none ↦ none | some y ↦ some (y.0, ip, y.1) ]

pub get_entry-Mapped :
    (bn : ℕ) (ip : Inode) (fs : Fs)
    → IsFs fs
    → Owns fs ip
    → bn < nindirect
    → (ip.addrs ndirect == 0) ≡ false
    → MapsSlot (Full fs) fs ip (bn + 13) (entry_of ip (get_entry (ip.addrs ndirect) bn fs))
get_entry-Mapped bn ip fs h o lt nz =
    let addr : ℕ = ip.addrs ndirect in
    let back : bn + 13 - 13 ≡ bn = omega arith in
    let here : slot fs ip (bn + 13) ≡ word_at (fs.blk addr) bn =
      slot-indirect fs ip (bn + 13) (omega arith) ∙ rw (nz, back) refl in
    let (r0, r1, r2) = o.range ndirect (omega arith) nz in
    elim (Bool-cases (word_at (fs.blk addr) bn == 0)) [
      | inr e ↦ inr (
        fs,
        ip,
        word_at (fs.blk addr) bn,
        ap (entry_of ip) (get_entry-old addr bn fs e),
        subst (Mapped fs ip (bn + 13) fs ip) here
            (Mapped-refl fs ip (bn + 13) h o (ap (λ (y : ℕ). y == 0) here ∙ e)),
      )
      | inl e ↦ elim (balloc-Allocated fs h) [
        | inl (run, all) ↦ inl (ap (entry_of ip) (get_entry-none addr bn fs e run), all)
        | inr (x, fs1, run, a) ↦
            let fs' = entered addr bn x fs1 in
            let sb : fs'.sb ≡ fs.sb = entered-sb addr bn x fs1 ∙ a.sb in
            let m1 : is_map fs1 addr ≡ false =
              ap
                (λ (b : Super).
                  leb b.bmapstart addr && ltb addr (b.bmapstart + (b.size + bpb - 1) / bpb))
                a.sb
              ∙ r2 in
            let lt1 : (y : ℕ) → y < fs.sb.size → y < fs1.sb.size =
              λ y ly. subst (λ (b : Super). y < b.size) (sym a.sb) ly in
            let uses : (y : ℕ) → y < fs.sb.size → is_used fs' y ≡ is_used fs1 y =
              λ y ly. entered-used addr bn x fs1 y m1 (lt1 y ly) in
            let at = λ (t : ℕ) (ly : t < slots). slot-entered fs fs1 ip bn x t h o a nz in
            inr (
              fs',
              ip,
              x,
              ap (entry_of ip) (get_entry-new addr bn x fs fs1 e run),
              record {
                fs_ok =
                    entered-IsFs addr bn x fs1 m1 (lt1 0 (omega arith))
                      (Allocated-IsFs fs fs1 x h a);
                owns = Owns-grow fs fs1 fs' ip ip (bn + 13) x o h a sb uses at;
                sb = sb;
                size = refl;
                here =
                    at (bn + 13) (omega arith)
                    ∙ (let r : (bn + 13 == bn + 13) ≡ true = ground arith in rw r refl);
                nonzero = Allocated-nonzero fs fs1 x h a;
                others = λ t ly ne ne'. at t ly ∙ rw ne refl;
                keeps = λ n. refl;
                old = λ n. absurd (ground (arith, here));
                taken = λ f. a.free;
                fresh = λ f p.
                    let ne : (addr == x) ≡ false =
                      let c = Allocated-apart fs fs1 x addr a r1 in ground arith in
                    ap (λ (d : ℕ → ℕ). d p) (entered-away addr bn x fs1 x ne) ∙ a.zero p;
                only = λ y ly f ne ne'. uses y ly ∙ a.used y ly ∙ rw ne f;
                used = λ y ly r. uses y ly ∙ Allocated-keeps fs fs1 x a y ly r;
                away = λ y p ly r m ne.
                    ap (λ (d : ℕ → ℕ). d p) (entered-away addr bn x fs1 y ne)
                    ∙ a.others y p (Allocated-apart fs fs1 x y a r) m;
              },
            )
      ]
    ]
