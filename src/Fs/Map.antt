-- ===== src/Fs/Map.antt =====
-- bmap of srcs/fs.c against the slots of an inode.
use os_project_mlfqschedulin.Base.{
  ℕ, ◌+◌, ◌-◌, ◌/◌, ◌<◌, ◌≤◌, ◌≡◌, refl, sym, ap, subst, ◌∙◌, ◌⊎◌, inl, inr, true, false, ◌&&◌,
  none, some, arith, ltb, leb, ◌==◌, Bool-cases,
}
use os_project_mlfqschedulin.Fs.{
  ndirect, nindirect, bpb, Super, Fs, Inode, get_addr, get_entry, map_indirect, bmap,
}
use os_project_mlfqschedulin.Fs.Bits.{is_used, is_map}
use os_project_mlfqschedulin.Fs.Alloc.{IsFs}
use os_project_mlfqschedulin.Fs.Slots.{
  slot, slots, slot_of, Owns, Mapped, Full, AlmostFull, Full-AlmostFull, MapsSlot,
}
use os_project_mlfqschedulin.Fs.Slots.Addrs.{get_addr-Mapped}
use os_project_mlfqschedulin.Fs.Slots.Entries.{entry_of, get_entry-Mapped}

-- A slot that another allocation set keeps what later calls need of it.
Mapped-trans :
    (fs fs1 fs2 : Fs) (ip ip1 ip2 : Inode) (s a x : ℕ)
    → 12 < s
    → s < slots
    → Mapped fs ip ndirect fs1 ip1 a
    → Mapped fs1 ip1 s fs2 ip2 x
    → ip1.addrs ndirect ≡ a
    → Mapped fs ip s fs2 ip2 x
Mapped-trans fs fs1 fs2 ip ip1 ip2 s a x hi small p q ind = record {
  fs_ok = q.fs_ok;
  owns = q.owns;
  sb = q.sb ∙ p.sb;
  size = q.size ∙ p.size;
  here = q.here;
  nonzero = q.nonzero;
  others = λ t lt ne ne'. q.others t lt ne ne' ∙ p.others t lt ne' (ne');
  keeps = λ n. q.keeps (ap (λ (y : ℕ). y == 0) (p.here) ∙ p.nonzero) ∙ p.keeps n;
  old = λ n.
      let same = p.others s small (ground arith) (ground arith) in
      q.old (ap (λ (y : ℕ). y == 0) same ∙ n) ∙ same;
  taken = λ z. elim (Bool-cases (is_used fs x)) [
    | inr e ↦ e
    | inl e ↦ absurd (ground (arith, q.taken (empty z), p.used x (inside) e))
  ];
  fresh = λ z. q.fresh (empty z);
  used = λ z lt r. q.used z (subst (λ (b : Super). z < b.size) (sym p.sb) lt) (p.used z lt r);
  only = λ z lt f ne ne'.
      let keeps = q.keeps (ap (λ (y : ℕ). y == 0) p.here ∙ p.nonzero) in
      let ne1 : (slot fs1 ip1 ndirect == z) ≡ false = sym (ap (λ (y : ℕ). y == z) keeps) ∙ ne' in
      let ne2 : (a == z) ≡ false = sym (ap (λ (y : ℕ). y == z) p.here) ∙ ne1 in
      q.only z (up z lt) (p.only z lt f ne2 ne1) ne ne';
  away = λ z o lt r m ne.
      q.away z o (up z lt) (p.used z lt r) (map_same z m)
        (apart z r ne (Bool-cases (slot fs ip ndirect == 0)))
      ∙ p.away z o lt r m ne;
}
  where
    empty : slot fs ip s ≡ 0 → slot fs1 ip1 s ≡ 0
    empty z = p.others s small (ground arith) (ground arith) ∙ z

    up : (z : ℕ) → z < fs.sb.size → z < fs1.sb.size
    up z lt = subst (λ (b : Super). z < b.size) (sym p.sb) lt

    inside : x < fs.sb.size
    inside =
        let r = q.owns.range s small (ap (λ (y : ℕ). y == 0) q.here ∙ q.nonzero) in
        subst (λ (b : Super). x < b.size) (q.sb ∙ p.sb)
          (subst (λ (y : ℕ). y < fs2.sb.size) q.here r.0)

    map_same : (z : ℕ) → is_map fs z ≡ false → is_map fs1 z ≡ false
    map_same z m =
        ap (λ (b : Super). leb b.bmapstart z && ltb z (b.bmapstart + (b.size + bpb - 1) / bpb)) p.sb
        ∙ m

    apart :
        (z : ℕ)
        → is_used fs z ≡ true
        → (ip.addrs ndirect == z) ≡ false
        → ((slot fs ip ndirect == 0) ≡ true) ⊎ ((slot fs ip ndirect == 0) ≡ false)
        → (ip1.addrs ndirect == z) ≡ false
    apart z r ne (inr n) = ap (λ (y : ℕ). y == z) (p.keeps n) ∙ ne
    apart z r ne (inl n) = elim (Bool-cases (ip1.addrs ndirect == z)) [
      | inr e ↦ e
      | inl e ↦
          let same : a ≡ z = sym ind ∙ ground arith in
          let free = p.taken (ground arith) in
          let bad = ap (is_used fs) same in absurd (ground arith)
    ]

pub bmap-direct : (bn : ℕ) (ip : Inode) (fs : Fs) → bn < ndirect → bmap bn ip fs ≡ get_addr bn ip fs
bmap-direct bn ip fs lt = let t : ltb bn ndirect ≡ true = ground arith in unfold bmap in rw t refl

pub bmap-indirect :
    (bn : ℕ) (ip : Inode) (fs : Fs)
    → ndirect ≤ bn
    → bn < ndirect + nindirect
    → bmap bn ip fs ≡ map_indirect (bn - ndirect) (get_addr ndirect ip fs)
bmap-indirect bn ip fs lo hi =
    let t : ltb bn ndirect ≡ false = ground arith in
    let u : ltb (bn - ndirect) nindirect ≡ true = ground arith in unfold bmap in rw (t, u) refl

bmap-out : (bn : ℕ) (ip : Inode) (fs : Fs) → ndirect + nindirect ≤ bn → bmap bn ip fs ≡ none
bmap-out bn ip fs le =
    let t : ltb bn ndirect ≡ false = ground arith in
    let u : ltb (bn - ndirect) nindirect ≡ false = ground arith in unfold bmap in rw (t, u) refl

pub map_indirect-some :
    (bn a : ℕ) (ip : Inode) (fs : Fs)
    → ip.addrs ndirect ≡ a
    → map_indirect bn (some (fs, ip, a)) ≡ entry_of ip (get_entry (ip.addrs ndirect) bn fs)
map_indirect-some bn a ip fs e =
    unfold map_indirect in ap (λ (y : ℕ). entry_of ip (get_entry y bn fs)) (sym e)

map_indirect-none : (bn : ℕ) → map_indirect bn none ≡ none
map_indirect-none bn = unfold map_indirect in refl

pub bmap-Mapped :
    (bn : ℕ) (ip : Inode) (fs : Fs)
    → IsFs fs
    → Owns fs ip
    → bn < ndirect + nindirect
    → MapsSlot (AlmostFull fs) fs ip (slot_of bn) (bmap bn ip fs)
bmap-Mapped bn ip fs h o lt = elim (Bool-cases (ltb bn ndirect)) [
  | inl e ↦
      rw (e, bmap-direct bn ip fs (ground arith))
        (elim (get_addr-Mapped bn ip fs h o (ground arith)) [
          | inl (run, all) ↦ inl (run, Full-AlmostFull fs all)
          | inr m ↦ inr m
        ])
  | inr e ↦
      let back : bn - ndirect + 13 ≡ bn + 1 = ground arith in
      let whole = bmap-indirect bn ip fs (ground arith) lt in
      rw e (elim (get_addr-Mapped ndirect ip fs h o (omega arith)) [
        | inl (run, full) ↦ inl (
          whole ∙ ap (map_indirect (bn - ndirect)) run ∙ map_indirect-none (bn - ndirect),
          Full-AlmostFull fs full,
        )
        | inr (fs1, ip1, a, run, p) ↦
            let ind : ip1.addrs ndirect ≡ a = p.here in
            let step : bmap bn ip fs
                ≡ entry_of ip1 (get_entry (ip1.addrs ndirect) (bn - ndirect) fs1) =
              whole
              ∙ ap (map_indirect (bn - ndirect)) run
              ∙ map_indirect-some (bn - ndirect) a ip1 fs1 ind in
            elim (get_entry-Mapped (bn - ndirect) ip1 fs1 p.fs_ok p.owns (ground arith)
              (ap (λ (y : ℕ). y == 0) ind ∙ p.nonzero)) [
                | inl (run', full) ↦ inl (step ∙ run', fewer fs1 ip1 a p full)
                | inr (fs2, ip2, x, run', q) ↦ inr (
                  fs2,
                  ip2,
                  x,
                  step ∙ run',
                  subst (λ (s : ℕ). Mapped fs ip s fs2 ip2 x) back
                      (Mapped-trans fs fs1 fs2 ip ip1 ip2 (bn - ndirect + 13) a x (omega arith)
                        (omega arith) p q ind),
                )
              ]
      ])
]
  where
    fewer :
        (fs1 : Fs) (ip1 : Inode) (a : ℕ) → Mapped fs ip ndirect fs1 ip1 a → Full fs1 → AlmostFull fs
    fewer fs1 ip1 a p all y z ly lz fy fz =
        let u = is_a y ly fy in let v = is_a z lz fz in sym u ∙ v
      where
        is_a : (y : ℕ) → y < fs.sb.size → is_used fs y ≡ false → a ≡ y
        is_a y ly fy = elim (Bool-cases (a == y)) [
          | inl e ↦ ground arith
          | inr e ↦
              let ne : (slot fs1 ip1 ndirect == y) ≡ false = ap (λ (x : ℕ). x == y) p.here ∙ e in
              absurd (
                ground (
                  arith,
                  p.only y ly fy e ne,
                  all y (subst (λ (b : Super). y < b.size) (sym p.sb) ly),
                ))
        ]
