-- ===== src/Fs/Slots/Addrs.antt =====
-- The first half of bmap of srcs/fs.c: the direct blocks and the indirect block.
use os_project_mlfqschedulin.Base.{
  ℕ, ◌-◌, ◌<◌, ◌≤◌, ◌≡◌, refl, sym, ap, subst, ◌∙◌, ◌⊎◌, inl, inr, true, false, none, some, arith,
  leb, ◌==◌, if◌then◌else◌, Bool-cases, update,
}
use os_project_mlfqschedulin.Fs.{ndirect, Fs, Inode, balloc, word_at, set_addr, get_addr}
use os_project_mlfqschedulin.Fs.Alloc.{IsFs, Allocated, balloc-Allocated, Allocated-IsFs}
use os_project_mlfqschedulin.Fs.Slots.{
  slot, slots, Owns, Mapped, word_at-ext, word_at-zero, Allocated-apart, Allocated-nonzero,
  Allocated-keeps, slot-indirect, slot-direct, Full, Mapped-refl, MapsSlot,
}
use os_project_mlfqschedulin.Fs.Slots.Grow.{Owns-grow}

-- The slots behind an allocation for a direct or the indirect block.
slot-set_addr :
    (fs fs1 : Fs) (ip : Inode) (i x t : ℕ)
    → IsFs fs
    → Owns fs ip
    → Allocated fs fs1 x
    → i ≤ 12
    → ip.addrs i ≡ 0
    → t < slots
    → slot fs1 (set_addr i x ip) t ≡ (if i == t then x else slot fs ip t)
slot-set_addr fs fs1 ip i x t h o a le z lt = elim (Bool-cases (leb t ndirect)) [
  | inl low ↦
      slot-direct fs1 (set_addr i x ip) t (ground arith)
      ∙ rw (slot-direct fs ip t (ground arith)) refl
  | inr high ↦
      let ne : (i == t) ≡ false = ground arith in
      slot-indirect fs1 (set_addr i x ip) t (ground arith)
      ∙ rw ne (
          rw (slot-indirect fs ip t (ground arith))
            (entries (Bool-cases (i == ndirect)) (Bool-cases (ip.addrs ndirect == 0))))
]
  where
    entries :
        ((i == ndirect) ≡ true) ⊎ ((i == ndirect) ≡ false)
        → ((ip.addrs ndirect == 0) ≡ true) ⊎ ((ip.addrs ndirect == 0) ≡ false)
        → (if update ip.addrs i x ndirect == 0
            then 0
            else word_at (fs1.blk (update ip.addrs i x ndirect)) (t - 13))
          ≡ (if ip.addrs ndirect == 0 then 0 else word_at (fs.blk (ip.addrs ndirect)) (t - 13))
    entries (inl e) (inl f) =
        rw (e, f, Allocated-nonzero fs fs1 x h a) (word_at-zero (fs1.blk x) (t - 13) a.zero)
    entries (inl e) (inr f) =
        let same : i ≡ ndirect = ground arith in
        let bad : ip.addrs ndirect ≡ 0 = sym (ap ip.addrs same) ∙ z in absurd (ground arith)
    entries (inr e) (inl f) = rw (e, f) refl
    entries (inr e) (inr f) =
        let (r0, r1, r2) = o.range ndirect (omega arith) f in
        rw (e, f)
          (word_at-ext (fs1.blk (ip.addrs ndirect)) (fs.blk (ip.addrs ndirect)) (t - 13) (λ p.
            a.others (ip.addrs ndirect) p (Allocated-apart fs fs1 x (ip.addrs ndirect) a r1) r2))

pub get_addr-old :
    (i : ℕ) (ip : Inode) (fs : Fs)
    → (ip.addrs i == 0) ≡ false
    → get_addr i ip fs ≡ some (fs, ip, ip.addrs i)
unfolding get_addr
get_addr-old i ip fs e = rw e refl

get_addr-none :
    (i : ℕ) (ip : Inode) (fs : Fs)
    → (ip.addrs i == 0) ≡ true
    → balloc fs ≡ none
    → get_addr i ip fs ≡ none
unfolding get_addr
get_addr-none i ip fs e run = rw (e, run) refl

get_addr-new :
    (i x : ℕ) (ip : Inode) (fs fs1 : Fs)
    → (ip.addrs i == 0) ≡ true
    → balloc fs ≡ some (fs1, x)
    → get_addr i ip fs ≡ some (fs1, set_addr i x ip, x)
unfolding get_addr
get_addr-new i x ip fs fs1 e run = rw (e, run) refl

pub get_addr-Mapped :
    (i : ℕ) (ip : Inode) (fs : Fs)
    → IsFs fs
    → Owns fs ip
    → i ≤ 12
    → MapsSlot (Full fs) fs ip i (get_addr i ip fs)
get_addr-Mapped i ip fs h o le =
    let direct = slot-direct fs ip i le in
    elim (Bool-cases (ip.addrs i == 0)) [
      | inr e ↦ inr (
        fs,
        ip,
        ip.addrs i,
        get_addr-old i ip fs e,
        subst (Mapped fs ip i fs ip) direct
            (Mapped-refl fs ip i h o (ap (λ (y : ℕ). y == 0) direct ∙ e)),
      )
      | inl e ↦ elim (balloc-Allocated fs h) [
        | inl (run, all) ↦ inl (get_addr-none i ip fs e run, all)
        | inr (x, fs1, run, a) ↦
            let z : ip.addrs i ≡ 0 = ground arith in
            let at : (t : ℕ)
                → t < slots
                → slot fs1 (set_addr i x ip) t ≡ (if i == t then x else slot fs ip t) =
              λ t lt. slot-set_addr fs fs1 ip i x t h o a le z lt in
            inr (
              fs1,
              set_addr i x ip,
              x,
              get_addr-new i x ip fs fs1 e run,
              record {
                fs_ok = Allocated-IsFs fs fs1 x h a;
                owns = Owns-grow fs fs1 fs1 ip (set_addr i x ip) i x o h a a.sb (λ y lt. refl) at;
                sb = a.sb;
                size = refl;
                here = at i (omega arith) ∙ (let r : (i == i) ≡ true = ground arith in rw r refl);
                nonzero = Allocated-nonzero fs fs1 x h a;
                others = λ t lt ne ne'. at t lt ∙ rw ne refl;
                keeps = λ n.
                    at ndirect (omega arith) ∙ rw (other_slot (Bool-cases (i == ndirect)) z n) refl;
                old = λ n. absurd (ground (arith, direct));
                taken = λ f. a.free;
                fresh = λ f. a.zero;
                used = Allocated-keeps fs fs1 x a;
                only = λ z lt f ne ne'. a.used z lt ∙ rw ne f;
                away = λ y p lt r m ne. a.others y p (Allocated-apart fs fs1 x y a r) m;
              },
            )
      ]
    ]
  where
    other_slot :
        ((i == ndirect) ≡ true) ⊎ ((i == ndirect) ≡ false)
        → ip.addrs i ≡ 0
        → (ip.addrs ndirect == 0) ≡ false
        → (i == ndirect) ≡ false
    other_slot (inl e) z n =
        let same : i ≡ ndirect = ground arith in
        let bad : ip.addrs ndirect ≡ 0 = sym (ap ip.addrs same) ∙ z in absurd (ground arith)
    other_slot (inr e) z n = e
