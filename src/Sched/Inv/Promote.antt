-- ===== src/Sched/Inv/Promote.antt =====
-- The promotion of one queued process.
use os_project_mlfqschedulin.Base.{
  ==_refl, ℕ, ◌<◌, ◌≡◌, refl, sym, fun_ext, true, false, ◌||◌, List, arith, ◌==◌, update, dec, has,
  erase,
}
use os_project_mlfqschedulin.Sched.{sleeping, Proc, Kernel, ok, is_pinned}
use os_project_mlfqschedulin.Sched.Queue.{remove_from_queue, add_to_queue}
use os_project_mlfqschedulin.Sched.Mlfq.{raised, promote_process}
use os_project_mlfqschedulin.Sched.Inv.{Inv}
use os_project_mlfqschedulin.Sched.Inv.Enqueue.{Inv-dequeue}
use os_project_mlfqschedulin.Sched.Inv.Requeue.{entered, add_to_queue-Inv}
use os_project_mlfqschedulin.Sched.Inv.Wakeup.{SameRest}
use os_project_mlfqschedulin.Sched.Inv.Switch.{remove_at}

-- A process as promote_process leaves it.
abbrev pub promoted : ℕ → Proc → Proc
promoted now p =
    entered (record p { q_level = dec p.q_level; cpu_wait = 0; cpu_burst = 0 }) (dec p.q_level) now

-- What the promotion of `p` out of the queue `lv` does to the kernel.
pub record Promoted (k k' : Kernel) (qs : ℕ → List ℕ) (p lv : ℕ) : Type 0 where
  pub qs' : ℕ → List ℕ
  pub inv : Inv k'.proc k'.links qs'
  pub left : qs' lv ≡ erase p (qs lv)
  pub proc : k'.proc ≡ update k.proc p (promoted k.ticks (k.proc p))
  pub rest : SameRest k k'

promote-run :
    (k k1 k' : Kernel) (p : ℕ)
    → (is_pinned (k.proc p).type || ((k.proc p).q_level == 0)) ≡ false
    → remove_from_queue p k ≡ ok k1
    → k1.proc ≡ k.proc
    → add_to_queue p
        (dec (k.proc p).q_level)
        (record k1 { proc = update k.proc p (raised (k.proc p)) })
      ≡ ok k'
    → promote_process p k ≡ ok k'
unfolding promote_process
promote-run k k1 k' p t r same a =
    let lv : (update k.proc p (raised (k.proc p)) p).q_level ≡ dec (k.proc p).q_level =
      ground arith in
    rw (t, r, same, lv, a)

two_writes : (f : ℕ → Proc) (p : ℕ) (a b : Proc) → update f p b ≡ update (update f p a) p b
two_writes f p a b = fun_ext λ x. ground arith

left_behind :
    (qs : ℕ → List ℕ) (u w p lv : ℕ) (ys : List ℕ)
    → u ≡ lv
    → (w == lv) ≡ false
    → update (update qs u (erase p (qs u))) w ys lv ≡ erase p (qs lv)
left_behind qs u w p lv ys e ne = rw (e, ne, ==_refl lv)

pub promote-Promoted :
    (k : Kernel) (qs : ℕ → List ℕ) (p lv : ℕ)
    → Inv k.proc k.links qs
    → has p (qs lv) ≡ true
    → 0 < lv
    → is_pinned (k.proc p).type ≡ false
    → (k' : Kernel) × (promote_process p k ≡ ok k') × Promoted k k' qs p lv
promote-Promoted k qs p lv v mem pos free =
    let (ready, e) = v.queued lv p mem in
    let b = v.linked.bound lv p mem in
    let lt = v.level p b in
    let st = v.stack p b (ground arith) in
    let ghost : Proc = record (k.proc p) { state = sleeping } in
    let (m, run, i) = Inv-dequeue k.proc k.links qs v p ghost b lt (λ _. st) ready refl in
    let k1 : Kernel = record k { links = m } in
    let gone = remove_at p k m qs (k.proc p).q_level refl lt v.linked (v.complete p b ready) run in
    let up : Proc = raised (k.proc p) in
    let lv' = dec (k.proc p).q_level in
    let f : ℕ → Proc = update k.proc p ghost in
    let k2 : Kernel = record k1 { proc = update k.proc p up } in
    let (m', run', i') =
      add_to_queue-Inv k2 f _ p lv' up i (two_writes k.proc p ghost up) b (omega arith)
        (ground arith) ready st in
    let eq : update f p (entered up lv' k.ticks) ≡ update k.proc p (promoted k.ticks (k.proc p)) =
      sym (two_writes k.proc p ghost (promoted k.ticks (k.proc p))) in
    let k' : Kernel = record k2 { proc = update f p (entered up lv' k.ticks); links = m' } in
    (
      k',
      promote-run k k1 k' p (ground arith) gone refl run',
      record {
        qs' = _;
        inv = i';
        left = left_behind qs (k.proc p).q_level lv' p lv _ e (ground arith);
        proc = eq;
        rest = record { nextpid = refl; ticks = refl; initproc = refl; current = refl };
      },
    )
