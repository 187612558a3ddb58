-- ===== src/Sched/Inv/Requeue.antt =====
-- add_to_queue on the kernel, for a process that the queues do not hold yet.
use os_project_mlfqschedulin.Base.{
  ℕ, ◌<◌, ◌≡◌, ap, fun_ext, ◌∙◌, ◌≢◌, true, false, List, arith, update,
}
use os_project_mlfqschedulin.Sched.{nproc, levels, Proc, Links, Kernel, ok}
use os_project_mlfqschedulin.Sched.Queue.{link_in, add_to_queue}
use os_project_mlfqschedulin.Sched.Queue.Insert.{insert_sorted}
use os_project_mlfqschedulin.Sched.Inv.{is_runnable, Inv}
use os_project_mlfqschedulin.Sched.Inv.Enqueue.{Inv-enqueue, add_to_queue-run}

-- A process as add_to_queue leaves it.
abbrev pub entered : Proc → ℕ → ℕ → Proc
entered v lv now = record v { q_level = lv; queue_entry_time = now }

entered-update :
    (f : ℕ → Proc) (p lv now : ℕ) (v : Proc) (h : ℕ → Proc)
    → h ≡ update f p v
    → update h p (entered (h p) lv now) ≡ update f p (entered v lv now)
entered-update f p lv now v h e = rw e (fun_ext λ x. ground arith)

-- The kernel `k` differs from the one with the processes `f` at `p` only, which is RUNNABLE in `k`
-- and was not in `f`.
pub add_to_queue-Inv :
    (k : Kernel) (f : ℕ → Proc) (qs : ℕ → List ℕ) (p lv : ℕ) (v : Proc)
    → Inv f k.links qs
    → k.proc ≡ update f p v
    → p < nproc
    → lv < levels
    → is_runnable (f p) ≡ false
    → is_runnable v ≡ true
    → v.kstack ≢ 0
    → let g : ℕ → Proc = update f p (entered v lv k.ticks) in
      (m : Links) × (add_to_queue p lv k ≡ ok (record k { proc = g; links = m }))
      × Inv g m (update qs lv (insert_sorted g p (qs lv)))
add_to_queue-Inv k f qs p lv v i e b lt old h st =
    let new : Proc = entered v lv k.ticks in
    let (m, run, i') = Inv-enqueue f k.links qs i p new b lt (λ _. st) old h in
    let eq = entered-update f p lv k.ticks v k.proc e in
    (
      m,
      add_to_queue-run p lv k m lt (ap (λ h'. link_in h' p lv k.links) eq ∙ run)
          ∙ ap (λ h'. ok (record k { proc = h'; links = m })) eq,
      i',
    )
