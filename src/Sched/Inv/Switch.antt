-- ===== src/Sched/Inv/Switch.antt =====
-- The steps by which a process gets a CPU or gives it up.
use os_project_mlfqschedulin.Base.{
  has, List, ℕ, ◌<◌, ◌≡◌, refl, ap, ◌∙◌, true, false, ◌&&◌, not, none, some, arith, ◌==◌, update,
}
use os_project_mlfqschedulin.Sched.{
  levels, nproc, Ptr, running, sleeping, Chan, Proc, Links, Kernel, ok,
}
use os_project_mlfqschedulin.Sched.Queue.{remove_from_queue, unlink}
use os_project_mlfqschedulin.Sched.Process.{make_runnable, myproc, sched, sleep, yield, dispatch}
use os_project_mlfqschedulin.Sched.Inv.{Linked, is_runnable, is_running, Cpus, Valid, Succeeds}
use os_project_mlfqschedulin.Sched.Inv.Enqueue.{Inv-outside, Inv-dequeue, remove_from_queue-run}
use os_project_mlfqschedulin.Sched.Inv.Wakeup.{woken, Follows, make_runnable-Inv}

pub Cpus-same :
    (f g : ℕ → Proc) (current : ℕ → Ptr)
    → Cpus f current
    → ((x : ℕ) → is_running (g x) ≡ is_running (f x))
    → Cpus g current
Cpus-same f g current v same = record {
  busy = λ c x e. let (b, r) = v.busy c x e in (b, same x ∙ r);
  once = v.once;
}

-- The CPU `c` gives up the process `p`.
pub Cpus-leave :
    (f g : ℕ → Proc) (current : ℕ → Ptr) (c p : ℕ)
    → Cpus f current
    → current c ≡ some p
    → ((x : ℕ) → (p == x) ≡ false → is_running (g x) ≡ is_running (f x))
    → Cpus g (update current c none)
Cpus-leave f g current c p v e same = record {
  busy = λ d x h. ground (arith, v.busy d x, v.once c d x, same x);
  once = λ a b x h k. ground (arith, v.once a b x);
}

-- The CPU `c` gets the process `p`.
pub Cpus-enter :
    (f g : ℕ → Proc) (current : ℕ → Ptr) (c p : ℕ)
    → Cpus f current
    → p < nproc
    → is_running (f p) ≡ false
    → is_running (g p) ≡ true
    → ((x : ℕ) → (p == x) ≡ false → is_running (g x) ≡ is_running (f x))
    → Cpus g (update current c (some p))
Cpus-enter f g current c p v b idle run same = record {
  busy = λ d x h. ground (arith, v.busy d x, same x);
  once = λ a d x h k. ground (arith, v.once a d x, v.busy a x, v.busy d x);
}

-- A process that runs on a CPU is in no queue.
pub running_lem :
    (k : Kernel) (v : Valid k) (c p : ℕ)
    → k.current c ≡ some p
    → (p < nproc) × (is_running (k.proc p) ≡ true) × (is_runnable (k.proc p) ≡ false)
running_lem k v c p e = let (b, r) = v.cpus.busy c p e in (b, r, ground arith)

-- sleep marks the process and frees its CPU; the queues stay as they are.
pub sleep-Valid :
    (k : Kernel) (c p : ℕ) (ch : Chan) → Valid k → k.current c ≡ some p → Succeeds (sleep c ch k)
unfolding sleep myproc sched
sleep-Valid k c p ch v e =
    let (b, r, idle) = running_lem k v c p e in
    let new : Proc = record (k.proc p) { chan = ch; state = sleeping } in
    (
      record k { proc = update k.proc p new; current = update k.current c none },
      ground arith,
      record {
        qs = v.qs;
        inv =
            Inv-outside k.proc k.links v.qs v.inv p new b (v.inv.level p b)
              (λ _. v.inv.stack p b (ground arith)) idle refl;
        cpus =
            Cpus-leave k.proc (update k.proc p new) k.current c p v.cpus e (λ x ne. ground arith);
      },
    )

pub myproc-some : (k : Kernel) (c p : ℕ) → k.current c ≡ some p → myproc c k ≡ ok p
unfolding myproc
myproc-some k c p e = rw (e, myproc)

yield-run :
    (k k1 : Kernel) (c p : ℕ)
    → k.current c ≡ some p
    → make_runnable p k ≡ ok k1
    → is_running (k1.proc p) ≡ false
    → yield c k ≡ ok (record k1 { current = update k1.current c none })
unfolding yield sched
yield-run k k1 c p e run h = rw (myproc-some k c p e, run, h)

-- yield queues the process and frees its CPU.
pub yield-Follows :
    (k : Kernel) (v : Valid k) (c p : ℕ)
    → k.current c ≡ some p
    → (k1 : Kernel) × (yield c k ≡ ok (record k1 { current = update k1.current c none }))
      × Follows k k1 (update k.proc p (woken k.ticks (k.proc p)))
yield-Follows k v c p e =
    let (b, r, idle) = running_lem k v c p e in
    let (k1, run, w) = make_runnable-Inv k v.qs p v.inv b idle (v.inv.stack p b (ground arith)) in
    let at : k1.proc p ≡ woken k.ticks (k.proc p) =
      ap (λ (f : ℕ → Proc). f p) w.proc ∙ ground arith in
    (k1, yield-run k k1 c p e run (ap is_running at), w)

pub yield-Valid : (k : Kernel) (c p : ℕ) → Valid k → k.current c ≡ some p → Succeeds (yield c k)
yield-Valid k c p v e =
    let (k1, run, w) = yield-Follows k v c p e in
    let cpus : Cpus k1.proc (update k1.current c none) =
      rw (w.proc, w.rest.current)
        (Cpus-leave k.proc (update k.proc p (woken k.ticks (k.proc p))) k.current c p v.cpus e
          (λ x ne. ground arith)) in
    (_, run, record { qs = w.qs; inv = w.inv; cpus = cpus })

pub remove_at :
    (p : ℕ) (k : Kernel) (m : Links) (qs : ℕ → List ℕ) (lv : ℕ)
    → (k.proc p).q_level ≡ lv
    → lv < levels
    → Linked k.links qs
    → has p (qs lv) ≡ true
    → unlink p lv k.links ≡ ok m
    → remove_from_queue p k ≡ ok (record k { links = m })
remove_at p k m qs lv e lt v h u = remove_from_queue-run p k m qs (rw e lt) v (rw e h) (rw e u)

-- The kernel at the moment when dispatch takes the process out of its queue.
abbrev pub chosen : ℕ → ℕ → Kernel → Kernel
chosen c p k = record k {
  proc = update k.proc p (record (k.proc p) { state = running });
  current = update k.current c (some p);
}

-- A RUNNABLE process is dispatched, and leaves its queue.
pub dispatch-Valid :
    (k : Kernel) (c p : ℕ)
    → Valid k
    → p < nproc
    → is_runnable (k.proc p) ≡ true
    → (m : Links) × (dispatch c p k ≡ ok (record (chosen c p k) { links = m }))
      × Valid (record (chosen c p k) { links = m })
unfolding dispatch
dispatch-Valid k c p v b h =
    let lv = (k.proc p).q_level in
    let new : Proc = record (k.proc p) { state = running } in
    let st = v.inv.stack p b (ground arith) in
    let (m, run, i) =
      Inv-dequeue k.proc k.links v.qs v.inv p new b (v.inv.level p b) (λ _. st) h refl in
    let test : (is_runnable (k.proc p) && not ((k.proc p).kstack == 0)) ≡ true = ground arith in
    (
      m,
      rw test (
          remove_at p (chosen c p k) m v.qs lv (ground arith) (v.inv.level p b) v.inv.linked
            (v.inv.complete p b h) run),
      record {
        qs = _;
        inv = i;
        cpus =
            Cpus-enter k.proc (update k.proc p new) k.current c p v.cpus b (ground arith)
              (ground arith) (λ x ne. ground arith);
      },
    )
