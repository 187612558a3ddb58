-- ===== src/Sched/Inv/Info.antt =====
-- sys_set_proc_info: what it keeps for a level from 0 to 3, and what follows from any other.
use os_project_mlfqschedulin.Base.{
  none, ℕ, ◌<◌, ◌≤◌, ◌^◌, ◌≡◌, true, false, ◌||◌, some, arith, slt, sle, ltb,
}
use os_project_mlfqschedulin.Sched.{
  levels, Links, runnable, Proc, Kernel, invalid_queue_level, ok, panic, fault, set_proc,
}
use os_project_mlfqschedulin.Sched.Queue.{add_to_queue, is_unlinked, queue_at, remove_from_queue}
use os_project_mlfqschedulin.Sched.Process.{
  make_runnable, yield, exit_locked, ProcInfo, sys_set_proc_info,
}
use os_project_mlfqschedulin.Sched.Inv.{Valid}
use os_project_mlfqschedulin.Sched.Inv.Enqueue.{Inv-outside, Absent-of_idle}
use os_project_mlfqschedulin.Sched.Inv.Switch.{Cpus-same, running_lem, myproc-some}

-- The process with the five fields that the call sets.
abbrev pub with_info : ProcInfo → Proc → Proc
with_info a p = record p {
  q_level = a.q_level;
  cpu_burst = a.cpu_burst;
  cpu_wait = a.cpu_wait_time;
  io_wait_time = a.io_wait_time;
  end_time = a.end_time;
}

abbrev pub informed : ProcInfo → ℕ → Kernel → Kernel
informed a p k = set_proc p (with_info a (k.proc p)) k

set_proc_info-run :
    (k : Kernel) (c p : ℕ) (a : ProcInfo)
    → k.current c ≡ some p
    → sys_set_proc_info c (some a) k ≡ ok (informed a p k, 0)
unfolding sys_set_proc_info
set_proc_info-run k c p a e = rw (myproc-some k c p e)

-- On a valid table, with a level from 0 to 3, set_proc_info returns 0, sets the five fields of the calling process and
-- nothing else, and the table stays valid.
pub set_proc_info-Valid :
    (k : Kernel) (c p : ℕ) (a : ProcInfo)
    → Valid k
    → k.current c ≡ some p
    → a.q_level < levels
    → (sys_set_proc_info c (some a) k ≡ ok (informed a p k, 0)) × Valid (informed a p k)
set_proc_info-Valid k c p a v e lt =
    let (b, r, idle) = running_lem k v c p e in
    (
      set_proc_info-run k c p a e,
      record {
        qs = v.qs;
        inv =
            Inv-outside k.proc k.links v.qs v.inv p (with_info a (k.proc p)) b lt (v.inv.stack p b)
              idle idle;
        cpus = Cpus-same k.proc (informed a p k).proc k.current v.cpus (λ x. ground arith);
      },
    )

add_to_queue-panic :
    (p lv : ℕ) (k : Kernel)
    → levels ≤ lv
    → lv < 2 ^ 32
    → add_to_queue p lv k ≡ panic invalid_queue_level
unfolding add_to_queue
add_to_queue-panic p lv k lo hi =
    let test : (slt lv 0 || sle levels lv) ≡ true = ground arith in rw test

yield-panic :
    (k : Kernel) (c p : ℕ)
    → k.current c ≡ some p
    → levels ≤ (k.proc p).q_level
    → (k.proc p).q_level < 2 ^ 32
    → yield c k ≡ panic invalid_queue_level
unfolding yield make_runnable
yield-panic k c p e lo hi = rw (
  myproc-some k c p e,
  add_to_queue-panic p (k.proc p).q_level (set_proc p (record (k.proc p) { state = runnable }) k) lo
      hi,
)

is_unlinked-fault :
    (p lv : ℕ) (l : Links)
    → levels ≤ lv
    → (l.prev p ≡ none) × (l.next p ≡ none)
    → is_unlinked p lv l ≡ fault
unfolding is_unlinked queue_at
is_unlinked-fault p lv l lo null =
    let test : ltb lv levels ≡ false = ground arith in rw (null.0, null.1, test)

exit-fault :
    (k : Kernel) (c p : ℕ)
    → k.current c ≡ some p
    → levels ≤ (k.proc p).q_level
    → (k.links.prev p ≡ none) × (k.links.next p ≡ none)
    → exit_locked c k ≡ fault
unfolding exit_locked remove_from_queue
exit-fault k c p e lo null =
    rw (myproc-some k c p e, is_unlinked-fault p (k.proc p).q_level k.links lo null)

-- On a valid table sys_set_proc_info accepts any 32-bit level: with one outside 0 to 3, a negative one
-- included, it returns 0 too, and then the kernel panics when the process yields, and reads outside
-- the array of queues in the locked part of its exit.
pub set_proc_info-panic :
    (k : Kernel) (c p : ℕ) (a : ProcInfo)
    → Valid k
    → k.current c ≡ some p
    → levels ≤ a.q_level
    → a.q_level < 2 ^ 32
    → (sys_set_proc_info c (some a) k ≡ ok (informed a p k, 0))
      × (yield c (informed a p k) ≡ panic invalid_queue_level)
      × (exit_locked c (informed a p k) ≡ fault)
set_proc_info-panic k c p a v e lo hi =
    let (b, r, idle) = running_lem k v c p e in
    let alone = v.inv.linked.alone p (Absent-of_idle k.proc k.links v.qs v.inv p idle) in
    let k' : Kernel = informed a p k in
    let lv : (k'.proc p).q_level ≡ a.q_level = ground arith in
    (
      set_proc_info-run k c p a e,
      yield-panic k' c p e (omega arith) (omega arith),
      exit-fault k' c p e (omega arith) (ground arith),
    )
