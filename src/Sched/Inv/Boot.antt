-- ===== src/Sched/Inv/Boot.antt =====
-- The table at boot, and the first process.
use os_project_mlfqschedulin.Base.{
  ℕ, ◌≡◌, refl, ap, ◌∙◌, Bool, false, none, some, [], arith, ◌==◌, if◌then◌else◌, update,
}
use os_project_mlfqschedulin.Sched.{nproc, unused, idle, no_chan, Proc, Kernel, ok}
use os_project_mlfqschedulin.Sched.Queue.{add_to_queue, init_queues}
use os_project_mlfqschedulin.Sched.Queue.Remove.{Cleared}
use os_project_mlfqschedulin.Sched.Process.{
  find_unused, allocproc, first_proc, userinit_slot, userinit,
}
use os_project_mlfqschedulin.Sched.Inv.{Valid, Succeeds}
use os_project_mlfqschedulin.Sched.Inv.Requeue.{entered, add_to_queue-Inv}
use os_project_mlfqschedulin.Sched.Inv.Switch.{Cpus-same}
use os_project_mlfqschedulin.Sched.Inv.Create.{
  IsFree, clear-same', with_slot, with_slot-Valid, free-Cleared, allocproc-slot,
}

-- A `struct proc` of zeros.
abbrev pub zero_proc : Proc
zero_proc = record {
  sz = 0;
  pgdir = 0;
  kstack = 0;
  state = unused;
  pid = 0;
  parent = none;
  chan = no_chan;
  killed = false;
  q_level = 0;
  cpu_burst = 0;
  cpu_wait = 0;
  io_wait_time = 0;
  end_time = 0;
  total_cpu_time = 0;
  queue_entry_time = 0;
  type = idle;
}

-- The zeroed table behind pinit; `nextpid` starts at 1.
unfoldable pub boot : Kernel
unfolding init_queues
boot = record {
  proc = λ _. zero_proc;
  links = init_queues (record {
    next = λ _. none;
    prev = λ _. none;
    queues = λ _. record { head = none; tail = none };
  });
  nextpid = 1;
  ticks = 0;
  initproc = none;
  current = λ _. none;
}

pub boot-Valid : Valid boot
unfolding boot
boot-Valid = record {
  qs = λ _. [];
  inv = record {
    linked = record {
      holds = λ lv h. ground arith;
      distinct = λ lv. tt;
      bound = λ lv x h. absurd (ground arith);
      apart = λ u v x h. absurd (ground arith);
      alone = λ x h. (refl, refl);
    };
    queued = λ lv x h. absurd (ground arith);
    complete = λ x b h. absurd (ground arith);
    sorted = λ lv. tt;
    level = λ x b. omega arith;
    stack = λ x b h. absurd (ground arith);
  };
  cpus = record { busy = λ c x h. absurd (ground arith); once = λ c d x h. absurd (ground arith) };
}

userinit_slot-run :
    (k k' : Kernel) (p dir : ℕ)
    → (dir == 0) ≡ false
    → Cleared k.links p
    → add_to_queue p 3
        (record k { proc = update k.proc p (first_proc dir (k.proc p)); initproc = some p })
      ≡ ok k'
    → userinit_slot dir (k, some p) ≡ ok k'
unfolding userinit_slot
userinit_slot-run k k' p dir d c run = rw (d, userinit_slot, clear-same' k.links p c, run)

userinit-at :
    (k : Kernel) (v : Valid k) (p stack dir : ℕ)
    → IsFree k p
    → find_unused nproc 0 k ≡ some p
    → (stack == 0) ≡ false
    → (dir == 0) ≡ false
    → Succeeds (userinit stack dir k)
unfolding userinit first_proc
userinit-at k v p stack dir f run st d =
    let k1 : Kernel = with_slot p stack k in
    let slot : allocproc stack k ≡ (k1, some p) =
      allocproc-slot k v p f stack run ∙ ap (λ (b : Bool). (k1, if b then none else some p)) st in
    let v1 = with_slot-Valid k v p f stack in
    let free = f.free in
    let new : Proc = first_proc dir (k1.proc p) in
    let (m, step, i) =
      add_to_queue-Inv (record k1 { proc = update k1.proc p new; initproc = some p }) k1.proc v1.qs
        p 3 new v1.inv refl f.within (omega arith) (ground arith) refl (ground arith) in
    let g : ℕ → Proc = update k1.proc p (entered new 3 k.ticks) in
    (
      record k1 { proc = g; links = m; initproc = some p },
      ap (userinit_slot dir) slot ∙ userinit_slot-run k1 _ p dir d (free-Cleared k v p f) step,
      record { qs = _; inv = i; cpus = Cpus-same k.proc g k.current v.cpus (λ x. ground arith) },
    )

find_unused-boot : find_unused nproc 0 boot ≡ some 0
unfolding boot find_unused
find_unused-boot = refl

-- With a page for the stack and a page directory, userinit at boot makes a valid table.
pub userinit-Valid :
    (stack dir : ℕ) → (stack == 0) ≡ false → (dir == 0) ≡ false → Succeeds (userinit stack dir boot)
unfolding boot
userinit-Valid stack dir st d =
    userinit-at boot boot-Valid 0 stack dir (record { within = omega arith; free = refl })
      find_unused-boot st d
