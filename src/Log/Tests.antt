-- ===== src/Log/Tests.antt =====
-- A log with one block, stopped and recovered.
use os_project_mlfqschedulin.Base.{
  ◌⊎◌, ℕ, ◌≡◌, refl, true, false, none, some, ◌==◌, if◌then◌else◌, ltb, arith,
}
use os_project_mlfqschedulin.Log.{Block, Store, Log, begin_op, log_write}
use os_project_mlfqschedulin.Log.Recovery.{recovered, HasLog, recovered-again}
use os_project_mlfqschedulin.Log.Crash.{IsReady, crashed, committed, commit-IsAtomic}
use os_project_mlfqschedulin.Log.Admission.{Uses, fresh, begins, Logged, log_write-Succeeds}

-- Block 40 is logged, with words 7 in its buffer and 0 on disk.
abbrev one_block : Log
one_block = record {
  start = 2;
  size = 31;
  outstanding = 0;
  committing = true;
  lh = record { n = 1; block = λ i. 40 };
}

abbrev buffers : Store
buffers = record {
  disk = λ b i. 0;
  dirty = λ b. if b == 40 then some (λ i. 7) else none;
  power = 0;
}

one_block-IsReady : IsReady one_block buffers
one_block-IsReady = record {
  fits = omega arith;
  homes = λ j lo hi. refl;
  clean = λ b out. ground arith;
  clear = refl;
}

-- A disk with that log committed.
abbrev logged_disk : ℕ → Block
logged_disk b i = if b == 2 then (if i == 0 then 1 else 40) else 9

logged_disk-HasLog : HasLog 2 31 logged_disk
logged_disk-HasLog = record { fits = omega arith; homes = λ j lt. ground arith }

commit-IsAtomic_example :
    recovered 2 31 (crashed one_block buffers 2) 1 40
    ≡ (if ltb 1 2 then committed one_block buffers 40 else buffers.disk 40)
commit-IsAtomic_example =
    commit-IsAtomic one_block buffers 2 1 40 one_block-IsReady (omega arith) refl

recovered-again_example :
    recovered 2 31 (recovered 2 31 logged_disk 1) 5 40 ≡ recovered 2 31 logged_disk 5 40
recovered-again_example =
    recovered-again 2 31 logged_disk 1 5 40 logged_disk-HasLog (omega arith) refl

-- A log behind one begin_op.
abbrev empty_log : Log
empty_log = record {
  start = 2;
  size = 31;
  outstanding = 0;
  committing = false;
  lh = record { n = 0; block = λ i. 0 };
}

abbrev one_op : Log
one_op = record {
  start = 2;
  size = 31;
  outstanding = 1;
  committing = false;
  lh = record { n = 0; block = λ i. 0 };
}

one_op-Uses : Uses one_op 10
unfolding begin_op
one_op-Uses = begins {l = empty_log} {left = 0} one_op (fresh 2 31) refl

log_write-Succeeds_example :
    ((log_write 40 (λ i. 7) one_op buffers ≡ none) × (one_op.size ≡ 30) × (one_op.lh.n ≡ 29))
    ⊎ ((l' : Log) × (s' : Store) × (log_write 40 (λ i. 7) one_op buffers ≡ some (l', s'))
        × Logged 40 (λ i. 7) one_op l' buffers s')
log_write-Succeeds_example =
    log_write-Succeeds one_op 9 40 (λ i. 7) buffers one_op-Uses (omega arith)
