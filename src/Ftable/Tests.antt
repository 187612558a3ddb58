-- ===== src/Ftable/Tests.antt =====
-- A file is allocated, made a pipe and shared.
use os_project_mlfqschedulin.Base.{refl, true, false, update, arith}
use os_project_mlfqschedulin.Ftable.{
  fd_none, fd_pipe, FileSlot, Table, find_unused, filealloc, filedup, set_ref,
}
use os_project_mlfqschedulin.Ftable.Refs.{
  Opened, starts, allocs, changes, dups, CallsRight, Opened-CallsRight,
}

abbrev unused : FileSlot
unused = record {
  kind = fd_none;
  ref = 0;
  readable = false;
  writable = false;
  pipe = 0;
  ip = 0;
  off = 0;
}

abbrev no_files : Table
no_files f = unused

abbrev pipe_end : FileSlot
pipe_end = record {
  kind = fd_pipe;
  ref = 1;
  readable = false;
  writable = true;
  pipe = 4096;
  ip = 0;
  off = 0;
}

abbrev one_file : Table
one_file = update (set_ref 0 1 no_files) 0 pipe_end

shared : Opened (set_ref 0 2 one_file) (update (update (λ f. 0) 0 1) 0 2)
unfolding filealloc find_unused filedup
shared =
    dups 0 (set_ref 0 2 one_file)
      (changes 0 pipe_end (allocs 0 (set_ref 0 1 no_files) (starts no_files (λ f. refl)) refl) refl)
      refl (omega arith) refl

Opened-CallsRight_example : CallsRight (set_ref 0 2 one_file) (update (update (λ f. 0) 0 1) 0 2)
Opened-CallsRight_example = Opened-CallsRight shared
