-- ===== src/FileIo/Tests.antt =====
-- Two thousand bytes are written behind the first one of a file, in two calls of writei.
use os_project_mlfqschedulin.Base.{
  ℕ, ◌+◌, ◌/◌, ◌<◌, ◌≡◌, refl, subst, true, false, arith, ◌==◌, if◌then◌else◌,
}
use os_project_mlfqschedulin.Fs.{Fs, Inode, bit}
use os_project_mlfqschedulin.Fs.Bits.{is_used, is_map}
use os_project_mlfqschedulin.Fs.Alloc.{IsFs}
use os_project_mlfqschedulin.Fs.Slots.{slot, Owns}
use os_project_mlfqschedulin.Fs.Io.Free.{free_below, free_blocks}
use os_project_mlfqschedulin.Ftable.{fd_inode, FileSlot}
use os_project_mlfqschedulin.FileIo.{filewrite}
use os_project_mlfqschedulin.Fs.Io.Write.{Filled}
use os_project_mlfqschedulin.FileIo.RoundTrip.{ReadBack, filewrite-fileread}
use os_project_mlfqschedulin.FileIo.Chunks.{FileWritten, filewrite-FileWritten}

abbrev volume : Fs
volume = record {
  sb = record { size = 60; bmapstart = 2 };
  blk = λ b o. if b == 2 then (if o == 0 then 15 else 0) else if b == 3 then 65 + o else 0;
}

abbrev short : Inode
short = record { size = 3; addrs = λ i. if i == 0 then 3 else 0 }

abbrev opened : FileSlot
opened = record {
  kind = fd_inode;
  ref = 1;
  readable = true;
  writable = true;
  pipe = 0;
  ip = 8192;
  off = 1;
}

volume-IsFs : IsFs volume
unfolding bit
volume-IsFs = record {
  small = omega arith;
  boot = refl;
  map = λ z lt m.
      let two : 2 ≡ z = ground arith in subst (λ (y : ℕ). is_used volume y ≡ true) two refl;
}

short-slot : (s : ℕ) → (slot volume short s == 0) ≡ false → 0 ≡ s
short-slot s nz = ground arith

short-Owns : Owns volume short
unfolding bit
short-Owns = record {
  range = λ s lt nz.
      subst
        (λ (y : ℕ).
          (slot volume short y < 60)
          × (is_used volume (slot volume short y) ≡ true)
          × (is_map volume (slot volume short y) ≡ false))
        (short-slot s nz) (omega arith, refl, refl);
  once = λ s t ls lt ne nz. let z = short-slot s nz in ground arith;
}

volume_free : free_blocks volume ≡ 56
unfolding free_below bit
volume_free = refl

filewrite-FileWritten_example :
    FileWritten opened (λ i. 97) 2000 short volume (filewrite opened (λ i. 97) 2000 short volume)
filewrite-FileWritten_example =
    filewrite-FileWritten opened (λ i. 97) 2000 short volume refl refl volume-IsFs short-Owns
      (omega arith) (omega arith) (rw volume_free (omega arith))

short-Filled : Filled volume short
short-Filled o lt small = let first : o / 512 ≡ 0 = ground arith in rw first refl

filewrite-fileread_example :
    ReadBack opened opened (λ i. 97) (λ i. 0) 2000 (filewrite opened (λ i. 97) 2000 short volume)
filewrite-fileread_example =
    filewrite-fileread opened opened (λ i. 97) (λ i. 0) 2000 short volume refl refl refl refl refl
      volume-IsFs short-Owns short-Filled (omega arith) (omega arith) (omega arith)
      (rw volume_free (omega arith))
