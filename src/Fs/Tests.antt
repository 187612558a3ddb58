-- ===== src/Fs/Tests.antt =====
-- Tests of Fs: a file system of 60 blocks with its map in block 2, and a file of three bytes in block 3.
use os_project_mlfqschedulin.Base.{
  ℕ, ◌+◌, ◌/◌, ◌-◌, ◌⊎◌, ◌<◌, ◌≡◌, refl, subst, true, false, none, some, arith, ltb, ◌==◌,
  if◌then◌else◌,
}
use os_project_mlfqschedulin.Fs.{Fs, Inode, bit, balloc}
use os_project_mlfqschedulin.Fs.Bits.{is_used, is_map}
use os_project_mlfqschedulin.Fs.Alloc.{IsFs, Allocated, balloc-Allocated}
use os_project_mlfqschedulin.Fs.Slots.{slot, Owns}
use os_project_mlfqschedulin.Fs.Trunc.{itrunc}
use os_project_mlfqschedulin.Fs.Trunc.Whole.{Truncated, itrunc-Truncated}
use os_project_mlfqschedulin.Fs.Io.{done, min, readi}
use os_project_mlfqschedulin.Fs.Io.Content.{content}
use os_project_mlfqschedulin.Fs.Io.Free.{free_below, free_blocks}
use os_project_mlfqschedulin.Fs.Io.Write.{Filled}
use os_project_mlfqschedulin.Fs.Io.Read.{readi-copied}

-- Blocks 0 to 3 are in use.
abbrev disk : Fs
disk = record {
  sb = record { size = 60; bmapstart = 2 };
  blk = λ b o. if b == 2 then (if o == 0 then 15 else 0) else if b == 3 then 65 + o else 0;
}

abbrev abc : Inode
abc = record { size = 3; addrs = λ i. if i == 0 then 3 else 0 }

disk-IsFs : IsFs disk
unfolding bit
disk-IsFs = record {
  small = omega arith;
  boot = refl;
  map =
      λ z lt m. let two : 2 ≡ z = ground arith in subst (λ (y : ℕ). is_used disk y ≡ true) two refl;
}

abc-slot : (s : ℕ) → (slot disk abc s == 0) ≡ false → 0 ≡ s
abc-slot s nz = ground arith

abc-Owns : Owns disk abc
unfolding bit
abc-Owns = record {
  range = λ s lt nz.
      subst
        (λ (y : ℕ).
          (slot disk abc y < 60)
          × (is_used disk (slot disk abc y) ≡ true)
          × (is_map disk (slot disk abc y) ≡ false))
        (abc-slot s nz) (omega arith, refl, refl);
  once = λ s t ls lt ne nz. let z = abc-slot s nz in ground arith;
}

abc-Filled : Filled disk abc
abc-Filled o lo small = let first : o / 512 ≡ 0 = ground arith in rw first refl

disk-free : free_blocks disk ≡ 56
unfolding free_below bit
disk-free = refl

balloc-Allocated_example :
    ((balloc disk ≡ none) × ((y : ℕ) → y < 60 → is_used disk y ≡ true))
    ⊎ ((x : ℕ) × (fs' : Fs) × (balloc disk ≡ some (fs', x)) × Allocated disk fs' x)
balloc-Allocated_example = balloc-Allocated disk disk-IsFs

-- Two bytes are left behind the first one.
readi-copied_example :
    readi (λ i. 0) 1 10 abc disk
    ≡ done (
      disk,
      abc,
      (λ i. if ltb i (min 10 (3 - 1)) then content disk abc (1 + i) else 0),
      min 10 (3 - 1),
    )
readi-copied_example =
    readi-copied (λ i. 0) 1 10 abc disk abc-Filled (omega arith) (omega arith) (omega arith)

itrunc-Truncated_example : Truncated disk abc (itrunc abc disk)
itrunc-Truncated_example = itrunc-Truncated abc disk disk-IsFs abc-Owns
