-- ===== src/Seek/Tests.antt =====
-- lseek on one open file.
use os_project_mlfqschedulin.Base.{
  ◌≡◌, refl, inl, inr, true, some, none, ◌==◌, if◌then◌else◌, arith, minus_one,
}
use os_project_mlfqschedulin.Seek.{Files, sys_lseek}
use os_project_mlfqschedulin.Seek.Seeks.{IsRight, moved_to, sys_lseek-IsRight, sys_lseek-refused}

-- Descriptor 3 is open on an inode of 100 bytes.
abbrev one_file : Files
one_file = record {
  ofile = λ fd. if fd == 3 then some 0 else none;
  file = λ id. record { is_inode = true; off = 10; size = 100 };
}

end_IsRight : IsRight 3 5 2 0 105 one_file
end_IsRight = record {
  within = omega arith;
  opened = refl;
  inode = refl;
  asked = inr (inr (refl, refl));
  positive = omega arith;
}

sys_lseek-IsRight_example : sys_lseek 3 5 2 one_file ≡ (moved_to 0 105 one_file, 105)
sys_lseek-IsRight_example = sys_lseek-IsRight 3 5 2 0 105 one_file end_IsRight

sys_lseek-refused_example : sys_lseek 4 0 0 one_file ≡ (one_file, minus_one)
sys_lseek-refused_example = sys_lseek-refused 4 0 0 one_file (omega arith) (inr (inl refl))
