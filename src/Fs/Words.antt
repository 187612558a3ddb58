-- ===== src/Fs/Words.antt =====
-- 32-bit words in a block of bytes, as the indirect block of srcs/fs.c has them.
use os_project_mlfqschedulin.Base.{
  ℕ, ◌^◌, ◌<◌, ◌≡◌, inl, inr, arith, ◌==◌, if◌then◌else◌, Bool-cases,
}
use os_project_mlfqschedulin.Fs.{word_at, put_word}

-- A word that is written is read again, and no other word changes.
pub word_at-put_word :
    (d : ℕ → ℕ) (i v j : ℕ)
    → v < 2 ^ 32
    → word_at (put_word d i v) j ≡ (if i == j then v else word_at d j)
unfolding word_at put_word
word_at-put_word d i v j lt = elim (Bool-cases (i == j)) [
  | inl e ↦ ground arith
  | inr e ↦ ground arith
]
