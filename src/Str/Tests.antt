-- ===== src/Str/Tests.antt =====
-- Blocks and strings at concrete addresses.
use os_project_mlfqschedulin.Base.{ℕ, ◌≡◌, ◌<◌, ◌%◌, arith}
use os_project_mlfqschedulin.Str.{memmove, memcmp}
use os_project_mlfqschedulin.Str.Blocks.{moved, SameBlock, memmove-moved, memcmp-SameBlock}

-- Each byte is its address.
count : ℕ → ℕ
count x = x % 256

count_small : (x : ℕ) → count x < 256
unfolding count
count_small x = omega arith

memmove-moved_example : memmove 12 10 4 count 13 ≡ moved 12 10 4 count 13
memmove-moved_example = memmove-moved 12 10 4 count 13

memcmp-SameBlock_example :
    (memcmp 1 257 3 count ≡ 0 → SameBlock 1 257 3 count)
    × (SameBlock 1 257 3 count → memcmp 1 257 3 count ≡ 0)
memcmp-SameBlock_example = memcmp-SameBlock 1 257 3 count count_small
