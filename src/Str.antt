-- ===== src/Str.antt =====
-- Blocks and strings of bytes, srcs/string.c. Memory is a function from addresses to bytes; a block
-- does not run over the end of the address space, so addresses are numbers that do not wrap.
pub mod Blocks
pub mod Copy
mod Tests
use os_project_mlfqschedulin.Base.{
  ℕ, zero, suc, ◌+◌, ◌-◌, ◌%◌, ◌^◌, Bool, true, false, ◌&&◌, ltb, ◌==◌, if◌then◌else◌, update, sle,
}

-- `while(n-- > 0) *d++ = *s++;`
unfoldable pub move_up : ℕ → ℕ → ℕ → (ℕ → ℕ) → ℕ → ℕ
move_up zero d s m = m
move_up (suc n) d s m = move_up n (d + 1) (s + 1) (update m d (m s))

-- `while(n-- > 0) *--d = *--s;`, where `d` and `s` are the starts of the blocks.
unfoldable pub move_down : ℕ → ℕ → ℕ → (ℕ → ℕ) → ℕ → ℕ
move_down zero d s m = m
move_down (suc n) d s m = move_down n d s (update m (d + n) (m (s + n)))

-- memmove, and memcpy, which is the same.
unfoldable pub memmove : ℕ → ℕ → ℕ → (ℕ → ℕ) → ℕ → ℕ
unfolding move_up move_down
memmove d s n m = if ltb s d && ltb d (s + n) then move_down n d s m else move_up n d s m

-- The difference of the first two bytes that differ, as a 32-bit pattern.
unfoldable pub memcmp : ℕ → ℕ → ℕ → (ℕ → ℕ) → ℕ
memcmp v1 v2 zero m = 0
memcmp v1 v2 (suc n) m =
    let rest = memcmp (v1 + 1) (v2 + 1) n m in
    if m v1 == m v2 then rest else (m v1 + 2 ^ 32 - m v2) % 2 ^ 32

-- The loop of safestrcpy, which copies at most `n` bytes, and the final NUL.
unfoldable pub copy_str : ℕ → ℕ → ℕ → (ℕ → ℕ) → ℕ → ℕ
copy_str zero s t m = update m s 0
copy_str (suc n) s t m =
    let m' = update m s (m t) in
    let rest = copy_str n (s + 1) (t + 1) m' in if m t == 0 then update m' (s + 1) 0 else rest

-- `n` is an int, so its 32-bit pattern.
unfoldable pub safestrcpy : ℕ → ℕ → ℕ → (ℕ → ℕ) → ℕ → ℕ
unfolding copy_str
safestrcpy s t n m = if sle n 0 then m else copy_str (n - 1) s t m
