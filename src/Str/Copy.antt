-- ===== src/Str/Copy.antt =====
-- safestrcpy of srcs/string.c: what it copies, and that the copy ends in a NUL.
use os_project_mlfqschedulin.Base.{ℕ, ◌+◌, ◌<◌, ◌≤◌, ◌≡◌, ◌⊎◌}

-- The string of at most `n` bytes at `t` and a NUL stand at `s` in `r`; nothing else differs from `m`.
pub record Copied (n s t : ℕ) (m r : ℕ → ℕ) : Type 0 where
  pub cut : ℕ
  pub within : cut ≤ n
  pub nul : r (s + cut) ≡ 0
  pub same : (i : ℕ) → i < cut → r (s + i) ≡ m (t + i)
  pub whole : (cut ≡ n) ⊎ (m (t + cut) ≡ 0)
  pub away : (x : ℕ) → (x < s) ⊎ (s + n < x) → r x ≡ m x
