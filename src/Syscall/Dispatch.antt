-- ===== src/Syscall/Dispatch.antt =====
-- The dispatch of srcs/syscall.c against the numbers of srcs/syscall.h.
use os_project_mlfqschedulin.Base.{
  ℕ, zero, suc, ◌+◌, ◌^◌, ◌<◌, ◌≡◌, refl, sym, ap, ◌∙◌, ◌≢◌, inl, inr, ◌&&◌, Option, none, some,
  List, [], ◌∷◌, arith, Bool-cases, slt, minus_one,
}
use os_project_mlfqschedulin.Syscall.{Sys, sys_fork, number, syscalls, table_entry, syscall}

-- What comes of the number `num`: the one call that has it is made, or there is none.
pub data Dispatched {K : Type 0} (run : Sys → K → K × ℕ) (num : ℕ) (k : K) (r : K × ℕ)
    : Type 0 where
  called : (s : Sys) → num ≡ number s → r ≡ run s k → Dispatched run num k r
  unknown : ((s : Sys) → num ≢ number s) → r ≡ (k, minus_one) → Dispatched run num k r

number_bounds : (s : Sys) → (0 < number s) × (number s < 24)
unfolding number
number_bounds s = ground arith

-- Each call stands in the table at its number.
table_entry-number : (s : Sys) → table_entry (number s) syscalls ≡ some s
unfolding table_entry number
table_entry-number sys_fork = refl
table_entry-number s = refl

-- The calls of a part of the table, from the number `k` on, have the numbers of their places.
abbrev Numbered : ℕ → List (Option Sys) → Type 0
Numbered k [] = Unit
Numbered k (none ∷ fs) = Numbered (suc k) fs
Numbered k (some s ∷ fs) = (number s ≡ k) × Numbered (suc k) fs

syscalls-Numbered : Numbered 0 syscalls
unfolding number
syscalls-Numbered = omega arith

table_entry-Numbered :
    (num k : ℕ) (fs : List (Option Sys)) (s : Sys)
    → Numbered k fs
    → table_entry num fs ≡ some s
    → number s ≡ k + num
unfolding table_entry
table_entry-Numbered num k [] s h e = absurd (ground arith)
table_entry-Numbered zero k (none ∷ fs) s h e = absurd (ground arith)
table_entry-Numbered zero k (some t ∷ fs) s h e =
    let same : t ≡ s = cc in ap number (sym same) ∙ h.0 ∙ omega arith
table_entry-Numbered (suc num) k (none ∷ fs) s h e =
    omega (arith, table_entry-Numbered num (suc k) fs s h e)
table_entry-Numbered (suc num) k (some t ∷ fs) s h e =
    omega (arith, table_entry-Numbered num (suc k) fs s h.1 e)

-- For any number in eax, syscall makes the one call that has it in srcs/syscall.h, whose result goes to
-- eax; where no call has it, as for 0 and the negative ones, it returns -1 and the kernel does not change.
pub syscall-Dispatched :
    {K : Type 0} (run : Sys → K → K × ℕ) (num : ℕ) (k : K)
    → num < 2 ^ 32
    → Dispatched run num k (syscall run num k)
unfolding syscall
syscall-Dispatched {K} run num k lt = elim (Bool-cases (slt 0 num && slt num 24)) [
  | inr e ↦ rw e (unknown (λ s same. let b = number_bounds s in absurd (ground arith)) refl)
  | inl e ↦ rw e (by_entry (table_entry num syscalls) refl)
]
  where
    by_entry :
        (o : Option Sys)
        → table_entry num syscalls ≡ o
        → Dispatched run num k
            (elim o as (λ (x : Option Sys). K × ℕ) [ none ↦ (k, minus_one) | some s ↦ run s k ])
    by_entry none e =
        unknown
          (λ s same.
            let there = ap (λ (x : ℕ). table_entry x syscalls) same ∙ table_entry-number s in
            absurd (ground arith))
          refl
    by_entry (some s) e =
        called s (sym (table_entry-Numbered num 0 syscalls s syscalls-Numbered e ∙ omega arith))
          refl
