-- ===== src/Vm.antt =====
-- Page tables of two levels, srcs/vm.c, in the memory of the page allocator Page: walkpgdir, mappages.
pub mod Bits
pub mod Tables
pub mod NewTable
pub mod Walk
pub mod Rounds
pub mod Maps
mod Tests
use os_project_mlfqschedulin.Base.{
  ℕ, zero, suc, ◌+◌, ◌-◌, ◌*◌, ◌/◌, ◌%◌, ◌^◌, Bool, true, false, ◌||◌, ◌&&◌, not, ltb, leb, ◌==◌,
  if◌then◌else◌, update,
}
use os_project_mlfqschedulin.Page.{pgsize, kernbase, Kmem, kalloc}

-- `a | b` on words of `n` bits.
unfoldable pub or_bits : ℕ → ℕ → ℕ → ℕ
or_bits zero a b = 0
or_bits (suc n) a b = (if a % 2 == 1 || b % 2 == 1 then 1 else 0) + 2 * or_bits n (a / 2) (b / 2)

-- `PDX`, `PTX`, `PTE_ADDR`, `V2P`, `P2V` and `PGROUNDDOWN` on 32-bit words.
abbrev pub pdx : ℕ → ℕ
pdx va = va / 2 ^ 22 % 1024

abbrev pub ptx : ℕ → ℕ
ptx va = va / 2 ^ 12 % 1024

abbrev pub pte_addr : ℕ → ℕ
pte_addr e = e / pgsize * pgsize

abbrev pub v2p : ℕ → ℕ
v2p a = (a + 2 ^ 32 - kernbase) % 2 ^ 32

abbrev pub p2v : ℕ → ℕ
p2v a = (a + kernbase) % 2 ^ 32

abbrev pub pgrounddown : ℕ → ℕ
pgrounddown a = a / pgsize * pgsize

-- `e & PTE_P`.
abbrev pub is_present : ℕ → Bool
is_present e = e % 2 == 1

-- `memset(v, 0, PGSIZE)`, seen by words.
abbrev pub zeros : ℕ → (ℕ → ℕ) → ℕ → ℕ
zeros v m a = if leb v a && ltb a (v + pgsize) then 0 else m a

-- `V2P(pgtab) | PTE_P | PTE_W | PTE_U`.
abbrev pub pde_word : ℕ → ℕ
pde_word pgtab = or_bits 32 (or_bits 32 (or_bits 32 (v2p pgtab) 1) 2) 4

-- walkpgdir behind a kalloc() for the table of the directory entry at `pde`.
unfoldable pub new_table : ℕ → ℕ → Kmem × ℕ → Kmem × ℕ
unfolding or_bits
new_table pde va (k, pgtab) = if pgtab == 0 then (k, 0) else (
  record k { word_at = update (zeros pgtab k.word_at) pde (pde_word pgtab) },
  pgtab + 4 * ptx va,
)

-- The address of the page table entry for `va`, or 0.
unfoldable pub walkpgdir : ℕ → ℕ → Bool → Kmem → Kmem × ℕ
unfolding new_table
walkpgdir pgdir va alloc k =
    let pde = pgdir + 4 * pdx va in
    if is_present (k.word_at pde)
    then (k, p2v (pte_addr (k.word_at pde)) + 4 * ptx va)
    else if not alloc
    then (k, 0)
    else new_table pde va (kalloc k)

-- What mappages comes to: 0, -1, panic("remap"); `no_fuel` is a loop cut short.
pub data MapResult : Type 0 where
  maps : Kmem → MapResult
  no_memory : Kmem → MapResult
  remap : MapResult
  no_fuel : MapResult

-- `pa | perm | PTE_P`.
abbrev pub pte_word : ℕ → ℕ → ℕ
pte_word pa perm = or_bits 32 (or_bits 32 pa perm) 1

-- The loop of mappages.
unfoldable pub map_loop : ℕ → ℕ → ℕ → ℕ → ℕ → ℕ → Kmem → MapResult
map_loop zero pgdir a last pa perm k = no_fuel
map_loop (suc n) pgdir a last pa perm k =
    let r = walkpgdir pgdir a true k in
    let k' = record (r.0) { word_at = update r.0.word_at r.1 (pte_word pa perm) } in
    let rest = map_loop n pgdir ((a + pgsize) % 2 ^ 32) last ((pa + pgsize) % 2 ^ 32) perm k' in
    if r.1 == 0
    then no_memory r.0
    else if is_present (r.0.word_at r.1)
    then remap
    else if a == last
    then maps k'
    else rest

-- There is a round for each page from the first to the last, around the end of the address space if
-- need be.
unfoldable pub mappages : ℕ → ℕ → ℕ → ℕ → ℕ → Kmem → MapResult
mappages pgdir va size pa perm k =
    let a = pgrounddown va in
    let last = pgrounddown ((va + size + 2 ^ 32 - 1) % 2 ^ 32) in
    map_loop ((last + 2 ^ 32 - a) % 2 ^ 32 / pgsize + 1) pgdir a last pa perm k
