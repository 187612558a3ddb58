-- ===== src/Sched/Queue.antt =====
-- The queue functions of srcs/proc.c: init_qeueus, add_to_queue, remove_from_queue, get_next_proc.
pub mod Seg
pub mod Remove
pub mod Insert
pub mod Linked
pub mod Order
use os_project_mlfqschedulin.Base.{
  ℕ, zero, suc, ◌+◌, Bool, true, false, ◌&&◌, ◌||◌, Option, none, some, ltb, leb, ◌==◌,
  if◌then◌else◌, slt, sle, update,
}
use os_project_mlfqschedulin.Sched.{
  nproc, levels, Ptr, Proc, ProcList, Links, Kernel, invalid_queue_level, Result, ok, panic, fault,
  out_of_fuel, ◌>>=◌, ptr_eq, set_proc,
}

unfoldable pub set_next : ℕ → Ptr → Links → Links
set_next i q l = record l { next = update l.next i q }

unfoldable pub set_prev : ℕ → Ptr → Links → Links
set_prev i q l = record l { prev = update l.prev i q }

-- An access to `ptable.queues[lv]`.
unfoldable pub queue_at : ℕ → Links → Result ProcList
queue_at lv l = if ltb lv levels then ok (l.queues lv) else fault

unfoldable pub set_head : ℕ → Ptr → Links → Result Links
set_head lv h l =
    if ltb lv levels
    then ok
        (record l { queues = update l.queues lv (record { head = h; tail = (l.queues lv).tail }) })
    else fault

unfoldable pub set_tail : ℕ → Ptr → Links → Result Links
set_tail lv t l =
    if ltb lv levels
    then ok
        (record l { queues = update l.queues lv (record { head = (l.queues lv).head; tail = t }) })
    else fault

-- `if (b) b->next = q; else queue->head = q;`
unfoldable pub link_next : Ptr → Ptr → ℕ → Links → Result Links
link_next (some b) q lv l = ok (set_next b q l)
link_next none q lv l = set_head lv q l

-- `if (a) a->prev = q; else queue->tail = q;`
unfoldable pub link_prev : Ptr → Ptr → ℕ → Links → Result Links
link_prev (some a) q lv l = ok (set_prev a q l)
link_prev none q lv l = set_tail lv q l

-- Each of the four queues is made empty.
unfoldable pub init_queues : Links → Links
init_queues l = record l { queues = λ lv. if ltb lv levels then empty else l.queues lv }
  where
    empty : ProcList
    empty = record { head = none; tail = none }

-- The test `p_is_higher`: more I/O wait, or as much and a later entry.
unfoldable pub is_higher : Proc → Proc → Bool
is_higher p c =
    slt c.io_wait_time p.io_wait_time
    || ((p.io_wait_time == c.io_wait_time) && ltb c.queue_entry_time p.queue_entry_time)

unfoldable pub insert_before : ℕ → ℕ → ℕ → Links → Result Links
unfolding set_next set_prev link_next
insert_before p c lv l =
    link_next (l.prev c) (some p) lv (set_prev p (l.prev c) (set_next p (some c) l)) >>= λ l'.
    ok (set_prev c (some p) l')

unfoldable pub append_tail : ℕ → ℕ → Links → Result Links
unfolding set_next set_prev set_tail
append_tail p lv l = elim (l.queues lv).tail [
  | none ↦ fault
  | some t ↦ set_tail lv (some p) (set_prev p (some t) (set_next t (some p) l))
]

-- The loop over the queue from `curr` on, and what follows it.
unfoldable pub insert_scan : (ℕ → Proc) → ℕ → ℕ → ℕ → Ptr → Links → Result Links
unfolding is_higher insert_before append_tail
insert_scan proc zero p lv curr l = out_of_fuel
insert_scan proc (suc n) p lv none l = append_tail p lv l
insert_scan proc (suc n) p lv (some c) l =
    let rest = insert_scan proc n p lv (l.next c) l in
    if is_higher (proc p) (proc c) then insert_before p c lv l else rest

-- An empty queue gets its one member; otherwise the loop looks for the place, with one round of
-- fuel for each process and one more.
unfoldable pub enter : (ℕ → Proc) → ℕ → ℕ → Links → Result Links
unfolding set_head set_tail insert_scan
enter proc p lv l = elim (l.queues lv).head [
  | none ↦ set_head lv (some p) l >>= set_tail lv (some p)
  | some c ↦ insert_scan proc (nproc + 1) p lv (some c) l
]

-- `p->next = p->prev = 0`, and the insertion.
unfoldable pub link_in : (ℕ → Proc) → ℕ → ℕ → Links → Result Links
unfolding set_next set_prev enter
link_in proc p lv l = enter proc p lv (set_next p none (set_prev p none l))

unfoldable pub add_to_queue : ℕ → ℕ → Kernel → Result Kernel
unfolding link_in
add_to_queue p level k = if slt level 0 || sle levels level then panic invalid_queue_level else (do
  let p' = record (k.proc p) { q_level = level; queue_entry_time = k.ticks }
  let proc' = update k.proc p p'
  l ← link_in proc' p level k.links
  ok (record k { proc = proc'; links = l }))

-- The test at the top of remove_from_queue; the queue is read only if both links are null.
unfoldable pub is_unlinked : ℕ → ℕ → Links → Result Bool
unfolding queue_at
is_unlinked p lv l =
    if ptr_eq (l.prev p) none && ptr_eq (l.next p) none
    then queue_at lv l >>= (λ q. ok (if ptr_eq q.head (some p) then false else true))
    else ok false

-- The rest of remove_from_queue.
unfoldable pub unlink : ℕ → ℕ → Links → Result Links
unfolding link_next link_prev set_next set_prev
unlink p lv l = do
  l1 ← link_next (l.prev p) (l.next p) lv l
  l2 ← link_prev (l1.next p) (l1.prev p) lv l1
  ok (set_prev p none (set_next p none l2))

unfoldable pub remove_from_queue : ℕ → Kernel → Result Kernel
unfolding is_unlinked unlink
remove_from_queue p k = do
  let lv = (k.proc p).q_level
  alone ← is_unlinked p lv k.links
  if alone then ok k else (unlink p lv k.links >>= (λ l. ok (record k { links = l })))

unfoldable pub first_head : ℕ → ℕ → Links → Ptr
first_head zero lv l = none
first_head (suc n) lv l = elim (l.queues lv).head [
  | none ↦ first_head n (lv + 1) l
  | some p ↦ some p
]

-- The head of the first queue that is not empty, from level 0 to level 3.
unfoldable pub get_next_proc : Kernel → Ptr
unfolding first_head
get_next_proc k = first_head levels 0 k.links
