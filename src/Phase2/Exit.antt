-- ===== src/Phase2/Exit.antt =====
-- so2_old/E1_E2/zeos/sys.c: sys_exit.
pub mod Childless
pub mod First
use fib_so.Prelude.{ℕ, zero, suc, ◌==◌, if◌then◌else◌, List, [], ◌∷◌, ◌++◌}
use fib_so.ListHead.{Ptr, null, get_next, list_add_tail, list_del, list_first}
use fib_so.Console.{printk}
use fib_so.Phase2.Kernel.{
  Run, done, out_of_fuel, ◌>>=◌, lift, Layout, Kernel, list_of, kids_of, list_head_to_task_struct,
  current, on_links, set_task,
}
use fib_so.Phase2.Space.{release_pages}
use fib_so.Phase2.Sched.{sched_next_rr}

-- "\nThe task 1 cannot exit\n"
abbrev pub cannot_exit : List ℕ
cannot_exit =
    10 ∷ b'T' ∷ b'h' ∷ b'e' ∷ b' ' ∷ b't' ∷ b'a' ∷ b's' ∷ b'k' ∷ b' ' ∷ b'1' ∷ b' ' ∷ b'c' ∷ b'a'
    ∷ b'n' ∷ b'n' ∷ b'o' ∷ b't' ∷ b' ' ∷ b'e' ∷ b'x' ∷ b'i' ∷ b't' ∷ 10 ∷ []

-- The body of the loop over the children: the child at `entry` goes to the idle process.
unfoldable pub adopt_child : Ptr → Kernel → Run Kernel
adopt_child entry k = do
  k ← on_links (list_add_tail entry (kids_of k.idle_task)) k
  let child_pcb = list_head_to_task_struct entry
  on_links (list_del entry)
      (set_task child_pcb (record (k.task child_pcb) { parent = k.idle_task }) k)

-- The loop from `entry` on.
pub adopt_from : ℕ → Ptr → Kernel → Run Kernel
adopt_from zero entry k = out_of_fuel
adopt_from (suc fuel) entry k =
    let rest = (do
      k ← adopt_child entry k
      next ← lift (get_next entry k.links)
      adopt_from fuel next k) in
    if entry == kids_of (current k) then done k else rest

unfoldable pub adopt_kids : ℕ → Ptr → Kernel → Run Kernel
adopt_kids fuel current_kids k =
    let rest = (do
      first ← lift (get_next (kids_of (current k)) k.links)
      adopt_from fuel first k) in
    if current_kids == null then done k else rest

module _ (l : Layout) where
  -- The process gives back its pages and its structure, and the next one runs.
  unfoldable pub leave_processor : Kernel → Run Kernel
  leave_processor k = do
    k ←
        on_links (list_add_tail (list_of (current k)) l.freequeue)
          (record k { space = release_pages (k.task (current k)).dir k.space })
    sched_next_rr l k

  pub sys_exit : ℕ → Kernel → Run Kernel
  sys_exit fuel k = do
    current_kids ← lift (list_first (kids_of (current k)) k.links)
    if (k.task (current k)).pid == 1
        then (do s ← lift (printk (cannot_exit ++ 0 ∷ []) k.screen); done (record k { screen = s }))
        else (do k ← adopt_kids fuel current_kids k; leave_processor k)
