-- ===== src/Game/Process.antt =====
-- so2_old/GAME/zeos/sys.c: sys_fork and sys_exit, with allocate_DIR of sched.c.
pub mod Child
pub mod Exit
pub mod Fork
pub mod Refused
use fib_so.Prelude.{ℕ, ◌+◌, ◌-◌, ◌*◌, ◌/◌, Bool, true, false, not, if◌then◌else◌, update}
use fib_so.Prelude.Int.{ℤ, pos, negsuc, neg}
use fib_so.ListHead
use fib_so.ListHead.{Ptr, list_add_tail, list_del, list_empty, list_first}
use fib_so.Phase2.Kernel.{Run, done, ◌>>=◌, lift, st_ready, list_of, Space}
use fib_so.Game.Kernel.{
  Task, Layout, Kernel, on_links, set_task, list_head_to_task_struct, current, init_stats,
}
use fib_so.Game.Sched.{sched_next_rr}
use fib_so.Game.Space.{num_pag_data, pag_log_init_data, release_from, map_data_pages, copy_space}

abbrev pub enomem : ℤ
enomem = neg 12

abbrev pub eagain : ℤ
eagain = neg 11

-- `copy_data(current(), uchild, sizeof(union task_union))`: structure, links and stack.
abbrev pub copy_links : Ptr → Ptr → ListHead.Links → ListHead.Links
copy_links from to h = record {
  next = update h.next (list_of to) (h.next (list_of from));
  prev = update h.prev (list_of to) (h.prev (list_of from));
}

abbrev pub copy_union : Ptr → Ptr → Kernel → Kernel
copy_union from to k = record k {
  task = update k.task to (k.task from);
  links = copy_links from to k.links;
  stack = update k.stack to (k.stack from);
}

-- The child's number, state, stack and statistics; `ebp` is the frame pointer in sys_fork. On the
-- stack of the child the return address of sys_fork stands above that of ret_from_fork.
pub finish_child : Layout → ℕ → Ptr → Kernel → Kernel
finish_child l ebp uchild k =
    let register_ebp : ℕ = ebp - current k + uchild in
    let at : ℕ = (ebp - current k) / 4 in
    let temp_ebp : ℕ = k.stack uchild at in
    let words : ℕ → ℕ = update (update (k.stack uchild) at l.ret_from_fork) (at - 1) temp_ebp in
    let k1 : Kernel = record k {
      global_pid = k.global_pid + 1;
      task = update k.task uchild (record (k.task uchild) {
        pid = pos (k.global_pid + 1);
        state = st_ready;
        register_esp = register_ebp + 4 - 4 - 4;
      });
      stack = update k.stack uchild words;
    } in
    let k2 : Kernel = init_stats uchild k1 in
    set_task uchild (record (k2.task uchild) { state = st_ready }) k2

-- The address spaces, when the frames are there, and the CR3 register of the parent.
pub finish_space : Ptr → Space → Kernel → Kernel
finish_space uchild sp k =
    let parent : ℕ = (k.task (current k)).dir in
    record k { space = copy_space parent (k.task uchild).dir sp; cr3 = parent }

module _ (l : Layout) where
  unfoldable pub allocate_dir : Ptr → Kernel → Kernel
  allocate_dir t k = set_task t (record (k.task t) { dir = (t - l.task) / 4096 }) k

  -- sys_fork from the outcome of the allocation on.
  unfoldable pub fork_with : ℕ → Ptr → Bool × Space → Kernel → Run (ℤ × Kernel)
  fork_with ebp uchild (true, sp) k =
      let k1 : Kernel = finish_child l ebp uchild (finish_space uchild sp k) in
      (do
        k2 ← on_links (list_add_tail (list_of uchild) l.readyqueue) k1
        done ((k2.task uchild).pid, k2))
  fork_with ebp uchild (false, sp) k = do
    k ← on_links (list_add_tail (list_of uchild) l.freequeue) (record k { space = sp })
    done (eagain, k)

  pub sys_fork : ℕ → Kernel → Run (ℤ × Kernel)
  sys_fork ebp k = do
    empty ← lift (list_empty l.freequeue k.links)
    if empty then done (enomem, k) else do
      lhcurrent ← lift (list_first l.freequeue k.links)
      k ← on_links (list_del lhcurrent) k
      let uchild = list_head_to_task_struct lhcurrent
      let k1 = allocate_dir uchild (copy_union (current k) uchild k)
      fork_with ebp uchild (map_data_pages (k1.task uchild).dir k1.space) k1

  pub sys_exit : Kernel → Run Kernel
  sys_exit k = do
    k ← on_links (list_add_tail (list_of (current k)) l.freequeue) (record k {
      space = release_from num_pag_data pag_log_init_data (k.task (current k)).dir k.space;
    })
    sched_next_rr l (set_task (current k) (record (k.task (current k)) { pid = negsuc 0 }) k)
