-- ===== src/Game/Process/Exit.antt =====
-- so2_old/GAME/zeos/sys.c: sys_exit.
use fib_so.Prelude.{
  ℕ, ◌%◌, ◌≡◌, ◌≢◌, ◌∙◌, ap, sym, subst, refl, false, some, List, [], ◌∷◌, ◌++◌, arith, has,
}
use fib_so.Prelude.Int.{negsuc}
use fib_so.ListHead.{Ptr, Links, list_add_tail}
use fib_so.Phase2.Kernel.{done, st_run, list_of, Space}
use fib_so.Phase2.Space.{free_frames}
use fib_so.Game.Space.Alloc.{Lost, release_from-Lost, release_from-free_frames}
use fib_so.Phase2.Space.Release.{frames_of}
use fib_so.Game.Kernel.{Layout, Kernel, Task, current, set_task}
use fib_so.Game.Sched.{dispatch, sched_next_rr}
use fib_so.Game.Sched.Rotate.{Accounts, IsClock, dispatch-Dispatched, next, current-esp}
use fib_so.Game.Space.{num_pag_data, pag_log_init_data, release_from}
use fib_so.Game.Process.{sys_exit}
use fib_so.Game.Process.Fork.{Queues, push_free, pop_ready}

-- The kernel when the process has given back its pages, its structure and its number.
abbrev pub left : Links → Kernel → Kernel
left g k =
    set_task (current k) (record (k.task (current k)) { pid = negsuc 0 })
      (record k {
        space = release_from num_pag_data pag_log_init_data (k.task (current k)).dir k.space;
        links = g;
      })

pub sys_exit-left :
    (l : Layout) (k : Kernel) (g : Links)
    → list_add_tail (list_of (current k)) l.freequeue k.links ≡ some g
    → sys_exit l k ≡ sched_next_rr l (left g k)
unfolding sys_exit current
sys_exit-left l k g add = rw add refl

module _ (l : Layout) (start : Ptr → ℕ) (k : Kernel) {free : List Ptr} where
  -- sys_exit while another process is ready: the frames of the 20 data pages are freed and the pages
  -- unmapped, the structure goes to the end of the free queue with the number -1, and the first ready
  -- process runs with its own stack, address space and quantum; the statistics of every process still
  -- account for all its ticks.
  pub sys_exit-Dispatched :
      (t : Ptr) (rest : List Ptr)
      → Queues l k.links free (list_of t ∷ rest)
      → has (list_of (current k)) (l.freequeue ∷ free) ≡ false
      → has (list_of (current k)) (l.readyqueue ∷ list_of t ∷ rest) ≡ false
      → t % 4096 ≡ 0
      → IsClock k
      → Accounts start k
      → (k' : Kernel) × (sys_exit l k ≡ done k')
        × Queues l k'.links (free ++ list_of (current k) ∷ []) rest
        × Lost 20 264 (k.task (current k)).dir k.space k'.space
        × (k'.space.phys
            ≡ free_frames (frames_of (k.space.tables (k.task (current k)).dir) 264 20) k.space.phys)
        × ((k'.task (current k)).pid ≡ negsuc 0)
        × ((k'.task t).state ≡ st_run)
        × (k'.esp ≡ (k.task t).register_esp)
        × (k'.cr3 ≡ (k.task t).dir)
        × (k'.remaining_quantum ≡ (k.task t).total_quantum)
        × Accounts start k'
  sys_exit-Dispatched t rest q not_free not_ready aligned word ok =
      let c : Ptr = current k in
      let p = push_free (list_of c) q (omega arith) not_free not_ready in
      let o = pop_ready (list_of t) p.2 in
      let ne : c ≢ t = λ e. ground (arith, not_ready) in
      let k1 : Kernel = left p.0 k in
      let k2 : Kernel = record k1 { links = o.0 } in
      let here : current k2 ≡ c = current-esp k k2 refl in
      let same : k1.task t ≡ k.task t = ground arith in
      let d =
        dispatch-Dispatched start t k2 (λ e. ne (sym here ∙ e)) word
          (λ u. (ground (arith, ok u, ok c), ground (arith, ok u, ok c))) in
      (
        dispatch t k2,
        sys_exit-left l k p.0 p.1 ∙ next l k1 t rest o.0 p.2.ready_ring aligned o.1,
        rw d.links o.2,
        subst (Lost 20 264 (k.task c).dir k.space) (sym d.space)
            (release_from-Lost 20 264 (k.task c).dir k.space),
        ap (λ (sp : Space). sp.phys) d.space
            ∙ release_from-free_frames 20 264 (k.task c).dir k.space,
        d.numbers c ∙ ground arith,
        d.running,
        d.stack_pointer ∙ ap (λ (v : Task). v.register_esp) same,
        d.directory ∙ ap (λ (v : Task). v.dir) same,
        d.quantum ∙ ap (λ (v : Task). v.total_quantum) same,
        d.accounts,
      )
