-- ===== src/Phase2/Exit/Childless.antt =====
-- so2_old/E1_E2/zeos/sys.c: sys_exit of a process without children.
use fib_so.Prelude.{
  ℕ, suc, ◌<◌, ◌^◌, ◌≡◌, ◌≢◌, ◌∙◌, sym, subst, true, false, some, List, [], ◌∷◌, ◌++◌, arith, ◌==◌,
}
use fib_so.ListHead.{Ptr, null, Links, get_next, list_add_tail}
use fib_so.ListHead.Ring.{IsRing}
use fib_so.ListHead.Ring.Walk.{list_first-first}
use fib_so.Phase2.Kernel.{
  done, st_run, Layout, Kernel, list_of, kids_of, current, set_links, is_run,
}
use fib_so.Phase2.Kernel.Queues.{Queues, Loose, push_free}
use fib_so.Phase2.Space.{release_pages, num_pag_data}
use fib_so.Phase2.Space.Release.{Released, release_pages-Released}
use fib_so.Phase2.Sched.{sched_next_rr}
use fib_so.Phase2.Sched.Next.{Dispatched, sched_next_rr-ready}
use fib_so.Phase2.Exit.{adopt_from, adopt_kids, leave_processor, sys_exit}

-- The kernel when the process has given back its pages and its structure.
abbrev left : Links → Kernel → Kernel
left g k = set_links (record k { space = release_pages (k.task (current k)).dir k.space }) g

sys_exit-left :
    (l : Layout) (k : Kernel) (fuel : ℕ) (g : Links)
    → IsRing k.links (kids_of (current k)) []
    → (k.task (current k)).pid ≢ 1
    → list_add_tail (list_of (current k)) l.freequeue k.links ≡ some g
    → sys_exit l (suc fuel) k ≡ sched_next_rr l (left g k)
unfolding sys_exit adopt_kids adopt_from leave_processor get_next current
sys_exit-left l k fuel g kids other add =
    let not_one : ((k.task (current k)).pid == 1) ≡ false = ground arith in
    let head : (kids_of (current k) == null) ≡ false = ground (arith, kids.head_mapped) in
    let same : (kids_of (current k) == kids_of (current k)) ≡ true = ground arith in
    rw (list_first-first [] kids, not_one, head, kids.chain.0, same, add)

module _ (l : Layout) (k : Kernel) {free blk : List Ptr} where
  -- sys_exit of a process without children, other than the first process, while another is ready:
  -- the frames and the pages of its data are given back, its structure goes to the end of the free
  -- queue, and the first ready process runs.
  pub sys_exit-leaves :
      (fuel : ℕ) (t : Ptr) (rest : List Ptr)
      → IsRing k.links (kids_of (current k)) []
      → (k.task (current k)).pid ≢ 1
      → Queues l k.links free (list_of t ∷ rest) blk
      → Loose l free (list_of t ∷ rest) blk (list_of (current k))
      → t < 2 ^ 32
      → is_run (k.task t).state ≡ false
      → (k' : Kernel) × (sys_exit l (suc fuel) k ≡ done k')
        × Queues l k'.links (free ++ list_of (current k) ∷ []) rest blk
        × Released 0 num_pag_data (k.task (current k)).dir k.space k'.space
        × ((k'.task t).state ≡ st_run)
        × (k'.esp ≡ (k.task t).kernel_esp)
        × (k'.cr3 ≡ (k.task t).dir)
  sys_exit-leaves fuel t rest kids other q loose small waiting =
      let p = push_free (list_of (current k)) q loose in
      let r = sched_next_rr-ready {k = left p.0 k} t rest p.2 small waiting in
      let d : Dispatched (left p.0 k) t r.0 = r.5 in
      (
        r.0,
        sys_exit-left l k fuel p.0 kids other p.1 ∙ r.1,
        r.2,
        subst (Released 0 num_pag_data (k.task (current k)).dir k.space) (sym d.space)
            (release_pages-Released (k.task (current k)).dir k.space),
        r.4,
        d.stack_pointer,
        d.directory,
      )
