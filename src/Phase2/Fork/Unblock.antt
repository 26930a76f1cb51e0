-- ===== src/Phase2/Fork/Unblock.antt =====
-- so2_old/E1_E2/zeos/sys.c: sys_unblock in a process that has called sys_fork.
use fib_so.Prelude.{
  ℕ, ◌<◌, ◌^◌, ◌≡◌, ◌≢◌, ◌∙◌, ap, true, some, List, [], ◌∷◌, ◌++◌, arith, has, has-append, ◌==◌,
  if◌then◌else◌, Bool-cases, inl, inr, ==_iff,
}
use fib_so.Prelude.Int.{pos}
use fib_so.ListHead.{Ptr}
use fib_so.Paging.Frames.{PhysMem}
use fib_so.Phase2.Kernel.{
  done, out_of_fuel, Layout, Kernel, Task, list_of, kids_of, list_head_to_task_struct, current,
}
use fib_so.Phase2.Kernel.Queues.{Queues}
use fib_so.Phase2.Space.{alloc_data_frames}
use fib_so.Phase2.Unblock.{sys_unblock}
use fib_so.Phase2.Unblock.Search.{pid_at}
use fib_so.Phase2.Unblock.Forever.{sys_unblock-forever}
use fib_so.Phase2.Fork.{sys_fork}
use fib_so.Phase2.Fork.Child.{Family, Forked, sys_fork-Forked}

-- A fork gives the child's number to its structure, and leaves the others as they were.
Forked-pid :
    (l : Layout) (k : Kernel) (n : Ptr) (rest ready blk kids fs : List ℕ) (m : PhysMem)
    (k' : Kernel) (a : Ptr)
    → Forked l k n rest ready blk kids fs m k'
    → pid_at k' a ≡ (if list_head_to_task_struct a == n then k.pid_counter else pid_at k a)
Forked-pid l k n rest ready blk kids fs m k' a f =
    elim (Bool-cases (list_head_to_task_struct a == n)) [
      | inl own ↦
          let e = (==_iff (list_head_to_task_struct a) n).0 own in
          rw own (ap (λ t. (k'.task t).pid) e ∙ ap (λ (t : Task). t.pid) f.child)
      | inr other ↦
          rw other (ap (λ (t : Task). t.pid) (f.others (list_head_to_task_struct a) (ground arith)))
    ]

current-esp : (k k' : Kernel) → k'.esp ≡ k.esp → current k' ≡ current k
unfolding current
current-esp k k' e = rw e

-- In the ready queue of a fork only its head and the processes of before have a number of before.
Forked-absent :
    (l : Layout) (k : Kernel) (n : Ptr) (rest ready blk fs : List ℕ) (m : PhysMem) (k' : Kernel)
    (pid : ℕ) (b : Ptr)
    → n < 2 ^ 32
    → Forked l k n rest ready blk [] fs m k'
    → pid ≢ k.pid_counter
    → ((b : Ptr) → has b (l.readyqueue ∷ ready) ≡ true → pid_at k b ≢ pid)
    → has b (l.readyqueue ∷ (ready ++ list_of n ∷ [])) ≡ true
    → pid_at k' b ≢ pid
unfolding list_head_to_task_struct
Forked-absent l k n rest ready blk fs m k' pid b small d new absent i =
    let owner : list_head_to_task_struct (list_of n) ≡ n = omega arith in
    let child : b ≡ list_of n → list_head_to_task_struct b ≡ n =
      λ e. ap list_head_to_task_struct e ∙ owner in
    ground (
      arith,
      child,
      has-append b ready (list_of n ∷ []),
      absent b,
      Forked-pid l k n rest ready blk [] fs m k' b d,
    )

Forked-forever :
    (l : Layout) (k : Kernel) (n : Ptr) (rest ready blk fs : List ℕ) (m : PhysMem) (k' : Kernel)
    (pid fuel : ℕ)
    → Family l (current k) n rest ready blk [] k.links
    → n < 2 ^ 32
    → Forked l k n rest ready blk [] fs m k'
    → pid ≢ k.pid_counter
    → ((b : Ptr) → has b (l.readyqueue ∷ ready) ≡ true → pid_at k b ≢ pid)
    → sys_unblock l pid fuel k' ≡ out_of_fuel
Forked-forever l k n rest ready blk fs m k' pid fuel f small r new absent =
    let e = current-esp k k' r.stack_pointer in
    let split = has-append (kids_of (current k')) ready (list_of n ∷ []) in
    let child = has-append (list_of n) ready (list_of n ∷ []) in
    let parent = f.apart (kids_of (current k)) (ground arith) in
    sys_unblock-forever l pid k' (ready ++ list_of n ∷ []) fuel r.queues.ready_ring
      (ground (arith, e, f.ring.head_mapped)) (ground (arith, e, split, parent.0, parent.1))
      (λ b i. Forked-absent l k n rest ready blk fs m k' pid b small r new absent i)
      (ground (arith, e, r.kids_first, child))

module _ (l : Layout) (k : Kernel) {rest ready blk : List Ptr} where
  -- Let the caller have no children, its list of children and the one of the child to be stand apart
  -- from the queues, which are well formed, and let there be a free process structure, at an address
  -- of 32 bits, and frames enough. Then sys_fork returns, and after it sys_unblock does not return for
  -- a number other than the new child's that no process of the ready queue has, nor the memory at its
  -- head read as one: the list of children leads into the ready queue.
  pub sys_fork-sys_unblock :
      (n : Ptr) (fs : List ℕ) (m : PhysMem) (pid : ℕ)
      → Queues l k.links (list_of n ∷ rest) ready blk
      → Family l (current k) n rest ready blk [] k.links
      → n < 2 ^ 32
      → alloc_data_frames k.space.phys ≡ (some fs, m)
      → pid ≢ k.pid_counter
      → ((b : Ptr) → has b (l.readyqueue ∷ ready) ≡ true → pid_at k b ≢ pid)
      → (k' : Kernel) × (sys_fork l k ≡ done (pos k.pid_counter, k'))
        × ((fuel : ℕ) → sys_unblock l pid fuel k' ≡ out_of_fuel)
  sys_fork-sys_unblock n fs m pid q f small alloc new absent =
      let r = sys_fork-Forked l k n fs m q f small alloc in
      (
        r.0,
        r.1,
        λ fuel. Forked-forever l k n rest ready blk fs m r.0 pid fuel f small r.2 new absent,
      )
