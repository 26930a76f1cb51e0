-- ===== src/Game/Process/Refused.antt =====
-- so2_old/GAME/zeos/sys.c: how sys_fork ends when the frames do not suffice.
use fib_so.Prelude.{
  ℕ, ◌-◌, ◌/◌, ◌%◌, ◌≡◌, ◌≢◌, ◌∙◌, ap, subst, refl, false, none, List, [], ◌∷◌, ◌++◌, arith,
}
use fib_so.ListHead.{Ptr}
use fib_so.Paging.Frames.{PhysMem}
use fib_so.Phase2.Kernel.{done, list_of, Space}
use fib_so.Phase2.Space.{alloc_data_frames}
use fib_so.Game.Kernel.{Layout, Kernel, current}
use fib_so.Game.Space.{map_data_pages}
use fib_so.Game.Space.Alloc.{Agrees, map_data_pages-Agrees}
use fib_so.Game.Process.Fork.{Queues, Taken, take_free, push_free, prepared, sys_fork-prepared}
use fib_so.Game.Process.{eagain, fork_with, sys_fork}
use fib_so.Phase2.Space.Alloc.{Outcome, alloc_data_frames-Outcome}

module _ (l : Layout) (ebp : ℕ) (k : Kernel) {rest ready : List Ptr} where
  -- When the frames do not suffice sys_fork returns -EAGAIN. The structure taken for the child is in
  -- the free queue again, at its end; no frame but 256 has another mark than before; the ready queue,
  -- the other processes, the running one, the other page tables and the bytes of the frames are as
  -- before, and no number is used up.
  pub sys_fork-out_of_frames :
      (n : Ptr) (m : PhysMem)
      → Queues l k.links (list_of n ∷ rest) ready
      → n % 4096 ≡ 0
      → alloc_data_frames k.space.phys ≡ (none, m)
      → (k' : Kernel) × (sys_fork l ebp k ≡ done (eagain, k'))
        × Queues l k'.links (rest ++ list_of n ∷ []) ready
        × ((f : ℕ) → f ≢ 256 → k'.space.phys f ≡ k.space.phys f)
        × (k'.space.page ≡ k.space.page)
        × ((e : ℕ) → e ≢ (n - l.task) / 4096 → k'.space.tables e ≡ k.space.tables e)
        × ((u : Ptr) → u ≢ n → k'.task u ≡ k.task u)
        × (k'.global_pid ≡ k.global_pid)
        × (k'.esp ≡ k.esp)
  unfolding fork_with
  sys_fork-out_of_frames n m q aligned alloc =
      let child : ℕ = (n - l.task) / 4096 in
      let o = take_free l (current k) n rest ready k.links q in
      let t : Taken l (current k) n rest ready k.links o.0 = o.1 in
      let p = push_free (list_of n) t.queues (omega arith) t.not_free t.not_ready in
      let a =
        subst (λ r. Agrees child k.space r (map_data_pages child k.space)) alloc
          (map_data_pages-Agrees child k.space) in
      let marks = subst (Outcome k.space.phys 20) alloc (alloc_data_frames-Outcome k.space.phys) in
      let sp : Space = (map_data_pages child k.space).1 in
      let got : map_data_pages child k.space ≡ (false, sp) = λ i. (a.0 i, sp) in
      (
        record (prepared l n o.0 k) { links = p.0; space = sp },
        sys_fork-prepared l ebp k n rest o.0 q.free_ring aligned t.del
            ∙ ap (λ r. fork_with l ebp n r (prepared l n o.0 k)) got
            ∙ rw (p.1) refl,
        p.2,
        λ f ne. ap (λ (t : PhysMem). t f) a.1 ∙ marks f ne,
        a.2,
        a.3,
        λ u ne. ground arith,
        refl,
        refl,
      )
