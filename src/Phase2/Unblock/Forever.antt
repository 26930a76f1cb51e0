-- ===== src/Phase2/Unblock/Forever.antt =====
-- so2_old/E1_E2/zeos/sys.c: the loop of sys_unblock over a list of children that leads into the
-- ready queue.
use fib_so.Prelude.{
  ℕ, zero, suc, ◌≡◌, ◌≢◌, refl, true, false, List, [], ◌∷◌, arith, has, ◌==◌, Bool-cases, inl, inr,
}
use fib_so.ListHead.{Ptr, null, Links, get_next}
use fib_so.ListHead.Ring.{Chain, IsRing}
use fib_so.Phase2.Kernel.{out_of_fuel, Layout, Kernel, kids_of, current}
use fib_so.Phase2.Unblock.{unblock_from, sys_unblock}
use fib_so.Phase2.Unblock.Search.{pid_at}

Chain-next :
    (h : Links) (p : Ptr) (xs : List Ptr) (q a : Ptr)
    → Chain h p xs q
    → has a (p ∷ xs) ≡ true
    → has (h.next a) (q ∷ xs) ≡ true
Chain-next h p [] q a c i = ground (arith, c.0)
Chain-next h p (x ∷ xs) q a c i = elim (Bool-cases (a == p)) [
  | inl same ↦ ground (arith, c.0)
  | inr other ↦ ground (arith, Chain-next h x xs q a c.2)
]

-- From an entry of a ring the `next` field leads to an entry of the ring.
IsRing-next :
    {h : Links} {head : Ptr} {xs : List Ptr} (a : Ptr)
    → IsRing h head xs
    → has a (head ∷ xs) ≡ true
    → has (h.next a) (head ∷ xs) ≡ true
IsRing-next {h} {head} {xs} a r i = Chain-next h head xs head a r.chain i

module _ (l : Layout) (pid : ℕ) (k : Kernel) (ready : List Ptr) where
  unblock_from-forever :
      (fuel : ℕ) (a : Ptr)
      → IsRing k.links l.readyqueue ready
      → has (kids_of (current k)) (l.readyqueue ∷ ready) ≡ false
      → ((b : Ptr) → has b (l.readyqueue ∷ ready) ≡ true → pid_at k b ≢ pid)
      → has a (l.readyqueue ∷ ready) ≡ true
      → unblock_from l pid fuel a k ≡ out_of_fuel
  unfolding unblock_from get_next
  unblock_from-forever zero a r out absent i = refl
  unblock_from-forever (suc fuel) a r out absent i =
      let inside : (a == kids_of (current k)) ≡ false = ground arith in
      let other : (pid_at k a == pid) ≡ false = ground (arith, absent a i) in
      let mapped : (a == null) ≡ false = ground (arith, r.head_mapped, r.mapped) in
      rw (inside, other, mapped)
        (unblock_from-forever fuel (k.links.next a) r out absent (IsRing-next a r i))

  -- When the caller's first child stands in the ready queue, and neither a process of that queue
  -- nor what stands round the head of the queue has the number, sys_unblock does not return: its
  -- loop goes round the ready queue for ever, without meeting the head of the children's list.
  pub sys_unblock-forever :
      (fuel : ℕ)
      → IsRing k.links l.readyqueue ready
      → kids_of (current k) ≢ null
      → has (kids_of (current k)) (l.readyqueue ∷ ready) ≡ false
      → ((b : Ptr) → has b (l.readyqueue ∷ ready) ≡ true → pid_at k b ≢ pid)
      → has (k.links.next (kids_of (current k))) (l.readyqueue ∷ ready) ≡ true
      → sys_unblock l pid fuel k ≡ out_of_fuel
  unfolding sys_unblock get_next
  sys_unblock-forever fuel r ne out absent child =
      let mapped : (kids_of (current k) == null) ≡ false = ground arith in
      rw mapped (unblock_from-forever fuel (k.links.next (kids_of (current k))) r out absent child)
