-- ===== src/Phase2/Boot/Queued.antt =====
-- so2_old/E1_E2/zeos/sched.c: the queues after init_sched.
use fib_so.Prelude.{
  ℕ, zero, suc, ◌+◌, ◌*◌, ◌≤◌, ◌<◌, ◌≡◌, ◌≢◌, ◌⊎◌, ◌∙◌, sym, subst, refl, true, false, List, [],
  ◌∷◌, ◌++◌, append_assoc, arith, has,
}
use fib_so.ListHead.{Ptr, null, Links}
use fib_so.ListHead.Ring.{IsRing, IsRing-frame}
use fib_so.ListHead.Ring.Insert.{init_list_head-IsRing, list_add-cons}
use fib_so.Phase2.Kernel.{done, Layout, Kernel, list_of}
use fib_so.Phase2.Kernel.Queues.{Queues}
use fib_so.Phase2.Fork.{default_quantum}
use fib_so.Phase2.Boot.{nr_tasks, add_tasks, init_sched}

-- The heads of the queues are distinct and not NULL, and outside the task array.
abbrev pub Outside : Layout → Ptr → Type 0
Outside l a = (a < l.task) ⊎ (l.task + 40960 ≤ a)

pub record Placed (l : Layout) : Type 0 where
  pub free_mapped : l.freequeue ≢ null
  pub ready_mapped : l.readyqueue ≢ null
  pub blocked_mapped : l.blocked ≢ null
  pub free_ready : l.freequeue ≢ l.readyqueue
  pub free_blocked : l.freequeue ≢ l.blocked
  pub ready_blocked : l.readyqueue ≢ l.blocked
  pub free_outside : Outside l l.freequeue
  pub ready_outside : Outside l l.readyqueue
  pub blocked_outside : Outside l l.blocked

-- The entries of the `n` structures from the `i`-th on, the last in front.
abbrev pub entries : Layout → ℕ → ℕ → List Ptr
entries l zero i = []
entries l (suc n) i = entries l n (i + 1) ++ list_of (l.task + 4096 * i) ∷ []

-- The entries are those of structures below the `i`-th.
abbrev Below : Layout → ℕ → List Ptr → Type 0
Below l i xs = (a : Ptr) → has a xs ≡ true → (l.task + 8 ≤ a) × (a < l.task + 4096 * i)

empty-frame :
    {h g : Links} {head : Ptr}
    → IsRing h head []
    → g.next head ≡ h.next head
    → g.prev head ≡ h.prev head
    → IsRing g head []
empty-frame r next prev = record {
  chain = (next ∙ r.chain.0, prev ∙ r.chain.1);
  fresh_head = refl;
  distinct = tt;
  head_mapped = r.head_mapped;
  mapped = refl;
}

add_tasks-IsRing :
    (n i : ℕ) (l : Layout) (h : Links) (xs : List Ptr)
    → IsRing h l.freequeue xs
    → Outside l l.freequeue
    → Below l i xs
    → n + i ≤ 10
    → (g : Links) × (add_tasks n i l h ≡ done g)
      × IsRing g l.freequeue (entries l n i ++ xs)
      × Below l (n + i) (entries l n i ++ xs)
      × ((a : Ptr) → a ≢ l.freequeue → Outside l a → (g.next a ≡ h.next a) × (g.prev a ≡ h.prev a))
unfolding add_tasks
add_tasks-IsRing zero i l h xs r out below le =
    (h, refl, r, (λ a m. ground (arith, below a)), λ a ne o. (refl, refl))
add_tasks-IsRing (suc n) i l h xs r out below le =
    let e : Ptr = list_of (l.task + 4096 * i) in
    let a = list_add-cons e r (ground arith) (ground (arith, below e)) in
    let below1 : Below l (i + 1) (e ∷ xs) = λ b m. ground (arith, below b) in
    let rest = add_tasks-IsRing n (i + 1) l a.0 (e ∷ xs) a.2 out below1 (omega arith) in
    let same : entries l n (i + 1) ++ (e ∷ xs) ≡ (entries l n (i + 1) ++ e ∷ []) ++ xs =
      sym (append_assoc (entries l n (i + 1)) (e ∷ []) xs) in
    let count : n + (i + 1) ≡ suc n + i = omega arith in
    (
      rest.0,
      rw a.1 rest.1,
      subst (IsRing rest.0 l.freequeue) same rest.2,
      subst (Below l (suc n + i)) same
          (subst (λ j. Below l j (entries l n (i + 1) ++ (e ∷ xs))) count rest.3),
      λ b ne o.
          let there = rest.4 b ne o in
          let new : has b (e ∷ l.freequeue ∷ xs) ≡ false = ground (arith, below b) in
          let here = a.3 b new in (there.0 ∙ here.0, there.1 ∙ here.1),
    )

module _ (l : Layout) (k : Kernel) where
  -- After init_sched the free queue holds the ten process structures, the last of the task array in
  -- front, and the two other queues are empty.
  pub init_sched-Queues :
      Placed l
      → (k' : Kernel) × (init_sched l k ≡ done k')
        × Queues l k'.links (entries l nr_tasks 0) [] []
        × (k'.queue_ticks ≡ default_quantum)
        × (k'.task ≡ k.task)
  unfolding init_sched
  init_sched-Queues p =
      let f = init_list_head-IsRing l.freequeue k.links p.free_mapped in
      let r = init_list_head-IsRing l.readyqueue f.0 p.ready_mapped in
      let b = init_list_head-IsRing l.blocked r.0 p.blocked_mapped in
      let f1 = IsRing-frame (l.readyqueue ∷ []) f.2 r.3 λ a i. ground (arith, p.free_ready) in
      let f2 = IsRing-frame (l.blocked ∷ []) f1 b.3 λ a i. ground (arith, p.free_blocked) in
      let r1 = IsRing-frame (l.blocked ∷ []) r.2 b.3 λ a i. ground (arith, p.ready_blocked) in
      let t = add_tasks-IsRing nr_tasks 0 l b.0 [] f2 p.free_outside (λ a i. cc) (omega arith) in
      let same_r = t.4 l.readyqueue (λ e. p.free_ready (sym e)) p.ready_outside in
      let same_b = t.4 l.blocked (λ e. p.free_blocked (sym e)) p.blocked_outside in
      (
        record k { links = t.0; queue_ticks = default_quantum },
        rw (f.1, r.1, b.1, t.1),
        record {
          free_ring = t.2;
          ready_ring = empty-frame r1 same_r.0 same_r.1;
          blocked_ring = empty-frame b.2 same_b.0 same_b.1;
          free_ready = λ a i. ground (arith, t.3 a, p.free_ready, p.ready_outside);
          free_blocked = λ a i. ground (arith, t.3 a, p.free_blocked, p.blocked_outside);
          ready_blocked = λ a i. ground (arith, p.ready_blocked);
        },
        refl,
        refl,
      )
