-- ===== src/Game/Boot/Queued.antt =====
-- so2_old/GAME/zeos/sched.c: the queues and the numbers after init_sched.
use fib_so.Prelude.{
  ℕ, zero, suc, ◌+◌, ◌*◌, ◌≤◌, ◌<◌, ◌≡◌, ◌≢◌, ◌⊎◌, ◌∙◌, ap, sym, subst, refl, true, false, List, [],
  ◌∷◌, ◌++◌, append_assoc, append-nil, arith, has, has-append, ◌==◌, ◌%◌, if◌then◌else◌, Bool-cases,
  inl, inr, ==_iff,
}
use fib_so.Prelude.Int.{negsuc}
use fib_so.ListHead.{Ptr, null, Links}
use fib_so.ListHead.Ring.{IsRing, IsRing-frame}
use fib_so.ListHead.Ring.Insert.{init_list_head-IsRing, list_add_tail-append}
use fib_so.Phase2.Kernel.{done, list_of}
use fib_so.Phase2.Kernel.Queues.{Apart}
use fib_so.Game.Kernel.{Task, Layout, Kernel}
use fib_so.Game.Process.Fork.{Queues}
use fib_so.Game.Boot.{nr_tasks, add_tasks, init_freequeue, init_sched}

-- The heads of the queues are distinct and not NULL, and outside the task array, which is aligned.
abbrev pub Outside : Layout → Ptr → Type 0
Outside l a = (a < l.task) ⊎ (l.task + 40960 ≤ a)

pub record Placed (l : Layout) : Type 0 where
  pub free_mapped : l.freequeue ≢ null
  pub ready_mapped : l.readyqueue ≢ null
  pub free_ready : l.freequeue ≢ l.readyqueue
  pub free_outside : Outside l l.freequeue
  pub ready_outside : Outside l l.readyqueue
  pub aligned : l.task % 4096 ≡ 0

-- The entries of the `n` structures from the `i`-th on.
abbrev pub entries : Layout → ℕ → ℕ → List Ptr
entries l zero i = []
entries l (suc n) i = list_of (l.task + 4096 * i) ∷ entries l n (i + 1)

-- The entries are those of structures below the `i`-th.
abbrev Below : Layout → ℕ → List Ptr → Type 0
Below l i xs = (a : Ptr) → has a xs ≡ true → (l.task + 8 ≤ a) × (a < l.task + 4096 * i)

-- The structures from the `i`-th on have the number -1, the others are as they were.
record Numbered (l : Layout) (n i : ℕ) (before after : Ptr → Task) : Type 0 where
  free : (j : ℕ) → i ≤ j → j < i + n → (after (l.task + 4096 * j)).pid ≡ negsuc 0
  lower : (u : Ptr) → u < l.task + 4096 * i → after u ≡ before u

Numbered-suc :
    (n i : ℕ) (l : Layout) (before : Ptr → Task) (v : Task) (after : Ptr → Task)
    → v.pid ≡ negsuc 0
    → Numbered l n (i + 1) (λ u. if u == l.task + 4096 * i then v else before u) after
    → Numbered l (suc n) i before after
Numbered-suc n i l before v after e d = record {
  free = λ j a b. elim (Bool-cases (j == i)) [
    | inl here ↦
        let same : j ≡ i = (==_iff j i).0 here in
        rw same
          (ap (λ (t : Task). t.pid) (d.lower (l.task + 4096 * i) (omega arith)) ∙ ground arith)
    | inr other ↦ d.free j (ground arith) (omega arith)
  ];
  lower = λ u h. d.lower u (omega arith) ∙ ground arith;
}

record Added (l : Layout) (n i : ℕ) (k : Kernel) (xs : List Ptr) (g : Links) (t : Ptr → Task)
    : Type 0 where
  ring : IsRing g l.freequeue (xs ++ entries l n i)
  below : Below l (n + i) (xs ++ entries l n i)
  others :
      (a : Ptr)
      → a ≢ l.freequeue
      → Outside l a
      → (g.next a ≡ k.links.next a) × (g.prev a ≡ k.links.prev a)
  numbers : Numbered l n i k.task t

add_tasks-Added :
    (n i : ℕ) (l : Layout) (k : Kernel) (xs : List Ptr)
    → IsRing k.links l.freequeue xs
    → Outside l l.freequeue
    → Below l i xs
    → n + i ≤ 10
    → (g : Links) × (t : Ptr → Task) × (add_tasks l n i k ≡ done (record k { links = g; task = t }))
      × Added l n i k xs g t
unfolding add_tasks
add_tasks-Added zero i l k xs r out below le = (
  k.links,
  k.task,
  refl,
  record {
    ring = subst (IsRing k.links l.freequeue) (sym (append-nil xs)) r;
    below = λ a m. ground (arith, below a, has-append a xs []);
    others = λ a ne o. (refl, refl);
    numbers = record { free = λ j a b. absurd (omega arith); lower = λ u h. refl };
  },
)
add_tasks-Added (suc n) i l k xs r out below le =
    let e : Ptr = list_of (l.task + 4096 * i) in
    let c : Ptr = l.task + 4096 * i in
    let a = list_add_tail-append e r (omega arith) (ground (arith, below e)) in
    let v : Task = record (k.task c) { pid = negsuc 0 } in
    let k1 : Kernel = record k { links = a.0; task = λ u. if u == c then v else k.task u } in
    let below1 : Below l (i + 1) (xs ++ e ∷ []) =
      λ b m. ground (arith, below b, has-append b xs (e ∷ [])) in
    let rest = add_tasks-Added n (i + 1) l k1 (xs ++ e ∷ []) a.2 out below1 (omega arith) in
    let d : Added l n (i + 1) k1 (xs ++ e ∷ []) rest.0 rest.1 = rest.3 in
    let same : (xs ++ e ∷ []) ++ entries l n (i + 1) ≡ xs ++ (e ∷ entries l n (i + 1)) =
      append_assoc xs (e ∷ []) (entries l n (i + 1)) in
    let count : n + (i + 1) ≡ suc n + i = omega arith in
    (
      rest.0,
      rest.1,
      rw a.1 rest.2,
      record {
        ring = subst (IsRing rest.0 l.freequeue) same d.ring;
        below =
            subst (Below l (suc n + i)) same
              (subst (λ j. Below l j ((xs ++ e ∷ []) ++ entries l n (i + 1))) count d.below);
        others = λ b ne o.
            let there = d.others b ne o in
            let new : has b (e ∷ l.freequeue ∷ xs) ≡ false = ground (arith, below b) in
            let here = a.3 b new in (there.0 ∙ here.0, there.1 ∙ here.1);
        numbers = Numbered-suc n i l k.task v rest.1 refl d.numbers;
      },
    )

module _ (l : Layout) (k : Kernel) where
  -- After init_sched the free queue holds the ten process structures in their order, each with the
  -- number -1, and the ready queue is empty.
  pub init_sched-Queues :
      Placed l
      → (g : Links) × (t : Ptr → Task) × (init_sched l k ≡ done (record k { links = g; task = t }))
        × Queues l g (entries l nr_tasks 0) []
        × ((j : ℕ) → j < nr_tasks → (t (l.task + 4096 * j)).pid ≡ negsuc 0)
  unfolding init_sched init_freequeue
  init_sched-Queues p =
      let f = init_list_head-IsRing l.freequeue k.links p.free_mapped in
      let a =
        add_tasks-Added nr_tasks 0 l (record k { links = f.0 }) [] f.2 p.free_outside (λ a i. cc)
          (omega arith) in
      let d : Added l nr_tasks 0 (record k { links = f.0 }) [] a.0 a.1 = a.3 in
      let r = init_list_head-IsRing l.readyqueue a.0 p.ready_mapped in
      let apart : Apart (l.freequeue ∷ entries l nr_tasks 0) (l.readyqueue ∷ []) =
        λ b i. ground (arith, d.below b, p.free_ready, p.ready_outside) in
      (
        r.0,
        a.1,
        rw (f.1, a.2, r.1) refl,
        record {
          free_ring = IsRing-frame (l.readyqueue ∷ []) d.ring r.3 apart;
          ready_ring = r.2;
          apart = apart;
        },
        λ j h. d.numbers.free j (omega arith) (omega arith),
      )
