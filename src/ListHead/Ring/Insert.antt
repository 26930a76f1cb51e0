-- ===== src/ListHead/Ring/Insert.antt =====
-- zeos/list.c: INIT_LIST_HEAD, list_add and list_add_tail on well-formed lists.
use fib_so.Prelude.{
  ◌≡◌, refl, ◌≢◌, true, false, some, List, [], ◌∷◌, ◌++◌, arith, has, has-append, AllDistinct,
  AllDistinct-snoc, update,
}
use fib_so.ListHead.{Ptr, null, Links, init_list_head, list_add, list_add_tail}
use fib_so.ListHead.Ring.{
  Chain, IsRing, SameOutside, last, first, prev-last, next-first, Chain-frame,
}

-- The links after `list_add_between new prev next`.
abbrev pub linked : Ptr → Ptr → Ptr → Links → Links
linked new prev next h = record {
  next = update (update h.next new next) prev new;
  prev = update (update h.prev next new) new prev;
}

pub has-last : (p : Ptr) (xs : List Ptr) → has (last p xs) (p ∷ xs) ≡ true
has-last p [] = ground arith
has-last p (x ∷ xs) = ground (arith, has-last x xs)

pub has-first : (xs : List Ptr) (q : Ptr) → has (first xs q) (q ∷ xs) ≡ true
has-first [] q = ground arith
has-first (x ∷ xs) q = ground arith

-- A new entry before the end `q` of a chain.
Chain-snoc :
    (h : Links) (n p : Ptr) (xs : List Ptr) (q : Ptr)
    → Chain h p xs q
    → AllDistinct (p ∷ xs)
    → has q xs ≡ false
    → has n (p ∷ q ∷ xs) ≡ false
    → Chain (linked n (last p xs) q h) p (xs ++ n ∷ []) q
Chain-snoc h n p [] q c d end out = (ground arith, ground arith, (ground arith, ground arith))
Chain-snoc h n p (x ∷ xs) q c d end out = (
  ground (arith, has-last x xs),
  ground arith,
  Chain-snoc h n x xs q c.2 d.1 (ground arith) (ground arith),
)

-- A new entry behind the head of a ring.
Chain-cons :
    (h : Links) (n head : Ptr) (xs : List Ptr)
    → Chain h head xs head
    → has head xs ≡ false
    → AllDistinct xs
    → has n (head ∷ xs) ≡ false
    → Chain (linked n head (first xs head) h) head (n ∷ xs) head
Chain-cons h n head [] c end d out = (ground arith, ground arith, (ground arith, ground arith))
Chain-cons h n head (x ∷ xs) c end d out = (
  ground arith,
  ground arith,
  (
    ground arith,
    ground arith,
    Chain-frame h x xs head c.2 (λ a i. ground arith) (λ a i. ground arith),
  ),
)

-- INIT_LIST_HEAD makes its list empty, and writes to the head only.
pub init_list_head-IsRing :
    (head : Ptr) (h : Links)
    → head ≢ null
    → (g : Links) × (init_list_head head h ≡ some g)
      × IsRing g head []
      × SameOutside (head ∷ []) h g
unfolding init_list_head
init_list_head-IsRing head h ne = (
  record { next = update h.next head head; prev = update h.prev head head },
  ground arith,
  record {
    chain = (ground arith, ground arith);
    fresh_head = refl;
    distinct = tt;
    head_mapped = ne;
    mapped = refl;
  },
  λ a o. (ground arith, ground arith),
)

-- list_add_tail puts a new entry behind the others, and writes only to the entries of that list.
pub list_add_tail-append :
    {h : Links} {head : Ptr} {xs : List Ptr} (new : Ptr)
    → IsRing h head xs
    → new ≢ null
    → has new (head ∷ xs) ≡ false
    → (g : Links) × (list_add_tail new head h ≡ some g)
      × IsRing g head (xs ++ new ∷ [])
      × SameOutside (new ∷ head ∷ xs) h g
unfolding list_add_tail
list_add_tail-append {h} {head} {xs} new r ne out =
    let e = prev-last h head xs head r.chain in
    (
      linked new (last head xs) head h,
      ground (arith, e, has-last head xs, r.mapped, r.head_mapped),
      record {
        chain =
            Chain-snoc h new head xs head r.chain (r.fresh_head, r.distinct) r.fresh_head
              (ground arith);
        fresh_head = ground (arith, has-append head xs (new ∷ []), r.fresh_head);
        distinct = AllDistinct-snoc new xs r.distinct (ground arith);
        head_mapped = r.head_mapped;
        mapped = ground (arith, has-append null xs (new ∷ []), r.mapped);
      },
      λ a o. (ground (arith, has-last head xs), ground (arith, has-last head xs)),
    )

-- list_add puts a new entry before the others, and writes only to the entries of that list.
pub list_add-cons :
    {h : Links} {head : Ptr} {xs : List Ptr} (new : Ptr)
    → IsRing h head xs
    → new ≢ null
    → has new (head ∷ xs) ≡ false
    → (g : Links) × (list_add new head h ≡ some g)
      × IsRing g head (new ∷ xs)
      × SameOutside (new ∷ head ∷ xs) h g
unfolding list_add
list_add-cons {h} {head} {xs} new r ne out =
    let e = next-first h head xs head r.chain in
    (
      linked new head (first xs head) h,
      ground (arith, e, has-first xs head, r.mapped, r.head_mapped),
      record {
        chain = Chain-cons h new head xs r.chain r.fresh_head r.distinct out;
        fresh_head = ground (arith, r.fresh_head);
        distinct = (ground arith, r.distinct);
        head_mapped = r.head_mapped;
        mapped = ground (arith, r.mapped);
      },
      λ a o. (ground (arith, has-first xs head), ground (arith, has-first xs head)),
    )
