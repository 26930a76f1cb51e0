-- ===== src/ListHead/Ring/Walk.antt =====
-- zeos/list.c and zeos/include/list.h: list_empty, list_first, list_is_last and list_for_each on
-- well-formed lists.
use fib_so.Prelude.{
  ℕ, zero, suc, ◌<◌, ◌≡◌, Bool, true, false, some, List, [], ◌∷◌, arith, has, length,
}
use fib_so.ListHead.{Ptr, null, Links, list_empty, list_first, list_for_each, visit_from, get_next}
use fib_so.ListHead.Ring.{Chain, IsRing, first, next-first}

abbrev pub is_nil : List Ptr → Bool
is_nil [] = true
is_nil (x ∷ xs) = false

-- list_empty says whether the list has an entry.
pub list_empty-is_nil :
    {h : Links} {head : Ptr} (xs : List Ptr)
    → IsRing h head xs
    → list_empty head h ≡ some (is_nil xs)
unfolding list_empty
list_empty-is_nil [] r = ground (arith, r.chain.0, r.head_mapped)
list_empty-is_nil (x ∷ xs) r = ground (arith, r.chain.0, r.head_mapped, r.fresh_head)

-- list_first is the first entry, or the head itself of an empty list.
pub list_first-first :
    {h : Links} {head : Ptr} (xs : List Ptr)
    → IsRing h head xs
    → list_first head h ≡ some (first xs head)
unfolding list_first
list_first-first {h} {head} xs r = ground (arith, next-first h head xs head r.chain, r.head_mapped)

visit_from-Chain :
    (fuel : ℕ) (h : Links) (p : Ptr) (xs : List Ptr) (head : Ptr)
    → Chain h p xs head
    → has head xs ≡ false
    → has null xs ≡ false
    → length xs < fuel
    → visit_from fuel (first xs head) head h ≡ some xs
unfolding visit_from get_next
visit_from-Chain zero h p xs head c out m lt = absurd (omega arith)
visit_from-Chain (suc fuel) h p [] head c out m lt = ground arith
visit_from-Chain (suc fuel) h p (x ∷ xs) head c out m lt = ground (
  arith,
  next-first h x xs head c.2,
  visit_from-Chain fuel h x xs head c.2 (ground arith) (ground arith) (omega arith),
)

-- list_for_each visits the entries in order, each once, and comes to an end.
pub list_for_each-visits :
    {h : Links} {head : Ptr} (fuel : ℕ) (xs : List Ptr)
    → IsRing h head xs
    → length xs < fuel
    → list_for_each fuel head h ≡ some xs
unfolding list_for_each get_next
list_for_each-visits {h} {head} fuel xs r lt = ground (
  arith,
  next-first h head xs head r.chain,
  r.head_mapped,
  visit_from-Chain fuel h head xs head r.chain r.fresh_head r.mapped lt,
)
