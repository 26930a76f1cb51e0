-- ===== src/ListHead/Ring.antt =====
-- What a well-formed list is: from the head the `next` fields lead through the entries and back to
-- the head, and the `prev` fields lead the same way back.
pub mod Insert
pub mod Delete
pub mod Walk
use fib_so.Prelude.{
  ℕ, ◌≡◌, refl, ◌≢◌, true, false, ◌||◌, List, [], ◌∷◌, ◌++◌, arith, has, AllDistinct, ◌==◌,
}
use fib_so.ListHead.{Ptr, null, Links}

-- From `p` through `xs` to `q`.
abbrev pub Chain : Links → Ptr → List Ptr → Ptr → Type 0
Chain h p [] q = (h.next p ≡ q) × (h.prev q ≡ p)
Chain h p (x ∷ xs) q = (h.next p ≡ x) × (h.prev x ≡ p) × Chain h x xs q

pub record IsRing (h : Links) (head : Ptr) (xs : List Ptr) : Type 0 where
  pub chain : Chain h head xs head
  pub fresh_head : has head xs ≡ false
  pub distinct : AllDistinct xs
  pub head_mapped : head ≢ null
  pub mapped : has null xs ≡ false

-- `g` differs from `h` at most at the entries `xs`.
abbrev pub SameOutside : List Ptr → Links → Links → Type 0
SameOutside xs h g = (a : Ptr) → has a xs ≡ false → (g.next a ≡ h.next a) × (g.prev a ≡ h.prev a)

abbrev pub last : Ptr → List Ptr → Ptr
last p [] = p
last p (x ∷ xs) = last x xs

abbrev pub first : List Ptr → Ptr → Ptr
first [] q = q
first (x ∷ xs) q = x

module _ (h : Links) where
  pub prev-last : (p : Ptr) (xs : List Ptr) (q : Ptr) → Chain h p xs q → h.prev q ≡ last p xs
  prev-last p [] q c = c.1
  prev-last p (x ∷ xs) q c = prev-last x xs q c.2

  pub next-first : (p : Ptr) (xs : List Ptr) (q : Ptr) → Chain h p xs q → h.next p ≡ first xs q
  next-first p [] q c = c.0
  next-first p (x ∷ xs) q c = c.0

  -- A chain survives a change elsewhere.
  pub Chain-frame :
      {g : Links} (p : Ptr) (xs : List Ptr) (q : Ptr)
      → Chain h p xs q
      → ((a : Ptr) → has a (p ∷ xs) ≡ true → g.next a ≡ h.next a)
      → ((a : Ptr) → has a (q ∷ xs) ≡ true → g.prev a ≡ h.prev a)
      → Chain g p xs q
  Chain-frame p [] q c n v = ground (arith, n p, v q)
  Chain-frame {g} p (x ∷ xs) q c n v = (
    ground (arith, n p),
    ground (arith, v x),
    Chain-frame x xs q c.2 (λ a i. n a (ground arith)) (λ a i. v a (ground arith)),
  )

  -- The entries of two consecutive chains.
  pub Chain-split :
      (p : Ptr) (xs : List Ptr) (y : Ptr) (ys : List Ptr) (q : Ptr)
      → Chain h p (xs ++ y ∷ ys) q
      → Chain h p xs y × Chain h y ys q
  Chain-split p [] y ys q c = ((c.0, c.1), c.2)
  Chain-split p (x ∷ xs) y ys q c = let r = Chain-split x xs y ys q c.2 in ((c.0, c.1, r.0), r.1)

-- Two rings of disjoint entries do not disturb one another.
pub IsRing-frame :
    {h g : Links} {head : Ptr} {xs : List Ptr} (zs : List Ptr)
    → IsRing h head xs
    → SameOutside zs h g
    → ((a : Ptr) → has a (head ∷ xs) ≡ true → has a zs ≡ false)
    → IsRing g head xs
IsRing-frame {h} {g} {head} {xs} zs r same apart = record {
  chain =
      Chain-frame h head xs head r.chain (λ a i. (same a (apart a i)).0)
        λ a i. (same a (apart a i)).1;
  fresh_head = r.fresh_head;
  distinct = r.distinct;
  head_mapped = r.head_mapped;
  mapped = r.mapped;
}
