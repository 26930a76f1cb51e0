-- ===== src/ListHead/Ring/Delete.antt =====
-- zeos/list.c: list_del on well-formed lists, and the step that empties a queue from its front.
use fib_so.Prelude.{
  ◌≡◌, false, some, List, [], ◌∷◌, ◌++◌, arith, has, has-append, AllDistinct, update,
}
use fib_so.ListHead.{Ptr, null, Links, list_del}
use fib_so.ListHead.Ring.{
  Chain, IsRing, SameOutside, last, first, prev-last, next-first, Chain-frame, Chain-split,
}
use fib_so.ListHead.Ring.Insert.{has-last, has-first}

-- The links after `list_del`.
abbrev pub unlinked : Ptr → Ptr → Ptr → Links → Links
unlinked e prev next h = record {
  next = update (update h.next prev next) e null;
  prev = update (update h.prev next prev) e null;
}

pub AllDistinct-delete :
    (ys : List Ptr) (e : Ptr) (zs : List Ptr)
    → AllDistinct (ys ++ e ∷ zs)
    → AllDistinct (ys ++ zs) × (has e (ys ++ zs) ≡ false)
AllDistinct-delete [] e zs d = (d.1, d.0)
AllDistinct-delete (y ∷ ys) e zs d =
    let r = AllDistinct-delete ys e zs d.1 in
    (
      (ground (arith, has-append y ys (e ∷ zs), has-append y ys zs), r.0),
      ground (arith, r.1, has-append y ys (e ∷ zs)),
    )

Chain-delete :
    (h : Links) (p : Ptr) (ys : List Ptr) (e : Ptr) (zs : List Ptr) (q : Ptr)
    → Chain h p (ys ++ e ∷ zs) q
    → AllDistinct (p ∷ (ys ++ e ∷ zs))
    → has q (ys ++ e ∷ zs) ≡ false
    → Chain (unlinked e (last p ys) (first zs q) h) p (ys ++ zs) q
Chain-delete h p [] e [] q c d end = (ground arith, ground arith)
Chain-delete h p [] e (z ∷ zs) q c d end = (
  ground arith,
  ground arith,
  Chain-frame h z zs q c.2.2 (λ a i. ground arith) (λ a i. ground arith),
)
Chain-delete h p (y ∷ ys) e zs q c d end = (
  ground (arith, has-last y ys, has-append p ys (e ∷ zs)),
  ground (arith, has-first zs q, has-append y ys (e ∷ zs), has-append q ys (e ∷ zs)),
  Chain-delete h y ys e zs q c.2 d.1 (ground arith),
)

-- list_del takes its entry out of the list that holds it, clears the links of that entry, and
-- writes only to the entries of that list.
pub list_del-IsRing :
    {h : Links} {head : Ptr} (ys : List Ptr) (entry : Ptr) (zs : List Ptr)
    → IsRing h head (ys ++ entry ∷ zs)
    → (g : Links) × (list_del entry h ≡ some g)
      × IsRing g head (ys ++ zs)
      × (g.next entry ≡ null)
      × (g.prev entry ≡ null)
      × SameOutside (head ∷ (ys ++ entry ∷ zs)) h g
unfolding list_del
list_del-IsRing {h} {head} ys entry zs r =
    let parts = Chain-split h head ys entry zs head r.chain in
    let back = prev-last h head ys entry parts.0 in
    let ahead = next-first h entry zs head parts.1 in
    let d = AllDistinct-delete ys entry zs r.distinct in
    let in_ys = has-last head ys in
    let in_zs = has-first zs head in
    let n = has-append null ys (entry ∷ zs) in
    let hd = has-append head ys (entry ∷ zs) in
    (
      unlinked entry (last head ys) (first zs head) h,
      ground (arith, back, ahead, in_ys, in_zs, n, r.mapped, r.head_mapped),
      record {
        chain =
            Chain-delete h head ys entry zs head r.chain (r.fresh_head, r.distinct) r.fresh_head;
        fresh_head = ground (arith, r.fresh_head, hd, has-append head ys zs);
        distinct = d.0;
        head_mapped = r.head_mapped;
        mapped = ground (arith, r.mapped, n, has-append null ys zs);
      },
      ground arith,
      ground arith,
      λ a o.
          let s = has-append a ys (entry ∷ zs) in
          (ground (arith, s, in_ys, in_zs), ground (arith, s, in_ys, in_zs)),
    )
