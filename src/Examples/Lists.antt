-- ===== src/Examples/Lists.antt =====
-- The lists of zeos/list.c at the list of two entries.
use fib_so.Prelude.{◌≡◌, refl, some, [], ◌∷◌, arith}
use fib_so.ListHead.{null, Links, list_add_tail, list_del, list_for_each}
use fib_so.ListHead.Ring.{IsRing, SameOutside}
use fib_so.ListHead.Ring.Insert.{list_add_tail-append}
use fib_so.ListHead.Ring.Delete.{list_del-IsRing}
use fib_so.ListHead.Ring.Walk.{list_for_each-visits}
use fib_so.Examples.Data.{two, two-IsRing}

list_add_tail-append_example :
    (g : Links) × (list_add_tail 400 100 two ≡ some g)
    × IsRing g 100 (200 ∷ 300 ∷ 400 ∷ [])
    × SameOutside (400 ∷ 100 ∷ 200 ∷ 300 ∷ []) two g
list_add_tail-append_example = list_add_tail-append 400 two-IsRing (ground arith) refl

list_del-IsRing_example :
    (g : Links) × (list_del 300 two ≡ some g)
    × IsRing g 100 (200 ∷ [])
    × (g.next 300 ≡ null)
    × (g.prev 300 ≡ null)
    × SameOutside (100 ∷ 200 ∷ 300 ∷ []) two g
list_del-IsRing_example = list_del-IsRing (200 ∷ []) 300 [] two-IsRing

list_for_each-visits_example : list_for_each 3 100 two ≡ some (200 ∷ 300 ∷ [])
list_for_each-visits_example = list_for_each-visits 3 (200 ∷ 300 ∷ []) two-IsRing (omega arith)
