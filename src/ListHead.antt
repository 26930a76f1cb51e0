-- ===== src/ListHead.antt =====
-- zeos/list.c and zeos/include/list.h: circular doubly linked lists through embedded `list_head`s.
-- An address is a number, and 0 is NULL. An access through it is `none` here, where the model stops:
-- it is a page fault where page 0 is absent, which it is not in the children of sys_fork.
pub mod Ring
use fib_so.Prelude.{
  ℕ, zero, suc, ◌-◌, ◌^◌, ◌%◌, ◌+◌, Bool, true, false, Option, none, some, List, [], ◌∷◌, ◌==◌,
  if◌then◌else◌, update, ◌>>=◌,
}

abbrev pub Ptr : Type 0
Ptr = ℕ

abbrev pub null : Ptr
null = 0

-- The `next` and `prev` fields of every `list_head` in memory.
pub record Links : Type 0 where
  pub next : Ptr → Ptr
  pub prev : Ptr → Ptr

-- `p->next`, `p->prev`, and the two assignments.
unfoldable pub get_next : Ptr → Links → Option Ptr
get_next p h = if p == null then none else some (h.next p)

unfoldable pub get_prev : Ptr → Links → Option Ptr
get_prev p h = if p == null then none else some (h.prev p)

unfoldable pub set_next : Ptr → Ptr → Links → Option Links
set_next p v h = if p == null then none else some (record h { next = update h.next p v })

unfoldable pub set_prev : Ptr → Ptr → Links → Option Links
set_prev p v h = if p == null then none else some (record h { prev = update h.prev p v })

unfoldable pub init_list_head : Ptr → Links → Option Links
unfolding set_next set_prev
init_list_head list h = do h ← set_next list list h; set_prev list list h

unfoldable pub list_add_between : Ptr → Ptr → Ptr → Links → Option Links
unfolding set_next set_prev
list_add_between new prev next h = do
  h ← set_prev next new h
  h ← set_next new next h
  h ← set_prev new prev h
  set_next prev new h

unfoldable pub list_add : Ptr → Ptr → Links → Option Links
unfolding get_next list_add_between
list_add new head h = do next ← get_next head h; list_add_between new head next h

unfoldable pub list_add_tail : Ptr → Ptr → Links → Option Links
unfolding get_prev list_add_between
list_add_tail new head h = do prev ← get_prev head h; list_add_between new prev head h

unfoldable pub list_del_between : Ptr → Ptr → Links → Option Links
unfolding set_next set_prev
list_del_between prev next h = do h ← set_prev next prev h; set_next prev next h

unfoldable pub list_del : Ptr → Links → Option Links
unfolding get_next get_prev set_next set_prev list_del_between
list_del entry h = do
  prev ← get_prev entry h
  next ← get_next entry h
  h ← list_del_between prev next h
  h ← set_next entry null h
  set_prev entry null h

unfoldable pub list_is_last : Ptr → Ptr → Links → Option Bool
unfolding get_next
list_is_last list head h = do next ← get_next list h; some (next == head)

unfoldable pub list_empty : Ptr → Links → Option Bool
unfolding get_next
list_empty head h = do next ← get_next head h; some (next == head)

unfoldable pub list_first : Ptr → Links → Option Ptr
unfolding get_next
list_first head h = get_next head h

-- The entries that `list_for_each(pos, head)` visits from `pos` on, with a body that leaves the
-- links alone. `none` also when the fuel runs out.
unfoldable pub visit_from : ℕ → Ptr → Ptr → Links → Option (List Ptr)
visit_from zero pos head h = none
visit_from (suc k) pos head h =
    let rest = (do next ← get_next pos h; later ← visit_from k next head h; some (pos ∷ later)) in
    if pos == head then some [] else rest

unfoldable pub list_for_each : ℕ → Ptr → Links → Option (List Ptr)
unfolding get_next visit_from
list_for_each fuel head h = do first ← get_next head h; visit_from fuel first head h
