-- ===== src/Container.antt =====
-- C/container/list.h: circular doubly linked lists, links stored in the nodes.
-- A `struct list_node *` is a number, 0 is NULL. The memory holds the two link fields of every
-- address; an access through NULL is a fault.
pub mod Ring
mod Tests
use coding_demo.Base.{
  ℕ, zero, suc, Bool, Option, none, some, List, [], ◌∷◌, ◌==◌, if◌then◌else◌, ◌>>=◌,
}

abbrev pub Ptr : Type 0
Ptr = ℕ

abbrev pub null : Ptr
null = 0

-- `struct list_node`, one at each address.
pub record Memory : Type 0 where
  pub next : Ptr → Ptr
  pub prev : Ptr → Ptr

abbrev pub update : (Ptr → Ptr) → Ptr → Ptr → Ptr → Ptr
update f p v q = if p == q then v else f q

-- `p->next`, `p->prev`, and assignments to them.
unfoldable pub get_next : Ptr → Memory → Option Ptr
get_next p m = if p == null then none else some (m.next p)

unfoldable pub get_prev : Ptr → Memory → Option Ptr
get_prev p m = if p == null then none else some (m.prev p)

unfoldable pub set_next : Ptr → Ptr → Memory → Option Memory
set_next p v m = if p == null then none else some (record m { next = update m.next p v })

unfoldable pub set_prev : Ptr → Ptr → Memory → Option Memory
set_prev p v m = if p == null then none else some (record m { prev = update m.prev p v })

-- `head->prev = head->next = head`
unfoldable pub list_init : Ptr → Memory → Option Memory
unfolding set_next set_prev
list_init head m = do m ← set_next head head m; set_prev head head m

unfoldable pub list_empty : Ptr → Memory → Option Bool
unfolding get_next
list_empty head m = do first ← get_next head m; some (first == head)

unfoldable pub list_push_front : Ptr → Ptr → Memory → Option Memory
unfolding get_next set_next set_prev
list_push_front head elem m = do
  first ← get_next head m
  m ← set_prev first elem m
  first ← get_next head m
  m ← set_next elem first m
  m ← set_prev elem head m
  set_next head elem m

unfoldable pub list_push_back : Ptr → Ptr → Memory → Option Memory
unfolding get_prev set_next set_prev
list_push_back head elem m = do
  last ← get_prev head m
  m ← set_next last elem m
  last ← get_prev head m
  m ← set_prev elem last m
  m ← set_next elem head m
  set_prev head elem m

-- `__list_del`
unfoldable pub unlink : Ptr → Ptr → Memory → Option Memory
unfolding set_next set_prev
unlink prev next m = do m ← set_next prev next m; set_prev next prev m

unfoldable pub list_del : Ptr → Memory → Option Memory
unfolding get_next get_prev unlink
list_del elem m = do
  before ← get_prev elem m
  after ← get_next elem m
  m ← unlink before after m
  m ← set_prev elem null m
  set_next elem null m

unfoldable pub list_del_init : Ptr → Memory → Option Memory
unfolding get_next get_prev unlink
list_del_init elem m = do
  before ← get_prev elem m
  after ← get_next elem m
  m ← unlink before after m
  m ← set_prev elem elem m
  set_next elem elem m

unfoldable pub list_swap : Ptr → Ptr → Memory → Option Memory
unfolding get_next get_prev set_next set_prev list_init
list_swap new_head old_head m = do
  first ← get_next old_head m
  m ← set_next new_head first m
  last ← get_prev old_head m
  m ← set_prev new_head last m
  first ← get_next old_head m
  m ← set_prev first new_head m
  last ← get_prev old_head m
  m ← set_next last new_head m
  list_init old_head m

-- `list_for_each`: the nodes that the loop visits from `pos` on; `none` is a fault or no end
-- within the fuel.
unfoldable pub visit_from : ℕ → Ptr → Ptr → Memory → Option (List Ptr)
unfolding get_next
visit_from zero pos head m = none
visit_from (suc fuel) pos head m =
    let rest = (do
      after ← get_next pos m
      seen ← visit_from fuel after head m
      some (pos ∷ seen)) in
    if pos == head then some [] else rest

unfoldable pub list_for_each : ℕ → Ptr → Memory → Option (List Ptr)
unfolding get_next visit_from
list_for_each fuel head m = do first ← get_next head m; visit_from fuel first head m

-- `list_for_each_safe` with the loop's body as an argument: `q` is read before the body runs for
-- `p`. The nodes that it runs for, and the memory in the end.
unfoldable pub visit_safe :
    ℕ → (Ptr → Memory → Option Memory) → Ptr → Ptr → Ptr → Memory → Option (List Ptr × Memory)
unfolding get_next
visit_safe zero body p q head m = none
visit_safe (suc fuel) body p q head m =
    let rest = (do
      m ← body p m
      after ← get_next q m
      r ← visit_safe fuel body q after head m
      some (p ∷ r.0, r.1)) in
    if p == head then some ([], m) else rest

unfoldable pub list_for_each_safe :
    ℕ → (Ptr → Memory → Option Memory) → Ptr → Memory → Option (List Ptr × Memory)
unfolding get_next visit_safe
list_for_each_safe fuel body head m = do
  p ← get_next head m
  q ← get_next p m
  visit_safe fuel body p q head m
