-- ===== src/Klist.antt =====
-- include/klist0.h: the intrusive, circular, doubly linked list, on an explicit heap of nodes.
-- A node is named by its address; `Links` holds the two pointers of every `struct klist0_node`.
-- Each function performs the source's assignments in the source's order.
pub mod Frame
pub mod Laws
pub mod Ring
use koowaldah.Base.{ℕ, zero, suc, Bool, List, [], ◌∷◌, Option, none, some, ◌==◌, update}
use koowaldah.Base.{if◌then◌else◌}
use mathlib.Core.Option

pub record Links : Type 0 where
  pub prev : ℕ → ℕ
  pub next : ℕ → ℕ

abbrev pub set_next : Links → ℕ → ℕ → Links
set_next h p q = record { prev = h.prev; next = update h.next p q }

abbrev pub set_prev : Links → ℕ → ℕ → Links
set_prev h p q = record { prev = update h.prev p q; next = h.next }

-- KLIST0_INIT
unfoldable pub init : ℕ → Links → Links
init l h = let h1 = set_prev h l l in set_next h1 l l

unfoldable pub prepend : ℕ → ℕ → Links → Links
prepend node list h =
    let h1 = set_next h node list in
    let h2 = set_prev h1 node (h1.prev list) in
    let h3 = set_next h2 (h2.prev list) node in set_prev h3 list node

unfoldable pub append : ℕ → ℕ → Links → Links
append node list h =
    let h1 = set_next h node (h.next list) in
    let h2 = set_prev h1 node list in
    let h3 = set_prev h2 (h2.next list) node in set_next h3 list node

unfoldable pub unlink : ℕ → Links → Links
unlink node h =
    let h1 = set_next h (h.prev node) (h.next node) in
    let h2 = set_prev h1 (h1.next node) (h1.prev node) in
    let h3 = set_next h2 node node in set_prev h3 node node

unfoldable pub is_empty : ℕ → Links → Bool
is_empty list h = h.next list == list

-- klist0_reparent: the struct copy, the two back links, and the reset of the old head.
unfoldable pub reparent : ℕ → ℕ → Links → Links
unfolding init
reparent from_head to_head h =
    let h1 = set_next (set_prev h to_head (h.prev from_head)) to_head (h.next from_head) in
    let h2 = set_prev h1 (h1.next to_head) to_head in
    let h3 = set_next h2 (h2.prev to_head) to_head in init from_head h3

-- klist0_for_each: the nodes that the loop visits, `none` when the fuel runs out before the walk
-- is back at the head.
unfoldable pub for_each : ℕ → ℕ → ℕ → Links → Option (List ℕ)
for_each zero node list h = none
for_each (suc fuel) node list h =
    let rest = for_each fuel (h.next node) list h in
    if node == list then some [] else Option.map (λ xs. node ∷ xs) rest
