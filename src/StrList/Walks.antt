-- ===== src/StrList/Walks.antt =====
-- The loops over the nodes: reverse, foreach, find, position and nth.
use os_solutions.StrList.Nodes.{Address, DlList, Store, swap_data, dslist_first}
use os_solutions.Prelude.{
  ℕ, zero, suc, ◌+◌, Bool, Option, none, some, ◌==◌, if◌then◌else◌, Outcome, ok, timeout, ◌>>=◌,
  read,
}

-- the loop of `dslist_reverse`
unfoldable pub reverse_loop : ℕ → Store → Address → Address → Outcome Store
unfolding swap_data
reverse_loop zero st head tail = timeout
reverse_loop (suc fuel) st zero tail = ok st
reverse_loop (suc fuel) st (suc h) zero = ok st
reverse_loop (suc fuel) st (suc h) (suc t) = if h == t then ok st else (do
  st' ← swap_data st (suc h) (suc t)
  m ← read (st'.nodes (suc h))
  n ← read (st'.nodes (suc t))
  reverse_loop fuel st' m.next_node n.prev_node)

unfoldable pub dslist_reverse : ℕ → Store → Option DlList → Outcome (ℕ × Store)
unfolding reverse_loop
dslist_reverse fuel st none = ok (0, st)
dslist_reverse fuel st (some l) =
    if l.first == l.last
    then ok (1, st)
    else (do st' ← reverse_loop fuel st l.first l.last; ok (1, st'))

module _ {ℓ} {S : Type ℓ} (func : ℕ → Store → S → Outcome (Store × S)) where
  -- the callback may change the store and its `user_data`
  unfoldable pub foreach_from : ℕ → Store → Address → S → Outcome (Store × S)
  foreach_from zero st p s = timeout
  foreach_from (suc fuel) st zero s = ok (st, s)
  foreach_from (suc fuel) st (suc p) s = do
    n ← read (st.nodes (suc p))
    r ← func n.datum st s
    m ← read (r.0.nodes (suc p))
    foreach_from fuel r.0 m.next_node r.1

-- `func` is none for NULL
unfoldable pub dslist_foreach {ℓ} :
    {S : Type ℓ}
    → Option (ℕ → Store → S → Outcome (Store × S))
    → ℕ
    → Store
    → Option DlList
    → S
    → Outcome (Store × S)
unfolding foreach_from
dslist_foreach (some func) fuel st (some l) s = foreach_from func fuel st l.first s
dslist_foreach _ fuel st _ s = ok (st, s)

-- the loop of `dslist_find` and `dslist_find_custom`, for the test of a node's data
unfoldable pub find_from : (ℕ → Bool) → ℕ → Store → Address → Outcome Address
find_from is_it zero st p = timeout
find_from is_it (suc fuel) st zero = ok 0
find_from is_it (suc fuel) st (suc p) = do
  n ← read (st.nodes (suc p))
  if is_it n.datum then ok (suc p) else find_from is_it fuel st n.next_node

unfoldable pub dslist_find : ℕ → Store → Option DlList → ℕ → Outcome Address
unfolding find_from
dslist_find fuel st none needle = ok 0
dslist_find fuel st (some l) needle = find_from (λ d. d == needle) fuel st l.first

-- `compare_func` answers 0 for equal data
unfoldable pub dslist_find_custom :
    ℕ → Store → Option DlList → ℕ → Option (ℕ → ℕ → ℕ) → Outcome Address
unfolding find_from dslist_first
dslist_find_custom fuel st (some l) needle (some compare) =
    find_from (λ d. compare d needle == 0) fuel st (dslist_first (some l))
dslist_find_custom fuel st _ needle _ = ok 0

-- none is -1
unfoldable pub position_from : Address → ℕ → Store → Address → ℕ → Outcome (Option ℕ)
position_from el zero st p pos = timeout
position_from el (suc fuel) st zero pos = ok none
position_from el (suc fuel) st (suc p) pos =
    if suc p == el
    then ok (some pos)
    else (do n ← read (st.nodes (suc p)); position_from el fuel st n.next_node (pos + 1))

unfoldable pub dslist_position : ℕ → Store → Option DlList → Address → Outcome (Option ℕ)
unfolding position_from
dslist_position fuel st none el = ok none
dslist_position fuel st (some l) zero = ok none
dslist_position fuel st (some l) (suc p) = position_from (suc p) fuel st l.first 0

-- the loop of `dslist_nth`, forwards for a positive number, for its absolute value `n`
unfoldable pub nth_from : Bool → ℕ → ℕ → Store → Address → ℕ → Outcome Address
nth_from forward n zero st p pos = timeout
nth_from forward n (suc fuel) st zero pos = ok 0
nth_from forward n (suc fuel) st (suc p) pos = if n == pos then ok (suc p) else (do
  m ← read (st.nodes (suc p))
  nth_from forward n fuel st (if forward then m.next_node else m.prev_node) (pos + 1))

-- `forward` says whether the argument is positive, `n` is its absolute value
unfoldable pub dslist_nth : ℕ → Store → Option DlList → Bool → ℕ → Outcome Address
unfolding nth_from
dslist_nth fuel st none forward n = ok 0
dslist_nth fuel st (some l) forward n =
    let runner = if forward then l.first else l.last in
    if l.first == l.last
    then ok (if n == 1 then runner else 0)
    else nth_from forward n fuel st runner 1
