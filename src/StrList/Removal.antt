-- ===== src/StrList/Removal.antt =====
-- Removing nodes: dslist_remove, dslist_remove_all, dslist_remove_next and dslist_free.
use os_solutions.StrList.Nodes.{Address, DlNode, DlList, Store, put, set_next_if, set_prev_if}
use os_solutions.Prelude.{
  ℕ, zero, suc, ◌+◌, ◌-◌, ◌%◌, Bool, true, false, ◌&&◌, ◌||◌, Option, none, some, ltb, leb, ◌==◌,
  if◌then◌else◌, size_mod, Outcome, ok, timeout, ◌>>=◌, read,
}

-- the node is freed and its neighbours are linked; its data is not freed
unfoldable pub dslist_remove_raw : Store → Address → Outcome Store
unfolding set_next_if set_prev_if
dslist_remove_raw st zero = ok st
dslist_remove_raw st (suc p) = do
  n ← read (st.nodes (suc p))
  st₁ ← set_prev_if (put st (suc p) none) n.next_node n.prev_node
  set_next_if st₁ n.prev_node n.next_node

-- `list->first` and `list->last` step over a node that is removed
abbrev pub step_over : DlList → Address → DlNode → DlList
step_over l p n = record l {
  first = if l.first == p then n.next_node else l.first;
  last = if l.last == p then n.prev_node else l.last;
}

-- The loop of `dslist_remove_few`: `limit` is none for a negative count; the runner does not move.
unfoldable pub remove_loop :
    ℕ → Store → DlList → Address → ℕ → Option ℕ → ℕ → Outcome (DlList × Store)
unfolding dslist_remove_raw
remove_loop zero st l runner d limit pos = timeout
remove_loop (suc fuel) st l zero d limit pos = ok (l, st)
remove_loop (suc fuel) st l (suc p) d limit pos = do
  n ← read (st.nodes (suc p))
  (if n.datum == d
      then (do
        st' ← dslist_remove_raw st (suc p)
        let l' = record (step_over l (suc p) n) {
          node_count = (l.node_count + size_mod - 1) % size_mod;
        }
        let reached : Bool = elim limit [ none ↦ false | some c ↦ ltb 0 c && leb c (pos + 1) ]
        if reached || ltb l'.node_count 1
            then ok (l', st')
            else remove_loop fuel st' l' (suc p) d limit (pos + 1))
      else remove_loop fuel st l (suc p) d limit pos)

-- the list, or none where NULL is returned
unfoldable pub dslist_remove_few :
    ℕ → Store → Option DlList → ℕ → Option ℕ → Outcome (Option DlList × Store)
unfolding remove_loop
dslist_remove_few fuel st none d limit = ok (none, st)
dslist_remove_few fuel st (some l) d limit =
    if ltb l.node_count 1
    then ok (none, st)
    else (do r ← remove_loop fuel st l l.first d limit 0; ok (some r.0, r.1))

-- whether the result is the list: both are NULL, or both are not
abbrev pub is_same : Option DlList → Option DlList → Bool
is_same none none = true
is_same (some _) (some _) = true
is_same _ _ = false

unfoldable pub dslist_remove :
    ℕ → Store → Option DlList → ℕ → Outcome (Bool × Option DlList × Store)
unfolding dslist_remove_few
dslist_remove fuel st list d = do
  r ← dslist_remove_few fuel st list d (some 1)
  ok (is_same r.0 list, elim r.0 [ none ↦ list | some l ↦ some l ], r.1)

unfoldable pub dslist_remove_all :
    ℕ → Store → Option DlList → ℕ → Outcome (Bool × Option DlList × Store)
unfolding dslist_remove_few
dslist_remove_all fuel st list d = do
  r ← dslist_remove_few fuel st list d none
  ok (is_same r.0 list, elim r.0 [ none ↦ list | some l ↦ some l ], r.1)

-- the data of the node behind `sibling`, 0 where there is none; the list and the store are left
unfoldable pub dslist_remove_next :
    Store → Option DlList → Address → Outcome (ℕ × Option DlList × Store)
unfolding dslist_remove_raw
dslist_remove_next st list zero = ok (0, list, st)
dslist_remove_next st list (suc s) = do
  n ← read (st.nodes (suc s))
  elim n.next_node [
    | zero ↦ ok (0, list, st)
    | suc q ↦ elim list [
      | none ↦ ok (0, none, st)
      | some l ↦ if ltb l.node_count 1 then ok (0, some l, st) else (do
        m ← read (st.nodes (suc q))
        st' ← dslist_remove_raw st (suc q)
        ok (
          m.datum,
          some (record (step_over l (suc s) n) {
            node_count = (l.node_count + size_mod - 1) % size_mod;
          }),
          st',
        ))
    ]
  ]

-- the loop of `dslist_free`, and the `free` of the last node
unfoldable pub free_from : ℕ → Store → Address → Outcome Store
unfolding dslist_remove_raw
free_from zero st tmp = timeout
free_from (suc fuel) st tmp = do
  n ← read (st.nodes tmp)
  elim n.next_node [
    | zero ↦ ok (put st tmp none)
    | suc q ↦ (do st' ← dslist_remove_raw st tmp; free_from fuel st' (suc q))
  ]

unfoldable pub dslist_free : ℕ → Store → Option DlList → Outcome Store
unfolding free_from
dslist_free fuel st none = ok st
dslist_free fuel st (some l) = free_from fuel st l.first
