-- ===== src/StrList/Insertion.antt =====
-- Adding nodes: append, prepend, insert, concat and copy.
use os_solutions.StrList.Walks.{dslist_foreach}
use os_solutions.StrList.Nodes.{
  Address, DlList, Store, allocated, set_next, set_prev, node_size, list_size,
}
use os_solutions.Prelude.{
  ℕ, zero, suc, ◌+◌, ◌%◌, Bool, true, false, ◌&&◌, Option, none, some, ltb, ◌==◌, if◌then◌else◌,
  size_mod, Outcome, ok, ◌>>=◌, read,
}

-- the first list with the second linked behind it
unfoldable pub dslist_concat :
    Store → Option DlList → Option DlList → Outcome (Option DlList × Store)
unfolding set_next set_prev
dslist_concat st none b = ok (b, st)
dslist_concat st (some a) none = ok (some a, st)
dslist_concat st (some a) (some b) = do
  st₁ ← set_next st a.last b.first
  st₂ ← set_prev st₁ b.first a.last
  ok (some (record a { node_count = (a.node_count + b.node_count) % size_mod; last = b.last }), st₂)

module _ (alloc : ℕ → Bool) where
  -- where NULL is returned, the list and the store are as before
  unfoldable pub dslist_append : Store → Option DlList → ℕ → Outcome (Option DlList × Store)
  unfolding set_next
  dslist_append st none d =
      if alloc node_size && alloc list_size
      then ok (
        some (record { node_count = 1; first = st.fresh; last = st.fresh }),
        allocated st (record { datum = d; next_node = 0; prev_node = 0 }),
      )
      else ok (none, st)
  dslist_append st (some l) d =
      if alloc node_size
      then (if ltb 0 l.node_count
          then (do
            st' ←
                set_next (allocated st (record { datum = d; next_node = 0; prev_node = l.last }))
                  l.last st.fresh
            ok (
              some (record l { last = st.fresh; node_count = (l.node_count + 1) % size_mod }),
              st',
            ))
          else ok (
            some (record {
              first = st.fresh;
              last = st.fresh;
              node_count = (l.node_count + 1) % size_mod;
            }),
            allocated st (record { datum = d; next_node = 0; prev_node = 0 }),
          ))
      else ok (none, st)

  unfoldable pub dslist_prepend : Store → Option DlList → ℕ → Outcome (Option DlList × Store)
  unfolding set_prev
  dslist_prepend st none d =
      if alloc node_size && alloc list_size
      then ok (
        some (record { node_count = 1; first = st.fresh; last = st.fresh }),
        allocated st (record { datum = d; next_node = 0; prev_node = 0 }),
      )
      else ok (none, st)
  dslist_prepend st (some l) d =
      if alloc node_size
      then (if ltb 0 l.node_count
          then (do
            st' ←
                set_prev (allocated st (record { datum = d; next_node = l.first; prev_node = 0 }))
                  l.first st.fresh
            ok (
              some (record l { first = st.fresh; node_count = (l.node_count + 1) % size_mod }),
              st',
            ))
          else ok (
            some (record {
              first = st.fresh;
              last = st.fresh;
              node_count = (l.node_count + 1) % size_mod;
            }),
            allocated st (record { datum = d; next_node = 0; prev_node = 0 }),
          ))
      else ok (none, st)

  -- the answer, and the list and the store that are left
  unfoldable pub dslist_insert :
      Store → Option DlList → Address → ℕ → Outcome (Bool × Option DlList × Store)
  unfolding dslist_append set_next
  dslist_insert st none sibling d = ok (false, none, st)
  dslist_insert st (some l) zero d = ok (false, some l, st)
  dslist_insert st (some l) (suc s) d =
      if l.last == suc s
      then (do
        r ← dslist_append st (some l) d
        elim r.0 [ none ↦ ok (false, some l, st) | some l' ↦ ok (true, some l', r.1) ])
      else if alloc node_size
      then (do
        n ← read (st.nodes (suc s))
        st' ←
            set_next
              (allocated st (record { datum = d; next_node = n.next_node; prev_node = suc s }))
              (suc s) st.fresh
        ok (true, some l, st'))
      else ok (false, some l, st)

  -- the callback of `dslist_copy`: an append whose result is not used
  unfoldable pub foreach_for_copy : ℕ → Store → DlList → Outcome (Store × DlList)
  unfolding dslist_append
  foreach_for_copy zero st nl = ok (st, nl)
  foreach_for_copy (suc d) st nl = do
    r ← dslist_append st (some nl) (suc d)
    elim r.0 [ none ↦ ok (st, nl) | some nl' ↦ ok (r.1, nl') ]

  unfoldable pub dslist_copy : ℕ → Store → Option DlList → Outcome (Option DlList × Store)
  unfolding dslist_foreach foreach_for_copy
  dslist_copy fuel st list =
      if alloc list_size
      then (do
        r ←
            dslist_foreach (some foreach_for_copy) fuel st list
              (record { node_count = 0; first = 0; last = 0 })
        ok (some r.1, r.0))
      else ok (none, st)
