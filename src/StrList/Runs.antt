-- ===== src/StrList/Runs.antt =====
-- What append and prepend do to the store.
use os_solutions.StrList.Growth.{end_of, IsDlList}
use os_solutions.StrList.Insertion.{dslist_append, dslist_prepend}
use os_solutions.StrList.Nodes.{
  Address, DlNode, DlList, Store, put, write_at, allocated, node_size, set_next, set_prev,
}
use os_solutions.Prelude.{
  ℕ, ◌+◌, ◌<◌, ◌≡◌, ◌≢◌, refl, sym, ap, ◌∙◌, Bool, true, Option, none, some, List, [], ◌∷◌, ◌++◌,
  ◌==◌, size_mod, ◌%◌, ok, Bool-cases, ==_iff, inl, inr, lt→ltb,
}

pub write_at_other :
    (f : Address → Option DlNode) (p q : Address) (n : Option DlNode)
    → p ≢ q
    → write_at f p n q ≡ f q
write_at_other f p q n h = elim (Bool-cases (p == q)) [
  | inl e ↦ elim (h ((==_iff p q).0 e)) [ ]
  | inr e ↦ rw e refl
]

pub end_of-snoc :
    (x : Address) (items : List (Address × ℕ)) (b d : ℕ) → end_of x (items ++ (b, d) ∷ []) ≡ b
end_of-snoc x [] b d = refl
end_of-snoc x ((q, e) ∷ items) b d = end_of-snoc q items b d

module _ (alloc : ℕ → Bool) (st : Store) (l : DlList) (d : ℕ) (enough : alloc node_size ≡ true)
    (small : l.node_count + 1 < size_mod) where
  -- the store with a node at two written addresses
  unfoldable pub written : Address → DlNode → DlNode → Store
  written a old new = put (allocated st new) a (some old)

  pub dslist_append-run :
      (m : DlNode)
      → 0 < l.node_count
      → st.nodes l.last ≡ some m
      → st.fresh ≢ l.last
      → dslist_append alloc st (some l) d
        ≡ ok (
          some (record l { last = st.fresh; node_count = (l.node_count + 1) % size_mod }),
          written l.last
              (record m { next_node = st.fresh })
              (record { datum = d; next_node = 0; prev_node = l.last }),
        )
  unfolding dslist_append set_next written
  dslist_append-run m positive at apart =
      let reads =
        write_at_other st.nodes st.fresh l.last
          (some (record { datum = d; next_node = 0; prev_node = l.last })) apart
        ∙ at in
      rw (enough, lt→ltb 0 l.node_count positive, reads) refl

  pub dslist_prepend-run :
      (m : DlNode)
      → 0 < l.node_count
      → st.nodes l.first ≡ some m
      → st.fresh ≢ l.first
      → dslist_prepend alloc st (some l) d
        ≡ ok (
          some (record l { first = st.fresh; node_count = (l.node_count + 1) % size_mod }),
          written l.first
              (record m { prev_node = st.fresh })
              (record { datum = d; next_node = l.first; prev_node = 0 }),
        )
  unfolding dslist_prepend set_prev written
  dslist_prepend-run m positive at apart =
      let reads =
        write_at_other st.nodes st.fresh l.first
          (some (record { datum = d; next_node = l.first; prev_node = 0 })) apart
        ∙ at in
      rw (enough, lt→ltb 0 l.node_count positive, reads) refl

  pub used :
      (items : List (Address × ℕ)) (p : Address) (m : DlNode)
      → IsDlList st l items
      → st.nodes p ≡ some m
      → (p ≢ 0) × ((k : ℕ) → st.fresh + k ≢ p)
  used items p m valid at = (
    λ h. let none_some : none ≡ some m = sym valid.no_null ∙ ap st.nodes (sym h) ∙ at in cc,
    λ k h. let none_some : none ≡ some m = sym (valid.unused k) ∙ ap st.nodes h ∙ at in cc,
  )

  -- NULL and what `malloc` gives next stay without a node.
  pub written-none :
      (items : List (Address × ℕ)) (a : Address) (m old new : DlNode)
      → IsDlList st l items
      → st.nodes a ≡ some m
      → (q : Address) → st.fresh ≢ q
      → st.nodes q ≡ none
      → (written a old new).nodes q ≡ none
  unfolding written
  written-none items a m old new valid at q fresh_other empty =
      let apart : a ≢ q =
        λ h. let none_some : none ≡ some m = sym empty ∙ ap st.nodes (sym h) ∙ at in cc in
      write_at_other (write_at st.nodes st.fresh (some new)) a q (some old) apart
      ∙ write_at_other st.nodes st.fresh q (some new) fresh_other
      ∙ empty

  pub allocated-none :
      (new : DlNode) (q : Address)
      → st.fresh ≢ q
      → st.nodes q ≡ none
      → (allocated st new).nodes q ≡ none
  allocated-none new q fresh_other empty =
      write_at_other st.nodes st.fresh q (some new) fresh_other ∙ empty
