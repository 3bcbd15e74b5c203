-- ===== src/StrList/Adding.antt =====
-- Append and prepend on a well-formed list.
use os_solutions.StrList.Runs.{
  written, dslist_append-run, dslist_prepend-run, used, written-none, allocated-none,
  write_at_other, end_of-snoc,
}
use os_solutions.StrList.Growth.{
  IsDlList, Linked-frame, Keeps-write_at, Keeps-fresh, Linked-snoc, end_node, Linked-cons, links_at,
  write_at_self,
}
use os_solutions.StrList.Insertion.{dslist_append, dslist_prepend}
use os_solutions.StrList.Nodes.{Address, DlNode, DlList, Store, write_at, allocated, node_size}
use os_solutions.StrList.Visits.{Linked, ends}
use os_solutions.Prelude.{
  ℕ, ◌+◌, ◌<◌, ◌≡◌, ◌≢◌, refl, sym, ap, ◌∙◌, Bool, true, false, none, some, List, [], ◌∷◌, ◌++◌,
  length, ltb, size_mod, ◌%◌, ok, Returns, arith, length-append,
}

module _ (alloc : ℕ → Bool) (st : Store) (l : DlList) (d : ℕ) (enough : alloc node_size ≡ true)
    (small : l.node_count + 1 < size_mod) where
  -- a list of the new node alone
  single : DlList
  single = record { first = st.fresh; last = st.fresh; node_count = (l.node_count + 1) % size_mod }

  single-IsDlList :
      IsDlList st l []
      → IsDlList
          (allocated st (record { datum = d; next_node = 0; prev_node = 0 }))
          single
          ((st.fresh, d) ∷ [])
  unfolding single
  single-IsDlList valid =
      let new : DlNode = record { datum = d; next_node = 0; prev_node = 0 } in
      record {
        linked =
            links_at st.fresh new valid.is_fresh (write_at_self st.nodes st.fresh (some new)) refl
              ends;
        is_count = omega (arith, valid.is_count, small);
        is_last = refl;
        no_null = (allocated-none alloc st l d enough small) new 0 valid.is_fresh valid.no_null;
        unused = λ k.
            (allocated-none alloc st l d enough small) new (st.fresh + 1 + k)
              (λ h. omega (arith, h)) (ap st.nodes (omega arith) ∙ valid.unused (1 + k));
        is_fresh = λ h. omega (arith, h);
      }

  append-single :
      l.node_count ≡ 0
      → dslist_append alloc st (some l) d
        ≡ ok (some single, allocated st (record { datum = d; next_node = 0; prev_node = 0 }))
  unfolding dslist_append single
  append-single h =
      let no_test : ltb 0 l.node_count ≡ false = ground arith in rw (enough, no_test) refl

  prepend-single :
      l.node_count ≡ 0
      → dslist_prepend alloc st (some l) d
        ≡ ok (some single, allocated st (record { datum = d; next_node = 0; prev_node = 0 }))
  unfolding dslist_prepend single
  prepend-single h =
      let no_test : ltb 0 l.node_count ≡ false = ground arith in rw (enough, no_test) refl

  longer : Address → DlList
  longer p = record l { last = p; node_count = (l.node_count + 1) % size_mod }

  longer_front : Address → DlList
  longer_front p = record l { first = p; node_count = (l.node_count + 1) % size_mod }

  longer-count :
      (items : List (Address × ℕ))
      → IsDlList st l items
      → (l.node_count + 1) % size_mod ≡ length items + 1
  longer-count items valid = omega (arith, valid.is_count, small)

  fresh-none : (items : List (Address × ℕ)) → IsDlList st l items → st.nodes st.fresh ≡ none
  fresh-none items valid = ap st.nodes (omega arith) ∙ valid.unused 0

  -- the chain with the new node behind its last
  snoc-Linked :
      (q e : ℕ) (rest : List (Address × ℕ)) (m : DlNode)
      → IsDlList st l ((q, e) ∷ rest)
      → st.nodes l.last ≡ some m
      → m.next_node ≡ 0
      → st.fresh ≢ l.last
      → Linked
          ((written alloc st l d enough small) l.last
            (record m { next_node = st.fresh })
            (record { datum = d; next_node = 0; prev_node = l.last })).nodes
          l.first
          (((q, e) ∷ rest) ++ (st.fresh, d) ∷ [])
  unfolding written
  snoc-Linked q e rest m valid last_at stop apart =
      let new : DlNode = record { datum = d; next_node = 0; prev_node = l.last } in
      let old : DlNode = record m { next_node = st.fresh } in
      let inner = write_at st.nodes st.fresh (some new) in
      Linked-snoc st.nodes (write_at inner l.last (some old)) l.last st.fresh m new l.first q e rest
        valid.linked valid.is_last last_at stop
        (λ p n at other.
          write_at_other inner l.last p (some old) other
          ∙ write_at_other st.nodes st.fresh p (some new) (λ h.
            ((used alloc st l d enough small) ((q, e) ∷ rest) p n valid at).1 0 (omega (arith, h)))
          ∙ at)
        (write_at_self inner l.last (some old))
        (write_at_other inner l.last st.fresh (some old) (λ h. apart (sym h))
          ∙ write_at_self st.nodes st.fresh (some new))
        refl valid.is_fresh

  -- the chain with the new node before its first
  front-Linked :
      (items : List (Address × ℕ)) (m : DlNode)
      → IsDlList st l items
      → st.nodes l.first ≡ some m
      → st.fresh ≢ l.first
      → Linked
          ((written alloc st l d enough small) l.first
            (record m { prev_node = st.fresh })
            (record { datum = d; next_node = l.first; prev_node = 0 })).nodes
          st.fresh
          ((st.fresh, d) ∷ items)
  unfolding written
  front-Linked items m valid first_at apart =
      let new : DlNode = record { datum = d; next_node = l.first; prev_node = 0 } in
      let old : DlNode = record m { prev_node = st.fresh } in
      let inner = write_at st.nodes st.fresh (some new) in
      let kept =
        Linked-frame (Keeps-fresh st.nodes st.fresh new (fresh-none items valid)) valid.linked in
      let first_inner = write_at_other st.nodes st.fresh l.first (some new) apart ∙ first_at in
      links_at st.fresh new valid.is_fresh
        (write_at_other inner l.first st.fresh (some old) (λ h. apart (sym h))
          ∙ write_at_self st.nodes st.fresh (some new))
        refl (Linked-frame (Keeps-write_at inner l.first m old first_inner refl refl) kept)

  -- With memory for a node and a count below the largest `size_t`, `dslist_append` to a well-
  -- formed list returns a well-formed list whose nodes are, along `next`, the old ones and a new
  -- one with the data behind them.
  pub dslist_append-IsDlList :
      (items : List (Address × ℕ))
      → IsDlList st l items
      → Returns (dslist_append alloc st (some l) d) λ r.
        (after : DlList) × (r.0 ≡ some after) × IsDlList r.1 after (items ++ (st.fresh, d) ∷ [])
  unfolding longer written
  dslist_append-IsDlList [] valid = (
    (some single, allocated st (record { datum = d; next_node = 0; prev_node = 0 })),
    append-single valid.is_count,
    (single, refl, single-IsDlList valid),
  )
  dslist_append-IsDlList ((q, e) ∷ rest) valid =
      let (m, at, stop) = end_node st.nodes l.first q e rest valid.linked in
      let last_at = ap st.nodes (sym valid.is_last) ∙ at in
      let (not_null, not_fresh) =
        (used alloc st l d enough small) ((q, e) ∷ rest) l.last m valid last_at in
      let apart : st.fresh ≢ l.last = λ h. not_fresh 0 (omega (arith, h)) in
      let new : DlNode = record { datum = d; next_node = 0; prev_node = l.last } in
      let old : DlNode = record m { next_node = st.fresh } in
      let positive : 0 < l.node_count = omega (arith, valid.is_count) in
      (
        (some (longer st.fresh), (written alloc st l d enough small) l.last old new),
        (dslist_append-run alloc st l d enough small) m positive last_at apart,
        (
          longer st.fresh,
          refl,
          record {
            linked = snoc-Linked q e rest m valid last_at stop apart;
            is_count =
                longer-count ((q, e) ∷ rest) valid
                ∙ sym (length-append ((q, e) ∷ rest) ((st.fresh, d) ∷ []));
            is_last = end_of-snoc q rest st.fresh d;
            no_null =
                (written-none alloc st l d enough small) ((q, e) ∷ rest) l.last m old new valid
                  last_at 0 valid.is_fresh valid.no_null;
            unused = λ k.
                (written-none alloc st l d enough small) ((q, e) ∷ rest) l.last m old new valid
                  last_at (st.fresh + 1 + k) (λ h. omega (arith, h))
                  (ap st.nodes (omega arith) ∙ valid.unused (1 + k));
            is_fresh = λ h. omega (arith, h);
          },
        ),
      )

  -- With memory for a node and a count below the largest `size_t`, `dslist_prepend` to a well-
  -- formed list returns a well-formed list whose nodes are, along `next`, a new one with the
  -- data and the old ones behind it.
  pub dslist_prepend-IsDlList :
      (items : List (Address × ℕ))
      → IsDlList st l items
      → Returns
          (dslist_prepend alloc st (some l) d)
          λ r. (after : DlList) × (r.0 ≡ some after) × IsDlList r.1 after ((st.fresh, d) ∷ items)
  unfolding longer_front written
  dslist_prepend-IsDlList [] valid = (
    (some single, allocated st (record { datum = d; next_node = 0; prev_node = 0 })),
    prepend-single valid.is_count,
    (single, refl, single-IsDlList valid),
  )
  dslist_prepend-IsDlList ((q, e) ∷ rest) valid =
      let (same, _, m, first_at, _, _) = Linked-cons valid.linked in
      let (not_null, not_fresh) =
        (used alloc st l d enough small) ((q, e) ∷ rest) l.first m valid first_at in
      let apart : st.fresh ≢ l.first = λ h. not_fresh 0 (omega (arith, h)) in
      let new : DlNode = record { datum = d; next_node = l.first; prev_node = 0 } in
      let old : DlNode = record m { prev_node = st.fresh } in
      let positive : 0 < l.node_count = omega (arith, valid.is_count) in
      (
        (some (longer_front st.fresh), (written alloc st l d enough small) l.first old new),
        (dslist_prepend-run alloc st l d enough small) m positive first_at apart,
        (
          longer_front st.fresh,
          refl,
          record {
            linked = front-Linked ((q, e) ∷ rest) m valid first_at apart;
            is_count = longer-count ((q, e) ∷ rest) valid ∙ omega arith;
            is_last = valid.is_last;
            no_null =
                (written-none alloc st l d enough small) ((q, e) ∷ rest) l.first m old new valid
                  first_at 0 valid.is_fresh valid.no_null;
            unused = λ k.
                (written-none alloc st l d enough small) ((q, e) ∷ rest) l.first m old new valid
                  first_at (st.fresh + 1 + k) (λ h. omega (arith, h))
                  (ap st.nodes (omega arith) ∙ valid.unused (1 + k));
            is_fresh = λ h. omega (arith, h);
          },
        ),
      )
