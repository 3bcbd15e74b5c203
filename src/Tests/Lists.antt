-- ===== src/Tests/Lists.antt =====
-- Lists of strings.
use os_solutions.StrList.Adding.{dslist_append-IsDlList, dslist_prepend-IsDlList}
use os_solutions.StrList.Growth.{IsDlList}
use os_solutions.StrList.Insertion.{dslist_append, dslist_prepend}
use os_solutions.StrList.Nodes.{DlNode, DlList, Store}
use os_solutions.StrList.Removal.{dslist_remove}
use os_solutions.StrList.Stuck.{dslist_remove-stuck}
use os_solutions.StrList.Visits.{Linked, ends, links, dslist_foreach-fold, dslist_find-first}
use os_solutions.StrList.Walks.{dslist_foreach, dslist_find, dslist_position, dslist_reverse}
use os_solutions.Prelude.{
  ℕ, ◌+◌, ◌≡◌, refl, Bool, true, Option, none, some, [], ◌∷◌, ◌==◌, if◌then◌else◌, Outcome, ok,
  timeout, Returns, arith,
}

abbrev always : ℕ → Bool
always n = true

abbrev seven : DlNode
seven = record { datum = 7; next_node = 2; prev_node = 0 }

abbrev eight : DlNode
eight = record { datum = 8; next_node = 0; prev_node = 1 }

abbrev store : Store
store = record {
  nodes = λ p. if p == 1 then some seven else if p == 2 then some eight else none;
  fresh = 3;
}

abbrev pair : DlList
pair = record { node_count = 2; first = 1; last = 2 }

nodes-Linked : Linked store.nodes 1 ((1, 7) ∷ ((2, 8) ∷ []))
nodes-Linked = links seven refl (links eight refl ends)

pair-IsDlList : IsDlList store pair ((1, 7) ∷ ((2, 8) ∷ []))
pair-IsDlList = record {
  linked = nodes-Linked;
  is_count = refl;
  is_last = refl;
  no_null = refl;
  unused = λ k. ground arith;
  is_fresh = λ h. omega (arith, h);
}

dslist_append-IsDlList_example : Returns (dslist_append always store (some pair) 9) λ r.
    (after : DlList) × (r.0 ≡ some after) × IsDlList r.1 after ((1, 7) ∷ ((2, 8) ∷ ((3, 9) ∷ [])))
dslist_append-IsDlList_example =
    dslist_append-IsDlList always store pair 9 refl (omega arith) ((1, 7) ∷ ((2, 8) ∷ []))
      pair-IsDlList

dslist_prepend-IsDlList_example : Returns (dslist_prepend always store (some pair) 9) λ r.
    (after : DlList) × (r.0 ≡ some after) × IsDlList r.1 after ((3, 9) ∷ ((1, 7) ∷ ((2, 8) ∷ [])))
dslist_prepend-IsDlList_example =
    dslist_prepend-IsDlList always store pair 9 refl (omega arith) ((1, 7) ∷ ((2, 8) ∷ []))
      pair-IsDlList

dslist_foreach-fold_example :
    dslist_foreach (some (λ d t u. ok (t, d + u))) 3 store (some pair) 0 ≡ ok (store, 15)
dslist_foreach-fold_example =
    dslist_foreach-fold (λ d u. d + u) 3 store pair ((1, 7) ∷ ((2, 8) ∷ [])) 0 nodes-Linked
      (omega arith)

dslist_find-first_example :
    (dslist_find 3 store (some pair) 8 ≡ ok 2)
    × (dslist_position 3 store (some pair) 2 ≡ ok (some 1))
dslist_find-first_example =
    dslist_find-first 3 store pair ((1, 7) ∷ ((2, 8) ∷ [])) 8 1 nodes-Linked (omega arith)

dslist_remove-stuck_example : dslist_remove 100 store (some pair) 8 ≡ timeout
dslist_remove-stuck_example =
    dslist_remove-stuck 100 store pair 0 8 seven (omega arith) refl refl refl

data_of : Outcome (ℕ × Store) → Option ℕ × Option ℕ
data_of (ok (_, st)) = (
  elim (st.nodes 1) [ none ↦ none | some n ↦ some n.datum ],
  elim (st.nodes 2) [ none ↦ none | some n ↦ some n.datum ],
)
data_of _ = (none, none)

-- a list of two is not reversed
reverse_pair : data_of (dslist_reverse 9 store (some pair)) ≡ (some 7, some 8)
unfolding dslist_reverse data_of
reverse_pair = refl
