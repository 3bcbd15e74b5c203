-- ===== src/StrList/Visits.antt =====
-- What the loops do on a list whose nodes are linked in order.
use os_solutions.StrList.Nodes.{Address, DlNode, DlList, Store}
use os_solutions.StrList.Walks.{
  foreach_from, dslist_foreach, find_from, dslist_find, position_from, dslist_position,
}
use os_solutions.Prelude.{
  ℕ, zero, suc, ◌+◌, ◌<◌, ◌≡◌, refl, Option, none, some, List, [], ◌∷◌, length, ◌==◌, if◌then◌else◌,
  ok, arith,
}

-- From the address `p` on, the `next` pointers lead through these addresses and data to NULL.
pub data Linked (nodes : Address → Option DlNode) : Address → List (Address × ℕ) → Type 0 where
  ends : Linked nodes 0 []
  links :
      {p : ℕ} {rest : List (Address × ℕ)} (n : DlNode)
      → nodes (suc p) ≡ some n
      → Linked nodes n.next_node rest
      → Linked nodes (suc p) ((suc p, n.datum) ∷ rest)

-- the calls of a callback that leaves the store, in order
abbrev pub fold_data {ℓ} : {S : Type ℓ} → (ℕ → S → S) → List (Address × ℕ) → S → S
fold_data f [] s = s
fold_data f ((p, d) ∷ rest) s = fold_data f rest (f d s)

-- the address of the first item with the data, 0 where there is none
abbrev pub first_with : ℕ → List (Address × ℕ) → Address
first_with d [] = 0
first_with d ((p, e) ∷ rest) = if e == d then p else first_with d rest

-- the index of an address
abbrev pub index_of : Address → List (Address × ℕ) → ℕ → Option ℕ
index_of el [] pos = none
index_of el ((p, e) ∷ rest) pos = if p == el then some pos else index_of el rest (pos + 1)

foreach_from-fold {ℓ} :
    {S : Type ℓ} (f : ℕ → S → S) (fuel : ℕ) (st : Store) (p : Address) (items : List (Address × ℕ))
    (s : S)
    → Linked st.nodes p items
    → length items < fuel
    → foreach_from (λ d t u. ok (t, f d u)) fuel st p s ≡ ok (st, fold_data f items s)
unfolding foreach_from
foreach_from-fold f zero st p items s l h = elim h [ ]
foreach_from-fold f (suc fuel) st p items s ends h = refl
foreach_from-fold f (suc fuel) st p items s (links {p = q} {rest} n e l) h =
    rw e (foreach_from-fold f fuel st n.next_node rest (f n.datum s) l (omega (arith, h)))

find_from-first :
    (d fuel : ℕ) (st : Store) (p : Address) (items : List (Address × ℕ))
    → Linked st.nodes p items
    → length items < fuel
    → find_from (λ e. e == d) fuel st p ≡ ok (first_with d items)
unfolding find_from
find_from-first d zero st p items l h = elim h [ ]
find_from-first d (suc fuel) st p items ends h = refl
find_from-first d (suc fuel) st p items (links {p = q} {rest} n e l) h =
    rw e (ground (arith, find_from-first d fuel st n.next_node rest l (omega (arith, h))))

position_from-index :
    (el fuel : ℕ) (st : Store) (p : Address) (items : List (Address × ℕ)) (pos : ℕ)
    → Linked st.nodes p items
    → length items < fuel
    → position_from el fuel st p pos ≡ ok (index_of el items pos)
unfolding position_from
position_from-index el zero st p items pos l h = elim h [ ]
position_from-index el (suc fuel) st p items pos ends h = refl
position_from-index el (suc fuel) st p items pos (links {p = q} {rest} n e l) h =
    rw e (
      ground
        (arith, position_from-index el fuel st n.next_node rest (pos + 1) l (omega (arith, h))))

-- On a list whose nodes are linked, with more rounds than nodes and a callback that leaves the
-- nodes alone, `dslist_foreach` calls the callback on the data of every node in order.
pub dslist_foreach-fold {ℓ} :
    {S : Type ℓ} (f : ℕ → S → S) (fuel : ℕ) (st : Store) (l : DlList) (items : List (Address × ℕ))
    (s : S)
    → Linked st.nodes l.first items
    → length items < fuel
    → dslist_foreach (some (λ d t u. ok (t, f d u))) fuel st (some l) s
      ≡ ok (st, fold_data f items s)
unfolding dslist_foreach
dslist_foreach-fold f fuel st l items s linked h =
    foreach_from-fold f fuel st l.first items s linked h

-- On a list whose nodes are linked, with more rounds than nodes, `dslist_find` returns the first
-- node with the data, or NULL where there is none, and `dslist_position` the index of a node, or
-- -1.
pub dslist_find-first :
    (fuel : ℕ) (st : Store) (l : DlList) (items : List (Address × ℕ)) (needle el : ℕ)
    → Linked st.nodes l.first items
    → length items < fuel
    → (dslist_find fuel st (some l) needle ≡ ok (first_with needle items))
      × (dslist_position fuel st (some l) (suc el) ≡ ok (index_of (suc el) items 0))
unfolding dslist_find dslist_position
dslist_find-first fuel st l items needle el linked h = (
  find_from-first needle fuel st l.first items linked h,
  position_from-index (suc el) fuel st l.first items 0 linked h,
)
