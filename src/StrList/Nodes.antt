-- ===== src/StrList/Nodes.antt =====
-- The nodes, the lists and the store, and writes to a node.
use os_solutions.Prelude.{
  ℕ, zero, suc, ◌+◌, Option, none, some, ◌==◌, if◌then◌else◌, Outcome, ok, ◌>>=◌, read,
}

abbrev pub Address : Type 0
Address = ℕ

pub record DlNode : Type 0 where
  pub datum : ℕ
  pub next_node : Address
  pub prev_node : Address

pub record DlList : Type 0 where
  pub node_count : ℕ
  pub first : Address
  pub last : Address

pub record Store : Type 0 where
  pub nodes : Address → Option DlNode
  pub fresh : Address

abbrev pub write_at : (Address → Option DlNode) → Address → Option DlNode → Address → Option DlNode
write_at nodes p n q = if p == q then n else nodes q

abbrev pub put : Store → Address → Option DlNode → Store
put st p n = record st { nodes = write_at st.nodes p n }

-- `malloc` of a node, with its contents
abbrev pub allocated : Store → DlNode → Store
allocated st n = record (put st st.fresh (some n)) { fresh = st.fresh + 1 }

unfoldable pub set_next : Store → Address → Address → Outcome Store
set_next st p q = do n ← read (st.nodes p); ok (put st p (some (record n { next_node = q })))

unfoldable pub set_prev : Store → Address → Address → Outcome Store
set_prev st p q = do n ← read (st.nodes p); ok (put st p (some (record n { prev_node = q })))

unfoldable pub set_datum : Store → Address → ℕ → Outcome Store
set_datum st p d = do n ← read (st.nodes p); ok (put st p (some (record n { datum = d })))

-- `if (p != NULL) p->next = q`
unfoldable pub set_next_if : Store → Address → Address → Outcome Store
unfolding set_next
set_next_if st zero q = ok st
set_next_if st (suc p) q = set_next st (suc p) q

unfoldable pub set_prev_if : Store → Address → Address → Outcome Store
unfolding set_prev
set_prev_if st zero q = ok st
set_prev_if st (suc p) q = set_prev st (suc p) q

unfoldable pub swap_data : Store → Address → Address → Outcome Store
unfolding set_datum
swap_data st a b = do
  m ← read (st.nodes a)
  n ← read (st.nodes b)
  st' ← set_datum st a n.datum
  set_datum st' b m.datum

-- sizeof(DLNode) and sizeof(DLList)
abbrev pub node_size : ℕ
node_size = 24

abbrev pub list_size : ℕ
list_size = 24

unfoldable pub dslist_first : Option DlList → Address
dslist_first none = 0
dslist_first (some l) = if l.node_count == 0 then 0 else l.first

unfoldable pub dslist_last : Option DlList → Address
dslist_last none = 0
dslist_last (some l) = if l.node_count == 0 then 0 else l.last

unfoldable pub dslist_length : Option DlList → ℕ
dslist_length none = 0
dslist_length (some l) = l.node_count
