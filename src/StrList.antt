-- ===== src/StrList.antt =====
-- 4_str_list/dslist.c: a doubly linked list on a heap of nodes.
--
-- A `DLNode *` is an address, 0 for NULL; `Store` has the nodes that are allocated, and the next
-- address that `malloc` gives. A `DLList *` is none for NULL, else the structure that it points
-- to; an operation returns the structure it leaves. `alloc n` says whether `malloc(n)` succeeds.
-- Each loop takes fuel for its rounds.
pub mod Nodes
pub mod Insertion
pub mod Removal
pub mod Walks
pub mod Visits
pub mod Stuck
pub mod Growth
pub mod Runs
pub mod Adding
