-- ===== src/StrList/Stuck.antt =====
-- The loop of dslist_remove.
use os_solutions.StrList.Nodes.{DlNode, DlList, Store}
use os_solutions.StrList.Removal.{remove_loop, dslist_remove_few, dslist_remove}
use os_solutions.Prelude.{ℕ, zero, suc, ◌<◌, ◌≡◌, refl, false, Option, some, ◌==◌, timeout, arith}

remove_loop-stuck :
    (fuel : ℕ) (st : Store) (l : DlList) (p d : ℕ) (limit : Option ℕ) (pos : ℕ) (n : DlNode)
    → st.nodes (suc p) ≡ some n
    → (n.datum == d) ≡ false
    → remove_loop fuel st l (suc p) d limit pos ≡ timeout
unfolding remove_loop
remove_loop-stuck zero st l p d limit pos n e h = refl
remove_loop-stuck (suc fuel) st l p d limit pos n e h =
    rw (e, h) (remove_loop-stuck fuel st l p d limit pos n e h)

-- `dslist_remove` on a list whose first node holds other data than that to remove does not end:
-- no number of rounds is enough.
pub dslist_remove-stuck :
    (fuel : ℕ) (st : Store) (l : DlList) (p d : ℕ) (n : DlNode)
    → 0 < l.node_count
    → l.first ≡ suc p
    → st.nodes (suc p) ≡ some n
    → (n.datum == d) ≡ false
    → dslist_remove fuel st (some l) d ≡ timeout
unfolding dslist_remove dslist_remove_few
dslist_remove-stuck fuel st l p d n some_nodes at e h =
    let run = remove_loop-stuck fuel st l p d (some 1) 0 n e h in ground arith
