-- ===== src/HashTable/Walk.antt =====
-- `ht_traverse` and `ht_destroy` reach every node once, in the order of the slots.
use mathlib.Core.List.{flatten, append-nil, append_assoc}
use os_solutions.Prelude.{
  ◌≡◌, refl, ap, arith, some, List, [], ◌∷◌, ◌++◌, Bool, false, ltb, ◌==◌, if◌then◌else◌,
  Bool-cases, inl, inr, length, length-append, Bytes, ok, ◌>>=◌,
}
use os_solutions.HashTable.Slots.{IsValid, total}
use os_solutions.HashTable.{
  Node, Pointer, HashTable, visit_chain, visit_slots, ht_traverse, destroy_chain, destroy_slots,
  ht_destroy,
}
use os_solutions.HashTable.Update.{call_dtor-is, destroyed_by}

-- The nodes up to the first one that the callback refuses, that one included.
pub through : (Bytes → Pointer → Bool) → List Node → List Node
through f [] = []
through f (n ∷ ns) = n ∷ (if f n.key n.value then through f ns else [])

visit_chain-through :
    (f : Bytes → Pointer → Bool) (c rest : List Node)
    → (if (visit_chain f c).1 then (visit_chain f c).0 ++ through f rest else (visit_chain f c).0)
      ≡ through f (c ++ rest)
unfolding visit_chain through
visit_chain-through f [] rest = refl
visit_chain-through f (n ∷ c) rest = elim (Bool-cases (f n.key n.value)) [
  | inl e ↦ rw e (elim (Bool-cases (visit_chain f c).1) [
    | inl more ↦ rw more (ap (◌∷◌ n) (rw more at (visit_chain-through f c rest)))
    | inr stop ↦ rw stop (ap (◌∷◌ n) (rw stop at (visit_chain-through f c rest)))
  ])
  | inr e ↦ rw e
]

visit_slots-through :
    (f : Bytes → Pointer → Bool) (slots : List (List Node))
    → visit_slots f slots ≡ through f (flatten slots)
unfolding visit_slots flatten
visit_slots-through f [] = unfold through in refl
visit_slots-through f (c ∷ slots) =
    rw (visit_slots-through f slots) (visit_chain-through f c (flatten slots))

flatten-total : (slots : List (List Node)) → length (flatten slots) ≡ total slots
unfolding flatten total
flatten-total [] = refl
flatten-total (c ∷ slots) = omega (arith, length-append c (flatten slots), flatten-total slots)

length-zero : (ns : List Node) → length ns ≡ 0 → ns ≡ []
length-zero [] h = refl
length-zero (n ∷ ns) h = absurd (omega arith)

-- On a well-formed table the callback is called on every node in slot order, up to and with the
-- first that it refuses.
pub ht_traverse-through :
    (ht : HashTable) (slots : List (List Node)) (f : Bytes → Pointer → Bool)
    → IsValid ht slots
    → ht_traverse (some ht) (some f) ≡ ok (through f (flatten slots))
unfolding ht_traverse
ht_traverse-through ht slots f valid = elim (Bool-cases (ltb ht.count 1)) [
  | inl none_left ↦ rw none_left (
      rw (length-zero (flatten slots) (ground (arith, flatten-total slots, valid.counted)))
        (unfold through in refl))
  | inr some_left ↦ rw some_left (rw (valid.is_table, ◌>>=◌) (rw (visit_slots-through f slots)))
]

-- What `dtor` is called with over a list of nodes.
pub destroyed_all : Bool → List Node → List Pointer
destroyed_all dtor [] = []
destroyed_all dtor (n ∷ ns) = destroyed_by dtor (some n.value) ++ destroyed_all dtor ns

destroyed_all-append :
    (dtor : Bool) (a b : List Node)
    → destroyed_all dtor (a ++ b) ≡ destroyed_all dtor a ++ destroyed_all dtor b
unfolding destroyed_all
destroyed_all-append dtor [] b = refl
destroyed_all-append dtor (n ∷ a) b = rw (destroyed_all-append dtor a b, append_assoc)

destroy_chain-all :
    (c : List Node) (ht : HashTable)
    → destroy_chain c ht ≡ record ht { destroyed = ht.destroyed ++ destroyed_all ht.dtor c }
unfolding destroy_chain destroyed_all
destroy_chain-all [] ht = rw append-nil
destroy_chain-all (n ∷ c) ht =
    rw (call_dtor-is ht n.value) (rw (destroy_chain-all c) (rw append_assoc))

destroy_slots-all :
    (slots : List (List Node)) (ht : HashTable)
    → destroy_slots slots ht
      ≡ record ht { destroyed = ht.destroyed ++ destroyed_all ht.dtor (flatten slots) }
unfolding destroy_slots destroyed_all flatten
destroy_slots-all [] ht = rw append-nil
destroy_slots-all (c ∷ slots) ht =
    rw (destroy_chain-all c ht)
      (rw (destroy_slots-all slots) (rw (destroyed_all-append, append_assoc)))

-- On a well-formed table `ht_destroy` calls the destructor, if there is one, on the data of
-- every node, in slot order.
pub ht_destroy-all :
    (ht : HashTable) (slots : List (List Node))
    → IsValid ht slots
    → ht_destroy (some ht)
      ≡ ok (some (record ht { destroyed = ht.destroyed ++ destroyed_all ht.dtor (flatten slots) }))
unfolding ht_destroy
ht_destroy-all ht slots valid =
    let sized : (ht.size == 0) ≡ false = ground (arith, valid.in_range []) in
    rw sized (rw (valid.is_table, ◌>>=◌) (rw (destroy_slots-all slots)))
