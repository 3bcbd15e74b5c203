-- ===== src/HashTable/Delete.antt =====
-- `ht_delete`: the three things that can happen in the home bucket of the key.
use os_solutions.Prelude.{
  ◌+◌, ◌-◌, ◌≤◌, ◌≡◌, refl, arith, none, some, List, [], ◌∷◌, ◌++◌, true, ltb, length, get_or,
  Bytes, ok, fault, Returns, ◌>>=◌, lt→ltb,
}
use os_solutions.HashTable.Chain.{find_list-count, unlink-none, unlink-some}
use os_solutions.HashTable.Lookup.{entry, home_bucket, home_test, home-lt}
use os_solutions.HashTable.Slots.{IsValid, home_in, rewritten, total-set}
use os_solutions.HashTable.Update.{Writes, rewritten-Writes, call_dtor-is, destroyed_by}
use os_solutions.HashTable.{Node, Pointer, HashTable, unlink, delete_from, write_bucket, ht_delete}

module _ (ht : HashTable) (slots : List (List Node)) (valid : IsValid ht slots) (k : Bytes) where
  delete_from-some :
      (c : List Node) (p : Pointer) (kept : List Node)
      → unlink c k ≡ some (p, kept)
      → ltb 0 ht.count ≡ true
      → delete_from ht (home_in ht k) c k
        ≡ ok (
            some (
              rewritten ht slots
                (home_in ht k)
                kept
                (ht.count - 1)
                (ht.destroyed ++ destroyed_by ht.dtor (some p))))
  unfolding delete_from write_bucket
  delete_from-some [] p kept run filled = absurd (unfold unlink in ground arith)
  delete_from-some (n ∷ c) p kept run filled =
      rw (run, delete_from) (rw (call_dtor-is ht p) (rw (valid.is_table, filled)))

  -- A key of a well-formed table is deleted: its data is destroyed if there is a destructor, the
  -- count falls by one, and the table stays well formed, has no data at the key and reads as
  -- before at every other key.
  pub ht_delete-Writes :
      (p : Pointer)
      → entry ht slots k ≡ some p
      → Returns (ht_delete (some ht) (some k)) λ o.
        (after : HashTable) × (o ≡ some after)
        × (after.count + 1 ≡ ht.count)
        × Writes ht slots k none after
  unfolding ht_delete
  ht_delete-Writes p e =
      let c = get_or slots (home_in ht k) [] in
      let (kept, run, u) = unlink-some c k p e in
      let ds = ht.destroyed ++ destroyed_by ht.dtor (some p) in
      let some_here : length c ≤ ht.count =
        omega
          (arith, valid.counted, total-set slots (home_in ht k) [] (home-lt ht slots valid k)) in
      let filled : ltb 0 ht.count ≡ true = lt→ltb 0 ht.count (omega (arith, u.shorter)) in
      (
        some (rewritten ht slots (home_in ht k) kept (ht.count - 1) ds),
        rw (home_test ht slots valid k)
            (rw (home_bucket ht slots valid k, ◌>>=◌) (delete_from-some c p kept run filled)),
        (
          rewritten ht slots (home_in ht k) kept (ht.count - 1) ds,
          refl,
          omega (arith, u.shorter),
          rewritten-Writes ht slots valid k none kept (ht.count - 1) ds (omega (arith, u.shorter))
              (λ q. (
                omega (arith, u.fewer q, (valid.placed q (home_in ht k)).0),
                λ ne. omega (arith, u.fewer q, (valid.placed q (home_in ht k)).1 ne),
              ))
              (λ r. ground (
                arith,
                u.others r,
                u.fewer r,
                valid.placed r (home_in ht k),
                find_list-count r kept,
              ))
              (rw e),
        ),
      )

  delete_from-none :
      (c : List Node)
      → unlink c k ≡ none
      → delete_from ht (home_in ht k) c k ≡ (elim c [ [] ↦ fault | _ ∷ _ ↦ ok (some ht) ])
  unfolding delete_from
  delete_from-none [] e = refl
  delete_from-none (n ∷ c) e = rw (e, delete_from)

  -- On a well-formed table that lacks the key, `ht_delete` dereferences NULL exactly when the
  -- bucket of the key is empty; where another key shares the bucket the table is unchanged.
  pub ht_delete-absent :
      entry ht slots k ≡ none
      → ht_delete (some ht) (some k)
        ≡ (elim (get_or slots (home_in ht k) []) [ [] ↦ fault | _ ∷ _ ↦ ok (some ht) ])
  unfolding ht_delete
  ht_delete-absent e = rw (home_test ht slots valid k) (
      rw (home_bucket ht slots valid k, ◌>>=◌)
        (delete_from-none (get_or slots (home_in ht k) []) (unlink-none _ k e)))
