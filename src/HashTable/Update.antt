-- ===== src/HashTable/Update.antt =====
-- `ht_set` on a well-formed table refines the update of a finite map, and keeps the table so.
use os_solutions.Prelude.{
  ℕ, suc, ◌+◌, ◌<◌, ◌≤◌, ◌≡◌, ◌≢◌, refl, ap, arith, Option, none, some, List, [], ◌∷◌, ◌++◌, Bool,
  true, false, ltb, if◌then◌else◌, Option-cases, Bool-cases, inl, inr, length, get_or, set,
  size_mod, Bytes, same_text, same_text_iff, ok, fault, get_elem?_past, Returns, ◌>>=◌,
}
use mathlib.Core.List.{append-nil}
use native.Mathlib.Nat.{mod-eq_of_lt}
use os_solutions.HashTable.Chain.{
  count, find_list-assign, count-assign, length-assign, count-find_list, count-cons, find_list-cons,
}
use os_solutions.HashTable.Lookup.{entry, home_bucket, entry-rewritten, ht_get-entry}
use os_solutions.HashTable.Slots.{IsValid, home_in, rewritten, rewritten-IsValid}
use os_solutions.HashTable.{
  Node, Pointer, HashTable, find_list, assign, call_dtor, write_bucket, node_bytes, store, bucket,
  set_at, ht_set, ht_get,
}

-- What `dtor` is called with when the entry goes away.
abbrev pub destroyed_by : Bool → Option Pointer → List Pointer
destroyed_by dtor none = []
destroyed_by dtor (some p) = if dtor then p ∷ [] else []

-- A table that reads as `ht` does but for `v` at `k`, with the old entry destroyed.
pub record Writes (ht : HashTable) (slots : List (List Node)) (k : Bytes) (v : Option Pointer)
    (after : HashTable) : Type 0 where
  pub array : List (List Node)
  pub valid : IsValid after array
  pub size_is : after.size ≡ ht.size
  pub destroys : after.destroyed ≡ ht.destroyed ++ destroyed_by ht.dtor (entry ht slots k)
  pub reads : (q : Bytes) → entry after array q ≡ (if same_text k q then v else entry ht slots q)

ltb_irrefl : (a : ℕ) → ltb a a ≡ false
ltb_irrefl a = ground arith

lt-ltb : (a b : ℕ) → a < b → ltb b a ≡ false
lt-ltb a b h = ground arith

pub call_dtor-is :
    (ht : HashTable) (p : Pointer)
    → call_dtor ht p ≡ record ht { destroyed = ht.destroyed ++ destroyed_by ht.dtor (some p) }
unfolding call_dtor
call_dtor-is ht p = elim (Bool-cases ht.dtor) [ inl e ↦ rw e | inr e ↦ rw (e, append-nil) ]

module _ (ht : HashTable) (slots : List (List Node)) (valid : IsValid ht slots) (k : Bytes) where
  pub write_bucket-is :
      (ds : List Pointer) (c : List Node)
      → write_bucket (record ht { destroyed = ds }) (home_in ht k) c
        ≡ rewritten ht slots (home_in ht k) c ht.count ds
  unfolding write_bucket
  write_bucket-is ds c = rw valid.is_table

  pub rewritten-Writes :
      (v : Option Pointer) (c : List Node) (n : ℕ) (ds : List Pointer)
      → n + length (get_or slots (home_in ht k) []) ≡ ht.count + length c
      → ((q : Bytes) → (count q c ≤ 1) × (home_in ht q ≢ home_in ht k → count q c ≡ 0))
      → ((r : Bytes)
          → find_list c r
            ≡ (if same_text k r then v else find_list (get_or slots (home_in ht k) []) r))
      → ds ≡ ht.destroyed ++ destroyed_by ht.dtor (entry ht slots k)
      → Writes ht slots k v (rewritten ht slots (home_in ht k) c n ds)
  rewritten-Writes v c n ds size few reads gone = record {
    array = set slots (home_in ht k) c;
    valid = rewritten-IsValid ht slots valid k c n ds size few;
    size_is = refl;
    destroys = gone;
    reads = λ q. entry-rewritten ht slots valid k q c v reads;
  }

  module _ (alloc : ℕ → Bool) (d : Pointer) where
    unfoldable pub Stored : Option Pointer → HashTable × Pointer → Type 0
    Stored old r =
        (r.1 ≡ d)
        × (r.0.count ≡ ht.count + (elim old [ none ↦ 1 | some _ ↦ 0 ]))
        × Writes ht slots k (some d) r.0

    store-overwrite :
        (old : Pointer)
        → entry ht slots k ≡ some old
        → Returns
            (store alloc ht (home_in ht k) (get_or slots (home_in ht k) []) k d)
            (Stored (some old))
    unfolding store Stored
    store-overwrite old e =
        let c = get_or slots (home_in ht k) [] in
        let ds = ht.destroyed ++ destroyed_by ht.dtor (some old) in
        (
          (rewritten ht slots (home_in ht k) (assign c k d) ht.count ds, d),
          rw (e, store) (rw (call_dtor-is ht old) (rw (write_bucket-is ds (assign c k d)))),
          (
            refl,
            omega arith,
            rewritten-Writes (some d) (assign c k d) ht.count ds (rw (length-assign k c d))
                (λ q. rw (count-assign k q c d) (valid.placed q (home_in ht k)))
                (λ r. find_list-assign k r c d old e) (rw e),
          ),
        )

    store-fresh :
        entry ht slots k ≡ none
        → alloc node_bytes ≡ true
        → ht.count + 1 < size_mod
        → Returns (store alloc ht (home_in ht k) (get_or slots (home_in ht k) []) k d) (Stored none)
    unfolding store Stored
    store-fresh e a small =
        let c = get_or slots (home_in ht k) [] in
        let n : Node = record { key = k; value = d } in
        (
          (rewritten ht slots (home_in ht k) (n ∷ c) (ht.count + 1) ht.destroyed, d),
          rw (e, store) (rw a (rw valid.is_table (rw (mod-eq_of_lt small)))),
          (
            refl,
            refl,
            rewritten-Writes (some d) (n ∷ c) (ht.count + 1) ht.destroyed (omega arith)
                (λ q. rw (count-cons n c q) (
                  ground (
                    arith,
                    valid.placed q (home_in ht k),
                    same_text_iff k q,
                    ap (home_in ht) {x = k} {y = q},
                    count-find_list k c e,
                  )))
                (λ r. find_list-cons n c r) (rw (e, append-nil)),
          ),
        )

    pub set_at-Stored :
        (fuel : ℕ)
        → alloc node_bytes ≡ true
        → ht.count + 1 < size_mod
        → Returns (set_at alloc (suc fuel) ht k d) (Stored (entry ht slots k))
    unfolding set_at
    set_at-Stored fuel a small = rw (lt-ltb _ _ (valid.in_range k)) (
        rw (home_bucket ht slots valid k, ◌>>=◌)
          (elim (Option-cases (entry ht slots k)) [
            | inl e ↦ rw e (store-fresh e a small)
            | inr (old, e) ↦ rw e (store-overwrite old e)
          ]))

    -- On a well-formed table, with memory for a node and the count below the largest `size_t`,
    -- `ht_set` returns its data, counts the key if it is new, destroys the data that it
    -- overwrites if there is a destructor, and leaves a well-formed table that has the data at
    -- the key and reads as before at every other key.
    pub ht_set-Writes :
        (fuel : ℕ)
        → alloc node_bytes ≡ true
        → ht.count + 1 < size_mod
        → Returns (ht_set alloc (suc fuel) (some ht) (some k) d) λ r.
          (r.1 ≡ d)
          × (after : HashTable) × (r.0 ≡ some after)
          × (after.count ≡ ht.count + (elim (entry ht slots k) [ none ↦ 1 | some _ ↦ 0 ]))
          × Writes ht slots k (some d) after
    unfolding ht_set Stored
    ht_set-Writes fuel a small =
        let (r, run, stored) = set_at-Stored fuel a small in
        ((some r.0, r.1), rw run, (stored.0, r.0, refl, stored.1, stored.2))

    -- On a well-formed table, with memory for a node and the count below the largest `size_t`, a
    -- `ht_get` behind a `ht_set` sees the new data at the key that was set and what the old
    -- table had at every other key.
    pub ht_get-ht_set :
        (fuel : ℕ) (q : Bytes)
        → alloc node_bytes ≡ true
        → ht.count + 1 < size_mod
        → ht_set alloc (suc fuel) (some ht) (some k) d >>= (λ r. ht_get r.0 (some q))
          ≡ (if same_text k q then ok d else ht_get (some ht) (some q))
    ht_get-ht_set fuel q a small =
        let (r, run, (is_d, after, is_after, counted, w)) = ht_set-Writes fuel a small in
        rw (run, ◌>>=◌)
          (rw is_after (
            rw (ht_get-entry after w.array w.valid q) (
              rw (w.reads q, ht_get-entry ht slots valid q)
                (elim (Bool-cases (same_text k q)) [ inl e ↦ rw e | inr e ↦ rw e ]))))

-- Where a hash function answers the size itself, the growth test of `ht_set` lets the index
-- through and the slot past the array is read, which is a fault.
pub ht_set_boundary :
    (alloc : ℕ → Bool) (fuel : ℕ) (ht : HashTable) (slots : List (List Node)) (k : Bytes)
    (d : Pointer)
    → ht.table ≡ some slots
    → length slots ≡ ht.size
    → home_in ht k ≡ ht.size
    → ht_set alloc (suc fuel) (some ht) (some k) d ≡ fault
unfolding ht_set set_at bucket
ht_set_boundary alloc fuel ht slots k d t w e =
    rw e (rw (ltb_irrefl ht.size) (rw (t, ◌>>=◌) (rw (get_elem?_past slots ht.size (omega arith)))))
