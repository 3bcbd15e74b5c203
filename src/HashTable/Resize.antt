-- ===== src/HashTable/Resize.antt =====
-- `ht_resize` carries over the first node of each chain, and only that.
use os_solutions.Prelude.{
  ℕ, ◌*◌, ◌%◌, ltb, suc, zero, ◌+◌, ◌<◌, ◌≤◌, ◌≡◌, ◌≢◌, refl, sym, ◌∙◌, ap, arith, Option, none,
  some, List, [], ◌∷◌, Bool, true, false, ◌==◌, length, get_or, replicate, length-replicate,
  get_or-replicate, size_mod, Bytes, same_text_iff, same_text_refl, ok, Returns, ◌>>=◌,
}
use mathlib.Core.List.{append-nil}
use native.Mathlib.Nat.{le_trans}
use os_solutions.HashTable.Chain.{count, count-cons, find_list-count}
use os_solutions.HashTable.Lookup.{entry, or_null, ht_get-entry}
use os_solutions.HashTable.Slots.{IsValid, home_in, total, total-replicate}
use os_solutions.HashTable.Update.{Stored, set_at-Stored}
use os_solutions.HashTable.{
  Node, Pointer, null, HashTable, find_list, node_bytes, array_bytes, clear_slots, move_heads,
  resize_by, set_at, ht_resize, ht_get,
}

-- The first node of each chain.
unfoldable pub heads : List (List Node) → List Node
heads [] = []
heads ([] ∷ slots) = heads slots
heads ((n ∷ rest) ∷ slots) = n ∷ heads slots

abbrev pub HasData : List Node → Type 0
HasData [] = Unit {0}
HasData (n ∷ ns) = (n.value ≢ null) × HasData ns

-- A table of `ht`'s shape that reads as `ht` and the nodes `ns` together.
pub record Moved (ht : HashTable) (array : List (List Node)) (ns : List Node) (after : HashTable)
    : Type 0 where
  pub slots : List (List Node)
  pub valid : IsValid after slots
  pub size_is : after.size ≡ ht.size
  pub counted : after.count ≡ ht.count + length ns
  pub destroyed_is : after.destroyed ≡ ht.destroyed
  pub reads :
      (q : Bytes)
      → entry after slots q ≡ (elim (find_list ns q) [ some p ↦ some p | none ↦ entry ht array q ])

Moved-cons :
    (ht mid after : HashTable) (array : List (List Node)) (n : Node) (ns : List Node)
    (first : Moved ht array (n ∷ []) mid)
    → count n.key ns ≡ 0
    → Moved mid first.slots ns after
    → Moved ht array (n ∷ ns) after
unfolding find_list
Moved-cons ht mid after array n ns first only rest = record {
  slots = rest.slots;
  valid = rest.valid;
  size_is = rest.size_is ∙ first.size_is;
  counted = omega (arith, rest.counted, first.counted);
  destroyed_is = rest.destroyed_is ∙ first.destroyed_is;
  reads = λ q. ground (
    arith,
    rest.reads q,
    first.reads q,
    same_text_iff n.key q,
    find_list-count q ns,
    ap (λ k. count k ns) {x = n.key} {y = q},
  );
}

module _ (alloc : ℕ → Bool) (has : alloc node_bytes ≡ true) where
  set_at-Moved :
      (fuel : ℕ) (ht : HashTable) (array : List (List Node)) (n : Node)
      → IsValid ht array
      → entry ht array n.key ≡ none
      → ht.count + 1 < size_mod
      → Returns
          (set_at alloc (suc fuel) ht n.key n.value)
          λ r. (r.1 ≡ n.value) × Moved ht array (n ∷ []) r.0
  unfolding find_list Stored
  set_at-Moved fuel ht array n valid fresh small =
      let (r, run, (is_value, counted, w)) =
        set_at-Stored ht array valid n.key alloc n.value fuel has small in
      (
        r,
        run,
        (
          is_value,
          record {
            slots = w.array;
            valid = w.valid;
            size_is = w.size_is;
            counted = counted ∙ rw fresh;
            destroyed_is = w.destroys ∙ rw fresh (append-nil ht.destroyed);
            reads = λ q. ground (arith, w.reads q);
          },
        ),
      )

  nonnull_step : (r : HashTable × Pointer) → r.1 ≢ null → (r.1 == null) ≡ false
  nonnull_step r h = ground arith

  move_heads-Moved :
      (fuel : ℕ) (old : List (List Node)) (ht : HashTable) (array : List (List Node))
      → IsValid ht array
      → HasData (heads old)
      → ((q : Bytes) → count q (heads old) ≤ 1)
      → ((q : Bytes) → 0 < count q (heads old) → entry ht array q ≡ none)
      → ht.count + length (heads old) < size_mod
      → Returns
          (move_heads alloc (λ t k d. set_at alloc (suc fuel) t k d) old ht)
          (Moved ht array (heads old))
  unfolding move_heads heads find_list
  move_heads-Moved fuel [] ht array valid filled once fresh small = (
    ht,
    refl,
    record {
      slots = array;
      valid = valid;
      size_is = refl;
      counted = omega arith;
      destroyed_is = refl;
      reads = λ q. refl;
    },
  )
  move_heads-Moved fuel ([] ∷ old) ht array valid filled once fresh small =
      move_heads-Moved fuel old ht array valid filled once fresh small
  move_heads-Moved fuel ((n ∷ rest) ∷ old) ht array valid filled once fresh small =
      let new_key : entry ht array n.key ≡ none =
        fresh n.key (rw count-cons (ground (arith, same_text_refl n.key))) in
      let (r, run, (is_value, first)) = set_at-Moved fuel ht array n valid new_key (omega arith) in
      let only : count n.key (heads old) ≡ 0 =
        ground (arith, once n.key, count-cons n (heads old) n.key, same_text_refl n.key) in
      let (after, later, moved) =
        move_heads-Moved fuel old r.0 first.slots first.valid filled.1
          (λ q. ground (arith, once q, count-cons n (heads old) q))
          (λ q h. ground (arith, once q, count-cons n (heads old) q, first.reads q, fresh q))
          (omega (arith, first.counted)) in
      (
        after,
        rw (run, ◌>>=◌) (rw (nonnull_step r (λ e. filled.0 (sym is_value ∙ e)), ◌>>=◌) later),
        Moved-cons ht r.0 after array n (heads old) first only moved,
      )

-- The heads of the chains of a well-formed table have distinct keys.
count-heads-zero :
    (q : Bytes) (slots : List (List Node))
    → ((i : ℕ) → count q (get_or slots i []) ≡ 0)
    → count q (heads slots) ≡ 0
unfolding heads
count-heads-zero q [] h = unfold count in refl
count-heads-zero q ([] ∷ slots) h = count-heads-zero q slots (λ i. h (suc i))
count-heads-zero q ((n ∷ rest) ∷ slots) h =
    rw count-cons
      (omega (arith, h 0, count-cons n rest q, count-heads-zero q slots (λ i. h (suc i))))

count-heads-le :
    (q : Bytes) (slots : List (List Node)) (j : ℕ)
    → ((i : ℕ) → j ≢ i → count q (get_or slots i []) ≡ 0)
    → count q (heads slots) ≤ count q (get_or slots j [])
unfolding heads
count-heads-le q [] j h = omega arith
count-heads-le q ([] ∷ slots) zero h =
    rw (count-heads-zero q slots (λ i. h (suc i) (omega arith))) (omega arith)
count-heads-le q ((n ∷ rest) ∷ slots) zero h =
    rw (count-cons n (heads slots) q, count-cons n rest q)
      (omega (arith, count-heads-zero q slots (λ i. h (suc i) (omega arith))))
count-heads-le q ([] ∷ slots) (suc j) h = count-heads-le q slots j (λ i ne. h (suc i) (omega arith))
count-heads-le q ((n ∷ rest) ∷ slots) (suc j) h = rw count-cons (
    omega (
      arith,
      h 0 (omega arith),
      count-cons n rest q,
      count-heads-le q slots j (λ i ne. h (suc i) (omega arith)),
    ))

length-heads : (slots : List (List Node)) → length (heads slots) ≤ total slots
unfolding heads total
length-heads [] = omega arith
length-heads ([] ∷ slots) = omega (arith, length-heads slots)
length-heads ((n ∷ rest) ∷ slots) = omega (arith, length-heads slots)

pub fresh-IsValid :
    (ht : HashTable) (n : ℕ)
    → ((q : Bytes) → ht.hashfunc q n < n)
    → IsValid (record ht { count = 0; size = n; table = some (replicate n []) }) (replicate n [])
fresh-IsValid ht n range = record {
  is_table = refl;
  width = length-replicate n [];
  in_range = range;
  counted = sym (total-replicate n);
  placed = λ q i.
      rw (get_or-replicate {A = List Node} n i []) (unfold count in (omega arith, λ ne. refl));
}

pub fresh-entry :
    (ht : HashTable) (n : ℕ) (q : Bytes)
    → find_list (get_or (replicate n []) (ht.hashfunc q n) []) q ≡ none
unfolding find_list
fresh-entry ht n q = rw (get_or-replicate {A = List Node} n (ht.hashfunc q n) [])

-- the array is all inside its block where the product does not wrap around
pub clear_slots-small :
    (n : ℕ) → 8 * n < size_mod → clear_slots (array_bytes n) n ≡ ok (replicate n [])
unfolding clear_slots
clear_slots-small n h =
    let whole : 8 * n % size_mod ≡ 8 * n = omega (arith, h) in
    let inside : ltb (8 * n % size_mod) (8 * n) ≡ false = ground (arith, whole) in rw inside refl

ht_resize-run :
    (alloc : ℕ → Bool) (fuel : ℕ) (ht : HashTable) (slots : List (List Node)) (n : ℕ)
    (after : HashTable)
    → ht.table ≡ some slots
    → (n == 0) ≡ false
    → 8 * n < size_mod
    → alloc (array_bytes n) ≡ true
    → move_heads alloc
        (λ t k d. set_at alloc fuel t k d)
        slots
        (record ht { count = 0; size = n; table = some (replicate n []) })
      ≡ ok after
    → ht_resize alloc fuel (some ht) n ≡ ok (some after, 1)
unfolding ht_resize resize_by
ht_resize-run alloc fuel ht slots n after is_table sized fits has run =
    rw sized (rw has (rw (clear_slots-small n fits, ◌>>=◌) (rw is_table (rw (run, ◌>>=◌)))))

or_else_none : (o v : Option Pointer) → v ≡ none → (elim o [ some p ↦ some p | none ↦ v ]) ≡ o
or_else_none none v h = h
or_else_none (some p) v h = refl

-- On a well-formed table with no null data in the first nodes of its chains, a hash function
-- that stays inside the new size, an array whose bytes fit a `size_t`, memory for it and the
-- nodes, and a count that fits a `size_t`, `ht_resize` answers 1 and leaves a well-formed table
-- of the new size that has the first node of each old chain and no other: every other key of the
-- old table is lost, and no data is destroyed.
pub ht_resize-heads :
    (alloc : ℕ → Bool) (fuel : ℕ) (ht : HashTable) (slots : List (List Node)) (new_size : ℕ)
    → IsValid ht slots
    → HasData (heads slots)
    → ((q : Bytes) → ht.hashfunc q new_size < new_size)
    → alloc node_bytes ≡ true
    → 8 * new_size < size_mod
    → alloc (array_bytes new_size) ≡ true
    → ht.count < size_mod
    → Returns (ht_resize alloc (suc fuel) (some ht) new_size) λ r.
      (r.1 ≡ 1)
      × (after : HashTable) × (array : List (List Node)) × (r.0 ≡ some after)
      × IsValid after array
      × (after.size ≡ new_size)
      × (after.count ≡ length (heads slots))
      × (after.destroyed ≡ ht.destroyed)
      × ((q : Bytes) → ht_get (some after) (some q) ≡ ok (or_null (find_list (heads slots) q)))
ht_resize-heads alloc fuel ht slots new_size valid filled range has fits has_array small =
    let empty = fresh-IsValid ht new_size range in
    let is_clear = fresh-entry ht new_size in
    let (after, run, moved) =
      move_heads-Moved alloc has fuel slots _ _ empty filled
        (λ q.
          le_trans (count-heads-le q slots (home_in ht q) (λ i. (valid.placed q i).1))
            (valid.placed q _).0)
        (λ q _. is_clear q) (omega (arith, length-heads slots, valid.counted)) in
    let sized : (new_size == 0) ≡ false = ground (arith, range []) in
    (
      (some after, 1),
      ht_resize-run alloc (suc fuel) ht slots new_size after valid.is_table sized fits has_array
          run,
      (
        refl,
        after,
        moved.slots,
        refl,
        moved.valid,
        moved.size_is,
        omega (arith, moved.counted),
        moved.destroyed_is,
        λ q.
            ht_get-entry after moved.slots moved.valid q
            ∙ ap (λ o. ok (or_null o))
                (moved.reads q ∙ or_else_none (find_list (heads slots) q) _ (is_clear q)),
      ),
    )
