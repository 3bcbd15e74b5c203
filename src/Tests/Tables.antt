-- ===== src/Tests/Tables.antt =====
-- Hash tables with one bucket and with three.
use os_solutions.HashTable.Chain.{count}
use os_solutions.HashTable.Delete.{ht_delete-Writes, ht_delete-absent}
use os_solutions.HashTable.Hash.{jenkins_one_at_a_time_hash-lt}
use os_solutions.HashTable.Init.{ht_init-IsValid}
use os_solutions.HashTable.Lookup.{entry, or_null}
use os_solutions.HashTable.Resize.{heads, ht_resize-heads}
use os_solutions.HashTable.Slots.{IsValid, total}
use os_solutions.HashTable.Update.{Writes, ht_set-Writes, ht_get-ht_set, ht_set_boundary}
use os_solutions.HashTable.{
  Node, HashTable, find_list, jenkins_one_at_a_time_hash, ht_init, ht_set, ht_get, ht_delete,
  ht_resize,
}
use os_solutions.Prelude.{
  ℕ, zero, suc, ◌+◌, ◌%◌, ◌<◌, ◌≤◌, ◌^◌, ◌≡◌, ◌≢◌, refl, arith, Bool, true, false, none, some, List,
  [], ◌∷◌, if◌then◌else◌, get_or, length, replicate, Bytes, codes, same_text, same_text_iff, ok,
  fault, ◌>>=◌, Returns,
}

abbrev always : ℕ → Bool
always n = true

abbrev by_length : Bytes → ℕ → ℕ
by_length key n = length key % n

abbrev node : Bytes → ℕ → Node
node k v = record { key = k; value = v }

abbrev table_of : List (List Node) → ℕ → ℕ → HashTable
table_of slots size n = record {
  size = size;
  count = n;
  table = some slots;
  hashfunc = by_length;
  dtor = true;
  destroyed = [];
}

abbrev two_slots : List (List Node)
two_slots = (node (codes "a") 7 ∷ node (codes "b") 8 ∷ []) ∷ []

abbrev two : HashTable
two = table_of two_slots 1 2

one_home : (q : Bytes) → by_length q 1 ≡ 0
one_home q = omega arith

few : (q : Bytes) → count q (get_or two_slots 0 []) ≤ 1
unfolding count
few q = ground (arith, same_text_iff (codes "a") q, same_text_iff (codes "b") q)

two-placed :
    (q : Bytes) (i : ℕ)
    → (count q (get_or two_slots i []) ≤ 1)
      × (by_length q 1 ≢ i → count q (get_or two_slots i []) ≡ 0)
two-placed q zero = (few q, λ ne. absurd (ne (one_home q)))
two-placed q (suc i) = unfold count in (omega arith, λ ne. refl)

two-IsValid : IsValid two two_slots
unfolding total
two-IsValid = record {
  is_table = refl;
  width = refl;
  in_range = λ q. omega arith;
  counted = refl;
  placed = two-placed;
}

abbrev bare : HashTable
bare = table_of ([] ∷ []) 1 0

bare-placed :
    (q : Bytes) (i : ℕ)
    → (count q (get_or ([] ∷ []) i []) ≤ 1)
      × (by_length q 1 ≢ i → count q (get_or ([] ∷ []) i []) ≡ 0)
bare-placed q zero = unfold count in (omega arith, λ ne. refl)
bare-placed q (suc i) = unfold count in (omega arith, λ ne. refl)

bare-IsValid : IsValid bare ([] ∷ [])
unfolding total
bare-IsValid = record {
  is_table = refl;
  width = refl;
  in_range = λ q. omega arith;
  counted = refl;
  placed = bare-placed;
}

entry_b : entry two two_slots (codes "b") ≡ some 8
unfolding find_list same_text
entry_b = refl

entry_c : entry two two_slots (codes "c") ≡ none
unfolding find_list same_text
entry_c = refl

no_entry : entry bare ([] ∷ []) (codes "c") ≡ none
unfolding find_list
no_entry = refl

ht_init-IsValid_example :
    (after : HashTable) × (ht_init always (some two) 3 none false ≡ ok (some after, 1))
    × IsValid after (replicate 3 [])
    × (after.count ≡ 0)
    × (after.dtor ≡ false)
    × ((q : Bytes) → entry after (replicate 3 []) q ≡ none)
ht_init-IsValid_example =
    ht_init-IsValid always two 3 none false (omega arith) (omega arith) refl (λ f e. cc)

ht_set-Writes_example : Returns (ht_set always 1 (some two) (some (codes "b")) 9) λ r.
    (r.1 ≡ 9)
    × (after : HashTable) × (r.0 ≡ some after)
    × (after.count ≡ 2 + (elim (entry two two_slots (codes "b")) [ none ↦ 1 | some _ ↦ 0 ]))
    × Writes two two_slots (codes "b") (some 9) after
ht_set-Writes_example =
    ht_set-Writes two two_slots two-IsValid (codes "b") always 9 0 refl (omega arith)

ht_get-ht_set_example :
    ht_set always 1 (some two) (some (codes "c")) 9 >>= (λ r. ht_get r.0 (some (codes "a")))
    ≡ (if same_text (codes "c") (codes "a") then ok 9 else ht_get (some two) (some (codes "a")))
ht_get-ht_set_example =
    ht_get-ht_set two two_slots two-IsValid (codes "c") always 9 0 (codes "a") refl (omega arith)

-- A hash function that answers the size.
abbrev off_by_one : HashTable
off_by_one = record two { hashfunc = λ key n. n }

ht_set-off_by_one : ht_set always 1 (some off_by_one) (some (codes "c")) 9 ≡ fault
ht_set-off_by_one = ht_set_boundary always 0 off_by_one two_slots (codes "c") 9 refl refl refl

ht_delete-Writes_example : Returns (ht_delete (some two) (some (codes "b"))) λ o.
    (after : HashTable) × (o ≡ some after)
    × (after.count + 1 ≡ 2)
    × Writes two two_slots (codes "b") none after
ht_delete-Writes_example = ht_delete-Writes two two_slots two-IsValid (codes "b") 8 entry_b

ht_delete-absent_example :
    ht_delete (some bare) (some (codes "c"))
    ≡ (elim (get_or {A = List Node} ([] ∷ []) 0 []) [ [] ↦ fault | _ ∷ _ ↦ ok (some bare) ])
ht_delete-absent_example = ht_delete-absent bare ([] ∷ []) bare-IsValid (codes "c") no_entry

heads-count : (q : Bytes) → by_length q 3 < 3
heads-count q = omega arith

ht_resize-heads_example : Returns (ht_resize always 1 (some two) 3) λ r.
    (r.1 ≡ 1)
    × (after : HashTable) × (array : List (List Node)) × (r.0 ≡ some after)
    × IsValid after array
    × (after.size ≡ 3)
    × (after.count ≡ length (heads two_slots))
    × (after.destroyed ≡ [])
    × ((q : Bytes) → ht_get (some after) (some q) ≡ ok (or_null (find_list (heads two_slots) q)))
ht_resize-heads_example =
    ht_resize-heads always 0 two two_slots 3 two-IsValid (unfold heads in omega arith) heads-count
      refl (omega arith) refl (omega arith)

jenkins_one_at_a_time_hash-url : jenkins_one_at_a_time_hash (codes "http://a/") 1024 < 1024
jenkins_one_at_a_time_hash-url =
    jenkins_one_at_a_time_hash-lt (codes "http://a/") 1024 (omega arith)

-- The reference value of the one-at-a-time hash of "a".
jenkins_a : jenkins_one_at_a_time_hash (codes "a") (2 ^ 32) ≡ 0xca2e9442
unfolding jenkins_one_at_a_time_hash
jenkins_a = refl
