-- ===== src/HashTable/Slots.antt =====
-- The well-formed tables, and what one bucket of such a table holds.
use os_solutions.Prelude.{
  ℕ, zero, suc, ◌+◌, ◌<◌, ◌≤◌, ◌≡◌, ◌≢◌, refl, arith, some, List, [], ◌∷◌, length, length-set,
  get_elem?-get_or, get_or, get_or-set_self, get_or-set_ne, set, replicate, Bytes, ok, ◌>>=◌,
}
use native.Mathlib.Decide.{ℕ_discrete}
use os_solutions.HashTable.Chain.{count}
use os_solutions.HashTable.{Node, HashTable, bucket}

-- How many nodes hang from the slots.
unfoldable pub total : List (List Node) → ℕ
total [] = 0
total (c ∷ slots) = length c + total slots

-- Each key stands at most once, and only in its home slot.
abbrev pub IsPlaced : (Bytes → ℕ) → List (List Node) → Type 0
IsPlaced home slots =
    (q : Bytes) (i : ℕ)
    → (count q (get_or slots i []) ≤ 1) × (home q ≢ i → count q (get_or slots i []) ≡ 0)

abbrev pub home_in : HashTable → Bytes → ℕ
home_in ht q = ht.hashfunc q ht.size

-- A table whose array is there, whose hash function stays inside it, whose count is right, and
-- whose keys are in place. `slots` is the array.
pub record IsValid (ht : HashTable) (slots : List (List Node)) : Type 0 where
  pub is_table : ht.table ≡ some slots
  pub width : length slots ≡ ht.size
  pub in_range : (q : Bytes) → home_in ht q < ht.size
  pub counted : ht.count ≡ total slots
  pub placed : IsPlaced (home_in ht) slots

pub bucket-IsValid :
    (ht : HashTable) (slots : List (List Node)) (index : ℕ)
    → ht.table ≡ some slots
    → index < length slots
    → bucket ht index ≡ ok (get_or slots index [])
unfolding bucket
bucket-IsValid ht slots index t h = rw (t, ◌>>=◌) (rw (get_elem?-get_or slots index [] h))

pub total-set :
    (slots : List (List Node)) (i : ℕ) (c : List Node)
    → i < length slots
    → total (set slots i c) + length (get_or slots i []) ≡ total slots + length c
unfolding total
total-set [] i c h = elim h [ ]
total-set (x ∷ slots) zero c h = omega arith
total-set (x ∷ slots) (suc i) c h = omega (arith, total-set slots i c (omega arith))

pub total-replicate : (n : ℕ) → total (replicate n []) ≡ 0
unfolding total
total-replicate zero = refl
total-replicate (suc n) = omega (arith, total-replicate n)

-- The same table with another chain in the home slot of `k`, and another count.
abbrev pub rewritten : HashTable → List (List Node) → ℕ → List Node → ℕ → List ℕ → HashTable
rewritten ht slots i c n ds = record ht { table = some (set slots i c); count = n; destroyed = ds }

module _ (ht : HashTable) (slots : List (List Node)) (valid : IsValid ht slots) (k : Bytes) where
  pub rewritten-IsValid :
      (c : List Node) (n : ℕ) (ds : List ℕ)
      → n + length (get_or slots (home_in ht k) []) ≡ ht.count + length c
      → ((q : Bytes) → (count q c ≤ 1) × (home_in ht q ≢ home_in ht k → count q c ≡ 0))
      → IsValid (rewritten ht slots (home_in ht k) c n ds) (set slots (home_in ht k) c)
  rewritten-IsValid c n ds size few = record {
    is_table = refl;
    width = rw length-set valid.width;
    in_range = valid.in_range;
    counted =
        omega
          (arith, valid.counted, valid.width, valid.in_range k, total-set slots (home_in ht k) c);
    placed = λ q i. at_slot q i (ℕ_discrete (home_in ht k) i);
  }
    where
      at_slot :
          (q : Bytes) (i : ℕ)
          → Dec (home_in ht k ≡ i)
          → (count q (get_or (set slots (home_in ht k) c) i []) ≤ 1)
            × (home_in ht q ≢ i → count q (get_or (set slots (home_in ht k) c) i []) ≡ 0)
      at_slot q i (yes e) = rw (← e) (
          rw (get_or-set_self slots (home_in ht k) c [] (rw valid.width (valid.in_range k)))
            (few q))
      at_slot q i (no ne) = rw (get_or-set_ne slots (home_in ht k) i c [] ne) (valid.placed q i)
