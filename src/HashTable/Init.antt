-- ===== src/HashTable/Init.antt =====
-- A table that `ht_init` has set up.
use os_solutions.HashTable.Hash.{jenkins_one_at_a_time_hash-lt}
use os_solutions.HashTable.Lookup.{entry}
use os_solutions.HashTable.Resize.{clear_slots-small, fresh-IsValid, fresh-entry}
use os_solutions.HashTable.Slots.{IsValid}
use os_solutions.HashTable.{HashTable, array_bytes, ht_init, jenkins_one_at_a_time_hash}
use os_solutions.Prelude.{
  ℕ, ◌*◌, ◌<◌, ◌≡◌, size_mod, ok, ◌>>=◌, refl, arith, Bool, true, false, Option, none, some, [],
  replicate, ◌==◌, Bytes,
}

-- The hash function that `ht_init` installs.
abbrev pub chosen_hash : Option (Bytes → ℕ → ℕ) → Bytes → ℕ → ℕ
chosen_hash none = jenkins_one_at_a_time_hash
chosen_hash (some f) = f

sized : (n : ℕ) → 0 < n → (n == 0) ≡ false
sized n h = ground arith

-- With a positive size, an array whose bytes fit a `size_t`, memory for it and a hash function
-- that stays inside it, as the default one does, `ht_init` answers 1 and leaves a well-formed
-- table that holds no key.
pub ht_init-IsValid :
    (alloc : ℕ → Bool) (ht : HashTable) (size : ℕ) (hf : Option (Bytes → ℕ → ℕ)) (dtor : Bool)
    → 0 < size
    → 8 * size < size_mod
    → alloc (array_bytes size) ≡ true
    → ((f : Bytes → ℕ → ℕ) → hf ≡ some f → (q : Bytes) → f q size < size)
    → (after : HashTable) × (ht_init alloc (some ht) size hf dtor ≡ ok (some after, 1))
      × IsValid after (replicate size [])
      × (after.count ≡ 0)
      × (after.dtor ≡ dtor)
      × ((q : Bytes) → entry after (replicate size []) q ≡ none)
unfolding ht_init
ht_init-IsValid alloc ht size none dtor pos small has range =
    let start = record ht { size = size; dtor = dtor; hashfunc = jenkins_one_at_a_time_hash } in
    (
      record start { table = some (replicate size []); count = 0 },
      rw (sized size pos) (rw has (rw (clear_slots-small size small, ◌>>=◌) refl)),
      fresh-IsValid start size (λ q. jenkins_one_at_a_time_hash-lt q size pos),
      refl,
      refl,
      fresh-entry start size,
    )
ht_init-IsValid alloc ht size (some f) dtor pos small has range =
    let start = record ht { size = size; dtor = dtor; hashfunc = f } in
    (
      record start { table = some (replicate size []); count = 0 },
      rw (sized size pos) (rw has (rw (clear_slots-small size small, ◌>>=◌) refl)),
      fresh-IsValid start size (range f refl),
      refl,
      refl,
      fresh-entry start size,
    )
