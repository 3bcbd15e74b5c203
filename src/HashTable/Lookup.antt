-- ===== src/HashTable/Lookup.antt =====
-- What `ht_get`, `ht_has` and `ht_has_strict` answer on a well-formed table.
use os_solutions.Prelude.{
  ℕ, ◌<◌, ◌≡◌, ◌≢◌, ap, arith, Option, none, some, List, [], false, leb, if◌then◌else◌,
  Option-cases, Bool-cases, inl, inr, length, get_or, set, get_or-set_self, get_or-set_ne, Bytes,
  same_text, same_text_iff, ok, ◌>>=◌,
}
use native.Mathlib.Decide.{ℕ_discrete}
use os_solutions.HashTable.Slots.{IsValid, home_in, bucket-IsValid}
use os_solutions.HashTable.{Node, Pointer, null, HashTable, find_list, bucket, ht_get}

-- The entry of a key: the data of its node, if it has one.
abbrev pub entry : HashTable → List (List Node) → Bytes → Option Pointer
entry ht slots q = find_list (get_or slots (home_in ht q) []) q

abbrev pub or_null : Option Pointer → Pointer
or_null none = null
or_null (some p) = p

le-leb : (a b : ℕ) → a < b → leb b a ≡ false
le-leb a b h = ground arith

module _ (ht : HashTable) (slots : List (List Node)) (valid : IsValid ht slots) (q : Bytes) where
  pub home-lt : home_in ht q < length slots
  home-lt = rw valid.width (valid.in_range q)

  pub home_bucket : bucket ht (home_in ht q) ≡ ok (get_or slots (home_in ht q) [])
  home_bucket = bucket-IsValid ht slots (home_in ht q) valid.is_table home-lt

  pub home_test : leb ht.size (home_in ht q) ≡ false
  home_test = le-leb (home_in ht q) ht.size (valid.in_range q)

  pub ht_get-entry : ht_get (some ht) (some q) ≡ ok (or_null (entry ht slots q))
  unfolding ht_get
  ht_get-entry = rw (home_test) (
      rw (home_bucket, ◌>>=◌)
        (elim (Option-cases (entry ht slots q)) [ inl e ↦ rw e | inr (p, e) ↦ rw e ]))

-- Where only the chain at the home slot of `k` was written, other slots read as before.
pub entry-rewritten :
    (ht : HashTable) (slots : List (List Node))
    → IsValid ht slots
    → (k q : Bytes) (c : List Node) (v : Option Pointer)
    → ((r : Bytes)
        → find_list c r
          ≡ (if same_text k r then v else find_list (get_or slots (home_in ht k) []) r))
    → find_list (get_or (set slots (home_in ht k) c) (home_in ht q) []) q
      ≡ (if same_text k q then v else entry ht slots q)
entry-rewritten ht slots valid k q c v reads = elim (ℕ_discrete (home_in ht k) (home_in ht q)) [
  | yes e ↦
      rw (← e) (rw (get_or-set_self slots (home_in ht k) c [] (home-lt ht slots valid k)) (reads q))
  | no ne ↦ rw (get_or-set_ne slots (home_in ht k) (home_in ht q) c [] ne) (rw (other ne))
]
  where
    other : home_in ht k ≢ home_in ht q → same_text k q ≡ false
    other ne = elim (Bool-cases (same_text k q)) [
      | inl e ↦ absurd (ne (ap (home_in ht) ((same_text_iff k q).0 e)))
      | inr e ↦ e
    ]
