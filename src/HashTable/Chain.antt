-- ===== src/HashTable/Chain.antt =====
-- One chain: `find_list`, an overwrite through it, and the unlinking loop of `ht_delete`.
use os_solutions.Prelude.{
  ℕ, suc, ◌+◌, ◌≡◌, refl, arith, false, none, some, List, [], ◌∷◌, if◌then◌else◌, Bool-cases, inl,
  inr, length, Bytes, same_text, same_text_iff,
}
use os_solutions.HashTable.{Node, Pointer, find_list, assign, unlink}

-- How many nodes have the key.
unfoldable pub count : Bytes → List Node → ℕ
count q [] = 0
count q (n ∷ c) = (if same_text n.key q then 1 else 0) + count q c

module _ (k q : Bytes) where
  pub find_list-assign :
      (c : List Node) (d old : Pointer)
      → find_list c k ≡ some old
      → find_list (assign c k d) q ≡ (if same_text k q then some d else find_list c q)
  unfolding find_list assign
  find_list-assign [] d old h = ground arith
  find_list-assign (n ∷ c) d old h = ground (
    arith,
    find_list-assign c d old,
    same_text_iff n.key k,
    same_text_iff n.key q,
    same_text_iff k q,
  )

  pub count-assign : (c : List Node) (d : Pointer) → count q (assign c k d) ≡ count q c
  unfolding count assign
  count-assign [] d = refl
  count-assign (n ∷ c) d = ground (arith, count-assign c d)

pub length-assign : (k : Bytes) (c : List Node) (d : Pointer) → length (assign c k d) ≡ length c
unfolding assign
length-assign k [] d = refl
length-assign k (n ∷ c) d = ground (arith, length-assign k c d)

pub find_list-count : (q : Bytes) (c : List Node) → count q c ≡ 0 → find_list c q ≡ none
unfolding count find_list
find_list-count q [] h = refl
find_list-count q (n ∷ c) h = ground (arith, find_list-count q c)

pub count-find_list : (q : Bytes) (c : List Node) → find_list c q ≡ none → count q c ≡ 0
unfolding count find_list
count-find_list q [] h = refl
count-find_list q (n ∷ c) h = ground (arith, count-find_list q c)

pub find_list-cons :
    (n : Node) (c : List Node) (q : Bytes)
    → find_list (n ∷ c) q ≡ (if same_text n.key q then some n.value else find_list c q)
unfolding find_list
find_list-cons n c q = refl

pub count-cons :
    (n : Node) (c : List Node) (q : Bytes)
    → count q (n ∷ c) ≡ (if same_text n.key q then 1 else 0) + count q c
unfolding count
count-cons n c q = refl

-- `unlink` finds what `find_list` finds.
pub unlink-none : (c : List Node) (k : Bytes) → find_list c k ≡ none → unlink c k ≡ none
unfolding find_list unlink
unlink-none [] k h = refl
unlink-none (n ∷ c) k h = ground (arith, unlink-none c k)

-- What a successful unlinking leaves.
pub record Unlinked (c : List Node) (k : Bytes) (kept : List Node) : Type 0 where
  pub shorter : suc (length kept) ≡ length c
  pub others : (q : Bytes) → same_text k q ≡ false → find_list kept q ≡ find_list c q
  pub fewer : (q : Bytes) → count q kept + (if same_text k q then 1 else 0) ≡ count q c

pub unlink-some :
    (c : List Node) (k : Bytes) (p : Pointer)
    → find_list c k ≡ some p
    → (kept : List Node) × (unlink c k ≡ some (p, kept)) × Unlinked c k kept
unfolding find_list unlink count
unlink-some [] k p h = absurd (ground arith)
unlink-some (n ∷ c) k p h = elim (Bool-cases (same_text n.key k)) [
  | inl e ↦ (
    c,
    ground arith,
    record {
      shorter = refl;
      others =
          λ q ne. ground (arith, same_text_iff n.key k, same_text_iff n.key q, same_text_iff k q);
      fewer = λ q. ground (arith, same_text_iff n.key k, same_text_iff n.key q, same_text_iff k q);
    },
  )
  | inr e ↦
      let (kept, run, u) = unlink-some c k p (ground arith) in
      (
        n ∷ kept,
        ground arith,
        record {
          shorter = omega (arith, u.shorter);
          others = λ q ne. ground (arith, u.others q);
          fewer = λ q. ground (arith, u.fewer q);
        },
      )
]
