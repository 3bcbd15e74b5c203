-- ===== src/Listeners/Removal.antt =====
-- The loop of `removeItem` takes one cell out, and `find` gives the first that is equal.
use os_solutions.Listeners.{Array, find, shift_down, remove_item}
use os_solutions.Prelude.{
  ℕ, zero, suc, ◌+◌, ◌-◌, ◌<◌, ◌≡◌, refl, ap, ◌∙◌, true, false, Option, none, some, List, [], ◌∷◌,
  ◌==◌, leb, if◌then◌else◌, get_or, set, take, length, arith, Bool-cases, inl, inr,
}

-- the items without the first that is equal, none where there is none
unfoldable pub remove_first : ℕ → List ℕ → Option (List ℕ)
remove_first pid [] = none
remove_first pid (x ∷ pids) =
    let rest = remove_first pid pids in
    if x == pid then some pids else elim rest [ none ↦ none | some others ↦ some (x ∷ others) ]

-- a cell before the loop's first stays
shift_down-cons :
    (n i x : ℕ) (items : List ℕ) → shift_down n (suc i) (x ∷ items) ≡ x ∷ shift_down n i items
unfolding shift_down
shift_down-cons zero i x items = refl
shift_down-cons (suc n) i x items =
    shift_down-cons n (suc i) x (set items i (get_or items (suc i) 0))

-- all cells behind the first move down
shift_down-front :
    (n x : ℕ) (items : List ℕ) → length items ≡ n → take n (shift_down n 0 (x ∷ items)) ≡ items
unfolding shift_down
shift_down-front zero x [] h = refl
shift_down-front zero x (y ∷ items) h = absurd (omega (arith, h))
shift_down-front (suc n) x [] h = absurd (omega (arith, h))
shift_down-front (suc n) x (y ∷ items) h =
    ap (take (suc n)) (shift_down-cons n 0 y (y ∷ items))
    ∙ ap (λ l. y ∷ l) (shift_down-front n y items (omega (arith, h)))

-- the items without the one at an index
unfoldable pub without : List ℕ → ℕ → List ℕ
without [] i = []
without (x ∷ items) zero = items
without (x ∷ items) (suc i) = x ∷ without items i

shift_down-without :
    (items : List ℕ) (i n m : ℕ)
    → length items ≡ suc m
    → m ≡ i + n
    → take m (shift_down n i items) ≡ without items i
unfolding without
shift_down-without [] i n m h k = absurd (omega (arith, h))
shift_down-without (x ∷ items) zero n m h k =
    let e : m ≡ n = omega (arith, k) in rw e (shift_down-front n x items (omega (arith, h, k)))
shift_down-without (x ∷ items) (suc i) n zero h k = absurd (omega (arith, k))
shift_down-without (x ∷ items) (suc i) n (suc m) h k =
    ap (take (suc m)) (shift_down-cons n i x items)
    ∙ ap (λ l. x ∷ l) (shift_down-without items i n m (omega (arith, h)) (omega (arith, k)))

pub remove_item-without :
    (pids : Array) (i : ℕ)
    → i < length pids.items
    → remove_item pids i ≡ (true, record pids { items = without pids.items i })
unfolding remove_item
remove_item-without pids i h =
    let inside : leb (length pids.items) i ≡ false = ground arith in
    rw inside (
      ap (λ l. (true, record pids { items = l }))
        (shift_down-without pids.items i (length pids.items - (i + 1)) (length pids.items - 1)
          (omega arith) (omega arith)))

-- what `find` gives, against the removal of the first that is equal
pub data Found (pid : ℕ) (items : List ℕ) : Type 0 where
  missing : find items pid ≡ none → remove_first pid items ≡ none → Found pid items
  found_at :
      (i : ℕ)
      → i < length items
      → find items pid ≡ some i
      → remove_first pid items ≡ some (without items i)
      → Found pid items

pub find-Found : (pid : ℕ) (items : List ℕ) → Found pid items
unfolding find remove_first without
find-Found pid [] = missing refl refl
find-Found pid (x ∷ items) = elim (Bool-cases (x == pid)) [
  | inl e ↦ found_at 0 (omega arith) (rw e refl) (rw e refl)
  | inr e ↦ elim (find-Found pid items) [
    | missing f r ↦ missing (rw (e, f) refl) (rw (e, r) refl)
    | found_at i h f r ↦ found_at (suc i) (omega arith) (rw (e, f) refl) (rw (e, r) refl)
  ]
]
