-- ===== src/Listeners/Registration.antt =====
-- The array of the listeners, while it does not grow.
use os_solutions.Listeners.{Array, push_back, find, add_listeners, del_listeners, upd_listeners}
use os_solutions.Listeners.Removal.{
  remove_first, without, remove_item-without, missing, found_at, find-Found,
}
use mathlib.Core.List.{append_assoc, append-nil}
use os_solutions.Prelude.{
  ℕ, zero, suc, ◌+◌, ◌*◌, ◌≤◌, ◌<◌, ◌≡◌, refl, sym, ap, ◌∙◌, true, false, none, some, List, [], ◌∷◌,
  ◌++◌, ltb, leb, length, length-append, Returns, Bool, ◌⊎◌, fault, arith, Bool-cases, ltb→lt, inl,
  inr,
}
use os_solutions.Listeners.Posting.{leave}

-- the array is not over its size, and its block holds as many
pub record Fits (pids : Array) : Type 0 where
  pub is_within : length pids.items ≤ pids.size
  pub is_large : 4 * pids.size ≤ pids.space

-- Growth writes behind the block; nothing else does.
push_back-Fits :
    (alloc : ℕ → Bool) (pids : Array) (pid : ℕ)
    → ((n : ℕ) → alloc n ≡ true)
    → Fits pids
    → Returns (push_back alloc pids pid) (λ q.
      (q.0 ≡ true) × (q.1.items ≡ pids.items ++ pid ∷ []) × (q.1.size ≡ pids.size) × Fits q.1)
      ⊎ ((push_back alloc pids pid ≡ fault) × (pids.size < length pids.items + 1))
unfolding push_back
push_back-Fits alloc pids pid given h = elim (Bool-cases (ltb (length pids.items) pids.size)) [
  | inl e ↦
      let less : length pids.items < pids.size = ltb→lt (length pids.items) pids.size e in
      let room : leb (4 * (length pids.items + 1)) pids.space ≡ true =
        ground (arith, h.is_large, less) in
      inl (
        (true, record pids { items = pids.items ++ pid ∷ [] }),
        rw (e, room) refl,
        (
          refl,
          refl,
          refl,
          record {
            is_within = omega (arith, length-append pids.items (pid ∷ []), less);
            is_large = h.is_large;
          },
        ),
      )
  | inr e ↦
      let full : length pids.items ≡ pids.size = ground (arith, h.is_within) in
      let small : leb (4 * (length pids.items + 1)) (pids.size + 2) ≡ false =
        ground (arith, full) in
      inr (rw (e, given (pids.size + 2), small) refl, omega (arith, full))
]

add_listeners-Fits :
    (alloc : ℕ → Bool) (regs : List ℕ) (pids : Array)
    → ((n : ℕ) → alloc n ≡ true)
    → Fits pids
    → Returns
        (add_listeners alloc regs pids)
        (λ q. (q.0 ≡ true) × (q.1.items ≡ pids.items ++ regs) × (q.1.size ≡ pids.size) × Fits q.1)
      ⊎ ((add_listeners alloc regs pids ≡ fault) × (pids.size < length pids.items + length regs))
unfolding add_listeners
add_listeners-Fits alloc [] pids given h =
    inl ((true, pids), refl, (refl, sym (append-nil pids.items), refl, h))
add_listeners-Fits alloc (pid ∷ regs) pids given h = elim (push_back-Fits alloc pids pid given h) [
  | inr (faults, full) ↦ inr (rw faults refl, omega (arith, full))
  | inl (q, run, (added, items, size, fits)) ↦
      let n : length q.1.items ≡ length pids.items + 1 =
        ap length items ∙ length-append pids.items (pid ∷ []) in
      elim (add_listeners-Fits alloc regs q.1 given fits) [
        | inr (faults, full) ↦ inr (rw (run, added) faults, omega (arith, full, n, size))
        | inl (q', run', (added', items', size', fits')) ↦ inl (
          q',
          rw (run, added) run',
          (
            added',
            items' ∙ ap (λ l. l ++ regs) items ∙ append_assoc pids.items (pid ∷ []) regs,
            size' ∙ size,
            fits',
          ),
        )
      ]
]

length-without : (items : List ℕ) (i : ℕ) → length (without items i) ≤ length items
unfolding without
length-without [] i = omega arith
length-without (x ∷ items) zero = omega arith
length-without (x ∷ items) (suc i) = omega (arith, length-without items i)

del_listeners-missing :
    (pid : ℕ) (ends : List ℕ) (pids : Array)
    → find pids.items pid ≡ none
    → del_listeners (pid ∷ ends) pids ≡ (false, pids)
unfolding del_listeners
del_listeners-missing pid ends pids h = rw (h, del_listeners) refl

del_listeners-found :
    (pid i : ℕ) (ends : List ℕ) (pids : Array)
    → i < length pids.items
    → find pids.items pid ≡ some i
    → del_listeners (pid ∷ ends) pids
      ≡ del_listeners ends (record pids { items = without pids.items i })
unfolding del_listeners
del_listeners-found pid i ends pids l h = rw (h, del_listeners, remove_item-without pids i l) refl

leave-missing :
    (pid : ℕ) (ends pids : List ℕ)
    → remove_first pid pids ≡ none
    → leave (pid ∷ ends) pids ≡ (false, pids)
unfolding leave
leave-missing pid ends pids h = rw (h, leave) refl

leave-found :
    (pid : ℕ) (ends pids others : List ℕ)
    → remove_first pid pids ≡ some others
    → leave (pid ∷ ends) pids ≡ leave ends others
unfolding leave
leave-found pid ends pids others h = rw (h, leave) refl

del_listeners-Fits :
    (ends : List ℕ) (pids : Array)
    → Fits pids
    → ((del_listeners ends pids).0 ≡ (leave ends pids.items).0)
      × ((del_listeners ends pids).1.items ≡ (leave ends pids.items).1)
      × ((del_listeners ends pids).1.size ≡ pids.size)
      × Fits (del_listeners ends pids).1
unfolding del_listeners leave
del_listeners-Fits [] pids h = (refl, refl, refl, h)
del_listeners-Fits (pid ∷ ends) pids h = elim (find-Found pid pids.items) [
  | missing f r ↦
      rw (del_listeners-missing pid ends pids f, leave-missing pid ends pids.items r)
        (refl, refl, refl, h)
  | found_at i l f r ↦
      let there : Array = record pids { items = without pids.items i } in
      let fits : Fits there = record {
        is_within = omega (arith, h.is_within, length-without pids.items i);
        is_large = h.is_large;
      } in
      rw
        (
          del_listeners-found pid i ends pids l f,
          leave-found pid ends pids.items (without pids.items i) r,
        )
        (del_listeners-Fits ends there fits)
]

pub length-leave : (ends pids : List ℕ) → length (leave ends pids).1 ≤ length pids
unfolding leave
length-leave [] pids = omega arith
length-leave (pid ∷ ends) pids = elim (find-Found pid pids) [
  | missing f r ↦ rw (leave-missing pid ends pids r) (omega arith)
  | found_at i l f r ↦
      rw (leave-found pid ends pids (without pids i) r)
        (omega (arith, length-leave ends (without pids i), length-without pids i))
]

pub upd_listeners-Fits :
    (alloc : ℕ → Bool) (regs ends : List ℕ) (pids : Array)
    → ((n : ℕ) → alloc n ≡ true)
    → Fits pids
    → Returns (upd_listeners alloc regs ends pids) (λ q.
      (q.0 ≡ (leave ends (pids.items ++ regs)).0)
      × (q.1.items ≡ (leave ends (pids.items ++ regs)).1)
      × (q.1.size ≡ pids.size)
      × Fits q.1)
      ⊎ ((upd_listeners alloc regs ends pids ≡ fault)
          × (pids.size < length pids.items + length regs))
unfolding upd_listeners
upd_listeners-Fits alloc regs ends pids given h =
    elim (add_listeners-Fits alloc regs pids given h) [
      | inr (faults, full) ↦ inr (rw faults refl, full)
      | inl (q, run, (added, items, size, fits)) ↦
          let (same, left, kept, fits') = del_listeners-Fits ends q.1 fits in
          inl (
            del_listeners ends q.1,
            rw (run, added) refl,
            (
              same ∙ ap (λ l. (leave ends l).0) items,
              left ∙ ap (λ l. (leave ends l).1) items,
              kept ∙ size,
              fits',
            ),
          )
    ]
