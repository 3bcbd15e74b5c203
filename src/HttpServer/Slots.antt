-- ===== src/HttpServer/Slots.antt =====
-- The parent's search for a free slot.
use os_solutions.HttpServer.{conn_max, free_slot, accept_client}
use os_solutions.Prelude.{
  ℕ, zero, suc, ◌+◌, ◌%◌, ◌≤◌, ◌<◌, ◌≡◌, refl, sym, ap, ◌∙◌, Option, none, some, List, length,
  replicate, get_elem?, get_or, set, ok, timeout, arith, length-set, length-replicate,
  get_elem?-get_or, get_or-set_self, get_or-set_ne, get_or-replicate, Bool-cases, ==_iff, ◌==◌, inl,
  inr, ltb, ltb→lt, if◌then◌else◌,
}

-- the table after `n` clients were accepted, `socket i` being what the i-th got
unfoldable pub serving : (ℕ → ℕ) → ℕ → List (Option ℕ)
serving socket zero = replicate conn_max none
serving socket (suc n) = set (serving socket n) n (some (socket n))

length-serving : (socket : ℕ → ℕ) (n : ℕ) → length (serving socket n) ≡ conn_max
unfolding serving
length-serving socket zero = length-replicate {A = Option ℕ} conn_max none
length-serving socket (suc n) =
    length-set (serving socket n) n (some (socket n)) ∙ length-serving socket n

serving-free : (socket : ℕ → ℕ) (n i : ℕ) → n ≤ i → get_or (serving socket n) i none ≡ none
unfolding serving
serving-free socket zero i h = get_or-replicate conn_max i none
serving-free socket (suc n) i h =
    get_or-set_ne (serving socket n) n i (some (socket n)) none (λ e. omega (arith, e))
    ∙ serving-free socket n i (omega arith)

serving-used :
    (socket : ℕ → ℕ) (n i : ℕ)
    → i < n
    → n ≤ conn_max
    → get_or (serving socket n) i none ≡ some (socket i)
unfolding serving
serving-used socket zero i h l = elim h [ ]
serving-used socket (suc n) i h l = elim (Bool-cases (n == i)) [
  | inl e ↦
      let same = (==_iff n i).0 e in
      ap (λ k. get_or (set (serving socket n) n (some (socket n))) k none) (sym same)
      ∙ get_or-set_self (serving socket n) n (some (socket n)) none
          (omega (arith, length-serving socket n))
      ∙ ap (λ k. some (socket k)) same
  | inr e ↦
      get_or-set_ne (serving socket n) n i (some (socket n)) none
        (λ q. let f = (==_iff n i).1 q in cc)
      ∙ serving-used socket n i (ground arith) (omega arith)
]

at_slot :
    (socket : ℕ → ℕ) (n i : ℕ)
    → i < conn_max
    → get_elem? (serving socket n) i ≡ some (get_or (serving socket n) i none)
at_slot socket n i h =
    get_elem?-get_or (serving socket n) i none (omega (arith, length-serving socket n))

free_slot-full :
    (socket : ℕ → ℕ) (fuel slot : ℕ)
    → slot < conn_max
    → free_slot fuel (serving socket conn_max) slot ≡ timeout
unfolding free_slot
free_slot-full socket zero slot h = refl
free_slot-full socket (suc fuel) slot h =
    rw (at_slot socket conn_max slot h, serving-used socket conn_max slot h (omega arith))
      (free_slot-full socket fuel ((slot + 1) % conn_max) (omega arith))

stored_as :
    (socket : ℕ → ℕ) (n : ℕ) → set (serving socket n) n (some (socket n)) ≡ serving socket (suc n)
unfolding serving
stored_as socket n = refl

next_free :
    (socket : ℕ → ℕ) (fuel n : ℕ)
    → suc n < conn_max
    → free_slot (suc (suc fuel)) (serving socket (suc n)) n ≡ ok (suc n)
unfolding free_slot
next_free socket fuel n h =
    let index : (n + 1) % conn_max ≡ suc n = omega arith in
    rw
      (
        at_slot socket (suc n) n (omega arith),
        serving-used socket (suc n) n (omega arith) (omega arith),
        index,
        at_slot socket (suc n) (suc n) h,
        serving-free socket (suc n) (suc n) (omega arith),
      )
      (ap ok index)

-- The server's parent process, where `accept` gave a socket each time: after the n-th client it
-- goes on with the next slot, and after the last of the table's slots its search for a free one
-- does not end, whatever the fuel.
pub accept_client-serving :
    (socket : ℕ → ℕ) (fuel n : ℕ)
    → n < conn_max
    → accept_client (suc (suc fuel)) (serving socket n) n (some (socket n))
      ≡ (if ltb (suc n) conn_max then ok (serving socket (suc n), suc n) else timeout)
unfolding accept_client serving
accept_client-serving socket fuel n h = elim (Bool-cases (ltb (suc n) conn_max)) [
  | inl e ↦ rw (e, stored_as socket n, next_free socket fuel n (ltb→lt (suc n) conn_max e)) refl
  | inr e ↦
      let last : suc n ≡ conn_max = ground arith in
      let stuck : free_slot (suc (suc fuel)) (serving socket (suc n)) n ≡ timeout =
        ap (λ k. free_slot (suc (suc fuel)) (serving socket k) n) last
        ∙ free_slot-full socket (suc (suc fuel)) n h in
      rw (e, stored_as socket n, stuck) refl
]
