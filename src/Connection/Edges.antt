-- ===== src/Connection/Edges.antt =====
-- The order of the statuses of a connection, and what each status needs.
use os_solutions.Connection.State.{
  EntryStatus, downloading, valid, invalid, ConnectionStatus, getting_request, connecting_to_server,
  writing_request, forwarding_request, forwarding_response, responding_from_progess_cache,
  responding_from_cache, Connection, World,
}
use os_solutions.HashTable.{Pointer}
use os_solutions.Prelude.{
  zero, ◌≡◌, refl, Bool, true, false, ◌⊎◌, inl, inr, Option, none, if◌then◌else◌, Bytes, Outcome,
  ok, abort, fault, timeout, ◌>>=◌,
}

-- The statuses that an iteration may lead to.
pub data Edge : ConnectionStatus → ConnectionStatus → Type 0 where
  stays : {s : ConnectionStatus} → Edge s s
  to_server : Edge getting_request connecting_to_server
  to_entry : Edge getting_request responding_from_cache
  to_waiting : Edge getting_request responding_from_progess_cache
  connected : Edge connecting_to_server writing_request
  half_sent : Edge writing_request forwarding_request
  all_sent : Edge writing_request forwarding_response
  rest_sent : Edge forwarding_request forwarding_response

-- What a status needs: a request to write, or an entry to read.
abbrev pub has_needs : ConnectionStatus → Option Bytes → Pointer → Bool
has_needs connecting_to_server none p = false
has_needs writing_request none p = false
has_needs responding_from_cache buffer zero = false
has_needs responding_from_progess_cache buffer zero = false
has_needs _ _ _ = true

abbrev pub is_ready : Connection → Bool
is_ready conn = has_needs conn.connection_status conn.buffer conn.cache_entry

-- A value that is given satisfies `P`.
abbrev pub Gives {ℓ} : {A : Type ℓ} → Outcome A → (A → Type 0) → Type 0
Gives (ok a) P = P a
Gives _ P = Unit

pub Gives-bind {ℓ κ} :
    {A : Type ℓ} {B : Type κ} (Q : A → Type 0) (P : B → Type 0) (m : Outcome A) (f : A → Outcome B)
    → Gives m Q
    → ((a : A) → Q a → Gives (f a) P)
    → Gives (m >>= f) P
Gives-bind Q P (ok a) f h step = step a h
Gives-bind Q P abort f h step = tt
Gives-bind Q P fault f h step = tt
Gives-bind Q P timeout f h step = tt

-- whatever is given
pub Gives-then {ℓ κ} :
    {A : Type ℓ} {B : Type κ} (P : B → Type 0) (m : Outcome A) (f : A → Outcome B)
    → ((a : A) → Gives (f a) P)
    → Gives (m >>= f) P
Gives-then P (ok a) f step = step a
Gives-then P abort f step = tt
Gives-then P fault f step = tt
Gives-then P timeout f step = tt

pub Gives-if {ℓ} :
    {A : Type ℓ} (P : A → Type 0) (b : Bool) (m n : Outcome A)
    → Gives m P
    → Gives n P
    → Gives (if b then m else n) P
Gives-if P true m n h k = h
Gives-if P false m n h k = k

pub either :
    {A : Type 0} (P : A → Type 0) (b : Bool) (a a' : A) → P a → P a' → P (if b then a else a')
either P true a a' h k = h
either P false a a' h k = k

pub EntryStatus-cases : (s : EntryStatus) → (s ≡ valid) ⊎ ((s ≡ downloading) ⊎ (s ≡ invalid))
EntryStatus-cases valid = inl refl
EntryStatus-cases downloading = inr (inl refl)
EntryStatus-cases invalid = inr (inr refl)

-- what a handler gives, from the status `s`
abbrev pub Moves : ConnectionStatus → Connection × World × Bool → Type 0
Moves s r = Edge s r.0.connection_status × (is_ready r.0 ≡ true)
