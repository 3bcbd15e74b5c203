-- ===== src/Broadcast/Rounds.antt =====
-- What holds between two steps: every round gives each consumer one turn.
use os_solutions.Broadcast.{
  Consumer, ConsumerPlace, starting, registering, locking, reading, resetting, unlocking, System,
  ProducerPlace, updating, awaiting_zero, writing, releasing, awaiting_reads, ending, releasing_end,
  awaiting_end, finished,
}
use os_solutions.Broadcast.Tally.{tally, Each}
use os_solutions.Prelude.{
  ℕ, ◌+◌, ◌<◌, ◌≡◌, ◌≢◌, refl, ◌⊎◌, Bool, true, false, not, ◌&&◌, Option, none, some, List, [], ◌∷◌,
  ◌++◌, ◌==◌, if◌then◌else◌, length, set, Bytes, arith,
}

-- the messages that a consumer has printed or was too late for
abbrev pub seen : Consumer → List Bytes
seen c = c.printed ++ c.missed

abbrev is_locking : ConsumerPlace → Bool
is_locking locking = true
is_locking _ = false

abbrev member_at : ConsumerPlace → ℕ
member_at starting = 0
member_at registering = 0
member_at _ = 1

abbrev passing_at : ConsumerPlace → ℕ
passing_at unlocking = 1
passing_at _ = 0

abbrev waiting_at : ConsumerPlace → ℕ
waiting_at registering = 1
waiting_at _ = 0

-- registered, with its confirmation to come
abbrev pub waiting : Consumer → ℕ
waiting c = waiting_at c.place

-- confirmed; about to say that it has read; and about to lock, before or behind its turn
abbrev pub member : Consumer → ℕ
member c = member_at c.place

abbrev pub passing : Consumer → ℕ
passing c = passing_at c.place

abbrev pub fresh : List Bytes → Consumer → ℕ
fresh sent c = if is_locking c.place && (length (seen c) == length sent) then 1 else 0

abbrev pub done : List Bytes → Consumer → ℕ
done sent c = if is_locking c.place && not (length (seen c) == length sent) then 1 else 0

-- a consumer outside a round, in a round for `text`, and behind the last round
abbrev IdleAt : ConsumerPlace → List Bytes → Consumer → Type 0
IdleAt starting sent c = c.printed ≡ []
IdleAt registering sent c = c.printed ≡ []
IdleAt locking sent c = seen c ≡ sent
IdleAt _ sent c = ⊥

abbrev pub Idle : List Bytes → Consumer → Type 0
Idle sent c = IdleAt c.place sent c

abbrev InRoundAt : ConsumerPlace → List Bytes → Bytes → Consumer → Type 0
InRoundAt starting sent text c = c.printed ≡ []
InRoundAt registering sent text c = c.printed ≡ []
InRoundAt locking sent text c = (seen c ≡ sent) ⊎ (seen c ≡ text ∷ sent)
InRoundAt reading sent text c = seen c ≡ sent
InRoundAt resetting sent text c = seen c ≡ text ∷ sent
InRoundAt unlocking sent text c = seen c ≡ text ∷ sent
InRoundAt _ sent text c = ⊥

abbrev pub InRound : List Bytes → Bytes → Consumer → Type 0
InRound sent text c = InRoundAt c.place sent text c

abbrev EndingAt : ConsumerPlace → List Bytes → Consumer → Type 0
EndingAt starting sent c = c.printed ≡ []
EndingAt registering sent c = c.printed ≡ []
EndingAt resetting sent c = ⊥
EndingAt unlocking sent c = ⊥
EndingAt _ sent c = seen c ≡ sent

abbrev pub Ending : List Bytes → Consumer → Type 0
Ending sent c = EndingAt c.place sent c

-- no round is on: every confirmed consumer is about to lock, and both semaphores are 0
pub record Closed (s : System) : Type 0 where
  pub no_tokens : s.sem_consumer ≡ 0
  pub no_reads : s.sem_producer ≡ 0
  pub members : s.count_consumers ≡ tally member s.consumers + s.confirmations
  pub queued : s.registrations + s.confirmations ≡ tally waiting s.consumers
  pub idle : Each (Idle s.sent) s.consumers

-- A round is on: there is a token for each consumer that has not had its turn, and none when the
-- first consumer gets past the wait for zero.
pub record Open (s : System) : Type 0 where
  pub tokens : s.sem_consumer ≡ tally (fresh s.sent) s.consumers + s.confirmations
  pub reads : s.sem_producer ≡ tally (done s.sent) s.consumers
  pub barrier : 0 < s.sem_consumer → tally passing s.consumers + tally (done s.sent) s.consumers ≡ 0
  pub members : s.count_consumers ≡ tally member s.consumers + s.confirmations
  pub queued : s.registrations + s.confirmations ≡ tally waiting s.consumers
  pub some_text : s.attached_mem ≢ []
  pub in_round : Each (InRound s.sent s.attached_mem) s.consumers

-- the end was sent
pub record Over (s : System) : Type 0 where
  pub no_text : s.attached_mem ≡ []
  pub ended : Each (Ending s.sent) s.consumers

abbrev pub HoldsAt : ProducerPlace → System → Type 0
HoldsAt updating s = Closed s
HoldsAt awaiting_zero s = Closed s
HoldsAt writing s = Closed s
HoldsAt releasing s = Closed s × (s.attached_mem ≢ [])
HoldsAt awaiting_reads s = Open s
HoldsAt ending s = Closed s
HoldsAt releasing_end s = Closed s × (s.attached_mem ≡ [])
HoldsAt awaiting_end s = Over s
HoldsAt finished s = Over s

abbrev pub Holds : System → Type 0
Holds s = HoldsAt s.producer s

abbrev pub Ensures : {A : Type 0} → (A → Type 0) → Option A → Type 0
Ensures P none = Unit {0}
Ensures P (some x) = P x

-- the system with the consumer `i` as its step leaves it
abbrev pub moved : List Consumer → ℕ → System × Consumer → System
moved consumers i r = record r.0 { consumers = set consumers i r.1 }

-- a consumer, by its place
abbrev pub at_place : ConsumerPlace → Consumer → Consumer
at_place p c = record c { place = p }

same_length : (a b : List Bytes) → a ≡ b → (length a == length b) ≡ true
same_length a b h = rw h (ground arith)

longer_length : (t : Bytes) (a b : List Bytes) → a ≡ t ∷ b → (length a == length b) ≡ false
longer_length t a b h = rw h (ground arith)

-- the weights of a consumer that is about to lock
module _ (sent : List Bytes) (c : Consumer) where
  pub fresh-before : seen c ≡ sent → fresh sent (at_place locking c) ≡ 1
  fresh-before h = rw (same_length (seen c) sent h) refl

  pub done-before : seen c ≡ sent → done sent (at_place locking c) ≡ 0
  done-before h = rw (same_length (seen c) sent h) refl

  pub fresh-behind : (t : Bytes) → seen c ≡ t ∷ sent → fresh sent (at_place locking c) ≡ 0
  fresh-behind t h = rw (longer_length t (seen c) sent h) refl

  pub done-behind : (t : Bytes) → seen c ≡ t ∷ sent → done sent (at_place locking c) ≡ 1
  done-behind t h = rw (longer_length t (seen c) sent h) refl
