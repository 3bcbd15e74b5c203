-- ===== src/Broadcast/Progress.antt =====
-- Before the end is sent, some process can always go on.
use os_solutions.Broadcast.{
  Consumer, ConsumerPlace, starting, registering, locking, reading, resetting, unlocking, leaving,
  exiting, gone, System, ProducerPlace, updating, awaiting_zero, writing, releasing, awaiting_reads,
  ending, releasing_end, awaiting_end, finished, produce, consume, Step, produces, consumes,
  Reachable, new_system,
}
use os_solutions.Broadcast.Order.{Reachable-Holds, new_system-Closed}
use os_solutions.Broadcast.Rounds.{
  member, waiting, fresh, done, InRound, Open, Holds, at_place, fresh-before, done-behind,
}
use os_solutions.Broadcast.Tally.{tally, Each}
use os_solutions.Prelude.{
  ℕ, suc, ◌+◌, ◌≤◌, ◌<◌, ◌≡◌, ◌≢◌, refl, inl, inr, Bool, true, none, some, List, [], ◌∷◌, ◌==◌, ltb,
  leb, if◌then◌else◌, get_elem?, arith, Bool-cases, ltb→lt,
}

-- in a round, and neither before nor behind its turn
abbrev busy_at : ConsumerPlace → ℕ
busy_at reading = 1
busy_at resetting = 1
busy_at unlocking = 1
busy_at _ = 0

abbrev busy : Consumer → ℕ
busy c = busy_at c.place

abbrev pub CanStep : System → Type 0
CanStep s = (s' : System) × Step s s'

-- a consumer with a weight
tally-some :
    (w : Consumer → ℕ) (cs : List Consumer)
    → 0 < tally w cs
    → (i : ℕ) × (c : Consumer) × (get_elem? cs i ≡ some c) × (0 < w c)
unfolding tally
tally-some w [] h = absurd (omega arith)
tally-some w (c ∷ cs) h = elim (Bool-cases (ltb 0 (w c))) [
  | inl e ↦ (0, c, refl, ltb→lt 0 (w c) e)
  | inr e ↦ let (i, c', get, k) = tally-some w cs (ground arith) in (suc i, c', get, k)
]

-- a test that holds gives its result
if-some :
    {A : Type 0} (b : Bool) (x : A) → b ≡ true → (r : A) × ((if b then some x else none) ≡ some r)
if-some b x h = (x, rw h refl)

module _ (s : System) where
  -- a consumer steps, where its `consume` gives a result
  steps :
      (i : ℕ) (c : Consumer)
      → get_elem? s.consumers i ≡ some c
      → (r : System × Consumer) × (consume s c ≡ some r)
      → CanStep s
  steps i c get (r, run) = (_, consumes i s r.0 c r.1 get run)

  can_register :
      (p : ConsumerPlace) (c : Consumer)
      → 0 < waiting (at_place p c)
      → 0 < s.confirmations
      → (r : System × Consumer) × (consume s (at_place p c) ≡ some r)
  unfolding consume
  can_register starting c w h = absurd (omega arith)
  can_register registering c w h = if-some (ltb 0 s.confirmations) _ (ground arith)
  can_register locking c w h = absurd (omega arith)
  can_register reading c w h = absurd (omega arith)
  can_register resetting c w h = absurd (omega arith)
  can_register unlocking c w h = absurd (omega arith)
  can_register leaving c w h = absurd (omega arith)
  can_register exiting c w h = absurd (omega arith)
  can_register gone c w h = absurd (omega arith)

  can_lock :
      (p : ConsumerPlace) (c : Consumer)
      → 0 < fresh s.sent (at_place p c)
      → 0 < s.sem_consumer
      → (r : System × Consumer) × (consume s (at_place p c) ≡ some r)
  unfolding consume
  can_lock starting c w h = absurd (omega arith)
  can_lock registering c w h = absurd (omega arith)
  can_lock locking c w h = if-some (ltb 0 s.sem_consumer) _ (ground arith)
  can_lock reading c w h = absurd (omega arith)
  can_lock resetting c w h = absurd (omega arith)
  can_lock unlocking c w h = absurd (omega arith)
  can_lock leaving c w h = absurd (omega arith)
  can_lock exiting c w h = absurd (omega arith)
  can_lock gone c w h = absurd (omega arith)

  can_go_on :
      (p : ConsumerPlace) (c : Consumer)
      → 0 < busy (at_place p c)
      → s.sem_consumer ≡ 0
      → (r : System × Consumer) × (consume s (at_place p c) ≡ some r)
  unfolding consume
  can_go_on starting c w h = absurd (omega arith)
  can_go_on registering c w h = absurd (omega arith)
  can_go_on locking c w h = absurd (omega arith)
  can_go_on reading c w h = (_, refl)
  can_go_on resetting c w h = if-some (s.sem_consumer == 0) _ (rw h refl)
  can_go_on unlocking c w h = (_, refl)
  can_go_on leaving c w h = absurd (omega arith)
  can_go_on exiting c w h = absurd (omega arith)
  can_go_on gone c w h = absurd (omega arith)

  -- every member is before its turn, in it, or behind it
  turns :
      (p : ConsumerPlace) (c : Consumer)
      → InRound s.sent s.attached_mem (at_place p c)
      → member (at_place p c)
        ≤ fresh s.sent (at_place p c) + done s.sent (at_place p c) + busy (at_place p c)
  turns starting c h = omega arith
  turns registering c h = omega arith
  turns locking c (inl h) = omega (arith, fresh-before s.sent c h)
  turns locking c (inr h) = omega (arith, done-behind s.sent c s.attached_mem h)
  turns reading c h = omega arith
  turns resetting c h = omega arith
  turns unlocking c h = omega arith
  turns leaving c h = elim h [ ]
  turns exiting c h = elim h [ ]
  turns gone c h = elim h [ ]

  all_turns :
      (cs : List Consumer)
      → Each (InRound s.sent s.attached_mem) cs
      → tally member cs ≤ tally (fresh s.sent) cs + tally (done s.sent) cs + tally busy cs
  unfolding tally
  all_turns [] h = omega arith
  all_turns (c ∷ cs) h = omega (arith, turns c.place c h.0, all_turns cs h.1)

  -- in a round that is not over a consumer can go on
  Open-CanStep : Open s → s.sem_producer < s.count_consumers → CanStep s
  Open-CanStep h early =
      let bound = all_turns s.consumers h.in_round in
      elim (Bool-cases (ltb 0 s.sem_consumer)) [
        | inl e ↦ elim (Bool-cases (ltb 0 s.confirmations)) [
          | inl f ↦
              let some_waiting : 0 < tally waiting s.consumers =
                omega (arith, h.queued, ltb→lt 0 s.confirmations f) in
              let (i, c, get, w) = tally-some waiting s.consumers some_waiting in
              steps i c get (can_register c.place c w (ltb→lt 0 s.confirmations f))
          | inr f ↦
              let some_fresh : 0 < tally (fresh s.sent) s.consumers =
                ground (arith, h.tokens, ltb→lt 0 s.sem_consumer e) in
              let (i, c, get, w) = tally-some (fresh s.sent) s.consumers some_fresh in
              steps i c get (can_lock c.place c w (ltb→lt 0 s.sem_consumer e))
        ]
        | inr e ↦
            let no_token : s.sem_consumer ≡ 0 = ground arith in
            let some_busy : 0 < tally busy s.consumers =
              omega (arith, bound, no_token, h.tokens, h.reads, h.members, early) in
            let (i, c, get, w) = tally-some busy s.consumers some_busy in
            steps i c get (can_go_on c.place c w no_token)
      ]

  produced : (s' : System) → produce (λ i. 0) s ≡ some s' → CanStep s
  produced s' run = (s', produces (λ i. 0) s s' run)

abbrev at_producer : ProducerPlace → System → System
at_producer p s = record s { producer = p }

Holds-CanStep :
    (p : ProducerPlace) (s : System)
    → Holds (at_producer p s)
    → p ≢ awaiting_end
    → p ≢ finished
    → CanStep (at_producer p s)
unfolding produce
Holds-CanStep updating s h n f = produced (at_producer updating s) _ refl
Holds-CanStep awaiting_zero s h n f =
    let r = if-some (s.sem_consumer == 0) _ (rw h.no_tokens refl) in
    produced (at_producer awaiting_zero s) r.0 r.1
Holds-CanStep writing s h n f = produced (at_producer writing s) _ refl
Holds-CanStep releasing s h n f = produced (at_producer releasing s) _ refl
Holds-CanStep awaiting_reads s h n f = elim (Bool-cases (leb s.count_consumers s.sem_producer)) [
  | inl e ↦
      let r = if-some (leb s.count_consumers s.sem_producer) _ e in
      produced (at_producer awaiting_reads s) r.0 r.1
  | inr e ↦ Open-CanStep (at_producer awaiting_reads s) h (ground arith)
]
Holds-CanStep ending s h n f = produced (at_producer ending s) _ refl
Holds-CanStep releasing_end s h n f = produced (at_producer releasing_end s) _ refl
Holds-CanStep awaiting_end s h n f = absurd (n refl)
Holds-CanStep finished s h n f = absurd (f refl)

-- In every state that a producer and its consumers reach before the end was sent, the producer
-- or some consumer has a step: they never wait for each other, where a producer without
-- consumers goes round its loop.
pub Reachable-CanStep :
    (count n : ℕ) (s : System)
    → Reachable (new_system count n) s
    → s.producer ≢ awaiting_end
    → s.producer ≢ finished
    → CanStep s
Reachable-CanStep count n s r =
    Holds-CanStep s.producer s (Reachable-Holds r (new_system-Closed count n))
