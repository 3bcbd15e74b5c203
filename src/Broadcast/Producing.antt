-- ===== src/Broadcast/Producing.antt =====
-- The producer's step keeps what holds.
use os_solutions.Broadcast.{
  Consumer, ConsumerPlace, starting, registering, locking, reading, resetting, unlocking, leaving,
  exiting, gone, System, ProducerPlace, updating, awaiting_zero, writing, releasing, awaiting_reads,
  ending, releasing_end, awaiting_end, finished, update_consumers, end_round, produce,
  generate_message, random_chars,
}
use os_solutions.Broadcast.Rounds.{
  member, passing, fresh, done, Idle, InRound, Ending, Closed, Open, Ensures, Holds, HoldsAt,
  at_place, fresh-before, done-before, fresh-behind, done-behind,
}
use os_solutions.Broadcast.Tally.{tally, Each}
use os_solutions.Prelude.{
  ℕ, suc, ◌+◌, ◌-◌, ◌%◌, ◌≤◌, ◌≡◌, ◌≢◌, refl, inl, inr, true, false, List, [], ◌∷◌, ◌==◌, ltb, leb,
  ltb→lt, if◌then◌else◌, Bytes, arith, Bool-cases,
}

module _ (sent : List Bytes) (text : Bytes) where
  -- outside a round the tokens to come are as many as the members
  Idle-weights :
      (p : ConsumerPlace) (c : Consumer)
      → Idle sent (at_place p c)
      → (fresh sent (at_place p c) ≡ member (at_place p c))
        × (done sent (at_place p c) ≡ 0)
        × (passing (at_place p c) ≡ 0)
        × InRound sent text (at_place p c)
  Idle-weights starting c h = (refl, refl, refl, h)
  Idle-weights registering c h = (refl, refl, refl, h)
  Idle-weights locking c h = (fresh-before sent c h, done-before sent c h, refl, inl h)
  Idle-weights reading c h = elim h [ ]
  Idle-weights resetting c h = elim h [ ]
  Idle-weights unlocking c h = elim h [ ]
  Idle-weights leaving c h = elim h [ ]
  Idle-weights exiting c h = elim h [ ]
  Idle-weights gone c h = elim h [ ]

  Idle-tallies :
      (cs : List Consumer)
      → Each (Idle sent) cs
      → (tally (fresh sent) cs ≡ tally member cs)
        × (tally (done sent) cs ≡ 0)
        × (tally passing cs ≡ 0)
        × Each (InRound sent text) cs
  unfolding tally
  Idle-tallies [] h = (refl, refl, refl, tt)
  Idle-tallies (c ∷ cs) h =
      let (f, d, q, it) = Idle-weights c.place c h.0 in
      let (f', d', q', its) = Idle-tallies cs h.1 in
      (omega (arith, f, f'), omega (arith, d, d'), omega (arith, q, q'), (it, its))

  -- in a round a member has had its turn only behind it
  round-weights :
      (p : ConsumerPlace) (c : Consumer)
      → InRound sent text (at_place p c)
      → (fresh sent (at_place p c) + done sent (at_place p c) ≤ member (at_place p c))
        × (member (at_place p c) ≤ done sent (at_place p c) → Idle (text ∷ sent) (at_place p c))
  round-weights starting c h = (omega arith, λ k. h)
  round-weights registering c h = (omega arith, λ k. h)
  round-weights locking c (inl h) =
      let f = fresh-before sent c h in
      let d = done-before sent c h in (omega (arith, f, d), λ k. absurd (omega (arith, d)))
  round-weights locking c (inr h) =
      let f = fresh-behind sent c text h in
      let d = done-behind sent c text h in (omega (arith, f, d), λ k. h)
  round-weights reading c h = (omega arith, λ k. absurd (omega arith))
  round-weights resetting c h = (omega arith, λ k. absurd (omega arith))
  round-weights unlocking c h = (omega arith, λ k. absurd (omega arith))
  round-weights leaving c h = elim h [ ]
  round-weights exiting c h = elim h [ ]
  round-weights gone c h = elim h [ ]

  round-tallies :
      (cs : List Consumer)
      → Each (InRound sent text) cs
      → (tally (fresh sent) cs + tally (done sent) cs ≤ tally member cs)
        × (tally member cs ≤ tally (done sent) cs → Each (Idle (text ∷ sent)) cs)
  unfolding tally
  round-tallies [] h = (omega arith, λ k. tt)
  round-tallies (c ∷ cs) h =
      let (l, turn) = round-weights c.place c h.0 in
      let (l', turns) = round-tallies cs h.1 in
      (omega (arith, l, l'), λ k. (turn (omega (arith, l, l', k)), turns (omega (arith, l, l', k))))

idle-Ending :
    (sent : List Bytes) (p : ConsumerPlace) (c : Consumer)
    → Idle sent (at_place p c)
    → Ending sent (at_place p c)
idle-Ending sent starting c h = h
idle-Ending sent registering c h = h
idle-Ending sent locking c h = h
idle-Ending sent reading c h = elim h [ ]
idle-Ending sent resetting c h = elim h [ ]
idle-Ending sent unlocking c h = elim h [ ]
idle-Ending sent leaving c h = elim h [ ]
idle-Ending sent exiting c h = elim h [ ]
idle-Ending sent gone c h = elim h [ ]

each-Ending : (sent : List Bytes) (cs : List Consumer) → Each (Idle sent) cs → Each (Ending sent) cs
each-Ending sent [] h = tt
each-Ending sent (c ∷ cs) h = (idle-Ending sent c.place c h.0, each-Ending sent cs h.1)

-- a message is not empty
generate_message-ne : (rand : ℕ → ℕ) → generate_message rand ≢ []
unfolding generate_message random_chars
generate_message-ne rand =
    let one_more : rand 0 % 48 + 1 ≡ suc (rand 0 % 48) = omega arith in
    rw one_more (λ e. ground arith)

-- the system with its producer elsewhere
abbrev at_producer : ProducerPlace → System → System
at_producer p s = record s { producer = p }

Closed-elsewhere :
    (s : System) (p : ProducerPlace) (text : Bytes)
    → Closed s
    → Closed (record s { producer = p; attached_mem = text })
Closed-elsewhere s p text h = record {
  no_tokens = h.no_tokens;
  no_reads = h.no_reads;
  members = h.members;
  queued = h.queued;
  idle = h.idle;
}

Closed-Open :
    (s : System)
    → Closed s
    → s.attached_mem ≢ []
    → Open
        (record s { sem_consumer = s.sem_consumer + s.count_consumers; producer = awaiting_reads })
Closed-Open s h text =
    let (f, d, q, its) = Idle-tallies s.sent s.attached_mem s.consumers h.idle in
    record {
      tokens = omega (arith, f, h.no_tokens, h.members);
      reads = omega (arith, d, h.no_reads);
      barrier = λ k. omega (arith, d, q);
      members = h.members;
      queued = h.queued;
      some_text = text;
      in_round = its;
    }

-- Every member has had its turn.
Open-Closed : (s : System) → Open s → s.count_consumers ≤ s.sem_producer → Closed (end_round s)
unfolding end_round
Open-Closed s h all =
    let (l, turns) = round-tallies s.sent s.attached_mem s.consumers h.in_round in
    record {
      no_tokens = omega (arith, l, all, h.tokens, h.reads, h.members);
      no_reads = omega (arith, l, all, h.reads, h.members);
      members = h.members;
      queued = h.queued;
      idle = turns (omega (arith, all, h.reads, h.members));
    }

end_round-Holds : (s : System) → Closed (end_round s) → Holds (end_round s)
unfolding end_round
end_round-Holds s k =
    elim (s.messages_left - 1 == 0)
      as (λ b. HoldsAt (if b then ending else updating) (end_round s)) [ true ↦ k | false ↦ k ]

produce-Holds_at :
    (rand : ℕ → ℕ) (p : ProducerPlace) (s : System)
    → Holds (at_producer p s)
    → Ensures Holds (produce rand (at_producer p s))
unfolding produce update_consumers
produce-Holds_at rand updating s h = elim (Bool-cases (ltb 0 s.registrations)) [
  | inl e ↦ rw e (record {
    no_tokens = h.no_tokens;
    no_reads = h.no_reads;
    members = omega (arith, h.members);
    queued = omega (arith, h.queued, ltb→lt 0 s.registrations e);
    idle = h.idle;
  })
  | inr e ↦ elim (Bool-cases (s.count_consumers == 0)) [
    | inl f ↦ rw (e, f) h
    | inr f ↦ rw (e, f) (Closed-elsewhere (at_producer updating s) awaiting_zero s.attached_mem h)
  ]
]
produce-Holds_at rand awaiting_zero s h = elim (Bool-cases (s.sem_consumer == 0)) [
  | inl e ↦ rw e (Closed-elsewhere (at_producer awaiting_zero s) writing s.attached_mem h)
  | inr e ↦ rw e tt
]
produce-Holds_at rand writing s h = (
  Closed-elsewhere (at_producer writing s) releasing (generate_message rand) h,
  generate_message-ne rand,
)
produce-Holds_at rand releasing s h = Closed-Open (at_producer releasing s) h.0 h.1
produce-Holds_at rand awaiting_reads s h =
    elim (Bool-cases (leb s.count_consumers s.sem_producer)) [
      | inl e ↦ rw e (
          end_round-Holds (at_producer awaiting_reads s)
            (Open-Closed (at_producer awaiting_reads s) h (ground arith)))
      | inr e ↦ rw e tt
    ]
produce-Holds_at rand ending s h =
    (Closed-elsewhere (at_producer ending s) releasing_end [] h, refl)
produce-Holds_at rand releasing_end s h = record {
  no_text = h.1;
  ended = each-Ending s.sent s.consumers h.0.idle;
}
produce-Holds_at rand awaiting_end s h = elim (Bool-cases (leb s.count_consumers s.sem_producer)) [
  | inl e ↦ rw e (record { no_text = h.no_text; ended = h.ended })
  | inr e ↦ rw e tt
]
produce-Holds_at rand finished s h = tt

pub produce-Holds : (rand : ℕ → ℕ) (s : System) → Holds s → Ensures Holds (produce rand s)
produce-Holds rand s h = produce-Holds_at rand s.producer s h
