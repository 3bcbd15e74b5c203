-- ===== src/Tests/Shared.antt =====
-- The producer and its consumers, by a schedule of their turns.
use os_solutions.Broadcast.{
  Consumer, locking, resetting, gone, System, awaiting_reads, awaiting_end, produce, consume, Step,
  produces, consumes, Reachable, here, then_step, new_system,
}
use os_solutions.Broadcast.Objects.{Calls, mapped, main, Released, main-Released, no_objects}
use os_solutions.Broadcast.Progress.{CanStep, Reachable-CanStep}
use os_solutions.Broadcast.Order.{Follows, Reachable-Follows}
use mathlib.Core.Path.{subst}
use os_solutions.Prelude.{
  ℕ, ◌≡◌, refl, true, false, Option, none, some, List, [], ◌∷◌, ◌++◌, get_elem?, set, codes, ok,
  Returns, arith,
}

abbrev no_rand : ℕ → ℕ
no_rand i = 0

-- a turn of the producer is none, of a consumer its index
abbrev turn : Option ℕ → System → Option System
turn none s = produce no_rand s
turn (some i) s = elim (get_elem? s.consumers i) [
  | none ↦ none
  | some c ↦ elim (consume s c) [
    | none ↦ none
    | some r ↦ some (record r.0 { consumers = set s.consumers i r.1 })
  ]
]

abbrev schedule : List (Option ℕ) → System → Option System
schedule [] s = some s
schedule (who ∷ turns) s = elim (turn who s) [ none ↦ none | some s' ↦ schedule turns s' ]

-- both consumers register, and are confirmed
abbrev registered : List (Option ℕ)
registered =
    some 0
    ∷ (some 1 ∷ (none ∷ (none ∷ (some 0 ∷ (some 1 ∷ (none ∷ (none ∷ (none ∷ (none ∷ [])))))))))

-- the message is read, and the end is sent
abbrev one_round : List (Option ℕ)
one_round =
    some 0
    ∷ (some 1
        ∷ (some 0
            ∷ (some 1 ∷ (some 0 ∷ (some 0 ∷ (some 1 ∷ (some 1 ∷ (none ∷ (none ∷ (none ∷ []))))))))))

-- the first consumer is gone before the second says that it has read the end
abbrev last_round : List (Option ℕ)
last_round =
    some 0 ∷ (some 0 ∷ (some 0 ∷ (some 0 ∷ (some 1 ∷ (some 1 ∷ (some 1 ∷ (some 1 ∷ [])))))))

abbrev left_consumer : Consumer
left_consumer = record {
  place = gone;
  printed = codes " " ∷ [];
  locked = 2;
  unlocked = 2;
  missed = [];
}

-- the producer waits for the consumers, of which none is left
abbrev stuck : System
stuck = record {
  sem_producer = 0;
  sem_consumer = 4;
  attached_mem = [];
  registrations = 0;
  confirmations = 0;
  producer = awaiting_end;
  count_consumers = 2;
  messages_left = 0;
  sent = codes " " ∷ [];
  consumers = left_consumer ∷ (left_consumer ∷ []);
}

schedule-stuck : schedule (registered ++ (one_round ++ last_round)) (new_system 1 2) ≡ some stuck
unfolding produce consume
schedule-stuck = refl

produce-stuck : produce no_rand stuck ≡ none
unfolding produce
produce-stuck = refl

abbrev first_read : System
first_read = record {
  sem_producer = 0;
  sem_consumer = 1;
  attached_mem = codes " ";
  registrations = 0;
  confirmations = 0;
  producer = awaiting_reads;
  count_consumers = 2;
  messages_left = 1;
  sent = [];
  consumers =
      record { place = resetting; printed = codes " " ∷ []; locked = 1; unlocked = 0; missed = [] }
      ∷ (record { place = locking; printed = []; locked = 0; unlocked = 0; missed = [] } ∷ []);
}

turn-Step : (who : Option ℕ) (s s' : System) → turn who s ≡ some s' → Step s s'
turn-Step none s s' h = produces no_rand s s' h
turn-Step (some i) s s' h =
    elim (get_elem? s.consumers i)
        as (λ o.
          get_elem? s.consumers i ≡ o
          → elim o as (λ _. Option System) [ none ↦ none | some c ↦ left c (consume s c) ] ≡ some s'
          → Step s s') [
            | none ↦ λ e k. absurd (ground arith)
            | some c ↦ λ e k.
                elim (consume s c) as (λ o. consume s c ≡ o → left c o ≡ some s' → Step s s') [
                  | none ↦ λ f l. absurd (ground arith)
                  | some r ↦ λ f l.
                      let q : record r.0 { consumers = set s.consumers i r.1 } ≡ s' = cc in
                      subst (Step s) q (consumes i s r.0 c r.1 e f)
                ]
                  refl k
          ]
      refl h
  where
    left : Consumer → Option (System × Consumer) → Option System
    left c none = none
    left c (some r) = some (record r.0 { consumers = set s.consumers i r.1 })

schedule-Reachable :
    (turns : List (Option ℕ)) (s₀ s s' : System)
    → Reachable s₀ s
    → schedule turns s ≡ some s'
    → Reachable s₀ s'
schedule-Reachable turns s₀ s s' r h = go turns s r h
  where
    go :
        (turns : List (Option ℕ)) (s : System)
        → Reachable s₀ s
        → schedule turns s ≡ some s'
        → Reachable s₀ s'
    go [] s r h = let q : s ≡ s' = cc in subst (Reachable s₀) q r
    go (who ∷ turns) s r h =
        elim (turn who s)
            as (λ o.
              turn who s ≡ o
              → elim o as (λ _. Option System) [ none ↦ none | some t ↦ schedule turns t ] ≡ some s'
              → Reachable s₀ s') [
                | none ↦ λ e k. absurd (ground arith)
                | some t ↦ λ e k. go turns t (then_step r (turn-Step who s t e)) k
              ]
          refl h

-- the first consumer has read, the second has not
abbrev first_turns : List (Option ℕ)
first_turns = registered ++ (some 0 ∷ (some 0 ∷ []))

schedule-first_read : schedule first_turns (new_system 1 2) ≡ some first_read
unfolding produce consume
schedule-first_read = refl

Reachable-Follows_example :
    Follows first_read (record {
      place = resetting;
      printed = codes " " ∷ [];
      locked = 1;
      unlocked = 0;
      missed = [];
    })
Reachable-Follows_example =
    Reachable-Follows 1 2 0 first_read
      (record {
        place = resetting;
        printed = codes " " ∷ [];
        locked = 1;
        unlocked = 0;
        missed = [];
      })
      (schedule-Reachable first_turns (new_system 1 2) (new_system 1 2) first_read here
        schedule-first_read)
      refl

Reachable-CanStep_example : CanStep first_read
Reachable-CanStep_example =
    Reachable-CanStep 1 2 first_read
      (schedule-Reachable first_turns (new_system 1 2) (new_system 1 2) first_read here
        schedule-first_read)
      (λ e. ground arith) (λ e. ground arith)

-- the queue cannot be removed
abbrev calls : Calls
calls = record {
  gets_key = true;
  gets_sem = true;
  gets_queue = true;
  gets_mem = true;
  attaches = mapped;
  producing = λ a. ok true;
  detaches = true;
  deletes_mem = true;
  closes_queue = false;
  deletes_sem = true;
}

main-Released_example : Returns (main calls) λ r. Released calls r.1
main-Released_example = main-Released calls true refl

main-queue_left : main calls ≡ ok (false, record no_objects { has_queue = true })
unfolding main
main-queue_left = refl
