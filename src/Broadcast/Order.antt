-- ===== src/Broadcast/Order.antt =====
-- What a consumer has printed, in every state that the processes reach.
use os_solutions.Broadcast.{
  Consumer, ConsumerPlace, starting, registering, locking, reading, resetting, unlocking, leaving,
  exiting, gone, System, updating, awaiting_zero, writing, releasing, awaiting_reads, ending,
  releasing_end, awaiting_end, finished, Step, produces, consumes, Reachable, here, then_step,
  new_consumer, new_system,
}
use os_solutions.Broadcast.Consuming.{consume-Holds}
use os_solutions.Broadcast.Producing.{produce-Holds}
use os_solutions.Broadcast.Rounds.{
  member, waiting, Idle, InRound, Ending, Closed, Over, Ensures, Holds, HoldsAt, moved, at_place,
}
use os_solutions.Broadcast.Tally.{tally, Each, Each-at}
use mathlib.Core.Path.{subst}
use os_solutions.Prelude.{
  ℕ, zero, suc, ◌≡◌, refl, ◌⊎◌, inl, inr, some, [], ◌∷◌, ◌++◌, get_elem?, replicate, arith,
}

Idle-members :
    (n : ℕ)
    → (tally member (replicate n new_consumer) ≡ 0)
      × (tally waiting (replicate n new_consumer) ≡ 0)
      × Each (Idle []) (replicate n new_consumer)
unfolding tally
Idle-members zero = (refl, refl, tt)
Idle-members (suc n) =
    let (no_member, no_waiting, all) = Idle-members n in
    (omega (arith, no_member), omega (arith, no_waiting), (refl, all))

pub new_system-Closed : (count n : ℕ) → Closed (new_system count n)
new_system-Closed count n =
    let (none_yet, none_waits, all) = Idle-members n in
    record {
      no_tokens = refl;
      no_reads = refl;
      members = omega (arith, none_yet);
      queued = omega (arith, none_waits);
      idle = all;
    }

Step-Holds : {s s' : System} → Step s s' → Holds s → Holds s'
Step-Holds (produces rand s s' run) h = subst (Ensures Holds) run (produce-Holds rand s h)
Step-Holds (consumes i s s' c c' get run) h =
    subst (Ensures (λ r. Holds (moved s.consumers i r))) run (consume-Holds s i c get h)

pub Reachable-Holds : {s₀ s : System} → Reachable s₀ s → Holds s₀ → Holds s
Reachable-Holds here h = h
Reachable-Holds (then_step r step) h = Step-Holds step (Reachable-Holds r h)

-- A consumer without its confirmation has printed nothing. Another has printed the messages of the
-- rounds that are over since, or that of the round that is on as well.
abbrev pub Follows : System → Consumer → Type 0
Follows s c =
    ((member c ≡ 0) × (c.printed ≡ []))
    ⊎ ((c.printed ++ c.missed ≡ s.sent)
        ⊎ ((s.producer ≡ awaiting_reads) × (c.printed ++ c.missed ≡ s.attached_mem ∷ s.sent)))

Idle-Follows :
    (s : System) (p : ConsumerPlace) (c : Consumer)
    → Idle s.sent (at_place p c)
    → Follows s (at_place p c)
Idle-Follows s starting c h = inl (refl, h)
Idle-Follows s registering c h = inl (refl, h)
Idle-Follows s locking c h = inr (inl h)
Idle-Follows s reading c h = elim h [ ]
Idle-Follows s resetting c h = elim h [ ]
Idle-Follows s unlocking c h = elim h [ ]
Idle-Follows s leaving c h = elim h [ ]
Idle-Follows s exiting c h = elim h [ ]
Idle-Follows s gone c h = elim h [ ]

InRound-Follows :
    (s : System) (p : ConsumerPlace) (c : Consumer)
    → s.producer ≡ awaiting_reads
    → InRound s.sent s.attached_mem (at_place p c)
    → Follows s (at_place p c)
InRound-Follows s starting c e h = inl (refl, h)
InRound-Follows s registering c e h = inl (refl, h)
InRound-Follows s locking c e (inl h) = inr (inl h)
InRound-Follows s locking c e (inr h) = inr (inr (e, h))
InRound-Follows s reading c e h = inr (inl h)
InRound-Follows s resetting c e h = inr (inr (e, h))
InRound-Follows s unlocking c e h = inr (inr (e, h))
InRound-Follows s leaving c e h = elim h [ ]
InRound-Follows s exiting c e h = elim h [ ]
InRound-Follows s gone c e h = elim h [ ]

Ending-Follows :
    (s : System) (p : ConsumerPlace) (c : Consumer)
    → Ending s.sent (at_place p c)
    → Follows s (at_place p c)
Ending-Follows s starting c h = inl (refl, h)
Ending-Follows s registering c h = inl (refl, h)
Ending-Follows s locking c h = inr (inl h)
Ending-Follows s reading c h = inr (inl h)
Ending-Follows s resetting c h = elim h [ ]
Ending-Follows s unlocking c h = elim h [ ]
Ending-Follows s leaving c h = inr (inl h)
Ending-Follows s exiting c h = inr (inl h)
Ending-Follows s gone c h = inr (inl h)

Holds-Follows :
    (s : System) (i : ℕ) (c : Consumer) → get_elem? s.consumers i ≡ some c → Holds s → Follows s c
Holds-Follows s i c get h =
    elim s.producer as (λ p. s.producer ≡ p → HoldsAt p s → Follows s c) [
      | updating ↦ λ e k. closed k
      | awaiting_zero ↦ λ e k. closed k
      | writing ↦ λ e k. closed k
      | releasing ↦ λ e k. closed k.0
      | awaiting_reads ↦ λ e k.
          InRound-Follows s c.place c e
            (Each-at (InRound s.sent s.attached_mem) s.consumers i c k.in_round get)
      | ending ↦ λ e k. closed k
      | releasing_end ↦ λ e k. closed k.0
      | awaiting_end ↦ λ e k. over k
      | finished ↦ λ e k. over k
    ]
      refl h
  where
    closed : Closed s → Follows s c
    closed k = Idle-Follows s c.place c (Each-at (Idle s.sent) s.consumers i c k.idle get)

    over : Over s → Follows s c
    over k = Ending-Follows s c.place c (Each-at (Ending s.sent) s.consumers i c k.ended get)

-- In every state that a producer and any number of consumers reach, in any order of their steps,
-- a consumer without its confirmation has printed nothing, and another has printed, each once
-- and in order, the messages of the rounds that are over since, or these and the message of the
-- round that is on.
pub Reachable-Follows :
    (count n i : ℕ) (s : System) (c : Consumer)
    → Reachable (new_system count n) s
    → get_elem? s.consumers i ≡ some c
    → Follows s c
Reachable-Follows count n i s c r get =
    Holds-Follows s i c get (Reachable-Holds r (new_system-Closed count n))
