-- ===== src/Broadcast/Consuming.antt =====
-- A consumer's step keeps what holds.
use os_solutions.Broadcast.Outside.{consume-Closed}
use os_solutions.Broadcast.Turns.{stepped, consume-Open}
use os_solutions.Broadcast.{
  Consumer, ConsumerPlace, starting, registering, locking, reading, resetting, unlocking, leaving,
  exiting, gone, System, ProducerPlace, updating, awaiting_zero, writing, releasing, awaiting_reads,
  ending, releasing_end, awaiting_end, finished, read_message, consume,
}
use os_solutions.Broadcast.Rounds.{
  Ending, Closed, Open, Over, Ensures, Holds, HoldsAt, moved, at_place,
}
use os_solutions.Broadcast.Tally.{Each-at, Each-set}
use mathlib.Core.Path.{subst}
use os_solutions.Prelude.{
  ℕ, ◌+◌, ◌-◌, ◌≡◌, refl, sym, ap, ◌∙◌, inl, inr, Option, none, some, ◌++◌, ◌==◌, ltb, get_elem?,
  Bool-cases,
}

-- behind the last message no consumer prints
Over-moved :
    (s s' : System) (i : ℕ) (c' : Consumer)
    → Over s
    → s'.attached_mem ≡ s.attached_mem
    → s'.sent ≡ s.sent
    → Ending s.sent c'
    → Over (moved s.consumers i (s', c'))
Over-moved s s' i c' h mem hist it = record {
  no_text = mem ∙ h.no_text;
  ended = rw hist (Each-set (Ending s.sent) s.consumers i c' h.ended it);
}

consume-Ending :
    (s : System) (i : ℕ) (p : ConsumerPlace) (c : Consumer)
    → Over s
    → Ending s.sent (at_place p c)
    → Ensures (λ r. Over (moved s.consumers i r)) (consume s (at_place p c))
unfolding consume read_message
consume-Ending s i starting c h it =
    Over-moved s (stepped s (s.registrations + 1) s.confirmations s.sem_consumer s.sem_producer) i _
      h refl refl it
consume-Ending s i registering c h it = elim (Bool-cases (ltb 0 s.confirmations)) [
  | inl e ↦ rw e (
      Over-moved s (stepped s s.registrations (s.confirmations - 1) s.sem_consumer s.sem_producer) i
        _ h refl refl (ap (λ l. l ++ s.sent) it))
  | inr e ↦ rw e tt
]
consume-Ending s i locking c h it = elim (Bool-cases (ltb 0 s.sem_consumer)) [
  | inl e ↦ rw e (
      Over-moved s (stepped s s.registrations s.confirmations (s.sem_consumer - 1) s.sem_producer) i
        _ h refl refl it)
  | inr e ↦ rw e tt
]
consume-Ending s i reading c h it =
    let left : read_message s.attached_mem (at_place reading c) ≡ at_place leaving c =
      rw h.no_text refl in
    Over-moved s s i (read_message s.attached_mem (at_place reading c)) h refl refl (rw left it)
consume-Ending s i resetting c h it = elim it [ ]
consume-Ending s i unlocking c h it = elim it [ ]
consume-Ending s i leaving c h it =
    Over-moved s (stepped s s.registrations s.confirmations s.sem_consumer (s.sem_producer + 1)) i _
      h refl refl it
consume-Ending s i exiting c h it =
    Over-moved s
      (stepped s s.registrations s.confirmations (s.sem_consumer + c.locked)
        (s.sem_producer - c.unlocked))
      i _ h refl refl it
consume-Ending s i gone c h it = tt

consume-Over :
    (s : System) (i : ℕ) (c : Consumer)
    → get_elem? s.consumers i ≡ some c
    → Over s
    → Ensures (λ r. Over (moved s.consumers i r)) (consume s c)
consume-Over s i c get h =
    consume-Ending s i c.place c h (Each-at (Ending s.sent) s.consumers i c h.ended get)

-- a consumer moves neither the producer nor the text
consume_same :
    (s : System) (p : ConsumerPlace) (c : Consumer)
    → Ensures
        (λ r. (r.0.producer ≡ s.producer) × (r.0.attached_mem ≡ s.attached_mem))
        (consume s (at_place p c))
unfolding consume
consume_same s starting c = (refl, refl)
consume_same s registering c = elim (Bool-cases (ltb 0 s.confirmations)) [
  | inl e ↦ rw e (refl, refl)
  | inr e ↦ rw e tt
]
consume_same s locking c = elim (Bool-cases (ltb 0 s.sem_consumer)) [
  | inl e ↦ rw e (refl, refl)
  | inr e ↦ rw e tt
]
consume_same s reading c = (refl, refl)
consume_same s resetting c = elim (Bool-cases (s.sem_consumer == 0)) [
  | inl e ↦ rw e (refl, refl)
  | inr e ↦ rw e tt
]
consume_same s unlocking c = (refl, refl)
consume_same s leaving c = (refl, refl)
consume_same s exiting c = (refl, refl)
consume_same s gone c = tt

-- what every result of two kinds has, it has together
Ensures-both :
    {A : Type 0} (P Q R : A → Type 0) (o : Option A)
    → ((a : A) → P a → Q a → R a)
    → Ensures P o
    → Ensures Q o
    → Ensures R o
Ensures-both P Q R none f p q = tt
Ensures-both P Q R (some a) f p q = f a p q

-- in every phase
pub consume-Holds :
    (s : System) (i : ℕ) (c : Consumer)
    → get_elem? s.consumers i ≡ some c
    → Holds s
    → Ensures (λ r. Holds (moved s.consumers i r)) (consume s c)
consume-Holds s i c get h =
    elim s.producer
        as (λ p.
          s.producer ≡ p
          → HoldsAt p s
          → Ensures (λ r. Holds (moved s.consumers i r)) (consume s c)) [
            | updating ↦
                λ e k. stays updating e Closed (λ r p m. p) (consume-Closed s i c.place c get k)
            | awaiting_zero ↦ λ e k.
                stays awaiting_zero e Closed (λ r p m. p) (consume-Closed s i c.place c get k)
            | writing ↦
                λ e k. stays writing e Closed (λ r p m. p) (consume-Closed s i c.place c get k)
            | releasing ↦ λ e k.
                stays releasing e Closed (λ r p m. (p, λ q. k.1 (sym m ∙ q)))
                  (consume-Closed s i c.place c get k.0)
            | awaiting_reads ↦
                λ e k. stays awaiting_reads e Open (λ r p m. p) (consume-Open s i c.place c get k)
            | ending ↦
                λ e k. stays ending e Closed (λ r p m. p) (consume-Closed s i c.place c get k)
            | releasing_end ↦ λ e k.
                stays releasing_end e Closed (λ r p m. (p, m ∙ k.1))
                  (consume-Closed s i c.place c get k.0)
            | awaiting_end ↦
                λ e k. stays awaiting_end e Over (λ r p m. p) (consume-Over s i c get k)
            | finished ↦ λ e k. stays finished e Over (λ r p m. p) (consume-Over s i c get k)
          ]
      refl h
  where
    stays :
        (p : ProducerPlace)
        → s.producer ≡ p
        → (P : System → Type 0)
        → ((r : System × Consumer)
            → P (moved s.consumers i r)
            → r.0.attached_mem ≡ s.attached_mem
            → HoldsAt p (moved s.consumers i r))
        → Ensures (λ r. P (moved s.consumers i r)) (consume s c)
        → Ensures (λ r. Holds (moved s.consumers i r)) (consume s c)
    stays p e P f = λ k.
        Ensures-both (λ r. P (moved s.consumers i r))
          (λ r. (r.0.producer ≡ s.producer) × (r.0.attached_mem ≡ s.attached_mem))
          (λ r. Holds (moved s.consumers i r)) (consume s c)
          (λ r q same.
            subst (λ l. HoldsAt l (moved s.consumers i r)) (sym (same.0 ∙ e)) (f r q same.1))
          k (consume_same s c.place c)
