-- ===== src/Broadcast/Turns.antt =====
-- A consumer's step inside a round.
use os_solutions.Broadcast.{
  Consumer, ConsumerPlace, starting, registering, locking, reading, resetting, unlocking, leaving,
  exiting, gone, System, read_message, consume,
}
use os_solutions.Broadcast.Rounds.{
  seen, member, waiting, passing, fresh, done, InRound, Open, Ensures, moved, at_place,
  fresh-before, done-before, fresh-behind, done-behind,
}
use os_solutions.Broadcast.Tally.{tally-set, tally-ge, Each-at, Each-set}
use os_solutions.Prelude.{
  ℕ, ◌+◌, ◌≤◌, ◌<◌, ◌≡◌, refl, sym, ap, ◌∙◌, inl, inr, some, [], ◌∷◌, ◌++◌, ◌==◌, ltb, get_elem?,
  arith, Bool-cases, ltb→lt, ==_iff,
}

-- the four numbers that a consumer's step changes
abbrev pub stepped : System → ℕ → ℕ → ℕ → ℕ → System
stepped s regs confs sem_c sem_p = record s {
  registrations = regs;
  confirmations = confs;
  sem_consumer = sem_c;
  sem_producer = sem_p;
}

-- A step inside a round that keeps the balance of the consumer's weights and those numbers.
Open-moved :
    (s : System) (i : ℕ) (c c' : Consumer) (regs confs sem_c sem_p : ℕ)
    → get_elem? s.consumers i ≡ some c
    → Open s
    → sem_c + fresh s.sent c + s.confirmations ≡ s.sem_consumer + fresh s.sent c' + confs
    → sem_p + done s.sent c ≡ s.sem_producer + done s.sent c'
    → member c' + confs ≡ member c + s.confirmations
    → regs + confs + waiting c ≡ s.registrations + s.confirmations + waiting c'
    → (0 < sem_c → (0 < s.sem_consumer) × (passing c' + done s.sent c' ≤ passing c + done s.sent c))
    → InRound s.sent s.attached_mem c'
    → Open (moved s.consumers i (stepped s regs confs sem_c sem_p, c'))
Open-moved s i c c' regs confs sem_c sem_p get h tokens reads members queued barrier it = record {
  tokens = omega (arith, h.tokens, tokens, tally-set (fresh s.sent) s.consumers i c c' get);
  reads = omega (arith, h.reads, reads, tally-set (done s.sent) s.consumers i c c' get);
  barrier = λ k.
      let (some_tokens, less) = barrier k in
      omega (
        arith,
        h.barrier some_tokens,
        less,
        tally-set (done s.sent) s.consumers i c c' get,
        tally-set passing s.consumers i c c' get,
      );
  members = omega (arith, h.members, members, tally-set member s.consumers i c c' get);
  queued = omega (arith, h.queued, queued, tally-set waiting s.consumers i c c' get);
  some_text = h.some_text;
  in_round = Each-set (InRound s.sent s.attached_mem) s.consumers i c' h.in_round it;
}

pub consume-Open :
    (s : System) (i : ℕ) (p : ConsumerPlace) (c : Consumer)
    → get_elem? s.consumers i ≡ some (at_place p c)
    → Open s
    → Ensures (λ r. Open (moved s.consumers i r)) (consume s (at_place p c))
unfolding consume
consume-Open s i starting c get h =
    Open-moved s i (at_place starting c) (at_place registering c) _ _ _ _ get h (omega arith)
      (omega arith) (omega arith) (omega arith) (λ k. (k, omega arith))
      (Each-at (InRound s.sent s.attached_mem) s.consumers i (at_place starting c) h.in_round get)
consume-Open s i registering c get h = elim (Bool-cases (ltb 0 s.confirmations)) [
  | inl e ↦
      let it : c.printed ≡ [] =
        Each-at (InRound s.sent s.attached_mem) s.consumers i (at_place registering c) h.in_round
          get in
      let c' : Consumer = record c { place = locking; missed = s.sent } in
      let is_seen : seen c' ≡ s.sent = ap (λ l. l ++ s.sent) it in
      let some_confirmation : 0 < s.confirmations = ltb→lt 0 s.confirmations e in
      let f = fresh-before s.sent c' is_seen in
      let d = done-before s.sent c' is_seen in
      rw e (
        Open-moved s i (at_place registering c) c' _ _ _ _ get h (omega (arith, f))
          (omega (arith, d)) (omega arith) (omega arith) (λ k. (k, omega (arith, d))) (inl is_seen))
  | inr e ↦ rw e tt
]
consume-Open s i locking c get h = elim (Bool-cases (ltb 0 s.sem_consumer)) [
  | inl e ↦
      let some_tokens : 0 < s.sem_consumer = ltb→lt 0 s.sem_consumer e in
      rw e
        (elim (Each-at (InRound s.sent s.attached_mem) s.consumers i (at_place locking c) h.in_round
          get) [
            | inl before ↦
                let f = fresh-before s.sent c before in
                let d = done-before s.sent c before in
                Open-moved s i (at_place locking c)
                  (record c { place = reading; locked = c.locked + 1 }) _ _ _ _ get h
                  (omega (arith, f)) (omega (arith, d)) (omega arith) (omega arith)
                  (λ k. (some_tokens, omega arith)) before
            | inr behind ↦
                let d = done-behind s.sent c s.attached_mem behind in
                absurd (
                  omega (
                    arith,
                    d,
                    h.barrier some_tokens,
                    tally-ge (done s.sent) s.consumers i (at_place locking c) get,
                  ))
          ])
  | inr e ↦ rw e tt
]
consume-Open s i reading c get h =
    let it : seen c ≡ s.sent =
      Each-at (InRound s.sent s.attached_mem) s.consumers i (at_place reading c) h.in_round get in
    elim s.attached_mem
        as (λ m.
          s.attached_mem ≡ m
          → Ensures (λ r. Open (moved s.consumers i r))
              (some (s, read_message m (at_place reading c)))) [
                | [] ↦ λ e. absurd (h.some_text e)
                | b ∷ text ↦ λ e.
                    let c' : Consumer = record c {
                      place = resetting;
                      printed = (b ∷ text) ∷ c.printed;
                    } in
                    unfold read_message in
                    Open-moved s i (at_place reading c) c' _ _ _ _ get h (omega arith) (omega arith)
                      (omega arith) (omega arith) (λ k. (k, omega arith))
                      (ap (λ l. (b ∷ text) ∷ l) it ∙ ap (λ m. m ∷ s.sent) (sym e))
              ]
      refl
consume-Open s i resetting c get h = elim (Bool-cases (s.sem_consumer == 0)) [
  | inl e ↦
      let none_left : s.sem_consumer ≡ 0 = (==_iff s.sem_consumer 0).0 e in
      rw e (
        Open-moved s i (at_place resetting c) (at_place unlocking c) _ _ _ _ get h (omega arith)
          (omega arith) (omega arith) (omega arith) (λ k. absurd (omega arith))
          (Each-at (InRound s.sent s.attached_mem) s.consumers i (at_place resetting c) h.in_round
            get))
  | inr e ↦ rw e tt
]
consume-Open s i unlocking c get h =
    let it : seen c ≡ s.attached_mem ∷ s.sent =
      Each-at (InRound s.sent s.attached_mem) s.consumers i (at_place unlocking c) h.in_round get in
    let f = fresh-behind s.sent c s.attached_mem it in
    let d = done-behind s.sent c s.attached_mem it in
    Open-moved s i (at_place unlocking c) (record c { place = locking; unlocked = c.unlocked + 1 })
      _ _ _ _ get h (omega (arith, f)) (omega (arith, d)) (omega arith) (omega arith)
      (λ k. (k, omega (arith, d))) (inr it)
consume-Open s i leaving c get h =
    elim (Each-at (InRound s.sent s.attached_mem) s.consumers i (at_place leaving c) h.in_round
      get) [ ]
consume-Open s i exiting c get h =
    elim (Each-at (InRound s.sent s.attached_mem) s.consumers i (at_place exiting c) h.in_round
      get) [ ]
consume-Open s i gone c get h =
    elim (Each-at (InRound s.sent s.attached_mem) s.consumers i (at_place gone c) h.in_round
      get) [ ]
