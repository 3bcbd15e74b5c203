-- ===== src/Broadcast/Outside.antt =====
-- A consumer's step outside a round.
use os_solutions.Broadcast.{
  Consumer, ConsumerPlace, starting, registering, locking, reading, resetting, unlocking, leaving,
  exiting, gone, System, consume,
}
use os_solutions.Broadcast.Rounds.{member, waiting, Idle, Closed, Ensures, moved, at_place}
use os_solutions.Broadcast.Tally.{tally-set, Each-at, Each-set}
use os_solutions.Prelude.{ℕ, ◌≡◌, ap, inl, inr, some, ◌++◌, ltb, get_elem?, arith, Bool-cases}

pub consume-Closed :
    (s : System) (i : ℕ) (p : ConsumerPlace) (c : Consumer)
    → get_elem? s.consumers i ≡ some (at_place p c)
    → Closed s
    → Ensures (λ r. Closed (moved s.consumers i r)) (consume s (at_place p c))
unfolding consume
consume-Closed s i starting c get h =
    let it = Each-at (Idle s.sent) s.consumers i (at_place starting c) h.idle get in
    record {
      no_tokens = h.no_tokens;
      no_reads = h.no_reads;
      members = omega (
        arith,
        h.members,
        tally-set member s.consumers i (at_place starting c) (at_place registering c) get,
      );
      queued = omega (
        arith,
        h.queued,
        tally-set waiting s.consumers i (at_place starting c) (at_place registering c) get,
      );
      idle = Each-set (Idle s.sent) s.consumers i (at_place registering c) h.idle it;
    }
consume-Closed s i registering c get h = elim (Bool-cases (ltb 0 s.confirmations)) [
  | inl e ↦
      let it = Each-at (Idle s.sent) s.consumers i (at_place registering c) h.idle get in
      let c' : Consumer = record c { place = locking; missed = s.sent } in
      rw e (record {
        no_tokens = h.no_tokens;
        no_reads = h.no_reads;
        members =
            ground
              (arith, h.members, tally-set member s.consumers i (at_place registering c) c' get);
        queued =
            ground
              (arith, h.queued, tally-set waiting s.consumers i (at_place registering c) c' get);
        idle = Each-set (Idle s.sent) s.consumers i c' h.idle (ap (λ l. l ++ s.sent) it);
      })
  | inr e ↦ rw e tt
]
consume-Closed s i locking c get h = rw h.no_tokens tt
consume-Closed s i reading c get h =
    elim (Each-at (Idle s.sent) s.consumers i (at_place reading c) h.idle get) [ ]
consume-Closed s i resetting c get h =
    elim (Each-at (Idle s.sent) s.consumers i (at_place resetting c) h.idle get) [ ]
consume-Closed s i unlocking c get h =
    elim (Each-at (Idle s.sent) s.consumers i (at_place unlocking c) h.idle get) [ ]
consume-Closed s i leaving c get h =
    elim (Each-at (Idle s.sent) s.consumers i (at_place leaving c) h.idle get) [ ]
consume-Closed s i exiting c get h =
    elim (Each-at (Idle s.sent) s.consumers i (at_place exiting c) h.idle get) [ ]
consume-Closed s i gone c get h =
    elim (Each-at (Idle s.sent) s.consumers i (at_place gone c) h.idle get) [ ]
