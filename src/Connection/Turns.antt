-- ===== src/Connection/Turns.antt =====
-- An iteration leads a connection along the order of the statuses.
use os_solutions.Connection.Handlers.{responding_from_cache_handler}
use os_solutions.Connection.Loop.{
  Next, running, stopped, PollResult, poll_failed, timed_out, polled, Calls, Revents, after,
  thread_exit_handler, wait_for_entry, dispatch, handle_connection,
}
use os_solutions.Connection.Response.{forwarding_response_handler}
use os_solutions.Connection.State.{
  ConnectionStatus, getting_request, connecting_to_server, writing_request, forwarding_request,
  forwarding_response, responding_from_progess_cache, responding_from_cache, Connection, World,
}
use mathlib.Core.Path.{subst}
use os_solutions.HashTable.{Pointer}
use os_solutions.Prelude.{
  ℕ, ◌≡◌, refl, sym, ap, ◌∙◌, Bool, true, false, ◌&&◌, ◌||◌, ◌⊎◌, inl, inr, Option, none, some,
  Bytes, Outcome, ok, abort, fault, timeout, ◌>>=◌, Bool-cases,
}
use os_solutions.Connection.Edges.{
  Edge, stays, connected, Gives, Gives-bind, Gives-if, Gives-then, Moves, either, has_needs,
  is_ready,
}
use os_solutions.Connection.Requests.{
  forwarding_request_handler-Gives, getting_request_handler-Gives,
  responding_from_cache_handler-Gives, writing_request_handler-Gives,
}
use os_solutions.Connection.Replies.{Forwards, forwarding_response_handler-Gives}

-- The thread goes on from the status `s` along an edge, with what its status needs, or it ends.
abbrev pub GoesOn : ConnectionStatus → Next → Type 0
GoesOn s (running conn w) = Edge s conn.connection_status × (is_ready conn ≡ true)
GoesOn s (stopped w) = Unit

after-Gives :
    (s : ConnectionStatus) (m : Outcome (Connection × World × Bool))
    → Gives m (Moves s)
    → Gives (after m) (GoesOn s)
unfolding after
after-Gives s m h = Gives-bind (Moves s) (GoesOn s) m _ h λ r k. elim (Bool-cases r.2) [
  | inl x ↦ rw x k
  | inr x ↦ rw x (Gives-then (GoesOn s) (thread_exit_handler r.0 r.1) _ λ w. tt)
]

-- nothing is done in this iteration
still :
    (s : ConnectionStatus) (conn : Connection) (w : World)
    → conn.connection_status ≡ s
    → is_ready conn ≡ true
    → GoesOn s (running conn w)
still s conn w e h = (rw e stays, h)

stops :
    (s : ConnectionStatus) (conn : Connection) (w : World)
    → Gives (thread_exit_handler conn w >>= λ w'. ok (stopped w')) (GoesOn s)
stops s conn w = Gives-then (GoesOn s) (thread_exit_handler conn w) _ λ w'. tt

-- the request of a connection stays behind the connecting
connected_needs :
    (buffer : Option Bytes) (p : Pointer)
    → has_needs connecting_to_server buffer p ≡ true
    → has_needs writing_request buffer p ≡ true
connected_needs none p h = h
connected_needs (some b) p h = refl

Forwards-Moves : (r : Connection × World × Bool) → Forwards r → Moves forwarding_response r
Forwards-Moves r h = (rw h stays, ap (λ s. has_needs s r.0.buffer r.0.cache_entry) h)

Gives-map {ℓ} :
    {A : Type ℓ} (P Q : A → Type 0) (m : Outcome A) → Gives m P → ((a : A) → P a → Q a) → Gives m Q
Gives-map P Q (ok a) h step = step a h
Gives-map P Q abort h step = tt
Gives-map P Q fault h step = tt
Gives-map P Q timeout h step = tt

PollResult-cases :
    (r : PollResult)
    → (r ≡ poll_failed)
      ⊎ ((r ≡ timed_out) ⊎ ((client : Revents) × (server : Revents) × (r ≡ polled client server)))
PollResult-cases poll_failed = inl refl
PollResult-cases timed_out = inr (inl refl)
PollResult-cases (polled client server) = inr (inr (client, server, refl))

module _ (alloc : ℕ → Bool) (beyond : Bytes) (connect : Option Bytes → Outcome ℕ) (fuel : ℕ) where
  dispatch-Gives :
      (s : ConnectionStatus) (conn : Connection) (w : World) (calls : Calls)
      (client server : Revents)
      → conn.connection_status ≡ s
      → is_ready conn ≡ true
      → Gives (dispatch alloc beyond connect fuel s conn w calls client server) (GoesOn s)
  unfolding dispatch
  dispatch-Gives getting_request conn w calls client server e h =
      Gives-if (GoesOn getting_request) client.hang_up _ _ (stops getting_request conn w) (
        Gives-if (GoesOn getting_request) client.input _ _
          (after-Gives getting_request _
            (getting_request_handler-Gives alloc beyond connect fuel conn w calls.read_result e))
          (still getting_request conn w e h))
  dispatch-Gives connecting_to_server conn w calls client server e h =
      let needs : has_needs connecting_to_server conn.buffer conn.cache_entry ≡ true =
        ap (λ t. has_needs t conn.buffer conn.cache_entry) (sym e) ∙ h in
      either (λ c. Edge connecting_to_server c.connection_status × (is_ready c ≡ true))
        server.output _ _ (connected, connected_needs conn.buffer conn.cache_entry needs)
        (rw e stays, h)
  dispatch-Gives writing_request conn w calls client server e h =
      Gives-if (GoesOn writing_request) server.output _ _
        (after-Gives writing_request _
          (writing_request_handler-Gives alloc beyond connect fuel conn w calls.server_sent e))
        (still writing_request conn w e h)
  dispatch-Gives forwarding_request conn w calls client server e h =
      Gives-if (GoesOn forwarding_request) (client.input && server.output) _ _
        (after-Gives forwarding_request _ (
          forwarding_request_handler-Gives alloc beyond connect fuel conn w calls.read_result
            calls.stale calls.server_sent e))
        (still forwarding_request conn w e h)
  dispatch-Gives forwarding_response conn w calls client server e h =
      Gives-if (GoesOn forwarding_response)
        (client.output || (elim conn.client_socket [ none ↦ true | some _ ↦ false ])) _
        (ok (running conn w))
        (after-Gives forwarding_response _ (
          Gives-map Forwards (Moves forwarding_response)
            (forwarding_response_handler alloc beyond conn w calls.read_result calls.write_result)
            (forwarding_response_handler-Gives alloc beyond conn w calls.read_result
              calls.write_result e)
            Forwards-Moves))
        (still forwarding_response conn w e h)
  dispatch-Gives responding_from_cache conn w calls client server e h =
      Gives-if (GoesOn responding_from_cache) client.output _ _
        (after-Gives responding_from_cache _ (
          subst
            (λ t.
              Gives
                (responding_from_cache_handler alloc beyond connect fuel conn w calls.write_result)
                (Moves t))
            e
            (responding_from_cache_handler-Gives alloc beyond connect fuel conn w calls.write_result
              h)))
        (still responding_from_cache conn w e h)
  dispatch-Gives responding_from_progess_cache conn w calls client server e h =
      Gives-if (GoesOn responding_from_progess_cache) client.output _ _
        (Gives-then (GoesOn responding_from_progess_cache) (wait_for_entry conn w calls.rounds) _
          λ w'. stops responding_from_progess_cache conn w')
        (still responding_from_progess_cache conn w e h)

  -- From a connection that has a buffer if it is to write a request and an entry if it is to
  -- answer from one, an iteration that ends without a fault stops the thread, or goes on with
  -- such a connection, in the same status or in one that follows it: from the request to the
  -- server or to an entry, from the server to writing, to forwarding the request or the
  -- response.
  pub handle_connection-GoesOn :
      (conn : Connection) (w : World) (calls : Calls)
      → is_ready conn ≡ true
      → Gives
          (handle_connection alloc beyond connect fuel conn w calls)
          (GoesOn conn.connection_status)
  unfolding handle_connection
  handle_connection-GoesOn conn w calls h = elim (PollResult-cases calls.poll_result) [
    | inl x ↦ rw x (stops conn.connection_status conn w)
    | inr (inl x) ↦ rw x (stays, h)
    | inr (inr (client, server, x)) ↦ rw x (
        dispatch-Gives conn.connection_status conn w
          (record calls { poll_result = polled client server }) client server refl h)
  ]
