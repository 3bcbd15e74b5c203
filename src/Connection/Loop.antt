-- ===== src/Connection/Loop.antt =====
-- One iteration of `handleConnection`, the waiters' loop and the end of the thread.
use os_solutions.Connection.Handlers.{
  Handled, load, close_socket, getting_request_handler, writing_request_handler,
  forwarding_request_handler, responding_from_cache_handler,
}
use os_solutions.Connection.Response.{forwarding_response_handler}
use os_solutions.Connection.State.{
  EntryStatus, downloading, invalid, ConnectionStatus, getting_request, connecting_to_server,
  writing_request, forwarding_request, forwarding_response, responding_from_progess_cache,
  responding_from_cache, Connection, World, ReadResult, WriteResult, wrote, broken_pipe, update,
}
use os_solutions.Prelude.{
  ℕ, zero, suc, ◌+◌, ◌-◌, ◌%◌, Bool, true, false, ◌&&◌, ◌||◌, Option, none, some, List, [], ◌∷◌,
  ◌++◌, ltb, if◌then◌else◌, ◌==◌, size_mod, drop, take, Bytes, Outcome, ok, ◌>>=◌,
}

pub record Revents : Type 0 where
  pub hang_up : Bool
  pub input : Bool
  pub output : Bool

-- `poll` fails, times out, or reports on the client and the server.
pub data PollResult : Type 0 where
  poll_failed : PollResult
  timed_out : PollResult
  polled : Revents → Revents → PollResult

-- A round of the waiting loop, while other threads write: the status, `dataCount` at the test and
-- the content at the `write` (lines 172 and 173), the result of `write`, and `dataCount` at line
-- 176. The reads are not synchronised, and each may see another state.
pub record WaitRound : Type 0 where
  pub status : EntryStatus
  pub tested : ℕ
  pub written : Bytes
  pub write_result : WriteResult
  pub kept : ℕ

-- What the calls of an iteration return: `poll`, the `read`, the `write` to the client, how many
-- bytes a `write` to the server sends, and what earlier reads left in `buff`. `rounds` is what the
-- waiting loop sees: the entry at each round, and the result of its `write`.
pub record Calls : Type 0 where
  pub poll_result : PollResult
  pub read_result : ReadResult
  pub write_result : WriteResult
  pub server_sent : ℕ
  pub stale : Bytes
  pub rounds : List WaitRound

unfoldable pub is_downloading : EntryStatus → Bool
is_downloading downloading = true
is_downloading _ = false

-- `close` of the client; on the value -1 it does nothing
unfoldable pub close_client : World → Option ℕ → World
unfolding close_socket
close_client w none = w
close_client w (some s) = close_socket w s

-- An entry that is left half downloaded with no waiters is invalid. The connection is freed.
unfoldable pub thread_exit_handler : Connection → World → Outcome World
unfolding load close_client is_downloading
thread_exit_handler conn w =
    let w' = close_client w conn.client_socket in
    elim conn.cache_entry [
      | zero ↦ ok w'
      | suc p ↦ (do
        e ← load w' (suc p)
        ok (
            if is_downloading e.entry_status && e.waiters_count == 0
            then record w' {
              entries = update w'.entries (suc p) (some (record e { entry_status = invalid }));
            }
            else w'))
    ]

-- The waiting loop over the rounds that it sees, from `last_size` on: what is sent to the client.
-- A round with the entry still downloading sends what is new; the first other round is the last.
unfoldable pub responding_from_progess_cache_rounds : ℕ → List WaitRound → Bytes
responding_from_progess_cache_rounds last_size [] = []
responding_from_progess_cache_rounds last_size (r ∷ rounds) =
    let is_new = ltb last_size r.tested in
    let fresh : Bytes = elim r.write_result [
      | wrote n ↦ take n (drop last_size r.written)
      | _ ↦ []
    ] in
    let sent : Bytes = if is_new then fresh else [] in
    let later = responding_from_progess_cache_rounds r.kept rounds in
    let gone : Bool = elim r.write_result [ broken_pipe ↦ true | _ ↦ false ] in
    elim r.status [ downloading ↦ (if is_new && gone then sent else sent ++ later) | _ ↦ sent ]

-- the handler always returns -1, and the loop then takes the waiter off the entry
unfoldable pub wait_for_entry : Connection → World → List WaitRound → Outcome World
unfolding load responding_from_progess_cache_rounds
wait_for_entry conn w rounds = do
  e ← load w conn.cache_entry
  ok (record w {
    to_client = w.to_client ++ responding_from_progess_cache_rounds 0 rounds;
    entries =
        update w.entries conn.cache_entry
          (some (record e { waiters_count = (e.waiters_count + size_mod - 1) % size_mod }));
  })

-- after an iteration the thread goes on with its connection, or has ended
pub data Next : Type 0 where
  running : Connection → World → Next
  stopped : World → Next

unfoldable pub after : Handled → Outcome Next
after handled = do
  r ← handled
  elim r.2 [
    | true ↦ ok (running r.0 r.1)
    | false ↦ (do w ← thread_exit_handler r.0 r.1; ok (stopped w))
  ]

module _ (alloc : ℕ → Bool) (beyond : Bytes) (connect : Option Bytes → Outcome ℕ) (fuel : ℕ) where
  -- the `switch` on the status
  unfoldable pub dispatch :
      ConnectionStatus → Connection → World → Calls → Revents → Revents → Outcome Next
  dispatch getting_request conn w calls client server =
      if client.hang_up
      then (do w' ← thread_exit_handler conn w; ok (stopped w'))
      else if client.input
      then after (getting_request_handler alloc beyond connect fuel conn w calls.read_result)
      else ok (running conn w)
  dispatch connecting_to_server conn w calls client server = ok (
      running (if server.output then record conn { connection_status = writing_request } else conn)
        w)
  dispatch writing_request conn w calls client server =
      if server.output
      then after (writing_request_handler alloc beyond connect fuel conn w calls.server_sent)
      else ok (running conn w)
  dispatch forwarding_request conn w calls client server =
      if client.input && server.output
      then after (
          forwarding_request_handler alloc beyond connect fuel conn w calls.read_result calls.stale
            calls.server_sent)
      else ok (running conn w)
  dispatch forwarding_response conn w calls client server =
      let gone : Bool = elim conn.client_socket [ none ↦ true | some _ ↦ false ] in
      if client.output || gone
      then after
          (forwarding_response_handler alloc beyond conn w calls.read_result calls.write_result)
      else ok (running conn w)
  dispatch responding_from_cache conn w calls client server =
      if client.output
      then after (responding_from_cache_handler alloc beyond connect fuel conn w calls.write_result)
      else ok (running conn w)
  dispatch responding_from_progess_cache conn w calls client server =
      if client.output
      then (do
        w' ← wait_for_entry conn w calls.rounds
        w'' ← thread_exit_handler conn w'
        ok (stopped w''))
      else ok (running conn w)

  unfoldable pub handle_connection : Connection → World → Calls → Outcome Next
  unfolding dispatch
  handle_connection conn w calls = elim calls.poll_result [
    | poll_failed ↦ (do w' ← thread_exit_handler conn w; ok (stopped w'))
    | timed_out ↦ ok (running conn w)
    | polled client server ↦ dispatch conn.connection_status conn w calls client server
  ]
