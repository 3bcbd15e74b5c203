-- ===== src/Tests/Statuses.antt =====
-- Iterations of a connection of the proxy.
use os_solutions.Connection.Edges.{Gives}
use os_solutions.Connection.Loop.{Next, running, polled, Calls, after, handle_connection}
use os_solutions.Connection.State.{
  ConnectionStatus, getting_request, connecting_to_server, Connection, World, received, wrote,
}
use os_solutions.Connection.Turns.{GoesOn, handle_connection-GoesOn}
use os_solutions.Connection.Handlers.{getting_request_handler, parse_request, go_to_server}
use os_solutions.HttpUtils.{get_url_from_data, is_cache_method}
use os_solutions.Prelude.{
  ℕ, ◌%◌, ◌≡◌, refl, Bool, true, false, Option, none, some, [], ◌∷◌, length, Bytes, codes, Outcome,
  ok,
}

abbrev always : ℕ → Bool
always n = true

abbrev to_socket : Option Bytes → Outcome ℕ
to_socket host = ok 5

abbrev world : World
world = record {
  cache = record {
    size = 1;
    count = 0;
    table = some ([] ∷ []);
    hashfunc = λ key k. length key % k;
    dtor = true;
    destroyed = [];
  };
  entries = λ p. none;
  next = 4;
  to_client = [];
  to_server = [];
  closed = [];
}

abbrev newcomer : Connection
newcomer = record {
  client_socket = some 4;
  server_socket = 0;
  connection_status = getting_request;
  buffer = none;
  buffer_size = 0;
  left_to_download = none;
  cache_entry = 0;
  cache_bytes_written = 0;
}

abbrev calls : Calls
calls = record {
  poll_result =
      polled (record { hang_up = false; input = true; output = false })
        (record { hang_up = false; input = false; output = false });
  read_result = received (codes "POST http://a/b HTTP/1.0\n");
  write_result = wrote 0;
  server_sent = 0;
  stale = [];
  rounds = [];
}

handle_connection-GoesOn_example :
    Gives (handle_connection always [] to_socket 1 newcomer world calls) (GoesOn getting_request)
handle_connection-GoesOn_example =
    handle_connection-GoesOn always [] to_socket 1 newcomer world calls refl

abbrev status_of : Outcome Next → Option ConnectionStatus
status_of (ok (running conn w)) = some conn.connection_status
status_of _ = none

handle_connection-newcomer :
    status_of (handle_connection always [] to_socket 1 newcomer world calls)
    ≡ some connecting_to_server
unfolding handle_connection after getting_request_handler parse_request get_url_from_data
    is_cache_method go_to_server
handle_connection-newcomer = refl
