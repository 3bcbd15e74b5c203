-- ===== src/Connection/Handlers.antt =====
-- The handlers of one connection. A handler returns 0 or -1 in C; here `true` is 0, go on.
use os_solutions.Connection.State.{
  EntryStatus, downloading, valid, invalid, CacheEntry, ConnectionStatus, getting_request,
  connecting_to_server, writing_request, forwarding_request, forwarding_response,
  responding_from_progess_cache, responding_from_cache, Connection, World, ReadResult, received,
  read_failed, WriteResult, wrote, update, set_cache,
}
use os_solutions.HashTable.{Pointer, null, ht_get, ht_set, ht_delete}
use os_solutions.HttpUtils.{
  is_cache_method, get_url_from_data, get_host_from_url, edit_request_to_send_to_server,
}
use os_solutions.Prelude.{
  ℕ, zero, suc, ◌+◌, ◌-◌, ◌%◌, Bool, true, false, not, ◌&&◌, ◌||◌, Option, none, some, [], ◌∷◌,
  ◌++◌, ltb, leb, if◌then◌else◌, ◌==◌, take, drop, length, get_elem?, size_mod, Bytes, Outcome, ok,
  fault, ◌>>=◌, read,
}

abbrev pub Handled : Type 0
Handled = Outcome (Connection × World × Bool)

-- a read or write through `connection->cacheEntry`; a freed entry is undefined behaviour
unfoldable pub load : World → Pointer → Outcome CacheEntry
load w p = read (w.entries p)

unfoldable pub set_status : World → Pointer → EntryStatus → Outcome World
unfolding load
set_status w p s = do
  e ← load w p
  ok (record w { entries = update w.entries p (some (record e { entry_status = s })) })

-- `if (connection->cacheEntry != NULL) connection->cacheEntry->entryStatus = s`
unfoldable pub set_status_if : World → Pointer → EntryStatus → Outcome World
unfolding set_status
set_status_if w p s = elim p [ zero ↦ ok w | suc q ↦ set_status w (suc q) s ]

unfoldable pub close_socket : World → ℕ → World
close_socket w s = record w { closed = w.closed ++ s ∷ [] }

-- `fds` of `updatePollFDByConn`: whether the client and the server are polled for input, output
unfoldable pub update_poll_fd_by_conn : ConnectionStatus → (Bool × Bool) × (Bool × Bool)
update_poll_fd_by_conn getting_request = ((true, false), (false, false))
update_poll_fd_by_conn connecting_to_server = ((false, false), (false, true))
update_poll_fd_by_conn writing_request = ((false, false), (false, true))
update_poll_fd_by_conn forwarding_request = ((true, false), (false, true))
update_poll_fd_by_conn forwarding_response = ((false, true), (true, false))
update_poll_fd_by_conn responding_from_progess_cache = ((false, true), (false, false))
update_poll_fd_by_conn responding_from_cache = ((false, true), (false, false))

-- sizeof(cacheEntry_t)
abbrev pub entry_bytes : ℕ
entry_bytes = 40

-- the allocated bytes; a NULL buffer has none
abbrev pub contents : Option Bytes → Bytes
contents none = []
contents (some b) = b

-- `alloc` says whether an allocation succeeds, `beyond` is what can be read behind a buffer,
-- `connect` resolves a host and connects to it (a failure there exits the process), and `fuel`
-- bounds the calls of `ht_set`.
module _ (alloc : ℕ → Bool) (beyond : Bytes) (connect : Option Bytes → Outcome ℕ) (fuel : ℕ) where
  unfoldable pub init_server_socket_to_url : Bytes → Outcome ℕ
  unfolding get_host_from_url
  init_server_socket_to_url full_url = do host ← get_host_from_url alloc full_url; connect host

  -- lines 225 to 228 and 297 to 299: to the server, with the request line edited in place
  unfoldable pub go_to_server : Connection → Bytes → Bytes → Outcome Connection
  unfolding init_server_socket_to_url edit_request_to_send_to_server
  go_to_server conn buffer url = do
    socket ← init_server_socket_to_url url
    (edited, size) ← edit_request_to_send_to_server beyond buffer conn.buffer_size
    ok (record conn {
      connection_status = connecting_to_server;
      server_socket = socket;
      buffer = some edited;
      buffer_size = size;
    })

  -- an invalid entry is deleted from the table, which frees it; the entry that is left, and the world
  unfoldable pub drop_invalid : World → Bytes → Pointer → Outcome (Pointer × World)
  unfolding load ht_delete set_cache
  drop_invalid w url p = elim p [
    | zero ↦ ok (null, w)
    | suc q ↦ (do
      e ← load w (suc q)
      elim e.entry_status [
        | invalid ↦ (do
          table ← ht_delete (some w.cache) (some url)
          elim table [ none ↦ ok (null, w) | some t ↦ ok (null, set_cache w t) ])
        | _ ↦ ok (suc q, w)
      ])
  ]

  -- lines 243 to 274: an entry was found
  unfoldable pub use_entry : Connection → World → Pointer → Handled
  unfolding load
  use_entry conn w p = do
    e ← load w p
    elim e.entry_status [
      | valid ↦ ok (
        record conn {
          buffer = none;
          cache_entry = p;
          cache_bytes_written = 0;
          connection_status = responding_from_cache;
        },
        w,
        true,
      )
      | downloading ↦ ok (
        record conn {
          buffer = none;
          cache_entry = p;
          connection_status = responding_from_progess_cache;
        },
        record w {
          entries = update w.entries p (some (record e { waiters_count = e.waiters_count + 1 }));
        },
        true,
      )
      | invalid ↦ ok (conn, w, true)
    ]

  -- lines 278 to 305: a new entry, where there is memory for it
  unfoldable pub new_entry : World → Bytes → Outcome (Pointer × World)
  unfolding ht_set set_cache
  new_entry w url =
      if alloc entry_bytes
      then (do
        let e : CacheEntry = record {
          url = url;
          content = [];
          waiters_count = 0;
          entry_status = downloading;
        }
        r ← ht_set alloc fuel (some w.cache) (some url) w.next
        elim r.0 [
          | none ↦ ok (null, w)
          | some t ↦ ok (
            w.next,
            record (set_cache w t) {
              entries = update (set_cache w t).entries w.next (some e);
              next = w.next + 1;
            },
          )
        ])
      else ok (null, w)

  unfoldable pub cached_request : Connection → World → Bytes → Bytes → Handled
  cached_request conn w buffer url = do
    p ← ht_get (some w.cache) (some url)
    (q, w₁) ← drop_invalid w url p
    elim q [
      | suc k ↦ use_entry conn w₁ (suc k)
      | zero ↦ (do
        (fresh, w₂) ← new_entry w₁ url
        conn' ← go_to_server (record conn { cache_entry = fresh }) buffer url
        ok (conn', w₂, true))
    ]

  -- lines 214 to 311, once the bytes are in the buffer
  unfoldable pub parse_request : Connection → World → Bytes → Handled
  parse_request conn w buffer =
      if ltb 3 conn.buffer_size
      then (do
        found ← get_url_from_data alloc (buffer ++ beyond) conn.buffer_size
        elim found [
          | none ↦ ok (conn, w, true)
          | some url ↦
              if is_cache_method (buffer ++ beyond) then cached_request conn w buffer url else (do
                conn' ← go_to_server (record conn { cache_entry = null }) buffer url
                ok (conn', w, true))
        ])
      else ok (conn, w, true)

  -- A failed `read` is not tested: its -1 is added to the size, and is the length of the copy.
  unfoldable pub getting_request_handler : Connection → World → ReadResult → Handled
  getting_request_handler conn w (received []) = ok (conn, w, false)
  getting_request_handler conn w (received (c ∷ bytes)) =
      let size = conn.buffer_size + length (c ∷ bytes) in
      if alloc size
      then (let block = take conn.buffer_size (contents conn.buffer) ++ c ∷ bytes in
          parse_request (record conn { buffer = some block; buffer_size = size }) w block)
      else ok (record conn { buffer_size = size }, w, false)
  getting_request_handler conn w read_failed =
      let size = (conn.buffer_size + size_mod - 1) % size_mod in
      if alloc size then fault else ok (record conn { buffer_size = size }, w, false)

  -- `buf[size - k]`, where the index is not below 0
  unfoldable pub byte_before : Bytes → ℕ → ℕ → Outcome ℕ
  byte_before block size k = if ltb size k then fault else read (get_elem? block (size - k))

  -- the test for the end of a request, in the two places where it stands
  unfoldable pub request_ends : Bytes → Bytes → ℕ → Outcome Bool
  unfolding byte_before is_cache_method
  request_ends block memory size = do
    third ← byte_before block size 3
    last ← byte_before block size 1
    ok ((third == b'\n' && last == b'\n') || (not (last == b'\n') && not (is_cache_method memory)))

  unfoldable pub await_response : Connection → Connection
  await_response conn = record conn {
    buffer_size = 0;
    left_to_download = none;
    connection_status = forwarding_response;
  }

  -- the result of `write` to the server is not used; `sent` bytes went out
  unfoldable pub writing_request_handler : Connection → World → ℕ → Handled
  unfolding request_ends await_response
  writing_request_handler conn w sent = do
    block ← read conn.buffer
    let w' = record w { to_server = w.to_server ++ take sent (take conn.buffer_size block) }
    ends ← request_ends block (block ++ beyond) conn.buffer_size
    ok (
      if ends then await_response conn else record conn { connection_status = forwarding_request },
      w',
      true,
    )

  -- `buff` is the thread's own buffer; `stale` is what earlier reads left in it
  unfoldable pub forwarding_request_handler : Connection → World → ReadResult → Bytes → ℕ → Handled
  unfolding request_ends await_response
  forwarding_request_handler conn w read_failed stale sent = fault
  forwarding_request_handler conn w (received bytes) stale sent = do
    ends ← request_ends (bytes ++ stale) (bytes ++ stale) (length bytes)
    ok (
      if ends then await_response conn else conn,
      record w { to_server = w.to_server ++ take sent bytes },
      true,
    )

  -- lines 545 to 571, on the entry that is served
  unfoldable pub serve_entry :
      Connection → World → CacheEntry → WriteResult → Connection × World × Bool
  unfolding close_socket
  serve_entry conn w e result =
      let left = (length e.content + size_mod - conn.cache_bytes_written) % size_mod in
      let bytes_to_write = if ltb 64 left then 64 else left in
      let chunk = take bytes_to_write (drop conn.cache_bytes_written e.content) in
      let sent : Bytes = elim result [ wrote n ↦ take n chunk | _ ↦ [] ] in
      let count : ℕ = elim result [ wrote n ↦ length (take n chunk) | _ ↦ size_mod - 1 ] in
      let written = (conn.cache_bytes_written + count) % size_mod in
      let w' = record w { to_client = w.to_client ++ sent } in
      let conn' = record conn { cache_bytes_written = written } in
      if leb (length e.content) written
      then (conn', close_socket w' conn.server_socket, false)
      else (conn', w', true)

  unfoldable pub serve : Pointer → Connection → World → WriteResult → Handled
  unfolding load serve_entry
  serve zero conn w result = ok (conn, w, false)
  serve (suc p) conn w result = do e ← load w (suc p); ok (serve_entry conn w e result)

  unfoldable pub responding_from_cache_handler : Connection → World → WriteResult → Handled
  unfolding serve
  responding_from_cache_handler conn w result = serve conn.cache_entry conn w result
