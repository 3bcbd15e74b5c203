-- ===== src/Connection/Response.antt =====
-- `forwardingResponse`: the server's bytes go to the client, to the cache entry, and through the
-- header parser until the end of the headers.
use os_solutions.Connection.Handlers.{
  Handled, load, set_status, set_status_if, close_socket, contents,
}
use os_solutions.Connection.State.{
  valid, invalid, Connection, World, ReadResult, received, read_failed, WriteResult, wrote,
  broken_pipe, write_failed, update,
}
use os_solutions.HashTable.{Pointer, null}
use os_solutions.HttpUtils.{
  get_response_code_from_data, get_content_length_from_data, is_response_has_payload,
}
use os_solutions.Prelude.{
  ℕ, zero, suc, ◌+◌, ◌-◌, Bool, true, false, ◌&&◌, Option, none, some, [], ◌∷◌, ◌++◌, ltb,
  if◌then◌else◌, ◌==◌, take, length, Bytes, Outcome, ok, fault, ◌>>=◌,
}

-- the first `j` with a newline at `j` and at `j + 2`
unfoldable pub find_blank_line : Bytes → ℕ → Option ℕ
find_blank_line (a ∷ (b ∷ (c ∷ s))) j =
    let rest = find_blank_line (b ∷ (c ∷ s)) (j + 1) in
    if a == b'\n' && c == b'\n' then some j else rest
find_blank_line _ j = none

-- the entry is complete, the server is closed, and the thread ends
unfoldable pub finish_entry : Connection → World → Handled
unfolding set_status_if close_socket
finish_entry conn w = do
  w' ← set_status_if w conn.cache_entry valid
  ok (conn, close_socket w' conn.server_socket, false)

-- lines 394 to 397: EPIPE marks the client as gone
unfoldable pub write_to : Option ℕ → WriteResult → Connection → World → Bytes → Connection × World
write_to none result conn w bytes = (conn, w)
write_to (some zero) result conn w bytes = (conn, w)
write_to (some (suc _)) (wrote n) conn w bytes =
    (conn, record w { to_client = w.to_client ++ take n bytes })
write_to (some (suc _)) broken_pipe conn w bytes = (record conn { client_socket = none }, w)
write_to (some (suc _)) write_failed conn w bytes = (conn, w)

unfoldable pub write_client : Connection → World → Bytes → WriteResult → Connection × World
unfolding write_to
write_client conn w bytes result = write_to conn.client_socket result conn w bytes

unfoldable pub is_gone : Option ℕ → Bool
is_gone none = true
is_gone (some s) = false

module _ (alloc : ℕ → Bool) (beyond : Bytes) where
  -- lines 404 to 420; none where the thread ends. `realloc` is not tested here.
  unfoldable pub cache_bytes : Pointer → Connection → World → Bytes → Outcome (Option World)
  unfolding load is_gone
  cache_bytes zero conn w bytes = ok (some w)
  cache_bytes (suc p) conn w bytes = do
    e ← load w (suc p)
    let grown = e.content ++ bytes
    let w' = record w { entries = update w.entries (suc p) (some (record e { content = grown })) }
    (if e.waiters_count == 0 && is_gone conn.client_socket
        then ok none
        else if alloc (length grown)
        then ok (some w')
        else fault)

  -- lines 445 to 470, with a positive Content-Length; `code` is none for -1
  unfoldable pub with_length : Connection → World → Option ℕ → ℕ → ℕ → Handled
  unfolding set_status finish_entry
  with_length conn w code content_length j = do
    (conn', w') ←
        (if (elim code as (λ _. Bool) [ none ↦ false | some c ↦ c == 200 ])
          then ok (conn, w)
          else (do
            w' ← set_status w conn.cache_entry invalid
            ok (record conn { cache_entry = null }, w')))
    (if ltb conn.buffer_size (content_length + (j + 3))
        then ok (
          record conn' {
            left_to_download = some (content_length + (j + 3) - conn.buffer_size);
            buffer = none;
            buffer_size = 0;
          },
          w',
          true,
        )
        else finish_entry conn' w')

  -- lines 472 to 489, with no Content-Length
  unfoldable pub without_length : Connection → World → Option ℕ → Handled
  unfolding set_status close_socket
  without_length conn w code = do
    w' ← set_status w conn.cache_entry invalid
    ok (
        if is_response_has_payload code
        then (conn, w', true)
        else (conn, close_socket w' conn.server_socket, false))

  -- lines 435 to 489
  unfoldable pub headers_acquired : Connection → World → Bytes → ℕ → Handled
  headers_acquired conn w block j = do
    code ← get_response_code_from_data (block ++ beyond)
    content_length ← get_content_length_from_data (block ++ beyond) conn.buffer_size
    elim content_length [ some n ↦ with_length conn w code n j | none ↦ without_length conn w code ]

  -- lines 424 to 493; with one byte the loop's bound wraps around
  unfoldable pub read_headers : Connection → World → Bytes → Handled
  read_headers conn w bytes =
      let size = conn.buffer_size + length bytes in
      let block = take conn.buffer_size (contents conn.buffer) ++ bytes in
      let conn' = record conn { buffer = some block; buffer_size = size } in
      if alloc size
      then (if ltb size 2 then fault else elim (find_blank_line block 0) [
        | none ↦ ok (conn', w, true)
        | some j ↦ headers_acquired conn' w block j
      ])
      else fault

  -- lines 495 to 508
  unfoldable pub count_down : Connection → World → ℕ → ℕ → Handled
  count_down conn w left n =
      if ltb n left
      then ok (record conn { left_to_download = some (left - n) }, w, true)
      else finish_entry conn w

  unfoldable pub after_cache : Option ℕ → Connection → World → Bytes → Handled
  after_cache none conn w bytes = read_headers conn w bytes
  after_cache (some left) conn w bytes = count_down conn w left (length bytes)

  -- what follows the `write` to the client
  unfoldable pub forward_bytes : Connection × World → Bytes → Handled
  forward_bytes r bytes = do
    cached ← cache_bytes r.0.cache_entry r.0 r.1 bytes
    elim cached [
      | some w' ↦ after_cache r.0.left_to_download r.0 w' bytes
      | none ↦ (do
        w' ← set_status r.1 r.0.cache_entry invalid
        ok (r.0, close_socket w' r.0.server_socket, false))
    ]

  unfoldable pub forwarding_response_handler :
      Connection → World → ReadResult → WriteResult → Handled
  forwarding_response_handler conn w read_failed result = finish_entry conn w
  forwarding_response_handler conn w (received []) result = finish_entry conn w
  forwarding_response_handler conn w (received (c ∷ bytes)) result =
      forward_bytes (write_client conn w (c ∷ bytes) result) (c ∷ bytes)
