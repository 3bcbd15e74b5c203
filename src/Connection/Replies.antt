-- ===== src/Connection/Replies.antt =====
-- The handler of responses does not change the status.
use os_solutions.Connection.Handlers.{contents, set_status, set_status_if}
use os_solutions.Connection.Response.{
  find_blank_line, finish_entry, write_to, write_client, cache_bytes, with_length, without_length,
  headers_acquired, read_headers, count_down, after_cache, forward_bytes,
  forwarding_response_handler,
}
use os_solutions.Connection.State.{
  valid, invalid, forwarding_response, Connection, World, ReadResult, received, read_failed,
  WriteResult, wrote, broken_pipe, write_failed,
}
use os_solutions.HttpUtils.{
  is_response_has_payload, get_response_code_from_data, get_content_length_from_data,
}
use os_solutions.Prelude.{
  ℕ, zero, suc, ◌+◌, ◌≡◌, Bool, false, inl, inr, Option, none, some, [], ◌∷◌, ◌++◌, ltb, ◌==◌, take,
  length, Bytes, Option-cases,
}
use os_solutions.Connection.Edges.{Gives, Gives-bind, Gives-if, Gives-then, either}

-- what the handler of responses gives
abbrev pub Forwards : Connection × World × Bool → Type 0
Forwards r = r.0.connection_status ≡ forwarding_response

finish_entry-Gives :
    (conn : Connection) (w : World)
    → conn.connection_status ≡ forwarding_response
    → Gives (finish_entry conn w) Forwards
unfolding finish_entry
finish_entry-Gives conn w s = Gives-then Forwards (set_status_if w conn.cache_entry valid) _ λ w'. s

write_client-status :
    (conn : Connection) (w : World) (bytes : Bytes) (result : WriteResult)
    → conn.connection_status ≡ forwarding_response
    → (write_client conn w bytes result).0.connection_status ≡ forwarding_response
unfolding write_client
write_client-status conn w bytes result s = written conn.client_socket result
  where
    written :
        (socket : Option ℕ) (result : WriteResult)
        → (write_to socket result conn w bytes).0.connection_status ≡ forwarding_response
    written none result = s
    written (some zero) result = s
    written (some (suc n)) (wrote m) = s
    written (some (suc n)) broken_pipe = s
    written (some (suc n)) write_failed = s

module _ (alloc : ℕ → Bool) (beyond : Bytes) where
  with_length-Gives :
      (conn : Connection) (w : World) (code : Option ℕ) (content_length j : ℕ)
      → conn.connection_status ≡ forwarding_response
      → Gives (with_length alloc beyond conn w code content_length j) Forwards
  unfolding with_length
  with_length-Gives conn w code content_length j s =
      Gives-bind (λ r. r.0.connection_status ≡ forwarding_response) Forwards _ _
        (Gives-if (λ r. r.0.connection_status ≡ forwarding_response)
          (elim code as (λ _. Bool) [ none ↦ false | some c ↦ c == 200 ]) _ _ s
          (Gives-then (λ r. r.0.connection_status ≡ forwarding_response)
            (set_status w conn.cache_entry invalid) _ λ w'. s))
        λ r h.
          Gives-if Forwards (ltb conn.buffer_size (content_length + (j + 3))) _ _ h
            (finish_entry-Gives r.0 r.1 h)

  without_length-Gives :
      (conn : Connection) (w : World) (code : Option ℕ)
      → conn.connection_status ≡ forwarding_response
      → Gives (without_length alloc beyond conn w code) Forwards
  unfolding without_length
  without_length-Gives conn w code s =
      Gives-then Forwards (set_status w conn.cache_entry invalid) _
        λ w'. either Forwards (is_response_has_payload code) _ _ s s

  headers_acquired-Gives :
      (conn : Connection) (w : World) (block : Bytes) (j : ℕ)
      → conn.connection_status ≡ forwarding_response
      → Gives (headers_acquired alloc beyond conn w block j) Forwards
  unfolding headers_acquired
  headers_acquired-Gives conn w block j s =
      Gives-then Forwards (get_response_code_from_data (block ++ beyond)) _ λ code.
        Gives-then Forwards (get_content_length_from_data (block ++ beyond) conn.buffer_size) _ λ n.
          elim (Option-cases n) [
            | inl x ↦ rw x (without_length-Gives conn w code s)
            | inr (k, x) ↦ rw x (with_length-Gives conn w code k j s)
          ]

  read_headers-Gives :
      (conn : Connection) (w : World) (bytes : Bytes)
      → conn.connection_status ≡ forwarding_response
      → Gives (read_headers alloc beyond conn w bytes) Forwards
  unfolding read_headers
  read_headers-Gives conn w bytes s =
      let block = take conn.buffer_size (contents conn.buffer) ++ bytes in
      let size = conn.buffer_size + length bytes in
      Gives-if Forwards (alloc size) _ _
        (Gives-if Forwards (ltb size 2) _ _ tt (elim (Option-cases (find_blank_line block 0)) [
          | inl x ↦ rw x s
          | inr (j, x) ↦ rw x (
              headers_acquired-Gives (record conn { buffer = some block; buffer_size = size }) w
                block j s)
        ]))
        tt

  after_cache-Gives :
      (left : Option ℕ) (conn : Connection) (w : World) (bytes : Bytes)
      → conn.connection_status ≡ forwarding_response
      → Gives (after_cache alloc beyond left conn w bytes) Forwards
  unfolding after_cache count_down
  after_cache-Gives none conn w bytes s = read_headers-Gives conn w bytes s
  after_cache-Gives (some left) conn w bytes s =
      Gives-if Forwards (ltb (length bytes) left) _ _ s (finish_entry-Gives conn w s)

  forward_bytes-Gives :
      (conn : Connection) (w : World) (bytes : Bytes)
      → conn.connection_status ≡ forwarding_response
      → Gives (forward_bytes alloc beyond (conn, w) bytes) Forwards
  unfolding forward_bytes
  forward_bytes-Gives conn w bytes s =
      Gives-then Forwards (cache_bytes alloc beyond conn.cache_entry conn w bytes) _ λ cached.
        elim (Option-cases cached) [
          | inl x ↦ rw x (Gives-then Forwards (set_status w conn.cache_entry invalid) _ λ w'. s)
          | inr (w', x) ↦ rw x (after_cache-Gives conn.left_to_download conn w' bytes s)
        ]

  pub forwarding_response_handler-Gives :
      (conn : Connection) (w : World) (result : ReadResult) (written : WriteResult)
      → conn.connection_status ≡ forwarding_response
      → Gives (forwarding_response_handler alloc beyond conn w result written) Forwards
  unfolding forwarding_response_handler
  forwarding_response_handler-Gives conn w read_failed written s = finish_entry-Gives conn w s
  forwarding_response_handler-Gives conn w (received []) written s = finish_entry-Gives conn w s
  forwarding_response_handler-Gives conn w (received (c ∷ bytes)) written s =
      let r = write_client conn w (c ∷ bytes) written in
      forward_bytes-Gives r.0 r.1 (c ∷ bytes) (write_client-status conn w (c ∷ bytes) written s)
