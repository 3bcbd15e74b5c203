-- ===== src/Connection/Forwarding.antt =====
-- The response on its way through the proxy.
use os_solutions.Connection.Handlers.{load, set_status, set_status_if, close_socket, contents}
use os_solutions.Connection.Response.{
  forwarding_response_handler, forward_bytes, finish_entry, write_client, write_to, cache_bytes,
  is_gone, after_cache, count_down, read_headers, headers_acquired, without_length, find_blank_line,
}
use os_solutions.Connection.State.{
  valid, invalid, CacheEntry, Connection, World, received, wrote, update,
}
use os_solutions.HashTable.{Pointer, null}
use os_solutions.HttpUtils.{
  get_response_code_from_data, get_content_length_from_data, is_response_has_payload,
}
use os_solutions.Prelude.{
  ℕ, suc, ◌+◌, ◌-◌, ◌≤◌, ◌≡◌, refl, sym, ap, ◌∙◌, arith, Bool, true, false, ◌&&◌, Option, none,
  some, [], ◌∷◌, ◌++◌, ltb, Bool-cases, inl, inr, if◌then◌else◌, ◌==◌, take, length, le→ltb, Bytes,
  ok, fault, ◌>>=◌, Returns,
}

update_self :
    (f : Pointer → Option CacheEntry) (p : Pointer) (e : Option CacheEntry) → update f p e p ≡ e
update_self f p e = ground arith

module _ (alloc : ℕ → Bool) (beyond : Bytes) (conn : Connection) (w : World) (socket : ℕ) (n c : ℕ)
    (bytes : Bytes) (client : conn.client_socket ≡ some (suc socket)) where
  -- The world once the bytes went to the client.
  passed : World
  passed = record w { to_client = w.to_client ++ take n (c ∷ bytes) }

  write_client-wrote : write_client conn w (c ∷ bytes) (wrote n) ≡ (conn, passed)
  unfolding write_client passed
  write_client-wrote = ap (λ s. write_to s (wrote n) conn w (c ∷ bytes)) client

  -- and into the entry
  cached_world : ℕ → CacheEntry → World
  cached_world p e = record passed {
    entries = update w.entries (suc p) (some (record e { content = e.content ++ c ∷ bytes }));
  }

  cache_bytes-live :
      (p : ℕ) (e : CacheEntry)
      → w.entries (suc p) ≡ some e
      → alloc (length (e.content ++ c ∷ bytes)) ≡ true
      → cache_bytes alloc beyond (suc p) conn passed (c ∷ bytes) ≡ ok (some (cached_world p e))
  unfolding cache_bytes load passed cached_world is_gone
  cache_bytes-live p e live has = rw (live, ◌>>=◌) (present (e.waiters_count == 0))
    where
      present :
          (b : Bool)
          → (if b && is_gone conn.client_socket
              then ok none
              else if alloc (length (e.content ++ c ∷ bytes))
              then ok (some (cached_world p e))
              else fault)
            ≡ ok (some (cached_world p e))
      present true =
          ap
            (λ s.
              if is_gone s
              then ok none
              else if alloc (length (e.content ++ c ∷ bytes))
              then ok (some (cached_world p e))
              else fault)
            client
          ∙ rw has
      present false = rw has

  forward_bytes-cached :
      (w' : World)
      → cache_bytes alloc beyond conn.cache_entry conn passed (c ∷ bytes) ≡ ok (some w')
      → forward_bytes alloc beyond (conn, passed) (c ∷ bytes)
        ≡ after_cache alloc beyond conn.left_to_download conn w' (c ∷ bytes)
  unfolding forward_bytes
  forward_bytes-cached w' e = rw (e, ◌>>=◌)

  finish_entry-valid :
      (p : ℕ) (e : CacheEntry) (w' : World)
      → conn.cache_entry ≡ suc p
      → w'.entries (suc p) ≡ some e
      → finish_entry conn w'
        ≡ ok (
          conn,
          close_socket
              (record w' {
                entries = update w'.entries (suc p) (some (record e { entry_status = valid }));
              })
              conn.server_socket,
          false,
        )
  unfolding finish_entry set_status_if set_status load
  finish_entry-valid p e w' ep live =
      ap
        (λ q. set_status_if w' q valid >>= λ u. ok (conn, close_socket u conn.server_socket, false))
        ep
      ∙ rw (live, ◌>>=◌)

  Held : ℕ → ℕ → CacheEntry → Connection × World × Bool → Type 0
  Held p left e r =
      (r.1.to_client ≡ w.to_client ++ take n (c ∷ bytes))
      × (r.2 ≡ ltb (length (c ∷ bytes)) left)
      × (r.0.left_to_download ≡ some (if r.2 then left - length (c ∷ bytes) else left))
      × (r.1.entries (suc p)
          ≡ some (record e {
            content = e.content ++ c ∷ bytes;
            entry_status = if r.2 then e.entry_status else valid;
          }))
      × (r.1.closed ≡ (if r.2 then w.closed else w.closed ++ conn.server_socket ∷ []))

  counted :
      (p left : ℕ) (e : CacheEntry)
      → conn.cache_entry ≡ suc p
      → w.entries (suc p) ≡ some e
      → conn.left_to_download ≡ some left
      → Returns
          (after_cache alloc beyond (some left) conn (cached_world p e) (c ∷ bytes))
          (Held p left e)
  unfolding after_cache count_down cached_world passed close_socket Held
  counted p left e ep live counting = elim (Bool-cases (ltb (length (c ∷ bytes)) left)) [
    | inl more ↦ (
      (record conn { left_to_download = some (left - length (c ∷ bytes)) }, cached_world p e, true),
      rw more,
      (refl, sym more, refl, update_self w.entries (suc p) _, refl),
    )
    | inr done ↦
        let grown : CacheEntry = record e { content = e.content ++ c ∷ bytes } in
        (
          (
            conn,
            close_socket
                (record (cached_world p e) {
                  entries =
                      update (cached_world p e).entries (suc p)
                        (some (record grown { entry_status = valid }));
                })
                conn.server_socket,
            false,
          ),
          rw done
              (finish_entry-valid p grown (cached_world p e) ep (update_self w.entries (suc p) _)),
          (refl, sym done, counting, update_self (cached_world p e).entries (suc p) _, refl),
        )
  ]

  -- A part of the body of a cached response, with the client connected, its bytes read and
  -- written without an error, and memory for the grown entry: it goes to the client and onto the
  -- end of the cache entry. While bytes are left the thread goes on with so many fewer; when the
  -- last have come the entry is valid, the server is closed and the thread ends.
  pub forwarding_response_handler-body :
      (p left : ℕ) (e : CacheEntry)
      → conn.cache_entry ≡ suc p
      → w.entries (suc p) ≡ some e
      → conn.left_to_download ≡ some left
      → alloc (length (e.content ++ c ∷ bytes)) ≡ true
      → Returns
          (forwarding_response_handler alloc beyond conn w (received (c ∷ bytes)) (wrote n))
          λ r.
            (r.1.to_client ≡ w.to_client ++ take n (c ∷ bytes))
            × (r.2 ≡ ltb (length (c ∷ bytes)) left)
            × (r.0.left_to_download ≡ some (if r.2 then left - length (c ∷ bytes) else left))
            × (r.1.entries (suc p)
                ≡ some (record e {
                  content = e.content ++ c ∷ bytes;
                  entry_status = if r.2 then e.entry_status else valid;
                }))
            × (r.1.closed ≡ (if r.2 then w.closed else w.closed ++ conn.server_socket ∷ []))
  unfolding forwarding_response_handler Held
  forwarding_response_handler-body p left e ep live counting has =
      let (r, run, holds) = counted p left e ep live counting in
      (
        r,
        ap (λ q. forward_bytes alloc beyond q (c ∷ bytes)) write_client-wrote
            ∙ forward_bytes-cached (cached_world p e) (
                ap (λ q. cache_bytes alloc beyond q conn passed (c ∷ bytes)) ep
                ∙ cache_bytes-live p e live has)
            ∙ ap (λ o. after_cache alloc beyond o conn (cached_world p e) (c ∷ bytes)) counting
            ∙ run,
        holds,
      )

  headers_reached :
      (j : ℕ)
      → alloc (conn.buffer_size + length (c ∷ bytes)) ≡ true
      → 2 ≤ conn.buffer_size + length (c ∷ bytes)
      → find_blank_line (take conn.buffer_size (contents conn.buffer) ++ c ∷ bytes) 0 ≡ some j
      → after_cache alloc beyond none conn passed (c ∷ bytes)
        ≡ headers_acquired alloc beyond
            (record conn {
              buffer = some (take conn.buffer_size (contents conn.buffer) ++ c ∷ bytes);
              buffer_size = conn.buffer_size + length (c ∷ bytes);
            })
            passed
            (take conn.buffer_size (contents conn.buffer) ++ c ∷ bytes)
            j
  unfolding after_cache read_headers
  headers_reached j has long blank =
      rw has (rw (le→ltb 2 (conn.buffer_size + length (c ∷ bytes)) long) (rw blank))

  no_entry_faults :
      (conn' : Connection) (w' : World) (block : Bytes) (j : ℕ) (code : Option ℕ)
      → conn'.cache_entry ≡ null
      → w'.entries null ≡ none
      → get_response_code_from_data (block ++ beyond) ≡ ok code
      → get_content_length_from_data (block ++ beyond) conn'.buffer_size ≡ ok none
      → headers_acquired alloc beyond conn' w' block j ≡ fault
  unfolding headers_acquired without_length set_status load
  no_entry_faults conn' w' block j code ep no_null is_code no_length =
      rw (is_code, ◌>>=◌)
        (rw (no_length, ◌>>=◌)
          (ap
              (λ q. set_status w' q invalid >>= λ u. ok (
                if is_response_has_payload code
                then (conn', u, true)
                else (conn', close_socket u conn'.server_socket, false)))
              ep
            ∙ rw (no_null, ◌>>=◌)))

  -- The headers of a response without a Content-Length have come, on a connection that has no
  -- cache entry: the header branch writes through the NULL entry, which is a fault.
  pub forwarding_response_handler_no_entry :
      (j : ℕ) (code : Option ℕ)
      → conn.cache_entry ≡ null
      → w.entries null ≡ none
      → conn.left_to_download ≡ none
      → alloc (conn.buffer_size + length (c ∷ bytes)) ≡ true
      → 2 ≤ conn.buffer_size + length (c ∷ bytes)
      → find_blank_line (take conn.buffer_size (contents conn.buffer) ++ c ∷ bytes) 0 ≡ some j
      → get_response_code_from_data
          ((take conn.buffer_size (contents conn.buffer) ++ c ∷ bytes) ++ beyond)
        ≡ ok code
      → get_content_length_from_data
          ((take conn.buffer_size (contents conn.buffer) ++ c ∷ bytes) ++ beyond)
          (conn.buffer_size + length (c ∷ bytes))
        ≡ ok none
      → forwarding_response_handler alloc beyond conn w (received (c ∷ bytes)) (wrote n) ≡ fault
  unfolding forwarding_response_handler passed
  forwarding_response_handler_no_entry j code ep no_null header has long blank is_code no_length =
      let bs = c ∷ bytes in
      let size = conn.buffer_size + length bs in
      let block = take conn.buffer_size (contents conn.buffer) ++ bs in
      let conn' = record conn { buffer = some block; buffer_size = size } in
      ap (λ q. forward_bytes alloc beyond q bs) write_client-wrote
      ∙ forward_bytes-cached passed
          (ap (λ q. cache_bytes alloc beyond q conn passed bs) ep ∙ (unfold cache_bytes in refl))
      ∙ ap (λ o. after_cache alloc beyond o conn passed bs) header
      ∙ headers_reached j has long blank
      ∙ no_entry_faults conn' passed block j code ep no_null is_code no_length
