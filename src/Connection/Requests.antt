-- ===== src/Connection/Requests.antt =====
-- Where the handlers of requests, and that of the cache, lead a connection.
use os_solutions.Connection.Handlers.{
  load, init_server_socket_to_url, go_to_server, drop_invalid, use_entry, new_entry, cached_request,
  parse_request, getting_request_handler, writing_request_handler, forwarding_request_handler,
  request_ends, await_response, serve_entry, serve, responding_from_cache_handler,
}
use os_solutions.Connection.State.{
  getting_request, connecting_to_server, writing_request, forwarding_request, Connection, World,
  ReadResult, received, read_failed, WriteResult,
}
use os_solutions.HashTable.{Pointer, null, ht_get}
use os_solutions.HttpUtils.{get_url_from_data, is_cache_method, edit_request_to_send_to_server}
use os_solutions.Prelude.{
  ℕ, zero, suc, ◌+◌, ◌-◌, ◌%◌, size_mod, ◌≡◌, refl, Bool, true, inl, inr, Option, some, [], ◌∷◌,
  ◌++◌, ltb, length, Bytes, Outcome, ok, ◌>>=◌, read, Bool-cases, Option-cases,
}
use os_solutions.Connection.Edges.{
  stays, to_server, to_entry, to_waiting, half_sent, all_sent, rest_sent, EntryStatus-cases, Gives,
  Gives-bind, Gives-if, Gives-then, Moves, either, is_ready,
}

-- a connection that is to reach the server with its request
abbrev Connecting : Connection → Type 0
Connecting c = (c.connection_status ≡ connecting_to_server) × (is_ready c ≡ true)

Connecting-Moves : (c : Connection) (w : World) → Connecting c → Moves getting_request (c, w, true)
Connecting-Moves c w h = (rw h.0 to_server, h.1)

module _ (alloc : ℕ → Bool) (beyond : Bytes) (connect : Option Bytes → Outcome ℕ) (fuel : ℕ) where
  use_entry-Gives :
      (conn : Connection) (w : World) (k : ℕ)
      → conn.connection_status ≡ getting_request
      → Gives (use_entry alloc beyond connect fuel conn w (suc k)) (Moves getting_request)
  unfolding use_entry
  use_entry-Gives conn w k s = Gives-then (Moves getting_request) (load w (suc k)) _ λ e.
      elim (EntryStatus-cases e.entry_status) [
        | inl x ↦ rw x (to_entry, refl)
        | inr (inl x) ↦ rw x (to_waiting, refl)
        | inr (inr x) ↦ rw x (rw s (stays, refl))
      ]

  go_to_server-Gives :
      (conn : Connection) (buffer url : Bytes)
      → Gives (go_to_server alloc beyond connect fuel conn buffer url) Connecting
  unfolding go_to_server
  go_to_server-Gives conn buffer url =
      Gives-then Connecting (init_server_socket_to_url alloc beyond connect fuel url) _ λ socket.
        Gives-then Connecting (edit_request_to_send_to_server beyond buffer conn.buffer_size) _
          λ edited. (refl, refl)

  to_server-Gives :
      (conn : Connection) (w : World) (buffer url : Bytes)
      → Gives
          (go_to_server alloc beyond connect fuel conn buffer url >>= λ c. ok (c, w, true))
          (Moves getting_request)
  to_server-Gives conn w buffer url =
      Gives-bind Connecting (Moves getting_request)
        (go_to_server alloc beyond connect fuel conn buffer url) _
        (go_to_server-Gives conn buffer url) λ c h. Connecting-Moves c w h

  cached_request-Gives :
      (conn : Connection) (w : World) (buffer url : Bytes)
      → conn.connection_status ≡ getting_request
      → Gives (cached_request alloc beyond connect fuel conn w buffer url) (Moves getting_request)
  unfolding cached_request
  cached_request-Gives conn w buffer url s =
      Gives-then (Moves getting_request) (ht_get (some w.cache) (some url)) _ λ p.
        Gives-then (Moves getting_request) (drop_invalid alloc beyond connect fuel w url p) _
          λ q. found q.0 q.1
    where
      found :
          (q : Pointer) (w₁ : World)
          → Gives
              (elim q [
                | suc k ↦ use_entry alloc beyond connect fuel conn w₁ (suc k)
                | zero ↦ (do
                  (fresh, w₂) ← new_entry alloc beyond connect fuel w₁ url
                  conn' ←
                      go_to_server alloc beyond connect fuel
                        (record conn { cache_entry = fresh })
                        buffer
                        url
                  ok (conn', w₂, true))
              ])
              (Moves getting_request)
      found zero w₁ =
          Gives-then (Moves getting_request) (new_entry alloc beyond connect fuel w₁ url) _
            λ fresh. to_server-Gives (record conn { cache_entry = fresh.0 }) fresh.1 buffer url
      found (suc k) w₁ = use_entry-Gives conn w₁ k s

  parse_request-Gives :
      (conn : Connection) (w : World) (buffer : Bytes)
      → conn.connection_status ≡ getting_request
      → Gives (parse_request alloc beyond connect fuel conn w buffer) (Moves getting_request)
  unfolding parse_request
  parse_request-Gives conn w buffer s =
      Gives-if (Moves getting_request) (ltb 3 conn.buffer_size) _ _
        (Gives-then (Moves getting_request)
          (get_url_from_data alloc (buffer ++ beyond) conn.buffer_size) _
          λ found. elim (Option-cases found) [
            | inl x ↦ rw x (rw s (stays, refl))
            | inr (url, x) ↦ rw x (
                Gives-if (Moves getting_request) (is_cache_method (buffer ++ beyond)) _ _
                  (cached_request-Gives conn w buffer url s)
                  (to_server-Gives (record conn { cache_entry = null }) w buffer url))
          ])
        (rw s (stays, refl))

  pub getting_request_handler-Gives :
      (conn : Connection) (w : World) (result : ReadResult)
      → conn.connection_status ≡ getting_request
      → Gives
          (getting_request_handler alloc beyond connect fuel conn w result)
          (Moves getting_request)
  unfolding getting_request_handler
  getting_request_handler-Gives conn w (received []) s = (rw s (stays, refl))
  getting_request_handler-Gives conn w (received (c ∷ bytes)) s =
      Gives-if (Moves getting_request) (alloc (conn.buffer_size + length (c ∷ bytes))) _ _
        (parse_request-Gives _ w _ s) (rw s (stays, refl))
  getting_request_handler-Gives conn w read_failed s =
      Gives-if (Moves getting_request) (alloc ((conn.buffer_size + size_mod - 1) % size_mod)) _ _ tt
        (rw s (stays, refl))

  pub writing_request_handler-Gives :
      (conn : Connection) (w : World) (sent : ℕ)
      → conn.connection_status ≡ writing_request
      → Gives
          (writing_request_handler alloc beyond connect fuel conn w sent)
          (Moves writing_request)
  unfolding writing_request_handler await_response
  writing_request_handler-Gives conn w sent s =
      Gives-then (Moves writing_request) (read conn.buffer) _ λ block.
        Gives-then (Moves writing_request)
          (request_ends alloc beyond connect fuel block (block ++ beyond) conn.buffer_size) _
          λ ends. elim (Bool-cases ends) [
            | inl x ↦ rw x (all_sent, refl)
            | inr x ↦ rw x (half_sent, refl)
          ]

  pub forwarding_request_handler-Gives :
      (conn : Connection) (w : World) (result : ReadResult) (stale : Bytes) (sent : ℕ)
      → conn.connection_status ≡ forwarding_request
      → Gives
          (forwarding_request_handler alloc beyond connect fuel conn w result stale sent)
          (Moves forwarding_request)
  unfolding forwarding_request_handler await_response
  forwarding_request_handler-Gives conn w read_failed stale sent s = tt
  forwarding_request_handler-Gives conn w (received bytes) stale sent s =
      Gives-then (Moves forwarding_request)
        (request_ends alloc beyond connect fuel (bytes ++ stale) (bytes ++ stale) (length bytes)) _
        λ ends. elim (Bool-cases ends) [
          | inl x ↦ rw x (rest_sent, refl)
          | inr x ↦ rw x (rw s (stays, refl))
        ]

  pub responding_from_cache_handler-Gives :
      (conn : Connection) (w : World) (result : WriteResult)
      → is_ready conn ≡ true
      → Gives
          (responding_from_cache_handler alloc beyond connect fuel conn w result)
          (Moves conn.connection_status)
  unfolding responding_from_cache_handler serve_entry
  responding_from_cache_handler-Gives conn w result h = served conn.cache_entry
    where
      served :
          (p : Pointer)
          → Gives (serve alloc beyond connect fuel p conn w result) (Moves conn.connection_status)
      served zero = (stays, h)
      served (suc p) =
          Gives-then (Moves conn.connection_status) (load w (suc p)) _
            λ e. either (Moves conn.connection_status) _ _ _ (stays, h) (stays, h)
