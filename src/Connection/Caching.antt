-- ===== src/Connection/Caching.antt =====
-- How a connection and the cache act together: a new entry is found by later requests, and an
-- entry that is deleted is gone for every connection.
use os_solutions.Connection.Handlers.{
  load, drop_invalid, new_entry, entry_bytes, use_entry, cached_request,
}
use os_solutions.Connection.Response.{
  forwarding_response_handler, forward_bytes, write_client, write_to, cache_bytes,
}
use os_solutions.Connection.State.{
  downloading, invalid, CacheEntry, responding_from_progess_cache, Connection, World, received,
  WriteResult, wrote, broken_pipe, write_failed, update, free_all, set_cache,
}
use os_solutions.HashTable.Delete.{ht_delete-Writes}
use os_solutions.HashTable.Lookup.{entry, or_null, ht_get-entry}
use os_solutions.HashTable.Slots.{IsValid}
use os_solutions.HashTable.Update.{ht_set-Writes}
use os_solutions.HashTable.{Node, HashTable, Pointer, null, node_bytes, ht_get, ht_set}
use os_solutions.Prelude.{
  ℕ, zero, suc, ◌+◌, ◌<◌, ◌≡◌, ◌≢◌, refl, sym, ap, ◌∙◌, arith, Bool, true, false, Option, none,
  some, List, [], ◌∷◌, ◌++◌, if◌then◌else◌, size_mod, drop, drop-append, length, Bytes, same_text,
  same_text_refl, Outcome, ok, fault, ◌>>=◌, Returns,
}

if_same : (k : Bytes) (v x : Option Pointer) → (if same_text k k then v else x) ≡ v
if_same k v x = rw (same_text_refl k)

if_other :
    (k q : Bytes) (v x : Option Pointer)
    → same_text k q ≡ false
    → (if same_text k q then v else x) ≡ x
if_other k q v x e = rw e

-- Where the table destroys no more than these pointers, those are freed and the rest stays.
set_cache-entries :
    (w : World) (t : HashTable) (ps : List Pointer)
    → t.destroyed ≡ w.cache.destroyed ++ ps
    → (set_cache w t).entries ≡ free_all ps w.entries
unfolding set_cache
set_cache-entries w t ps e =
    ap (λ ds. free_all ds w.entries)
      (ap (drop (length w.cache.destroyed)) e ∙ drop-append w.cache.destroyed ps)

cache_bytes-freed :
    (alloc : ℕ → Bool) (beyond : Bytes) (conn : Connection) (w : World) (p : ℕ) (bytes : Bytes)
    → w.entries (suc p) ≡ none
    → cache_bytes alloc beyond (suc p) conn w bytes ≡ fault
unfolding cache_bytes load
cache_bytes-freed alloc beyond conn w p bytes freed = rw (freed, ◌>>=◌)

write_to-keeps :
    (socket : Option ℕ) (result : WriteResult) (conn : Connection) (w : World) (bytes : Bytes)
    → ((write_to socket result conn w bytes).0.cache_entry ≡ conn.cache_entry)
      × ((write_to socket result conn w bytes).1.entries ≡ w.entries)
unfolding write_to
write_to-keeps none result conn w bytes = (refl, refl)
write_to-keeps (some zero) result conn w bytes = (refl, refl)
write_to-keeps (some (suc _)) (wrote n) conn w bytes = (refl, refl)
write_to-keeps (some (suc _)) broken_pipe conn w bytes = (refl, refl)
write_to-keeps (some (suc _)) write_failed conn w bytes = (refl, refl)

write_client-keeps :
    (conn : Connection) (w : World) (bytes : Bytes) (result : WriteResult)
    → ((write_client conn w bytes result).0.cache_entry ≡ conn.cache_entry)
      × ((write_client conn w bytes result).1.entries ≡ w.entries)
unfolding write_client
write_client-keeps conn w bytes result = write_to-keeps conn.client_socket result conn w bytes

dangling :
    (alloc : ℕ → Bool) (beyond : Bytes) (conn : Connection) (w : World) (p c : ℕ) (bytes : Bytes)
    (result : WriteResult)
    → conn.cache_entry ≡ suc p
    → w.entries (suc p) ≡ none
    → forwarding_response_handler alloc beyond conn w (received (c ∷ bytes)) result ≡ fault
unfolding forwarding_response_handler forward_bytes
dangling alloc beyond conn w p c bytes result ep freed =
    let keeps = write_client-keeps conn w (c ∷ bytes) result in
    let r = write_client conn w (c ∷ bytes) result in
    let bad =
      ap (λ q. cache_bytes alloc beyond q r.0 r.1 (c ∷ bytes)) (keeps.0 ∙ ep)
      ∙ cache_bytes-freed alloc beyond r.0 r.1 p (c ∷ bytes)
          (ap (λ f. f (suc p)) keeps.1 ∙ freed) in
    rw (bad, ◌>>=◌)

-- The entry of a URL while it is downloaded, with this many waiters.
pub started : Bytes → ℕ → CacheEntry
started url n = record { url = url; content = []; waiters_count = n; entry_status = downloading }

module _ (alloc : ℕ → Bool) (beyond : Bytes) (connect : Option Bytes → Outcome ℕ) (fuel : ℕ) where
  module _ (w : World) (slots : List (List Node)) (is_valid : IsValid w.cache slots)
      (url : Bytes) where
    -- An invalid entry that a request finds in a well-formed cache is taken out of the table and
    -- freed, where the table has a destructor: a connection that still holds its address faults
    -- when it next receives bytes of the response.
    pub drop_invalid-frees :
        (p : ℕ) (e : CacheEntry)
        → entry w.cache slots url ≡ some (suc p)
        → w.entries (suc p) ≡ some e
        → e.entry_status ≡ invalid
        → w.cache.dtor ≡ true
        → Returns (drop_invalid alloc beyond connect fuel w url (suc p)) λ r.
          (r.0 ≡ null)
          × (r.1.entries (suc p) ≡ none)
          × (ht_get (some r.1.cache) (some url) ≡ ok null)
          × ((conn : Connection) (c : ℕ) (bytes : Bytes) (result : WriteResult)
              → conn.cache_entry ≡ suc p
              → forwarding_response_handler alloc beyond conn r.1 (received (c ∷ bytes)) result
                ≡ fault)
    unfolding drop_invalid
    drop_invalid-frees p e found live status dtor =
        let (o, run, (after, is_after, counted, wr)) =
          ht_delete-Writes w.cache slots is_valid url (suc p) found in
        let destroys : after.destroyed ≡ w.cache.destroyed ++ suc p ∷ [] =
          wr.destroys ∙ rw found (rw dtor) in
        let freed : (set_cache w after).entries (suc p) ≡ none =
          ap (λ f. f (suc p)) (set_cache-entries w after (suc p ∷ []) destroys)
          ∙ (unfold free_all in ground arith) in
        let gone : ht_get (some after) (some url) ≡ ok null =
          ht_get-entry after wr.array wr.valid url
          ∙ ap (λ o. ok (or_null o)) (wr.reads url ∙ if_same url _ _) in
        (
          (null, set_cache w after),
          rw (live, load) (rw status (rw run (rw is_after))),
          (
            refl,
            freed,
            unfold set_cache in gone,
            λ conn c bytes result ep.
                dangling alloc beyond conn (set_cache w after) p c bytes result ep freed,
          ),
        )

    new_entry-run :
        (after : HashTable) (o : Option HashTable) (d : Pointer)
        → alloc entry_bytes ≡ true
        → ht_set alloc (suc fuel) (some w.cache) (some url) w.next ≡ ok (o, d)
        → o ≡ some after
        → new_entry alloc beyond connect (suc fuel) w url
          ≡ ok (
            w.next,
            record (set_cache w after) {
              entries = update (set_cache w after).entries w.next (some (started url 0));
              next = w.next + 1;
            },
          )
    unfolding new_entry started
    new_entry-run after o d has run is_after = rw has (rw (run, ◌>>=◌) (rw is_after))

    joins :
        (conn : Connection) (w' : World) (block : Bytes) (p : Pointer)
        → ht_get (some w'.cache) (some url) ≡ ok p
        → w'.entries p ≡ some (started url 0)
        → p ≢ null
        → cached_request alloc beyond connect (suc fuel) conn w' block url
          ≡ ok (
            record conn {
              buffer = none;
              cache_entry = p;
              connection_status = responding_from_progess_cache;
            },
            record w' { entries = update w'.entries p (some (started url 1)) },
            true,
          )
    unfolding cached_request drop_invalid use_entry load started
    joins conn w' block zero found there live = absurd (live refl)
    joins conn w' block (suc p) found there live =
        rw (found, ◌>>=◌) (rw (there, ◌>>=◌) (rw (there, ◌>>=◌)))

    -- Where the well-formed cache has no entry for a URL, its count is below the largest
    -- `size_t`, the next address is not NULL and there is memory for an entry and a node,
    -- `new_entry` puts an entry into the cache: the next request for the same URL waits for that
    -- entry and does not go to the server, and other URLs are found as before.
    pub new_entry-found :
        entry w.cache slots url ≡ none
        → w.cache.count + 1 < size_mod
        → w.next ≢ null
        → alloc entry_bytes ≡ true
        → alloc node_bytes ≡ true
        → Returns (new_entry alloc beyond connect (suc fuel) w url) λ r.
          (r.0 ≡ w.next)
          × ((conn : Connection) (block : Bytes)
              → cached_request alloc beyond connect (suc fuel) conn r.1 block url
                ≡ ok (
                  record conn {
                    buffer = none;
                    cache_entry = w.next;
                    connection_status = responding_from_progess_cache;
                  },
                  record r.1 { entries = update r.1.entries w.next (some (started url 1)) },
                  true,
                ))
          × ((q : Bytes)
              → same_text url q ≡ false
              → ht_get (some r.1.cache) (some q) ≡ ht_get (some w.cache) (some q))
    unfolding started set_cache
    new_entry-found fresh small live has_entry has_node =
        let (s, run, (is_next, after, is_after, counted, wr)) =
          ht_set-Writes w.cache slots is_valid url alloc w.next fuel has_node small in
        let e = started url 0 in
        let w' = record (set_cache w after) {
          entries = update (set_cache w after).entries w.next (some e);
          next = w.next + 1;
        } in
        let found : ht_get (some after) (some url) ≡ ok w.next =
          ht_get-entry after wr.array wr.valid url
          ∙ ap (λ o. ok (or_null o)) (wr.reads url ∙ if_same url _ _) in
        (
          (w.next, w'),
          new_entry-run after s.0 s.1 has_entry run is_after,
          (
            refl,
            λ conn block. joins conn w' block w.next found (unfold set_cache in ground arith) live,
            λ q ne.
                ht_get-entry after wr.array wr.valid q
                ∙ ap (λ o. ok (or_null o)) (wr.reads q ∙ if_other url q _ _ ne)
                ∙ sym (ht_get-entry w.cache slots is_valid q),
          ),
        )
