-- ===== src/Tests/Proxy.antt =====
-- Connections of the proxy.
use os_solutions.Connection.Caching.{started, new_entry-found, drop_invalid-frees}
use os_solutions.Connection.Forwarding.{
  forwarding_response_handler-body, forwarding_response_handler_no_entry,
}
use os_solutions.Connection.Handlers.{
  new_entry, drop_invalid, cached_request, responding_from_cache_handler,
}
use os_solutions.Connection.Response.{forwarding_response_handler, find_blank_line}
use os_solutions.Connection.Loop.{WaitRound, responding_from_progess_cache_rounds}
use os_solutions.Connection.Serving.{next, responding_from_cache_handler-prefix}
use os_solutions.Connection.State.{
  downloading, valid, invalid, CacheEntry, forwarding_response, responding_from_progess_cache,
  responding_from_cache, Connection, World, received, WriteResult, wrote, update,
}
use os_solutions.HashTable.Chain.{count}
use os_solutions.HashTable.Lookup.{entry}
use os_solutions.HashTable.Slots.{IsValid, total}
use os_solutions.HashTable.{Node, HashTable, null, find_list, ht_get}
use os_solutions.HttpUtils.{get_response_code_from_data, get_content_length_from_data}
use os_solutions.Prelude.{
  ℕ, zero, suc, ◌+◌, ◌-◌, ◌%◌, ◌≤◌, ◌≡◌, ◌≢◌, ◌↔◌, refl, arith, Bool, true, false, Option, none,
  some, List, [], ◌∷◌, ◌++◌, ltb, ◌==◌, if◌then◌else◌, get_or, take, length, Bytes, codes,
  same_text, Outcome, ok, fault, Returns,
}
use Prim.Native.Nat.{min}

abbrev always : ℕ → Bool
always n = true

abbrev to_socket : Option Bytes → Outcome ℕ
to_socket host = ok 5

abbrev cache_of : List (List Node) → ℕ → HashTable
cache_of slots n = record {
  size = 1;
  count = n;
  table = some slots;
  hashfunc = λ key k. length key % k;
  dtor = true;
  destroyed = [];
}

abbrev no_slots : List (List Node)
no_slots = [] ∷ []

abbrev one_slot : List (List Node)
one_slot = (record { key = codes "u"; value = 3 } ∷ []) ∷ []

no_slots-placed :
    (q : Bytes) (i : ℕ)
    → (count q (get_or no_slots i []) ≤ 1) × (length q % 1 ≢ i → count q (get_or no_slots i []) ≡ 0)
no_slots-placed q zero = unfold count in (omega arith, λ ne. refl)
no_slots-placed q (suc i) = unfold count in (omega arith, λ ne. refl)

one_slot-placed :
    (q : Bytes) (i : ℕ)
    → (count q (get_or one_slot i []) ≤ 1) × (length q % 1 ≢ i → count q (get_or one_slot i []) ≡ 0)
one_slot-placed q zero = (unfold count in ground arith, λ ne. absurd (ne (omega arith)))
one_slot-placed q (suc i) = unfold count in (omega arith, λ ne. refl)

no_slots-IsValid : IsValid (cache_of no_slots 0) no_slots
unfolding total
no_slots-IsValid = record {
  is_table = refl;
  width = refl;
  in_range = λ q. omega arith;
  counted = refl;
  placed = no_slots-placed;
}

one_slot-IsValid : IsValid (cache_of one_slot 1) one_slot
unfolding total
one_slot-IsValid = record {
  is_table = refl;
  width = refl;
  in_range = λ q. omega arith;
  counted = refl;
  placed = one_slot-placed;
}

abbrev stored : CacheEntry
stored = record {
  url = codes "u";
  content = codes "abc";
  waiters_count = 0;
  entry_status = invalid;
}

abbrev world_of : HashTable → World
world_of cache = record {
  cache = cache;
  entries = λ p. if p == 3 then some stored else none;
  next = 4;
  to_client = [];
  to_server = [];
  closed = [];
}

abbrev client : Connection
client = record {
  client_socket = some 4;
  server_socket = 5;
  connection_status = forwarding_response;
  buffer = none;
  buffer_size = 0;
  left_to_download = some 10;
  cache_entry = 3;
  cache_bytes_written = 1;
}

found_u : entry (cache_of one_slot 1) one_slot (codes "u") ≡ some 3
unfolding find_list same_text
found_u = refl

fresh_u : entry (cache_of no_slots 0) no_slots (codes "u") ≡ none
unfolding find_list
fresh_u = refl

abbrev empty_world : World
empty_world = world_of (cache_of no_slots 0)

abbrev full_world : World
full_world = world_of (cache_of one_slot 1)

new_entry-found_example : Returns (new_entry always [] to_socket 1 empty_world (codes "u")) λ r.
    (r.0 ≡ 4)
    × ((conn : Connection) (block : Bytes)
        → cached_request always [] to_socket 1 conn r.1 block (codes "u")
          ≡ ok (
            record conn {
              buffer = none;
              cache_entry = 4;
              connection_status = responding_from_progess_cache;
            },
            record r.1 { entries = update r.1.entries 4 (some (started (codes "u") 1)) },
            true,
          ))
    × ((q : Bytes)
        → same_text (codes "u") q ≡ false
        → ht_get (some r.1.cache) (some q) ≡ ht_get (some empty_world.cache) (some q))
new_entry-found_example =
    new_entry-found always [] to_socket 0 empty_world no_slots no_slots-IsValid (codes "u") fresh_u
      (omega arith) (omega arith) refl refl

drop_invalid-frees_example :
    Returns (drop_invalid always [] to_socket 1 full_world (codes "u") 3) λ r.
      (r.0 ≡ null)
      × (r.1.entries 3 ≡ none)
      × (ht_get (some r.1.cache) (some (codes "u")) ≡ ok null)
      × ((conn : Connection) (c : ℕ) (bytes : Bytes) (result : WriteResult)
          → conn.cache_entry ≡ 3
          → forwarding_response_handler always [] conn r.1 (received (c ∷ bytes)) result ≡ fault)
drop_invalid-frees_example =
    drop_invalid-frees always [] to_socket 1 full_world one_slot one_slot-IsValid (codes "u") 2
      stored found_u refl refl refl

forwarding_response_handler-body_example :
    Returns
      (forwarding_response_handler always [] client full_world (received (codes "de")) (wrote 2))
      λ r.
        (r.1.to_client ≡ [] ++ take 2 (codes "de"))
        × (r.2 ≡ ltb 2 10)
        × (r.0.left_to_download ≡ some (if r.2 then 10 - 2 else 10))
        × (r.1.entries 3
            ≡ some (record stored {
              content = codes "abc" ++ codes "de";
              entry_status = if r.2 then invalid else valid;
            }))
        × (r.1.closed ≡ (if r.2 then [] else [] ++ 5 ∷ []))
forwarding_response_handler-body_example =
    forwarding_response_handler-body always [] client full_world 3 2 b'd' (codes "e") refl 2 10
      stored refl refl refl refl

abbrev poster : Connection
poster = record client { cache_entry = 0; left_to_download = none }

abbrev answer : Bytes
answer = codes "TTP/1.0 204 No\n\r\n"

blank_answer : find_blank_line (b'H' ∷ answer) 0 ≡ some 15
unfolding find_blank_line
blank_answer = refl

code_answer : get_response_code_from_data ((b'H' ∷ answer) ++ []) ≡ ok (some 204)
unfolding get_response_code_from_data
code_answer = refl

length_answer : get_content_length_from_data ((b'H' ∷ answer) ++ codes "x") 18 ≡ ok none
unfolding get_content_length_from_data
length_answer = refl

forwarding_response_handler_no_entry_post :
    forwarding_response_handler always
      (codes "x")
      poster
      empty_world
      (received (b'H' ∷ answer))
      (wrote 18)
    ≡ fault
forwarding_response_handler_no_entry_post =
    forwarding_response_handler_no_entry always (codes "x") poster empty_world 3 18 b'H' answer refl
      15 (some 204) refl refl refl refl (omega arith) blank_answer
      (unfold get_response_code_from_data in refl) length_answer

abbrev server : Connection
server = record client { connection_status = responding_from_cache }

abbrev half_sent : World
half_sent = record full_world { to_client = codes "a" }

responding_from_cache_handler-prefix_example :
    Returns (responding_from_cache_handler always [] to_socket 1 server half_sent (wrote 1)) λ r.
      (r.1.to_client ≡ [] ++ take r.0.cache_bytes_written (codes "abc"))
      × (r.0.cache_bytes_written ≡ 1 + min 1 (min 64 (3 - 1)))
      × ((r.2 ≡ false) ↔ (r.0.cache_bytes_written ≡ 3))
responding_from_cache_handler-prefix_example =
    responding_from_cache_handler-prefix always [] to_socket 1 server half_sent 2 stored [] 1 refl
      refl (omega arith) (omega arith) refl

-- the entry holds "ab" in the first round and is finished in the second
abbrev part : WaitRound
part = record {
  status = downloading;
  tested = 2;
  written = codes "ab";
  write_result = wrote 9;
  kept = 2;
}

abbrev whole : WaitRound
whole = record {
  status = valid;
  tested = 3;
  written = codes "abc";
  write_result = wrote 9;
  kept = 3;
}

-- a byte that is added between the write and the read behind it is never sent
responding_from_progess_cache_rounds-lost :
    responding_from_progess_cache_rounds 0 (record part { kept = 3 } ∷ (whole ∷ [])) ≡ codes "ab"
unfolding responding_from_progess_cache_rounds
responding_from_progess_cache_rounds-lost = refl
