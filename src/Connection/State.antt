-- ===== src/Connection/State.antt =====
-- http_proxy/connection.h and cache.h: the connection, the cache entries, and the results of calls.
use os_solutions.HashTable.{HashTable, Pointer}
use os_solutions.Prelude.{ℕ, Option, none, List, [], ◌∷◌, if◌then◌else◌, ◌==◌, drop, length, Bytes}

pub data EntryStatus : Type 0 where
  downloading valid invalid : EntryStatus

-- `dataCount` is the length of `content`
pub record CacheEntry : Type 0 where
  pub url : Bytes
  pub content : Bytes
  pub waiters_count : ℕ
  pub entry_status : EntryStatus

pub data ConnectionStatus : Type 0 where
  getting_request connecting_to_server writing_request forwarding_request : ConnectionStatus
  forwarding_response responding_from_progess_cache responding_from_cache : ConnectionStatus

-- `client_socket` is none where the C field is -1; so is `left_to_download`. `buffer` is the
-- allocated block, none for NULL. `cache_entry` is an address, 0 for NULL.
pub record Connection : Type 0 where
  pub client_socket : Option ℕ
  pub server_socket : ℕ
  pub connection_status : ConnectionStatus
  pub buffer : Option Bytes
  pub buffer_size : ℕ
  pub left_to_download : Option ℕ
  pub cache_entry : Pointer
  pub cache_bytes_written : ℕ

pub record World : Type 0 where
  pub cache : HashTable
  pub entries : Pointer → Option CacheEntry
  pub next : Pointer
  pub to_client : Bytes
  pub to_server : Bytes
  pub closed : List ℕ

-- What `read` returned: bytes, an empty list at the end of the stream, or an error.
pub data ReadResult : Type 0 where
  received : Bytes → ReadResult
  read_failed : ReadResult

-- What `write` returned: a count, EPIPE, or another error.
pub data WriteResult : Type 0 where
  wrote : ℕ → WriteResult
  broken_pipe : WriteResult
  write_failed : WriteResult

abbrev pub update :
    (Pointer → Option CacheEntry) → Pointer → Option CacheEntry → Pointer → Option CacheEntry
update f p e q = if p == q then e else f q

-- the entries at these addresses are freed
unfoldable pub free_all : List Pointer → (Pointer → Option CacheEntry) → Pointer → Option CacheEntry
free_all [] entries = entries
free_all (p ∷ ps) entries = free_all ps (update entries p none)

-- `cache_dtor` frees each entry that the table hands it
unfoldable pub set_cache : World → HashTable → World
unfolding free_all
set_cache w table = record w {
  cache = table;
  entries = free_all (drop (length w.cache.destroyed) table.destroyed) w.entries;
}
