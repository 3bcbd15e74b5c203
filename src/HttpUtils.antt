-- ===== src/HttpUtils.antt =====
-- http_proxy/http_utils.c: reading requests and responses out of raw buffers.
--
-- A `char *` is the list of the bytes that can be read from there; a 0 follows them, and a read
-- behind that 0 is undefined. The buffers hold no 0 of their own at their end, so a theorem that
-- ranges over such lists ranges over whatever lies behind a buffer. A result -1 is none.
pub mod Url
pub mod Length
pub mod Edit
pub mod Numbers
use os_solutions.Prelude.{
  ℕ, suc, ◌+◌, ◌-◌, ◌*◌, ◌%◌, ◌^◌, ◌≤◌, Bool, true, false, not, ◌&&◌, ◌||◌, Option, none, some,
  List, [], ◌∷◌, ◌++◌, ltb, leb, ◌==◌, if◌then◌else◌, uint_mod, length, take, drop, get_elem?,
  Bytes, codes, starts_with, Outcome, ok, fault, ◌>>=◌,
}

-- The offset of the first occurrence, by C's `strstr`.
pub strstr : Bytes → Bytes → Option ℕ
strstr [] needle = if starts_with needle [] then some 0 else none
strstr (c ∷ s) needle =
    let rest = strstr s needle in
    if starts_with needle (c ∷ s)
    then some 0
    else if c == 0
    then none
    else elim rest [ none ↦ none | some i ↦ some (i + 1) ]

-- `strstr(s, needle) == s`
abbrev pub found_at_start : Option ℕ → Bool
found_at_start none = false
found_at_start (some i) = i == 0

unfoldable pub is_cache_method : Bytes → Bool
unfolding strstr starts_with
is_cache_method http_data =
    found_at_start (strstr http_data (codes "GET"))
    || found_at_start (strstr http_data (codes "HEAD"))

-- The loop to the next space: its index, or none where the loop returns NULL. The list is the
-- memory from index `i` on.
pub space_from : Bytes → ℕ → ℕ → Outcome (Option ℕ)
space_from [] data_length i = if leb data_length (i + 1) then ok none else fault
space_from (c ∷ s) data_length i =
    let rest = space_from s data_length (i + 1) in
    if c == b' ' then ok (some i) else if leb data_length (i + 1) then ok none else rest

-- lines 29 to 46: the second loop and the copy
pub url_at : (ℕ → Bool) → Bytes → ℕ → ℕ → Outcome (Option Bytes)
url_at alloc http_data data_length start_url = do
  second ← space_from (drop start_url http_data) data_length start_url
  elim second [
    | none ↦ ok none
    | some end_url ↦ ok (
        if alloc (end_url - start_url + 1)
        then some (take (end_url - start_url) (drop start_url http_data))
        else none)
  ]

unfoldable pub get_url_from_data : (ℕ → Bool) → Bytes → ℕ → Outcome (Option Bytes)
unfolding space_from url_at
get_url_from_data alloc http_data data_length = if ltb data_length 6 then ok none else (do
  first ← space_from http_data data_length 0
  elim first [ none ↦ ok none | some space ↦ url_at alloc http_data data_length (space + 1) ])

-- the loop that finds the end of the host
pub host_part : Bytes → Bytes
host_part [] = []
host_part (c ∷ url) = let rest = host_part url in if c == b'/' || c == 0 then [] else c ∷ rest

-- `url += 7` leaves the text where it has fewer bytes
unfoldable pub get_host_from_url : (ℕ → Bool) → Bytes → Outcome (Option Bytes)
unfolding host_part
get_host_from_url alloc url =
    if ltb (length url) 7
    then fault
    else (let host = host_part (drop 7 url) in
        ok (if alloc (length host + 1) then some host else none))

abbrev is_space : ℕ → Bool
is_space c = c == b' ' || (leb 9 c && leb c 13)

abbrev is_digit : ℕ → Bool
is_digit c = leb b'0' c && leb c b'9'

skip_spaces : Bytes → Bytes
skip_spaces [] = []
skip_spaces (c ∷ s) = let rest = skip_spaces s in if is_space c then rest else c ∷ s

-- the digits from here on, onto the value so far; `started` after a first digit
digits_value : Bytes → ℕ → Bool → Option ℕ
digits_value [] acc started = if started then some acc else none
digits_value (c ∷ s) acc started =
    let rest = digits_value s (acc * 10 + (c - b'0')) true in
    if is_digit c then rest else if started then some acc else none

-- sign and magnitude
sign_split : Bytes → Bool × Bytes
sign_split [] = (false, [])
sign_split (c ∷ s) =
    if c == b'-' then (true, s) else if c == b'+' then (false, s) else (false, c ∷ s)

abbrev pub long_max : ℕ
long_max = 2 ^ 63 - 1

-- C's `strtol` in base 10: none where no digit is read (`end` is the start), else whether the
-- value is negative, and its magnitude, clamped to the range of a 64-bit `long`.
unfoldable pub strtol : Bytes → Option (Bool × ℕ)
unfolding skip_spaces digits_value sign_split
strtol s =
    let r = sign_split (skip_spaces s) in
    elim (digits_value r.1 0 false) [
      | none ↦ none
      | some n ↦ some (
        r.0,
        if r.0
            then (if leb n (2 ^ 63) then n else 2 ^ 63)
            else (if leb n long_max then n else long_max),
      )
    ]

-- the bit pattern of `(int) value`
abbrev pub int_pattern : Bool × ℕ → ℕ
int_pattern r = if r.0 then (uint_mod - r.1 % uint_mod) % uint_mod else r.1 % uint_mod

-- `httpData += 9` leaves the memory where it has fewer bytes
unfoldable pub get_response_code_from_data : Bytes → Outcome (Option ℕ)
unfolding strtol
get_response_code_from_data http_data =
    if ltb (length http_data) 9 then fault else elim (strtol (drop 9 http_data)) [
      | none ↦ ok none
      | some r ↦
          let response = int_pattern r in
          if response == 0 || leb (2 ^ 31) response then ok none else ok (some response)
    ]

abbrev pub header_start : Bytes
header_start = codes "Content-Length:"

-- `contentLength <= 0`, or no number, is -1
unfoldable pub positive : Option (Bool × ℕ) → Option ℕ
positive none = none
positive (some (negative, n)) = if negative || n == 0 then none else some n

-- The loop over the lines; the list is the memory from index `i` on.
pub header_from : Bytes → ℕ → ℕ → Outcome (Option ℕ)
unfolding positive strtol starts_with
header_from [] data_length i = if leb data_length (i + 1) then ok none else fault
header_from (c ∷ s) data_length i =
    let rest = header_from s data_length (i + 1) in
    if c == b'\n'
    then (if starts_with header_start s
        then ok (positive (strtol (drop (length header_start) s)))
        else rest)
    else if leb data_length (i + 1)
    then ok none
    else rest

unfoldable pub get_content_length_from_data : Bytes → ℕ → Outcome (Option ℕ)
unfolding header_from
get_content_length_from_data http_data data_length = header_from http_data data_length 0

-- none is the status -1, which is no 1xx either
unfoldable pub is_response_has_payload : Option ℕ → Bool
is_response_has_payload none = true
is_response_has_payload (some status_code) =
    not (status_code == 204 || status_code == 304 || (leb 100 status_code && ltb status_code 200))

-- The index of the first byte `mark` in the memory from `i` on; these loops have no bound.
pub index_from : ℕ → Bytes → ℕ → Outcome ℕ
index_from mark [] i = fault
index_from mark (c ∷ s) i = let rest = index_from mark s (i + 1) in if c == mark then ok i else rest

-- The new contents of the buffer and the new `buffer_size`. `buffer` is the allocated block,
-- `beyond` what can be read behind it. The bytes that `memmove` leaves stay in the block.
-- the `memmove`, undefined where its length is below 0
pub moved : Bytes → ℕ → ℕ → ℕ → Outcome (Bytes × ℕ)
moved buffer buffer_size first_space first_slash =
    if ltb buffer_size first_slash
    then fault
    else ok (
      take (first_space + 1) buffer
          ++ (take (buffer_size - first_slash) (drop first_slash buffer)
              ++ drop (first_space + 1 + (buffer_size - first_slash)) buffer),
      buffer_size - (first_slash - (first_space + 1)),
    )

unfoldable pub edit_request_to_send_to_server : Bytes → Bytes → ℕ → Outcome (Bytes × ℕ)
unfolding index_from moved
edit_request_to_send_to_server beyond buffer buffer_size = do
  first_space ← index_from b' ' (buffer ++ beyond) 0
  first_slash ← index_from b'/' (drop (first_space + 8) (buffer ++ beyond)) (first_space + 8)
  moved buffer buffer_size first_space first_slash
