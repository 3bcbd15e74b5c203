-- ===== src/HttpClient.antt =====
-- networks/http_client/main.c: the HTTP client, from the URL that is entered to what it prints.
--
-- `bufsiz` is stdio's BUFSIZ. `beyond` is what the heap holds, up to a 0, behind a port that was
-- not ended by one. `resolve` is `getaddrinfo`: the addresses in their order, none for an error,
-- each with what `socket` and `connect` give for it. `received` gives the pieces that the calls of
-- `recv` yield after a request was sent, and `stale` what the buffer of 255 bytes holds at first.
pub mod Requests
pub mod Session
use os_solutions.UrlParser.{ParsedUrl, Parsing, parsed, refused, crash, parse_url}
use os_solutions.Prelude.{
  ℕ, zero, suc, Bool, true, false, Option, none, some, List, [], ◌∷◌, ◌++◌, ◌==◌, leb,
  if◌then◌else◌, length, drop, replicate, Bytes, codes, Outcome, ok, fault, ◌>>=◌,
}

-- BUF_SIZE
abbrev pub buf_size : ℕ
buf_size = 255

abbrev pub crlf : Bytes
crlf = 13 ∷ (b'\n' ∷ [])

-- what the four formats of `http_get` end with
abbrev pub behind_target : Bytes → Bytes
behind_target host =
    codes " HTTP/1.1"
    ++ (crlf ++ (codes "Host:" ++ (host ++ (crlf ++ (codes "Connection:close" ++ (crlf ++ crlf))))))

-- lines 71 to 92
unfoldable pub http_headers : Option Bytes → Option Bytes → Bytes → Bytes
http_headers (some path) (some query) host =
    codes "GET /" ++ (path ++ (codes "?" ++ (query ++ behind_target host)))
http_headers (some path) none host = codes "GET /" ++ (path ++ behind_target host)
http_headers none (some query) host = codes "GET /?" ++ (query ++ behind_target host)
http_headers none none host = codes "GET /" ++ behind_target host

-- an address: no socket, a socket that does not connect, or one that does
pub data Attempt : Type 0 where
  no_socket : Attempt
  no_connection connection : ℕ → Attempt

-- `establishConnection`: the socket that is connected, and those that were closed
unfoldable pub establish_connection : List Attempt → Option ℕ × List ℕ
establish_connection [] = (none, [])
establish_connection (no_socket ∷ info) = establish_connection info
establish_connection (no_connection clientfd ∷ info) =
    let rest = establish_connection info in (rest.0, clientfd ∷ rest.1)
establish_connection (connection clientfd ∷ info) = (some clientfd, [])

-- a text in memory, up to its 0
unfoldable pub c_string : Bytes → Outcome Bytes
c_string [] = fault
c_string (c ∷ memory) = if c == 0 then ok [] else (c_string memory >>= λ s. ok (c ∷ s))

-- the loop over `recv`: what `fputs` prints of the buffer, which is cleared behind it
unfoldable pub print_pieces : Bytes → List Bytes → Outcome Bytes
unfolding c_string
print_pieces buf [] = ok []
print_pieces buf (piece ∷ pieces) = do
  text ← c_string (piece ++ drop (length piece) buf)
  rest ← print_pieces (replicate buf_size 0) pieces
  ok (text ++ rest)

-- the port that `getHostInfo` reads
abbrev pub port_read : Bytes → ParsedUrl → Bytes
port_read beyond purl = if purl.port_terminated then purl.port else purl.port ++ beyond

module _ (alloc : ℕ → Bool) (bufsiz : ℕ) (beyond : Bytes)
    (resolve : Bytes → Bytes → Option (List Attempt)) (received : Bytes → List Bytes)
    (stale : Bytes) where
  -- `http_get`: the socket with what is sent on it, none for -1, and what is printed
  unfoldable pub http_get : Bytes → Outcome (Option (ℕ × Bytes) × Bytes)
  unfolding http_headers establish_connection
  http_get url = elim (parse_url alloc url) [
    | crash ↦ fault
    | refused ↦ ok (none, codes "Unable to parse url")
    | parsed purl ↦
        let request = http_headers purl.path purl.query purl.host in
        let clientfd : Option ℕ = elim (resolve purl.host (port_read beyond purl)) [
          | none ↦ none
          | some info ↦ (establish_connection info).0
        ] in
        if leb bufsiz (length request) then fault else elim clientfd [
          | none ↦ ok (none, codes "Failed to connect\n")
          | some fd ↦ ok (some (fd, request), [])
        ]
  ]

  -- `do_request`, for the word that `scanf` reads, none at the end of the input: whether to go on,
  -- and what is printed
  unfoldable pub do_request : Option Bytes → Outcome (Bool × Bytes)
  unfolding http_get print_pieces
  do_request none = ok (false, codes "Please URL: ")
  do_request (some url) =
      if leb buf_size (length url)
      then fault
      else (http_get url >>= λ got. elim got.0 [
        | none ↦ ok (false, codes "Please URL: " ++ got.1)
        | some sent ↦ (do
          printed ← print_pieces stale (received sent.1)
          ok (true, codes "Please URL: " ++ (got.1 ++ printed)))
      ])

  -- `main`, for the words of the input
  unfoldable pub main : List Bytes → Outcome Bytes
  unfolding do_request
  main [] = do_request none >>= λ r. ok r.1
  main (url ∷ urls) = do_request (some url) >>= λ r. elim r.0 [
    | true ↦ (do later ← main urls; ok (r.1 ++ later))
    | false ↦ ok r.1
  ]
