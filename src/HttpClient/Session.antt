-- ===== src/HttpClient/Session.antt =====
-- A session of the client with the server.
use os_solutions.HttpClient.{
  buf_size, http_headers, Attempt, establish_connection, c_string, print_pieces, port_read,
  http_get, do_request,
}
use os_solutions.HttpClient.Requests.{
  AllOutside, target, http_headers-target, answer_request-http_headers,
}
use os_solutions.HttpServer.{answer_request, serve_path, respond}
use os_solutions.UrlParser.{ParsedUrl}
use os_solutions.UrlParser.RoundTrip.{IsUrl, url_text, parse_url-url_text}
use os_solutions.Prelude.{
  ℕ, zero, suc, ◌<◌, ◌≡◌, refl, sym, ap, ◌∙◌, Bool, true, false, ◌||◌, Option, some, List, [], ◌∷◌,
  ◌++◌, ◌==◌, leb, length, drop, replicate, Bytes, codes, Outcome, ok, arith,
}

abbrev pub has_zero : Bytes → Bool
has_zero [] = false
has_zero (c ∷ s) = c == 0 || has_zero s

-- The pieces make up the bytes; each is shorter than the buffer and has no 0.
abbrev pub Delivers : List Bytes → Bytes → Type 0
Delivers [] out = out ≡ []
Delivers (piece ∷ pieces) out =
    (length piece < buf_size)
    × (has_zero piece ≡ false)
    × ((rest : Bytes) × (out ≡ piece ++ rest) × Delivers pieces rest)

pub c_string-append : (s rest : Bytes) → has_zero s ≡ false → c_string (s ++ 0 ∷ rest) ≡ ok s
unfolding c_string
c_string-append [] rest h = refl
c_string-append (c ∷ s) rest h =
    let first : (c == 0) ≡ false = ground arith in
    rw (first, c_string-append s rest (ground arith)) refl

drop-replicate : (k n : ℕ) → k < n → (rest : Bytes) × (drop k (replicate n 0) ≡ 0 ∷ rest)
drop-replicate k zero h = absurd (omega arith)
drop-replicate zero (suc n) h = (replicate n 0, refl)
drop-replicate (suc k) (suc n) h = drop-replicate k n (omega arith)

print_pieces-Delivers :
    (pieces : List Bytes) (out : Bytes)
    → Delivers pieces out
    → print_pieces (replicate buf_size 0) pieces ≡ ok out
unfolding print_pieces
print_pieces-Delivers [] out h = rw h refl
print_pieces-Delivers (piece ∷ pieces) out (small, plain, (rest, e, h)) =
    let (behind, f) = drop-replicate (length piece) buf_size small in
    rw (f, c_string-append piece behind plain, print_pieces-Delivers pieces rest h, e) refl

module _ (alloc : ℕ → Bool) (mime_types : Option Bytes) (files : Bytes → Option Bytes)
    (root : Bytes) where
  respond-http_headers :
      (client : Option ℕ) (path query : Option Bytes) (host : Bytes)
      → AllOutside (codes " \t") (target path query)
      → respond alloc mime_types files root client (some (http_headers path query host))
        ≡ serve_path alloc mime_types files root client (target path query)
  unfolding respond
  respond-http_headers client path query host plain =
      (ap (λ r. respond alloc mime_types files root client (some r))
          (http_headers-target path query host)
        ∙ ap (answer_request alloc mime_types files root client)
            (sym (http_headers-target path query host)))
      ∙ answer_request-http_headers alloc mime_types files root client path query host plain

-- the connection to a server: where it answers the request, the answer comes back in pieces
abbrev pub Carries : (Bytes → List Bytes) → (Bytes → Outcome Bytes) → Bytes → Type 0
Carries received serve request =
    (answer : Bytes) → serve request ≡ ok answer → Delivers (received request) answer

module _ (alloc : ℕ → Bool) (has : (n : ℕ) → alloc n ≡ true) (bufsiz : ℕ) (beyond : Bytes)
    (resolve : Bytes → Bytes → Option (List Attempt)) (received : Bytes → List Bytes)
    (server_alloc : ℕ → Bool) (mime_types : Option Bytes) (files : Bytes → Option Bytes)
    (root : Bytes) where
  http_get-url_text :
      (p : ParsedUrl) (info : List Attempt) (fd : ℕ)
      → IsUrl p
      → length (http_headers p.path p.query p.host) < bufsiz
      → resolve p.host (port_read beyond p) ≡ some info
      → (establish_connection info).0 ≡ some fd
      → http_get alloc bufsiz beyond resolve received (replicate buf_size 0) (url_text p)
        ≡ ok (some (fd, http_headers p.path p.query p.host), [])
  unfolding http_get http_headers
  http_get-url_text p info fd url fits found connected =
      let short : leb bufsiz (length (http_headers p.path p.query p.host)) ≡ false = ground arith in
      rw (parse_url-url_text alloc has p url, http_get)
        (rw (found) (rw (connected) (rw short refl)))

  -- The client with the server of this repository: a well-formed URL that is entered, shorter
  -- than 255 bytes, whose request is shorter than BUFSIZ, whose host resolves to addresses of
  -- which one connects, and whose target has no space or tab, is answered on the terminal by
  -- what the server serves for that target, if the answer comes in pieces that are shorter than
  -- the buffer and have no 0. All allocations of the client succeed, and its buffer holds zeros
  -- at first.
  pub do_request-serve_path :
      (p : ParsedUrl) (info : List Attempt) (fd socket : ℕ) (answer : Bytes)
      → IsUrl p
      → length (url_text p) < buf_size
      → length (http_headers p.path p.query p.host) < bufsiz
      → resolve p.host (port_read beyond p) ≡ some info
      → (establish_connection info).0 ≡ some fd
      → AllOutside (codes " \t") (target p.path p.query)
      → Carries received
          (λ request. respond server_alloc mime_types files root (some socket) (some request))
          (http_headers p.path p.query p.host)
      → serve_path server_alloc mime_types files root (some socket) (target p.path p.query)
        ≡ ok answer
      → do_request alloc bufsiz beyond resolve received (replicate buf_size 0) (some (url_text p))
        ≡ ok (true, codes "Please URL: " ++ answer)
  unfolding do_request
  do_request-serve_path p info fd socket answer url short fits found connected plain carries
        served =
      let request = http_headers p.path p.query p.host in
      let pieces = carries answer (
        respond-http_headers server_alloc mime_types files root (some socket) p.path p.query p.host
          plain
        ∙ served) in
      let short_url : leb buf_size (length (url_text p)) ≡ false = ground arith in
      rw (short_url) (
        rw (http_get-url_text p info fd url fits found connected, do_request)
          (rw (print_pieces-Delivers (received request) answer pieces) refl))
