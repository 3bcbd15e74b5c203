-- ===== src/HttpClient/Requests.antt =====
-- The server reads the request that the client writes.
use os_solutions.HttpClient.{behind_target, crlf, http_headers}
use os_solutions.HttpServer.{strtok, skip_delimiters, token_of, is_in, answer_request, serve_path}
use mathlib.Core.List.{append_assoc, append-nil}
use os_solutions.Prelude.{
  ℕ, ◌≡◌, refl, sym, ap, ◌∙◌, Bool, true, false, Option, none, some, [], ◌∷◌, ◌++◌, Bytes, codes,
  same_text, starts_with,
}

-- No byte is a delimiter.
abbrev pub AllOutside : Bytes → Bytes → Type 0
AllOutside delimiters [] = Unit {0}
AllOutside delimiters (c ∷ s) = (is_in delimiters c ≡ false) × AllOutside delimiters s

pub AllOutside-append : (d s t : Bytes) → AllOutside d s → AllOutside d t → AllOutside d (s ++ t)
AllOutside-append d [] t h k = k
AllOutside-append d (c ∷ s) t h k = (h.0, AllOutside-append d s t h.1 k)

token_of-word :
    (d word : Bytes) (c : ℕ) (rest : Bytes)
    → AllOutside d word
    → is_in d c ≡ true
    → token_of d (word ++ c ∷ rest) ≡ (word, rest)
unfolding token_of
token_of-word d [] c rest h k = rw k refl
token_of-word d (b ∷ word) c rest h k = rw (h.0, token_of-word d word c rest h.1 k) refl

skip_delimiters-word :
    (d : Bytes) (b : ℕ) (s : Bytes) → is_in d b ≡ false → skip_delimiters d (b ∷ s) ≡ b ∷ s
unfolding skip_delimiters
skip_delimiters-word d b s h = rw h refl

-- a word behind no delimiter, with a delimiter behind it
pub strtok-word :
    (d : Bytes) (b : ℕ) (word : Bytes) (c : ℕ) (rest : Bytes)
    → AllOutside d (b ∷ word)
    → is_in d c ≡ true
    → strtok d ((b ∷ word) ++ c ∷ rest) ≡ (some (b ∷ word), rest)
unfolding strtok
strtok-word d b word c rest h k =
    rw (skip_delimiters-word d b (word ++ c ∷ rest) h.0, strtok)
      (ap (λ r. (some r.0, r.1)) (token_of-word d (b ∷ word) c rest h k))

-- what the request asks for
unfoldable pub target : Option Bytes → Option Bytes → Bytes
target path query =
    b'/' ∷ (elim path [ none ↦ [] | some s ↦ s ] ++ elim query [ none ↦ [] | some q ↦ b'?' ∷ q ])

abbrev header_lines : Bytes → Bytes
header_lines host =
    b'\n' ∷ (codes "Host:" ++ (host ++ (crlf ++ (codes "Connection:close" ++ (crlf ++ crlf)))))

-- The four formats are one.
pub http_headers-target :
    (path query : Option Bytes) (host : Bytes)
    → http_headers path query host
      ≡ codes "GET"
        ++ b' ' ∷ (target path query ++ b' ' ∷ (codes "HTTP/1.1" ++ 13 ∷ header_lines host))
unfolding http_headers target
http_headers-target (some path) (some query) host =
    ap (λ t. codes "GET /" ++ t) (sym (append_assoc path (b'?' ∷ query) (behind_target host)))
http_headers-target (some path) none host =
    ap (λ t. codes "GET /" ++ (t ++ behind_target host)) (sym (append-nil path))
http_headers-target none (some query) host = refl
http_headers-target none none host = refl

module _ (alloc : ℕ → Bool) (mime_types : Option Bytes) (files : Bytes → Option Bytes)
    (root : Bytes) where
  request_line :
      (client : Option ℕ) (b : ℕ) (word rest : Bytes)
      → AllOutside (codes " \t") (b ∷ word)
      → answer_request alloc mime_types files root client
          (codes "GET" ++ b' ' ∷ ((b ∷ word) ++ b' ' ∷ (codes "HTTP/1.1" ++ 13 ∷ (b'\n' ∷ rest))))
        ≡ serve_path alloc mime_types files root client (b ∷ word)
  unfolding answer_request is_in starts_with same_text
  request_line client b word rest plain =
      let behind = codes "HTTP/1.1" ++ 13 ∷ (b'\n' ∷ rest) in
      let second : strtok (codes " \t") ((b ∷ word) ++ b' ' ∷ behind) ≡ (some (b ∷ word), behind) =
        strtok-word (codes " \t") b word b' ' behind plain refl in
      rw (second) refl

  -- The server serves what the request asks for.
  pub answer_request-http_headers :
      (client : Option ℕ) (path query : Option Bytes) (host : Bytes)
      → AllOutside (codes " \t") (target path query)
      → answer_request alloc mime_types files root client (http_headers path query host)
        ≡ serve_path alloc mime_types files root client (target path query)
  unfolding target
  answer_request-http_headers client path query host plain =
      ap (answer_request alloc mime_types files root client) (http_headers-target path query host)
      ∙ request_line client b'/' _ _ plain
