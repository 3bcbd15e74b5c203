-- ===== src/HttpServer.antt =====
-- networks/http_server/my_server.c: what a process of the server sends to its client, and the
-- search for a free slot in the table of clients.
--
-- A text is the bytes before its 0. The request is shorter than the buffer, which is cleared. The
-- file system gives the contents of a path, none where `fopen` fails. The log is not modelled.
pub mod Slots
pub mod Response
use os_solutions.Prelude.{
  ℕ, zero, suc, ◌+◌, ◌%◌, Bool, true, false, not, ◌&&◌, ◌||◌, Option, none, some, List, [], ◌∷◌,
  ◌++◌, ◌==◌, ltb, leb, if◌then◌else◌, get_elem?, set, take, drop, length, Bytes, codes, same_text,
  starts_with, decimal, Outcome, ok, fault, timeout, ◌>>=◌, read,
}

-- SERVER_STRING
abbrev pub server_string : Bytes
server_string = codes "Server: Kolsha/0.1.0" ++ (13 ∷ (b'\n' ∷ []))

-- `handle_http_code`: what is sent, where the slot holds a socket
unfoldable pub handle_http_code : Option ℕ → ℕ → Bytes
handle_http_code none code = []
handle_http_code (some socket) code =
    if code == 200
    then codes "HTTP/1.0 200 OK\n" ++ server_string
    else (let status =
          if code == 404
          then codes "HTTP/1.0 404 NOT FOUND\n"
          else if code == 400
          then codes "HTTP/1.0 400 Bad Request\n"
          else if code == 501
          then codes "HTTP/1.0 501 Method Not Implemented\n"
          else codes "HTTP/1.0 500 Internal Server Error\n" in
        status ++ (server_string ++ codes "Content-Type: text/html\n"))

unfoldable pub is_in : Bytes → ℕ → Bool
is_in [] c = false
is_in (d ∷ delimiters) c = c == d || is_in delimiters c

unfoldable pub skip_delimiters : Bytes → Bytes → Bytes
unfolding is_in
skip_delimiters delimiters [] = []
skip_delimiters delimiters (c ∷ s) =
    let rest = skip_delimiters delimiters s in if is_in delimiters c then rest else c ∷ s

-- the bytes before the first delimiter, and the text behind it
unfoldable pub token_of : Bytes → Bytes → Bytes × Bytes
unfolding is_in
token_of delimiters [] = ([], [])
token_of delimiters (c ∷ s) =
    let rest = token_of delimiters s in if is_in delimiters c then ([], s) else (c ∷ rest.0, rest.1)

-- C's `strtok` from the text that is left: the token, none for NULL, and the text behind it
unfoldable pub strtok : Bytes → Bytes → Option Bytes × Bytes
unfolding skip_delimiters token_of
strtok delimiters text = elim (skip_delimiters delimiters text) [
  | [] ↦ (none, [])
  | c ∷ s ↦ (let r = token_of delimiters (c ∷ s) in (some r.0, r.1))
]

-- the text behind the last '.', by `strrchr(name, '.') + 1`
unfoldable pub extension : Bytes → Option Bytes
extension [] = none
extension (c ∷ name) =
    let rest = extension name in
    elim rest [ some e ↦ some e | none ↦ if c == b'.' then some name else none ]

-- `fgets` of at most `n` bytes from a file: the line with its newline, and the rest
unfoldable pub fgets : ℕ → Bytes → Bytes × Bytes
fgets zero file = ([], file)
fgets (suc n) [] = ([], [])
fgets (suc n) (c ∷ file) =
    let rest = fgets n file in if c == b'\n' then (c ∷ [], file) else (c ∷ rest.0, rest.1)

abbrev pub mime_type_def : Bytes
mime_type_def = codes "text/html"

-- the loop over the lines of the file of types; a line without a second word is copied from NULL
unfoldable pub find_type : ℕ → Bytes → Bytes → Outcome Bytes
unfolding fgets strtok
find_type zero ext file = timeout
find_type (suc fuel) ext [] = ok mime_type_def
find_type (suc fuel) ext (c ∷ file) =
    let read_line = fgets 127 (c ∷ file) in
    let first = strtok (codes " ") read_line.0 in
    elim first.0 [
      | none ↦ find_type fuel ext read_line.1
      | some token ↦ elim (same_text token ext) [
        | true ↦ read (strtok (codes " ") first.1).0
        | false ↦ find_type fuel ext read_line.1
      ]
    ]

-- the loop that sends the file in blocks of BYTES
unfoldable pub send_blocks : ℕ → Bytes → Bytes
send_blocks zero content = []
send_blocks (suc fuel) [] = []
send_blocks (suc fuel) (c ∷ content) =
    take 1024 (c ∷ content) ++ send_blocks fuel (drop 1024 (c ∷ content))

-- `alloc` says whether an allocation succeeds, `mime_types` is the file of types, `files` the file
-- system, and `root` the served directory.
module _ (alloc : ℕ → Bool) (mime_types : Option Bytes) (files : Bytes → Option Bytes)
    (root : Bytes) where
  unfoldable pub get_mime_type : Bytes → Outcome (Option Bytes)
  unfolding find_type extension
  get_mime_type name =
      if alloc 128
      then elim (extension name) [
        | none ↦ ok (some mime_type_def)
        | some ext ↦ elim mime_types [
          | none ↦ ok (some mime_type_def)
          | some file ↦ (do found ← find_type (suc (length file)) ext file; ok (some found))
        ]
      ]
      else ok none

  -- lines 260 to 285
  unfoldable pub send_file : Option ℕ → Bytes → Bytes → Outcome Bytes
  unfolding handle_http_code get_mime_type send_blocks
  send_file client path content = do
    mime ← get_mime_type path
    let type_line : Bytes = elim mime [
      | none ↦ []
      | some m ↦ codes "Content-Type: " ++ (m ++ codes "\n")
    ]
    ok (
        handle_http_code client 200
        ++ ((codes "Content-Length: " ++ (decimal (length content) ++ codes "\n"))
            ++ (type_line ++ (codes "\n" ++ send_blocks (length content) content))))

  -- lines 248 to 292, for the second word of the request; `path` has 255 bytes
  unfoldable pub serve_path : Option ℕ → Bytes → Outcome Bytes
  unfolding send_file
  serve_path client word =
      let name : Bytes = if same_text word (codes "/") then codes "/index.html" else word in
      let path = root ++ name in
      if leb 255 (length path) then fault else elim (files path) [
        | some content ↦ send_file client path content
        | none ↦ ok (handle_http_code client 404)
      ]

  -- lines 236 to 296; a word that is not there is NULL, and read all the same
  unfoldable pub answer_request : Option ℕ → Bytes → Outcome Bytes
  unfolding serve_path strtok
  answer_request client msg = do
    let first = strtok (codes " \t\n") msg
    method ← read first.0
    (if same_text method (codes "GET")
        then (do
          let second = strtok (codes " \t") first.1
          let third = strtok (codes " \t\n") second.1
          version ← read third.0
          (if not (starts_with (codes "HTTP/1.0") version)
                && not (starts_with (codes "HTTP/1.1") version)
              then ok (handle_http_code client 400)
              else (do word ← read second.0; serve_path client word)))
        else ok (handle_http_code client 501))

  -- `respond` for what `recv` gives: bytes, none where it fails, an empty text at the end
  unfoldable pub respond : Option ℕ → Option Bytes → Outcome Bytes
  unfolding answer_request
  respond client none = ok []
  respond client (some []) = ok []
  respond client (some (c ∷ msg)) = answer_request client (c ∷ msg)

-- CONNMAX
abbrev pub conn_max : ℕ
conn_max = 1000

-- `while (clients[slot] != -1) slot = (slot + 1) % CONNMAX;`
unfoldable pub free_slot : ℕ → List (Option ℕ) → ℕ → Outcome ℕ
free_slot zero clients slot = timeout
free_slot (suc fuel) clients slot = read (get_elem? clients slot) >>= λ c. elim c [
  | none ↦ ok slot
  | some socket ↦ free_slot fuel clients ((slot + 1) % conn_max)
]

-- One round of `listen_server` in the parent: what `accept` gave is stored, none for -1, and a
-- free slot is searched. The child that responds has a table of its own.
unfoldable pub accept_client : ℕ → List (Option ℕ) → ℕ → Option ℕ → Outcome (List (Option ℕ) × ℕ)
unfolding free_slot
accept_client fuel clients slot accepted = do
  let clients' = set clients slot accepted
  next ← free_slot fuel clients' slot
  ok (clients', next)
