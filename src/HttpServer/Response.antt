-- ===== src/HttpServer/Response.antt =====
-- A response of the server, as the proxy reads it.
use os_solutions.HttpServer.{handle_http_code, get_mime_type, send_file, send_blocks}
use os_solutions.HttpUtils.{
  get_content_length_from_data, get_response_code_from_data, header_start, positive, strtol,
  long_max,
}
use os_solutions.HttpUtils.Length.{NoHeader, get_content_length_from_data-found}
use os_solutions.HttpUtils.Numbers.{strtol-decimal}
use mathlib.Core.List.{append_assoc}
use os_solutions.Prelude.{
  ℕ, zero, suc, ◌≤◌, ◌<◌, ◌≡◌, refl, ap, ◌∙◌, Bool, true, false, not, ◌&&◌, ◌||◌, Option, none,
  some, [], ◌∷◌, ◌++◌, ◌==◌, length, drop, Bytes, codes, starts_with, decimal, Outcome, ok, fault,
  abort, timeout, ◌>>=◌, ltb, length-append, arith, take-append-drop,
}

length-drop-le : (k : ℕ) (s : Bytes) → length (drop k s) ≤ length s
length-drop-le zero s = omega arith
length-drop-le (suc k) [] = omega arith
length-drop-le (suc k) (c ∷ s) = omega (arith, length-drop-le k s)

send_blocks-all :
    (fuel : ℕ) (content : Bytes) → length content ≤ fuel → send_blocks fuel content ≡ content
unfolding send_blocks
send_blocks-all zero [] h = refl
send_blocks-all zero (c ∷ content) h = absurd (omega arith)
send_blocks-all (suc fuel) [] h = refl
send_blocks-all (suc fuel) (c ∷ content) h =
    rw (send_blocks-all fuel (drop 1024 (c ∷ content)) (shorter 1023 c content fuel (omega arith)))
      (take-append-drop 1024 (c ∷ content))
  where
    shorter :
        (k c : ℕ) (s : Bytes) (fuel : ℕ) → length s ≤ fuel → length (drop (suc k) (c ∷ s)) ≤ fuel
    shorter k c s fuel h = omega (arith, length-drop-le k s)

-- what stands before the newline of the length's line
status_lines : Bytes
status_lines = codes "HTTP/1.0 200 OK\nServer: Kolsha/0.1.0" ++ (13 ∷ [])

-- No line but the first begins with a 'C', and the last byte ends no line.
plain : Bytes → Bool
plain [] = true
plain (c ∷ []) = not (c == b'\n')
plain (c ∷ (d ∷ s)) = let rest = plain (d ∷ s) in (not (c == b'\n') || not (b'C' == d)) && rest

plain-NoHeader : (s behind : Bytes) → plain s ≡ true → NoHeader s behind
unfolding plain starts_with
plain-NoHeader [] behind h = tt
plain-NoHeader (c ∷ []) behind h = ((λ e. ground arith), tt)
plain-NoHeader (c ∷ (d ∷ s)) behind h =
    ((λ e. ground arith), plain-NoHeader (d ∷ s) behind (ground arith))

status_lines-NoHeader : (behind : Bytes) → NoHeader status_lines behind
unfolding status_lines plain
status_lines-NoHeader behind = plain-NoHeader status_lines behind refl

code_200 : (behind : Bytes) → get_response_code_from_data (status_lines ++ behind) ≡ ok (some 200)
unfolding status_lines get_response_code_from_data
code_200 behind =
    let long : ltb (length (status_lines ++ behind)) 9 ≡ false =
      ground (arith, length-append status_lines behind) in
    rw long refl

-- what `send_file` sends, for the line of the type
sent_with : ℕ → Bytes → Bytes → Bytes
unfolding handle_http_code
sent_with socket content type_line =
    handle_http_code (some socket) 200
    ++ ((codes "Content-Length: " ++ (decimal (length content) ++ codes "\n"))
        ++ (type_line ++ (codes "\n" ++ send_blocks (length content) content)))

sent_with-lines :
    (socket : ℕ) (content type_line : Bytes)
    → sent_with socket content type_line
      ≡ status_lines
        ++ b'\n'
          ∷ (header_start
              ++ (b' ' ∷ (decimal (length content) ++ b'\n' ∷ (type_line ++ (b'\n' ∷ content)))))
unfolding sent_with handle_http_code status_lines
sent_with-lines socket content type_line =
    rw (send_blocks-all (length content) content (omega arith)) (
      ap (λ k. status_lines ++ b'\n' ∷ (header_start ++ (b' ' ∷ k)))
        (append_assoc (decimal (length content)) (codes "\n") (type_line ++ (b'\n' ∷ content))))

-- The proxy reads the status 200 and the content's length, and the content ends what was sent.
abbrev pub ReadBack : Bytes → Bytes → Type 0
ReadBack content sent =
    (get_response_code_from_data sent ≡ ok (some 200))
    × ((get_content_length_from_data sent (length sent) ≡ ok (some (length content)))
        × ((headers : Bytes) × (sent ≡ headers ++ content)))

sent_with-ReadBack :
    (socket : ℕ) (content type_line : Bytes)
    → 0 < length content
    → length content ≤ long_max
    → ReadBack content (sent_with socket content type_line)
unfolding positive status_lines
sent_with-ReadBack socket content type_line some_bytes small =
    let n = length content in
    let rest = type_line ++ (b'\n' ∷ content) in
    let value = b' ' ∷ (decimal n ++ b'\n' ∷ rest) in
    let lines = sent_with-lines socket content type_line in
    let inside : length status_lines < length (status_lines ++ b'\n' ∷ (header_start ++ value)) =
      omega (arith, length-append status_lines (b'\n' ∷ (header_start ++ value))) in
    let found : get_content_length_from_data (status_lines ++ b'\n' ∷ (header_start ++ value))
          (length (status_lines ++ b'\n' ∷ (header_start ++ value)))
        ≡ ok (positive (strtol value)) =
      get_content_length_from_data-found status_lines value
        (length (status_lines ++ b'\n' ∷ (header_start ++ value)))
        (status_lines-NoHeader (b'\n' ∷ (header_start ++ value))) inside in
    let nonzero : (n == 0) ≡ false = ground arith in
    (
      rw (lines) (code_200 (b'\n' ∷ (header_start ++ value))),
      (
        rw (lines, found, strtol-decimal n rest small, nonzero) refl,
        (
          status_lines
              ++ b'\n'
                ∷ (header_start ++ (b' ' ∷ (decimal n ++ b'\n' ∷ (type_line ++ (b'\n' ∷ []))))),
          lines
              ∙ ap (λ k. status_lines ++ b'\n' ∷ (header_start ++ (b' ' ∷ k)))
                  (parted (decimal n) type_line content),
        ),
      ),
    )
  where
    parted :
        (s t content : Bytes)
        → s ++ b'\n' ∷ (t ++ (b'\n' ∷ content)) ≡ (s ++ b'\n' ∷ (t ++ (b'\n' ∷ []))) ++ content
    parted s t content = simp (append_assoc)

sent-ReadBack :
    (socket : ℕ) (content sent : Bytes) (mime : Outcome (Option Bytes))
    → 0 < length content
    → length content ≤ long_max
    → (mime >>= λ m. ok (
        sent_with socket content
          (elim m [ none ↦ [] | some t ↦ codes "Content-Type: " ++ (t ++ codes "\n") ])))
      ≡ ok sent
    → ReadBack content sent
sent-ReadBack socket content sent abort some_bytes small h = absurd (ground arith)
sent-ReadBack socket content sent fault some_bytes small h = absurd (ground arith)
sent-ReadBack socket content sent timeout some_bytes small h = absurd (ground arith)
sent-ReadBack socket content sent (ok mime) some_bytes small h =
    let type_line : Bytes = elim mime [
      | none ↦ []
      | some t ↦ codes "Content-Type: " ++ (t ++ codes "\n")
    ] in
    let e : sent ≡ sent_with socket content type_line = cc in
    rw e (sent_with-ReadBack socket content type_line some_bytes small)

-- What the server sends for a file that is not empty and whose size fits a `long`, to a socket
-- and without a fault, is read by the proxy's parser as status 200 with the file's size as its
-- length, and it ends with the file's content.
pub send_file-ReadBack :
    (alloc : ℕ → Bool) (mime_types : Option Bytes) (files : Bytes → Option Bytes)
    (root path content : Bytes) (socket : ℕ) (sent : Bytes)
    → 0 < length content
    → length content ≤ long_max
    → send_file alloc mime_types files root (some socket) path content ≡ ok sent
    → ReadBack content sent
unfolding send_file sent_with
send_file-ReadBack alloc mime_types files root path content socket sent some_bytes small h =
    sent-ReadBack socket content sent (get_mime_type alloc mime_types files root path) some_bytes
      small h
