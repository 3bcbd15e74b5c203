-- ===== src/HttpUtils/Length.antt =====
-- The `Content-Length` header.
use os_solutions.Prelude.{
  ℕ, ◌+◌, ◌<◌, ◌≤◌, ◌≡◌, refl, arith, Bool, true, false, Option, none, some, [], ◌∷◌, ◌++◌, leb,
  ◌==◌, Bool-cases, inl, inr, length, drop, Bytes, starts_with, ok, Returns,
}
use os_solutions.HttpUtils.{
  header_start, header_from, positive, strtol, get_content_length_from_data,
}

positive-pos : (r : Option (Bool × ℕ)) (n : ℕ) → positive r ≡ some n → 0 < n
unfolding positive
positive-pos none n h = absurd (ground arith)
positive-pos (some (negative, m)) n h = ground arith

header_from-Returns :
    (s : Bytes) (data_length i : ℕ)
    → data_length ≤ i + length s + 1
    → Returns (header_from s data_length i) λ o. (n : ℕ) → o ≡ some n → 0 < n
unfolding header_from
header_from-Returns [] n i h = (none, ground arith, λ m e. absurd (ground arith))
header_from-Returns (c ∷ s) n i h =
    let (o, run, holds) = header_from-Returns s n (i + 1) (omega arith) in
    elim (Bool-cases (c == b'\n')) [
      | inl line ↦ elim (Bool-cases (starts_with header_start s)) [
        | inl found ↦ (
          positive (strtol (drop (length header_start) s)),
          rw (line, found),
          λ m e. positive-pos (strtol (drop (length header_start) s)) m e,
        )
        | inr other ↦ (o, rw (line, other) run, holds)
      ]
      | inr inside ↦ elim (Bool-cases (leb n (i + 1))) [
        | inl out ↦ (none, rw (inside, out), λ m e. absurd (ground arith))
        | inr more ↦ (o, rw (inside, more) run, holds)
      ]
    ]

-- Whatever the bytes are, the search ends without a fault where all of the data but its last
-- byte can be read, and a length that it finds is positive.
pub get_content_length_from_data-Returns :
    (http_data : Bytes) (data_length : ℕ)
    → data_length ≤ length http_data + 1
    → Returns (get_content_length_from_data http_data data_length) λ o. (n : ℕ) → o ≡ some n → 0 < n
unfolding get_content_length_from_data
get_content_length_from_data-Returns d n h = header_from-Returns d n 0 (omega arith)

-- No line of the text, from one newline on, begins with the header.
abbrev pub NoHeader : Bytes → Bytes → Type 0
NoHeader [] behind = Unit {0}
NoHeader (c ∷ s) behind =
    ((c == b'\n') ≡ true → starts_with header_start (s ++ behind) ≡ false) × NoHeader s behind

header_from-found :
    (before value : Bytes) (data_length i : ℕ)
    → NoHeader before (b'\n' ∷ (header_start ++ value))
    → i + length before < data_length
    → header_from (before ++ b'\n' ∷ (header_start ++ value)) data_length i
      ≡ ok (positive (strtol value))
unfolding header_from
header_from-found [] value n i plain inside = refl
header_from-found (c ∷ before) value n i plain inside =
    let ih = header_from-found before value n (i + 1) plain.1 (omega arith) in
    let more : leb n (i + 1) ≡ false = ground arith in
    elim (Bool-cases (c == b'\n')) [
      | inl line ↦ rw (line, plain.0 line) ih
      | inr inside' ↦ rw (inside', more) ih
    ]

-- The first line that begins with the header, is not the first of the data and starts within it,
-- gives the length: the number behind the header, if it is positive.
pub get_content_length_from_data-found :
    (before value : Bytes) (data_length : ℕ)
    → NoHeader before (b'\n' ∷ (header_start ++ value))
    → length before < data_length
    → get_content_length_from_data (before ++ b'\n' ∷ (header_start ++ value)) data_length
      ≡ ok (positive (strtol value))
unfolding get_content_length_from_data
get_content_length_from_data-found before value n plain inside =
    header_from-found before value n 0 plain (omega arith)
