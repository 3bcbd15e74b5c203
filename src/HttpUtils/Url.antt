-- ===== src/HttpUtils/Url.antt =====
-- The request line: the method test, the URL and the host.
use os_solutions.Prelude.{
  ℕ, zero, suc, le→ltb, ◌+◌, ◌-◌, ◌<◌, ◌≤◌, ◌≡◌, refl, ap, ◌∙◌, arith, Bool, true, false, ◌||◌,
  Option, none, some, [], ◌∷◌, ◌++◌, ltb, leb, ◌==◌, if◌then◌else◌, Bool-cases, inl, inr, length,
  take, drop, take-append, Bytes, codes, starts_with, ok, Returns, ◌>>=◌,
}
use mathlib.Core.Path.{ap₂}
use native.Mathlib.Nat.{zero-add}
use native.Mathlib.Numerals.{add-one}
use os_solutions.HttpUtils.{
  found_at_start, strstr, is_cache_method, space_from, url_at, get_url_from_data, host_part,
  get_host_from_url,
}

strstr-starts_with : (s needle : Bytes) → found_at_start (strstr s needle) ≡ starts_with needle s
unfolding strstr
strstr-starts_with [] needle = ground arith
strstr-starts_with (c ∷ s) needle = ground arith

-- The method test is on the first bytes alone: `GET` or `HEAD` elsewhere does not count.
pub is_cache_method-starts_with :
    (http_data : Bytes)
    → is_cache_method http_data
      ≡ (starts_with (codes "GET") http_data || starts_with (codes "HEAD") http_data)
unfolding is_cache_method
is_cache_method-starts_with http_data =
    ap₂ ◌||◌ (strstr-starts_with http_data (codes "GET"))
      (strstr-starts_with http_data (codes "HEAD"))

-- No byte of the text is a space.
abbrev pub HasNo : ℕ → Bytes → Type 0
HasNo mark [] = Unit {0}
HasNo mark (c ∷ s) = ((c == mark) ≡ false) × HasNo mark s

space_from-HasNo :
    (s rest : Bytes) (data_length i : ℕ)
    → HasNo b' ' s
    → i + length s < data_length
    → space_from (s ++ b' ' ∷ rest) data_length i ≡ ok (some (i + length s))
unfolding space_from
space_from-HasNo [] rest n i h lt = ground arith
space_from-HasNo (c ∷ s) rest n i h lt =
    ground (arith, space_from-HasNo s rest n (i + 1) h.1 (omega arith))

drop_past : (s t : Bytes) → drop (length s + 1) (s ++ b' ' ∷ t) ≡ t
drop_past [] t = refl
drop_past (c ∷ s) t = rw add-one (rw add-one at (drop_past s t))

add_sub_self : (a b : ℕ) → a + b - a ≡ b
add_sub_self a b = omega arith

-- The loop stays inside the data: it does not fault where the data can be read.
space_from-Returns :
    (s : Bytes) (data_length i : ℕ)
    → data_length ≤ i + length s + 1
    → Returns (space_from s data_length i) λ o. (j : ℕ) → o ≡ some j → (j ≤ i + length s) × (i ≤ j)
unfolding space_from
space_from-Returns [] n i h = (none, ground arith, λ j e. absurd (ground arith))
space_from-Returns (c ∷ s) n i h = elim (Bool-cases (c == b' ')) [
  | inl e ↦ (some i, rw e, λ j e'. ground arith)
  | inr e ↦ elim (Bool-cases (leb n (i + 1))) [
    | inl out ↦ (none, rw (e, out), λ j e'. absurd (ground arith))
    | inr inside ↦
        let (o, run, within) = space_from-Returns s n (i + 1) (omega arith) in
        (o, rw (e, inside) run, λ j e'. omega (arith, within j e'))
  ]
]

drop-length : (s : Bytes) (n : ℕ) → length (drop n s) ≡ length s - n
drop-length s zero = omega arith
drop-length [] (suc n) = omega arith
drop-length (c ∷ s) (suc n) = omega (arith, drop-length s n)

url_at-Returns :
    (alloc : ℕ → Bool) (d : Bytes) (n start : ℕ)
    → n ≤ length d
    → Returns (url_at alloc d n start) λ u. Unit {0}
unfolding url_at
url_at-Returns alloc d n start h =
    let (o, run, within) =
      space_from-Returns (drop start d) n start (omega (arith, drop-length d start)) in
    rw (run, ◌>>=◌) (finish o)
  where
    finish :
        (o : Option ℕ)
        → Returns
            (elim o [
              | none ↦ ok none
              | some end_url ↦ ok (
                  if alloc (end_url - start + 1)
                  then some (take (end_url - start) (drop start d))
                  else none)
            ])
            λ u. Unit {0}
    finish none = (none, refl, tt)
    finish (some j) = (_, refl, tt)

-- Whatever the bytes are, the request line is read without leaving the data, if all of the data
-- can be read.
pub get_url_from_data-Returns :
    (alloc : ℕ → Bool) (http_data : Bytes) (data_length : ℕ)
    → data_length ≤ length http_data
    → Returns (get_url_from_data alloc http_data data_length) λ o. Unit {0}
unfolding get_url_from_data
get_url_from_data-Returns alloc d n h = elim (Bool-cases (ltb n 6)) [
  | inl short ↦ (none, rw short, tt)
  | inr long ↦
      let (o, run, within) = space_from-Returns d n 0 (omega arith) in
      rw long (rw (run, ◌>>=◌) (rest o within))
]
  where
    rest :
        (o : Option ℕ)
        → ((j : ℕ) → o ≡ some j → (j ≤ 0 + length d) × (0 ≤ j))
        → Returns
            (elim o [ none ↦ ok none | some space ↦ url_at alloc d n (space + 1) ])
            λ u. Unit {0}
    rest none within = (none, refl, tt)
    rest (some j) within = url_at-Returns alloc d n (j + 1) h

url_at-request :
    (alloc : ℕ → Bool) (d url rest : Bytes) (n start : ℕ)
    → drop start d ≡ url ++ b' ' ∷ rest
    → HasNo b' ' url
    → start + length url < n
    → alloc (length url + 1) ≡ true
    → url_at alloc d n start ≡ ok (some url)
unfolding url_at
url_at-request alloc d url rest n start behind u inside has = rw behind (
    rw (space_from-HasNo url rest n start u inside, ◌>>=◌)
      (rw (add_sub_self start (length url), has, behind) (rw (take-append url (b' ' ∷ rest)))))

-- A request `METHOD URL ...` of at least 6 bytes, with the URL and the space behind it within
-- the data and memory for the copy, gives its URL, also where more bytes than the data lie
-- behind it.
pub get_url_from_data-request :
    (alloc : ℕ → Bool) (method url rest : Bytes) (data_length : ℕ)
    → HasNo b' ' method
    → HasNo b' ' url
    → 6 ≤ data_length
    → length method + 1 + length url < data_length
    → alloc (length url + 1) ≡ true
    → get_url_from_data alloc (method ++ b' ' ∷ (url ++ b' ' ∷ rest)) data_length ≡ ok (some url)
unfolding get_url_from_data
get_url_from_data-request alloc method url rest n m u long inside has =
    let d = method ++ b' ' ∷ (url ++ b' ' ∷ rest) in
    rw (le→ltb 6 n long) (
      rw (space_from-HasNo method (url ++ b' ' ∷ rest) n 0 m (omega arith), ◌>>=◌)
        (ap (λ k. url_at alloc d n (k + 1)) (zero-add (length method))
          ∙ url_at-request alloc d url rest n (length method + 1) (drop_past method _) u inside
              has))

host_part-HasNo :
    (host rest : Bytes) → HasNo b'/' host → HasNo 0 host → host_part (host ++ b'/' ∷ rest) ≡ host
unfolding host_part
host_part-HasNo [] rest h z = refl
host_part-HasNo (c ∷ host) rest h z = ground (arith, host_part-HasNo host rest h.1 z.1)

-- The host of `http://HOST/...` is `HOST`, if it has no slash and no 0 and there is memory for
-- it.
pub get_host_from_url-http :
    (alloc : ℕ → Bool) (host rest : Bytes)
    → HasNo b'/' host
    → HasNo 0 host
    → alloc (length host + 1) ≡ true
    → get_host_from_url alloc (codes "http://" ++ (host ++ b'/' ∷ rest)) ≡ ok (some host)
unfolding get_host_from_url
get_host_from_url-http alloc host rest h z has =
    let long : ltb (length (codes "http://" ++ (host ++ b'/' ∷ rest))) 7 ≡ false = ground arith in
    rw long (rw (host_part-HasNo host rest h z, has))
