-- ===== src/UrlParser/RoundTrip.antt =====
-- The text of a well-formed URL parses to its parts.
use os_solutions.Prelude.{
  ℕ, ◌+◌, ◌≡◌, refl, ap, ◌∙◌, arith, Bool, true, false, not, Option, none, some, [], ◌∷◌, ◌++◌, map,
  ◌==◌, Bytes, length,
}
use mathlib.Core.List.{append_assoc}
use os_solutions.UrlParser.Recompose.{part_text, port_text, rest_text, after_scheme}
use os_solutions.UrlParser.Spans.{span_until-no_stop, IsFree, IsStopped, span_until-IsFree}
use os_solutions.UrlParser.{
  scheme_stop, bracket_stop, host_stop, port_stop, path_stop, query_stop, no_stop, parsed, ◌>>=◌,
  ParsedUrl, default_port, to_lower, span_until, split_host, close_bracket, copy_text,
  is_scheme_char, all_scheme_chars, read_scheme, eat_slash, read_host, read_port, read_part,
  read_rest, parse_url, url_bytes,
}

-- A host as it stands in a URL: a name, or an address in brackets.
pub data IsHost : Bytes → Type 0 where
  name : {c : ℕ} {s : Bytes} → (b'[' == c) ≡ false → IsFree host_stop (c ∷ s) → IsHost (c ∷ s)
  bracketed : (s : Bytes) → IsFree bracket_stop s → IsHost ((b'[' ∷ s) ++ b']' ∷ [])

abbrev IsFreeOption : (ℕ → Bool) → Option Bytes → Type 0
IsFreeOption stop none = Unit {0}
IsFreeOption stop (some s) = IsFree stop s

refl_test : (n : ℕ) → (n == n) ≡ true
refl_test n = ground arith

-- Parts that can be written and read back: no part holds a byte that ends it, a port that is not
-- given is the default one, and query and fragment come with a path.
pub record IsUrl (p : ParsedUrl) : Type 0 where
  pub scheme_chars : all_scheme_chars p.scheme ≡ true
  pub lower : map to_lower p.scheme ≡ p.scheme
  pub is_host : IsHost p.host
  pub port_free : IsFree port_stop p.port
  pub port_default : p.port_terminated ≡ false → p.port ≡ default_port
  pub path_free : IsFreeOption path_stop p.path
  pub query_free : IsFreeOption query_stop p.query
  pub no_path : p.path ≡ none → (p.query ≡ none) × (p.fragment ≡ none)

unfoldable pub url_text : ParsedUrl → Bytes
url_text p = p.scheme ++ after_scheme p

module _ (alloc : ℕ → Bool) (has : (n : ℕ) → alloc n ≡ true) where
  copy_text-has : (s : Bytes) → copy_text alloc s ≡ parsed s
  unfolding copy_text
  copy_text-has s = rw (has (length s + 1))

  scheme_char : (c : ℕ) → is_scheme_char c ≡ true → (c == b':') ≡ false
  unfolding is_scheme_char
  scheme_char c h = ground arith

  scheme-IsFree : (s : Bytes) → all_scheme_chars s ≡ true → IsFree scheme_stop s
  unfolding all_scheme_chars
  scheme-IsFree [] h = tt
  scheme-IsFree (c ∷ s) h = (
    scheme_char c (unfold is_scheme_char in ground arith),
    scheme-IsFree s (unfold is_scheme_char in ground arith),
  )

  read_scheme-text :
      (s rest : Bytes)
      → all_scheme_chars s ≡ true
      → map to_lower s ≡ s
      → read_scheme alloc (s ++ b':' ∷ rest) ≡ parsed (s, rest)
  unfolding read_scheme
  read_scheme-text s rest h low =
      let split = span_until-IsFree scheme_stop s (b':' ∷ rest) (scheme-IsFree s h) refl in
      rw (split, read_scheme) (rw split (rw h (rw (copy_text-has s, ◌>>=◌) (rw low))))

  bracketed_split :
      (s rest : Bytes)
      → span_until bracket_stop (s ++ b']' ∷ rest) ≡ (s, b']' ∷ rest)
      → split_host (b'[' ∷ (s ++ b']' ∷ rest)) ≡ ((b'[' ∷ s) ++ b']' ∷ [], rest)
  unfolding split_host close_bracket
  bracketed_split s rest e = λ i. close_bracket (b'[' ∷ (e i).0, (e i).1)

  split_host-text :
      (h rest : Bytes) → IsHost h → IsStopped host_stop rest → split_host (h ++ rest) ≡ (h, rest)
  unfolding split_host close_bracket
  split_host-text h rest (name e f) stops = rw e (span_until-IsFree host_stop h rest f stops)
  split_host-text h rest (bracketed s f) stops =
      ap (λ t. split_host (b'[' ∷ t)) (append_assoc s (b']' ∷ []) rest)
      ∙ (bracketed_split s rest (span_until-IsFree bracket_stop s (b']' ∷ rest) f refl))

  host-nonempty : (h : Bytes) → IsHost h → (length h == 0) ≡ false
  host-nonempty h (name e f) = ground arith
  host-nonempty h (bracketed s f) = ground arith

  read_host-text :
      (h rest : Bytes)
      → IsHost h
      → IsStopped host_stop rest
      → read_host alloc (h ++ rest) ≡ parsed (h, rest)
  unfolding read_host
  read_host-text h rest is_host stops =
      rw (split_host-text h rest is_host stops)
        (rw (has (length h + 1)) (rw (host-nonempty h is_host)))

  read_part-text :
      (mark : ℕ) (stop : ℕ → Bool) (part : Option Bytes) (rest : Bytes)
      → IsFreeOption stop part
      → IsStopped stop rest
      → IsStopped (λ c. not (mark == c)) rest
      → read_part alloc mark stop (part_text mark part ++ rest) ≡ parsed (part, rest)
  unfolding read_part part_text
  read_part-text mark stop none [] f stops other = refl
  read_part-text mark stop none (c ∷ rest) f stops other = ground arith
  read_part-text mark stop (some s) rest f stops other =
      let split = span_until-IsFree stop s rest f stops in
      rw (refl_test mark) (rw split (rw (copy_text-has s, ◌>>=◌)))

  read_port-text :
      (ended : Bool) (port rest : Bytes)
      → IsFree port_stop port
      → (ended ≡ false → port ≡ default_port)
      → IsStopped port_stop rest
      → read_port alloc (port_text ended port ++ rest) ≡ parsed (port, ended, rest)
  unfolding read_port port_text
  read_port-text true port rest f is_default stops =
      let split = span_until-IsFree port_stop port rest f stops in
      rw split (rw (copy_text-has port, ◌>>=◌))
  read_port-text false port [] f is_default stops =
      rw (has (length default_port + 1)) (rw (is_default refl))
  read_port-text false port (c ∷ rest) f is_default stops =
      rw (has (length default_port + 1), is_default refl) (ground arith)

  part-IsStopped :
      (mark : ℕ) (stop : ℕ → Bool) (part : Option Bytes)
      → stop mark ≡ true
      → IsStopped stop (part_text mark part)
  unfolding part_text
  part-IsStopped mark stop none h = tt
  part-IsStopped mark stop (some s) h = h

  tail-IsStopped :
      (query fragment : Option Bytes)
      → IsStopped path_stop (part_text b'?' query ++ part_text b'#' fragment)
  unfolding part_text
  tail-IsStopped none fragment = part-IsStopped b'#' path_stop fragment refl
  tail-IsStopped (some s) fragment = refl

  read_last :
      (fragment : Option Bytes)
      → read_part alloc b'#' no_stop (part_text b'#' fragment) ≡ parsed (fragment, [])
  unfolding read_part part_text
  read_last none = refl
  read_last (some s) = rw (span_until-no_stop s) (rw (copy_text-has s, ◌>>=◌))

  read_rest-text :
      (path query fragment : Option Bytes)
      → IsFreeOption path_stop path
      → IsFreeOption query_stop query
      → (path ≡ none → (query ≡ none) × (fragment ≡ none))
      → read_rest alloc (rest_text path query fragment) ≡ parsed (path, query, fragment)
  unfolding read_rest rest_text
  read_rest-text none query fragment f g together = rw ((together refl).0, (together refl).1)
  read_rest-text (some path) query fragment f g together =
      let tail = part_text b'?' query ++ part_text b'#' fragment in
      let split = span_until-IsFree path_stop path tail f (tail-IsStopped query fragment) in
      rw split (
        rw (copy_text-has path, ◌>>=◌)
          (rw
            (
              read_part-text b'?' query_stop query (part_text b'#' fragment) g
                  (part-IsStopped b'#' query_stop fragment refl)
                  (part-IsStopped b'#' (λ c. not (b'?' == c)) fragment refl),
              ◌>>=◌,
            )
            (rw (read_last fragment))))

  rest-IsStopped :
      (stop : ℕ → Bool) (path query fragment : Option Bytes)
      → stop b'/' ≡ true
      → IsStopped stop (rest_text path query fragment)
  unfolding rest_text
  rest-IsStopped stop none query fragment h = tt
  rest-IsStopped stop (some path) query fragment h = h

  behind-IsStopped :
      (ended : Bool) (port : Bytes) (path query fragment : Option Bytes)
      → IsStopped host_stop (port_text ended port ++ rest_text path query fragment)
  unfolding port_text
  behind-IsStopped true port path query fragment = refl
  behind-IsStopped false port path query fragment =
      rest-IsStopped host_stop path query fragment refl

  -- The text of a well-formed URL is accepted, and its parts are read back, if no `malloc`
  -- fails.
  pub parse_url-url_text :
      (p : ParsedUrl)
      → IsUrl p
      → parse_url alloc (url_text p) ≡ parsed (record p { uri = url_text p })
  unfolding parse_url url_text after_scheme eat_slash
  parse_url-url_text p u =
      let rest = rest_text p.path p.query p.fragment in
      rw (has url_bytes) (
        rw (read_scheme-text p.scheme _ u.scheme_chars u.lower, ◌>>=◌)
          (rw
            (
              read_host-text p.host _ u.is_host
                  (behind-IsStopped p.port_terminated p.port p.path p.query p.fragment),
              ◌>>=◌,
            )
            (rw
              (
                read_port-text p.port_terminated p.port rest u.port_free u.port_default
                    (rest-IsStopped port_stop p.path p.query p.fragment refl),
                ◌>>=◌,
              )
              (rw (
                read_rest-text p.path p.query p.fragment u.path_free u.query_free u.no_path,
                ◌>>=◌,
              )))))
