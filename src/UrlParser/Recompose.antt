-- ===== src/UrlParser/Recompose.antt =====
-- A URL that is accepted is the text of its parts.
use os_solutions.Prelude.{
  ℕ, ◌≡◌, refl, arith, Bool, true, false, Option, none, some, [], ◌∷◌, ◌++◌, map, ◌==◌, Bool-cases,
  inl, inr, Bytes, length,
}
use mathlib.Core.Path.{subst}
use mathlib.Core.List.{append-nil}
use os_solutions.UrlParser.Spans.{
  IsStopped, span_until-IsStopped, span_until-no_stop, span_until-append, split_host-append,
  >>=-eq-parsed,
}
use os_solutions.UrlParser.{
  scheme_stop, port_stop, path_stop, query_stop, no_stop, Parsing, parsed, require, ParsedUrl,
  default_port, to_lower, span_until, copy_text, all_scheme_chars, read_scheme, eat_slash,
  read_host, read_port, read_part, read_rest, parse_url, url_bytes,
}

unfoldable pub part_text : ℕ → Option Bytes → Bytes
part_text mark none = []
part_text mark (some t) = mark ∷ t

-- A port is written where it was given.
unfoldable pub port_text : Bool → Bytes → Bytes
port_text true port = b':' ∷ port
port_text false port = []

unfoldable pub rest_text : Option Bytes → Option Bytes → Option Bytes → Bytes
rest_text none query fragment = []
rest_text (some path) query fragment =
    b'/' ∷ (path ++ (part_text b'?' query ++ part_text b'#' fragment))

-- All that stands behind the scheme.
unfoldable pub after_scheme : ParsedUrl → Bytes
after_scheme p =
    b':'
    ∷ b'/'
    ∷ b'/'
    ∷ (p.host ++ (port_text p.port_terminated p.port ++ rest_text p.path p.query p.fragment))

url_shape :
    (url raw a b c host behind port rest rest' : Bytes)
    → url ≡ raw ++ b':' ∷ a
    → a ≡ b'/' ∷ b
    → b ≡ b'/' ∷ c
    → c ≡ host ++ behind
    → behind ≡ port ++ rest
    → rest ≡ rest'
    → url ≡ raw ++ b':' ∷ b'/' ∷ b'/' ∷ (host ++ (port ++ rest'))
url_shape url raw a b c host behind port rest rest' e₁ e₂ e₃ e₄ e₅ e₆ = cc

parsed-injective {ℓ} : {A : Type ℓ} (a b : A) → parsed a ≡ parsed b → a ≡ b
parsed-injective a b e = cc

-- The parts of the loops put together again.
rest_shape :
    (c : ℕ) (s : Bytes) (path query fragment : Option Bytes) (text : Bytes) (q f : Option Bytes)
    (before from behind last : Bytes) {u : Unit {0}}
    → require (b'/' == c) ≡ parsed u
    → before ++ from ≡ s
    → text ≡ before
    → from ≡ part_text b'?' q ++ behind
    → behind ≡ part_text b'#' f ++ last
    → last ≡ []
    → ◌≡◌ {A = Parsing (Option Bytes × Option Bytes × Option Bytes)}
        (parsed (some text, q, f))
        (parsed (path, query, fragment))
    → c ∷ s ≡ rest_text path query fragment
unfolding rest_text
rest_shape c s path query fragment text q f before from behind last slash whole is_text is_from
      is_behind is_last parts =
    let e₀ : some text ≡ path = ground arith in
    let e₁ : q ≡ query = ground arith in
    let e₂ : f ≡ fragment = ground arith in
    let first : c ≡ b'/' = ground arith in
    rw
      (
        ← e₀,
        ← e₁,
        ← e₂,
        ← whole,
        is_text,
        is_from,
        is_behind,
        is_last,
        append-nil (part_text b'#' f),
      )
      (rw first)

module _ (alloc : ℕ → Bool) where
  copy_text-eq : (s t : Bytes) → copy_text alloc s ≡ parsed t → t ≡ s
  unfolding copy_text
  copy_text-eq s t h = ground arith

  eat_slash-eq : (s t : Bytes) → eat_slash s ≡ parsed t → s ≡ b'/' ∷ t
  unfolding eat_slash
  eat_slash-eq [] t h = ground arith
  eat_slash-eq (c ∷ s) t h = ground arith

  read_host-eq :
      (s h t : Bytes) → read_host alloc s ≡ parsed (h, t) → (s ≡ h ++ t) × ((length h == 0) ≡ false)
  unfolding read_host
  read_host-eq s h t e = ground (arith, split_host-append s)

  read_part-eq :
      (mark : ℕ) (stop : ℕ → Bool) (s t : Bytes) (part : Option Bytes)
      → read_part alloc mark stop s ≡ parsed (part, t)
      → s ≡ part_text mark part ++ t
  unfolding read_part part_text copy_text
  read_part-eq mark stop [] t part e = ground arith
  read_part-eq mark stop (c ∷ s) t part e = ground (arith, span_until-append stop s)

  read_port-eq :
      (s port t : Bytes) (ended : Bool)
      → read_port alloc s ≡ parsed (port, ended, t)
      → (s ≡ port_text ended port ++ t) × (ended ≡ false → port ≡ default_port)
  unfolding read_port port_text copy_text
  read_port-eq [] port t ended e = ground arith
  read_port-eq (c ∷ s) port t ended e = ground (arith, span_until-append port_stop s)

  read_part-IsStopped :
      (s t : Bytes) (part : Option Bytes)
      → IsStopped path_stop s
      → read_part alloc b'?' query_stop s ≡ parsed (part, t)
      → IsStopped query_stop t
  unfolding read_part copy_text
  read_part-IsStopped [] t part h e = subst (IsStopped query_stop) {x = []} (ground arith) tt
  read_part-IsStopped (c ∷ s) t part h e = elim (Bool-cases (b'?' == c)) [
    | inl q ↦
        subst (IsStopped query_stop) {x = (span_until query_stop s).1} (ground arith)
          (span_until-IsStopped query_stop s)
    | inr q ↦ subst (IsStopped query_stop) {x = c ∷ s} (ground arith) (ground arith)
  ]

  read_part-end :
      (s t : Bytes) (part : Option Bytes)
      → IsStopped query_stop s
      → read_part alloc b'#' no_stop s ≡ parsed (part, t)
      → t ≡ []
  unfolding read_part copy_text
  read_part-end [] t part h e = ground arith
  read_part-end (c ∷ s) t part h e = ground (arith, span_until-no_stop s)

  read_rest-eq :
      (s : Bytes) (path query fragment : Option Bytes)
      → read_rest alloc s ≡ parsed (path, query, fragment)
      → s ≡ rest_text path query fragment
  unfolding read_rest rest_text
  read_rest-eq [] path query fragment e = ground arith
  read_rest-eq (c ∷ s) path query fragment e =
      let (_, slash, e₁) = >>=-eq-parsed (require (b'/' == c)) _ e in
      let (text, is_path, e₂) = >>=-eq-parsed (copy_text alloc (span_until path_stop s).0) _ e₁ in
      let (q, is_query, e₃) =
        >>=-eq-parsed (read_part alloc b'?' query_stop (span_until path_stop s).1) _ e₂ in
      let (f, is_fragment, e₄) = >>=-eq-parsed (read_part alloc b'#' no_stop q.1) _ e₃ in
      let behind =
        read_part-IsStopped (span_until path_stop s).1 q.1 q.0 (span_until-IsStopped path_stop s)
          is_query in
      let shape = span_until-append path_stop s in
      rest_shape c s path query fragment text q.0 f.0 (span_until path_stop s).0
        (span_until path_stop s).1 q.1 f.1 slash shape (copy_text-eq _ text is_path)
        (read_part-eq b'?' query_stop (span_until path_stop s).1 q.1 q.0 is_query)
        (read_part-eq b'#' no_stop q.1 f.1 f.0 is_fragment)
        (read_part-end q.1 f.1 f.0 behind is_fragment) e₄

  pub read_scheme-eq :
      (url scheme rest : Bytes)
      → read_scheme alloc url ≡ parsed (scheme, rest)
      → (raw : Bytes) × (url ≡ raw ++ b':' ∷ rest)
        × (scheme ≡ map to_lower raw)
        × (all_scheme_chars raw ≡ true)
  unfolding read_scheme copy_text
  read_scheme-eq url scheme rest e =
      go (span_until scheme_stop url).1 refl (span_until-IsStopped scheme_stop url)
    where
      raw : Bytes
      raw = (span_until scheme_stop url).0

      go :
          (from : Bytes)
          → (span_until scheme_stop url).1 ≡ from
          → IsStopped scheme_stop from
          → (raw : Bytes) × (url ≡ raw ++ b':' ∷ rest)
            × (scheme ≡ map to_lower raw)
            × (all_scheme_chars raw ≡ true)
      go [] is_from h = absurd (ground arith)
      go (c ∷ t) is_from h =
          (raw, ground (arith, span_until-append scheme_stop url), ground arith, ground arith)

  -- A URL that is accepted is its scheme, written in any case, and the text of its other parts;
  -- the scheme's characters are allowed ones, the host is not empty, and a port whose buffer was
  -- not ended by a 0 is the default one.
  pub parse_url-text :
      (url : Bytes) (p : ParsedUrl)
      → parse_url alloc url ≡ parsed p
      → (raw : Bytes) × (url ≡ raw ++ after_scheme p)
        × (p.scheme ≡ map to_lower raw)
        × (all_scheme_chars raw ≡ true)
        × ((length p.host == 0) ≡ false)
        × (p.port_terminated ≡ false → p.port ≡ default_port)
        × (p.uri ≡ url)
  unfolding parse_url after_scheme
  parse_url-text url p e =
      let (_, _, e₁) = >>=-eq-parsed (require (alloc url_bytes)) _ e in
      let (a, is_scheme, e₂) = >>=-eq-parsed (read_scheme alloc url) _ e₁ in
      let (b, slash, e₃) = >>=-eq-parsed (eat_slash a.1) _ e₂ in
      let (c, slash', e₄) = >>=-eq-parsed (eat_slash b) _ e₃ in
      let (h, is_host, e₅) = >>=-eq-parsed (read_host alloc c) _ e₄ in
      let (o, is_port, e₆) = >>=-eq-parsed (read_port alloc h.1) _ e₅ in
      let (r, is_rest, e₇) = >>=-eq-parsed (read_rest alloc o.2) _ e₆ in
      let (raw, whole, lowered, allowed) = read_scheme-eq url a.0 a.1 is_scheme in
      let host_part = read_host-eq c h.0 h.1 is_host in
      let port_part = read_port-eq h.1 o.0 o.2 o.1 is_port in
      let rest_part = read_rest-eq o.2 r.0 r.1 r.2 is_rest in
      let text : url
          ≡ raw ++ b':' ∷ b'/' ∷ b'/' ∷ (h.0 ++ (port_text o.1 o.0 ++ rest_text r.0 r.1 r.2)) =
        url_shape url raw a.1 b c h.0 h.1 (port_text o.1 o.0) o.2 (rest_text r.0 r.1 r.2) whole
          (eat_slash-eq a.1 b slash) (eat_slash-eq b c slash') host_part.0 port_part.0 rest_part in
      let is_p = parsed-injective _ p e₇ in
      rw (← is_p) (raw, text, lowered, allowed, host_part.1, port_part.1, refl)
