-- ===== src/UrlParser.antt =====
-- networks/http_client/urlparser.h: `parse_url` over a C string, given as the bytes before its 0.
--
-- `alloc n` says whether `malloc(n)` succeeds. A pointer into the text is the rest of the text
-- from there. Lengths fit an `int`: the text is shorter than 2 ^ 31 bytes.
pub mod Spans
pub mod Recompose
pub mod RoundTrip
use os_solutions.Prelude.{
  ℕ, suc, ◌+◌, ◌-◌, ◌≤◌, Bool, true, false, not, ◌&&◌, ◌||◌, Option, none, some, List, [], ◌∷◌,
  ◌++◌, map, ltb, leb, ◌==◌, if◌then◌else◌, length, Bytes, codes,
}

-- The result of a run: a value, the NULL of an error branch, or undefined behaviour (a copy
-- through a NULL that no test guards).
pub data Parsing {ℓ} (A : Type ℓ) : Type ℓ where
  parsed : A → Parsing A
  refused : Parsing A
  crash : Parsing A

infixl 5 ◌>>=◌ ◌>>◌
abbrev pub ◌>>=◌ {ℓ κ} : {A : Type ℓ} {B : Type κ} → Parsing A → (A → Parsing B) → Parsing B
parsed a >>= f = f a
refused >>= f = refused
crash >>= f = crash

abbrev pub ◌>>◌ {ℓ} : {B : Type ℓ} → Parsing (Unit {0}) → Parsing B → Parsing B
m >> k = m >>= λ _. k

abbrev pub require : Bool → Parsing (Unit {0})
require true = parsed tt
require false = refused

-- `struct parsed_url`. `port_terminated` says whether the port's buffer ends in a 0: the branch
-- for the default port copies the two digits and writes no 0 behind them.
pub record ParsedUrl : Type 0 where
  pub uri : Bytes
  pub scheme : Bytes
  pub host : Bytes
  pub port : Bytes
  pub port_terminated : Bool
  pub path : Option Bytes
  pub query : Option Bytes
  pub fragment : Option Bytes

-- sizeof(struct parsed_url)
abbrev pub url_bytes : ℕ
url_bytes = 56

abbrev pub default_port : Bytes
default_port = codes "80"

abbrev pub is_upper : ℕ → Bool
is_upper c = leb b'A' c && leb c b'Z'

-- `isalpha`, in the C locale
abbrev pub is_alpha : ℕ → Bool
is_alpha c = is_upper c || (leb b'a' c && leb c b'z')

unfoldable pub is_scheme_char : ℕ → Bool
is_scheme_char c = not (not (is_alpha c) && not (b'+' == c) && not (b'-' == c) && not (b'.' == c))

abbrev pub to_lower : ℕ → ℕ
to_lower c = if is_upper c then c + 32 else c

-- the loop over the scheme's characters
unfoldable pub all_scheme_chars : Bytes → Bool
unfolding is_scheme_char
all_scheme_chars [] = true
all_scheme_chars (c ∷ s) = is_scheme_char c && all_scheme_chars s

-- where the scanning loops stop
abbrev pub scheme_stop : ℕ → Bool
scheme_stop c = c == b':'

abbrev pub bracket_stop : ℕ → Bool
bracket_stop c = c == b']'

abbrev pub host_stop : ℕ → Bool
host_stop c = c == b':' || c == b'/'

abbrev pub port_stop : ℕ → Bool
port_stop c = c == b'/'

abbrev pub path_stop : ℕ → Bool
path_stop c = c == b'#' || c == b'?'

abbrev pub query_stop : ℕ → Bool
query_stop c = c == b'#'

abbrev pub no_stop : ℕ → Bool
no_stop c = false

-- a scanning loop: the text before the first byte that stops it, and the text from there
unfoldable pub span_until : (ℕ → Bool) → Bytes → Bytes × Bytes
span_until stop [] = ([], [])
span_until stop (c ∷ s) =
    let r = span_until stop s in if stop c then ([], c ∷ s) else (c ∷ r.0, r.1)

-- the ']' belongs to the host
pub close_bracket : Bytes × Bytes → Bytes × Bytes
close_bracket (h, []) = (h, [])
close_bracket (h, c ∷ s) = (h ++ c ∷ [], s)

-- one round of the loop that eats "//"
unfoldable pub eat_slash : Bytes → Parsing Bytes
eat_slash [] = refused
eat_slash (c ∷ s) = if b'/' == c then parsed s else refused

-- where the host ends: behind the ']' of an address in brackets, else at ':' or '/'
unfoldable pub split_host : Bytes → Bytes × Bytes
unfolding span_until close_bracket
split_host [] = ([], [])
split_host (c ∷ s) =
    if b'[' == c
    then close_bracket (span_until bracket_stop (c ∷ s))
    else span_until host_stop (c ∷ s)

module _ (alloc : ℕ → Bool) where
  -- `malloc(len + 1)`, tested, and the copy
  unfoldable pub copy_text : Bytes → Parsing Bytes
  copy_text s = do require (alloc (length s + 1)); parsed s

  -- the scheme in lower case, and the text behind its ':'
  unfoldable pub read_scheme : Bytes → Parsing (Bytes × Bytes)
  unfolding copy_text span_until all_scheme_chars
  read_scheme url =
      let (before, from) = span_until scheme_stop url in
      elim from [
        | [] ↦ refused
        | _ ∷ curstr ↦ (do
          require (all_scheme_chars before)
          scheme ← copy_text before
          parsed (map to_lower scheme, curstr))
      ]

  unfoldable pub read_host : Bytes → Parsing (Bytes × Bytes)
  unfolding split_host
  read_host s =
      let (host, from) = split_host s in
      require (alloc (length host + 1) && not (length host == 0)) >> parsed (host, from)

  -- the port, whether its buffer was ended by a 0, and the text behind it
  unfoldable pub read_port : Bytes → Parsing (Bytes × Bool × Bytes)
  unfolding copy_text span_until
  read_port s =
      let default_branch =
        if alloc (length default_port + 1) then parsed (default_port, false, s) else crash in
      elim s [
        | [] ↦ default_branch
        | c ∷ curstr ↦
            if b':' == c
            then (do
              let r = span_until port_stop curstr
              port ← copy_text r.0
              parsed (port, true, r.1))
            else default_branch
      ]

  -- an optional part behind the byte `mark`, up to a byte that stops it
  unfoldable pub read_part : ℕ → (ℕ → Bool) → Bytes → Parsing (Option Bytes × Bytes)
  unfolding copy_text span_until
  read_part mark stop [] = parsed (none, [])
  read_part mark stop (c ∷ curstr) =
      if mark == c
      then (do let r = span_until stop curstr; part ← copy_text r.0; parsed (some part, r.1))
      else parsed (none, c ∷ curstr)

  -- lines 203 to 278: path, query and fragment
  unfoldable pub read_rest : Bytes → Parsing (Option Bytes × Option Bytes × Option Bytes)
  unfolding copy_text span_until read_part
  read_rest [] = parsed (none, none, none)
  read_rest (c ∷ curstr) = do
    require (b'/' == c)
    let r = span_until path_stop curstr
    path ← copy_text r.0
    (query, behind) ← read_part b'?' query_stop r.1
    (fragment, _) ← read_part b'#' no_stop behind
    parsed (some path, query, fragment)

  unfoldable pub parse_url : Bytes → Parsing ParsedUrl
  unfolding read_scheme eat_slash read_host read_port read_rest
  parse_url url = do
    require (alloc url_bytes)
    (scheme, s₁) ← read_scheme url
    s₂ ← eat_slash s₁
    s₃ ← eat_slash s₂
    (host, s₄) ← read_host s₃
    (port, ended, s₅) ← read_port s₄
    (path, query, fragment) ← read_rest s₅
    parsed (record {
      uri = url;
      scheme = scheme;
      host = host;
      port = port;
      port_terminated = ended;
      path = path;
      query = query;
      fragment = fragment;
    })
