-- ===== src/Tests/Urls.antt =====
-- URLs of the client.
use os_solutions.Prelude.{
  ℕ, ◌≡◌, refl, Bool, true, false, none, some, [], ◌++◌, map, ◌==◌, length, Bytes, codes,
}
use os_solutions.UrlParser.Recompose.{after_scheme, parse_url-text}
use os_solutions.UrlParser.RoundTrip.{IsUrl, name, url_text, parse_url-url_text}
use os_solutions.UrlParser.{
  ParsedUrl, parsed, refused, parse_url, default_port, to_lower, all_scheme_chars,
}

abbrev always : ℕ → Bool
always n = true

abbrev page : ParsedUrl
page = record {
  uri = [];
  scheme = codes "http";
  host = codes "a.ru";
  port = codes "8080";
  port_terminated = true;
  path = some (codes "x/y");
  query = some (codes "q=1");
  fragment = some (codes "top");
}

page-IsUrl : IsUrl page
unfolding all_scheme_chars
page-IsUrl = record {
  scheme_chars = refl;
  lower = refl;
  is_host = name refl (refl, (refl, (refl, (refl, tt))));
  port_free = (refl, (refl, (refl, (refl, tt))));
  port_default = λ e. cc;
  path_free = (refl, (refl, (refl, tt)));
  query_free = (refl, (refl, (refl, tt)));
  no_path = λ e. cc;
}

parse_url-url_text_example :
    parse_url always (url_text page) ≡ parsed (record page { uri = url_text page })
parse_url-url_text_example = parse_url-url_text always (λ n. refl) page page-IsUrl

abbrev shouted : ParsedUrl
shouted = record {
  uri = codes "HTTP://a.ru/";
  scheme = codes "http";
  host = codes "a.ru";
  port = default_port;
  port_terminated = false;
  path = some [];
  query = none;
  fragment = none;
}

parse_shouted : parse_url always (codes "HTTP://a.ru/") ≡ parsed shouted
unfolding parse_url
parse_shouted = refl

parse_url-text_example :
    (raw : Bytes) × (codes "HTTP://a.ru/" ≡ raw ++ after_scheme shouted)
    × (codes "http" ≡ map to_lower raw)
    × (all_scheme_chars raw ≡ true)
    × ((length (codes "a.ru") == 0) ≡ false)
    × (false ≡ false → default_port ≡ default_port)
    × (shouted.uri ≡ codes "HTTP://a.ru/")
parse_url-text_example = parse_url-text always (codes "HTTP://a.ru/") shouted parse_shouted

-- No host, no slashes, and a digit in the scheme.
refusals :
    (parse_url always (codes "http:///x") ≡ refused)
    × (parse_url always (codes "http:/a") ≡ refused)
    × (parse_url always (codes "h2://a") ≡ refused)
unfolding parse_url
refusals = (refl, refl, refl)
