-- ===== src/Tests/Client.antt =====
-- The HTTP client with the HTTP server, and the listing of files.
use os_solutions.HttpClient.{
  buf_size, Attempt, no_connection, connection, print_pieces, do_request, establish_connection,
  http_headers,
}
use os_solutions.HttpClient.Requests.{target}
use os_solutions.HttpClient.Session.{do_request-serve_path}
use os_solutions.ListFiles.{Stat, print_rights, main}
use os_solutions.ListFiles.Rights.{rights_value, rights_value-print_rights}
use os_solutions.HttpServer.{respond, is_in, serve_path}
use os_solutions.UrlParser.{ParsedUrl, default_port, all_scheme_chars}
use os_solutions.UrlParser.RoundTrip.{IsUrl, name, url_text}
use os_solutions.UrlParser.Recompose.{after_scheme, port_text, rest_text, part_text}
use mathlib.Core.List.{append-nil}
use os_solutions.Prelude.{
  ℕ, ◌≡◌, if◌then◌else◌, refl, Bool, true, false, Option, none, some, List, [], ◌∷◌, ◌++◌,
  replicate, Bytes, codes, same_text, starts_with, decimal, ok, fault, arith, sym, ◌∙◌,
}

abbrev always : ℕ → Bool
always n = true

abbrev url : ParsedUrl
url = record {
  uri = [];
  scheme = codes "http";
  host = codes "h";
  port = default_port;
  port_terminated = false;
  path = some (codes "a");
  query = some (codes "b=1");
  fragment = none;
}

url-IsUrl : IsUrl url
unfolding all_scheme_chars
url-IsUrl = record {
  scheme_chars = refl;
  lower = refl;
  is_host = name refl (refl, tt);
  port_free = (refl, (refl, tt));
  port_default = λ e. refl;
  path_free = (refl, tt);
  query_free = (refl, (refl, (refl, tt)));
  no_path = λ e. cc;
}

-- the second address connects
abbrev info : List Attempt
info = no_connection 4 ∷ (connection 5 ∷ [])

abbrev resolve : Bytes → Bytes → Option (List Attempt)
resolve host port = some info

abbrev files : Bytes → Option Bytes
files path = none

abbrev not_found : Bytes
not_found =
    codes "HTTP/1.0 404 NOT FOUND\nServer: Kolsha/0.1.0" ++ 13 ∷ codes "\nContent-Type: text/html\n"

abbrev received : Bytes → List Bytes
received request = not_found ∷ []

serve_path-missing :
    serve_path always none files (codes "www") (some 9) (codes "/a?b=1") ≡ ok not_found
unfolding serve_path same_text
serve_path-missing = refl

respond-missing :
    respond always none files
      (codes "www")
      (some 9)
      (some (http_headers (some (codes "a")) (some (codes "b=1")) (codes "h")))
    ≡ ok not_found
unfolding respond same_text starts_with http_headers
respond-missing = refl

do_request-serve_path_example :
    do_request always 8192 [] resolve received (replicate buf_size 0) (some (url_text url))
    ≡ ok (true, codes "Please URL: " ++ not_found)
unfolding target
do_request-serve_path_example =
    do_request-serve_path always (λ n. refl) 8192 [] resolve received always none files
      (codes "www") url info 5 9 not_found url-IsUrl
      (unfold url_text in
        unfold after_scheme in
        unfold port_text in unfold rest_text in unfold part_text in omega arith)
      (unfold http_headers in omega arith) refl (unfold establish_connection in refl)
      (unfold is_in in (refl, (refl, (refl, (refl, (refl, (refl, tt)))))))
      (λ answer h.
        let e : answer ≡ not_found = cc (respond-missing) in
        (omega arith, refl, ([], (e ∙ sym (append-nil not_found)), refl)))
      serve_path-missing

-- a piece that fills the buffer has no 0 behind it
full_piece : print_pieces (replicate buf_size 0) (replicate buf_size 7 ∷ []) ≡ fault
unfolding print_pieces
full_piece = refl

-- a regular file with the rights 0754
abbrev readme : Stat
readme = record {
  st_mode = 33260;
  st_nlink = 1;
  st_uid = 0;
  st_gid = 0;
  st_mtime = 7;
  st_size = 42;
}

print_rights-readme : print_rights readme ≡ codes "rwxr-xr--"
unfolding print_rights
print_rights-readme = refl

rights_value-print_rights_example :
    rights_value (codes "rwxrwxrwx") (print_rights readme) ≡ some 492
rights_value-print_rights_example = rights_value-print_rights readme

-- the second file has no status: the first one's line is printed, and the exit code is not 0
main-readme :
    main
      (λ uid. some (codes "root"))
      (λ gid. some (codes "staff"))
      (λ seconds. some (codes "Thu Jan  1 00:00:07 1970\n"))
      (λ file. if same_text file (codes "a") then some readme else none)
      (λ file. file)
      false
      (codes "a" ∷ (codes "b" ∷ []))
    ≡ (
      false,
      codes "-rwxr-xr--  1            root           staff         42 Thu Jan  1 00:00:07 1970 a\n",
    )
unfolding main same_text decimal
main-readme = refl
