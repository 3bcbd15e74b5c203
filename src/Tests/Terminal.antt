-- ===== src/Tests/Terminal.antt =====
-- The line editor and the HTTP server.
use os_solutions.HttpServer.{conn_max, accept_client, send_file, respond, handle_http_code}
use os_solutions.HttpServer.Response.{ReadBack, send_file-ReadBack}
use os_solutions.HttpServer.Slots.{serving, accept_client-serving}
use os_solutions.LineEditor.{run, line_size}
use os_solutions.LineEditor.Lines.{typed}
use os_solutions.LineEditor.Screen.{Shows, show}
use os_solutions.LineEditor.Shows.{run-Shows}
use os_solutions.LineEditor.Text.{run_text, press_text, drop_while}
use os_solutions.Prelude.{
  ℕ, ◌+◌, ◌<◌, ◌≡◌, refl, Bool, true, Option, none, some, List, [], ◌∷◌, ◌++◌, if◌then◌else◌, ltb,
  replicate, Bytes, codes, same_text, starts_with, decimal, ok, timeout, fault, Returns, arith,
}

-- "ab c", a word erased, and "d"
abbrev keys : List ℕ
keys = codes "ab c" ++ (23 ∷ codes "d")

run-Shows_example :
    Returns (run 127 21 (record { line = replicate line_size 0; pos = 0 }) keys) λ q.
      (typed q.0.line q.0.pos ≡ run_text 127 21 [] keys)
      × (q.0.pos < line_size)
      × Shows (run_text 127 21 [] keys) (show (record { before = []; behind = [] }) q.1)
run-Shows_example = run-Shows 127 21 keys (replicate line_size 0) refl

run_text_word : run_text 127 21 [] keys ≡ codes "d ba"
unfolding run_text press_text drop_while
run_text_word = refl

accept_client-serving_example :
    accept_client 9 (serving (λ i. i + 4) 999) 999 (some 1003)
    ≡ (if ltb 1000 conn_max then ok (serving (λ i. i + 4) 1000, 1000) else timeout)
accept_client-serving_example = accept_client-serving (λ i. i + 4) 7 999 (omega arith)

abbrev always : ℕ → Bool
always n = true

abbrev files : Bytes → Option Bytes
files path = some (codes "hi")

abbrev page : Bytes
page =
    codes "HTTP/1.0 200 OK\n"
    ++ (codes "Server: Kolsha/0.1.0"
        ++ (13 ∷ codes "\nContent-Length: 2\nContent-Type: text/html\n\nhi"))

send_file-page :
    send_file always none files (codes "www") (some 4) (codes "www/a.html") (codes "hi") ≡ ok page
unfolding send_file decimal
send_file-page = refl

send_file-ReadBack_example : ReadBack (codes "hi") page
send_file-ReadBack_example =
    send_file-ReadBack always none files (codes "www") (codes "www/a.html") (codes "hi") 4 page
      (omega arith) (omega arith) send_file-page

respond-page :
    respond always none files (codes "www") (some 4) (some (codes "GET /a.html HTTP/1.0\n"))
    ≡ ok page
unfolding respond same_text starts_with decimal
respond-page = refl

respond_other :
    respond always none files (codes "www") (some 4) (some (codes "PUT / HTTP/1.0\n"))
    ≡ ok (handle_http_code (some 4) 501)
unfolding respond same_text starts_with decimal
respond_other = refl

respond_no_version : respond always none files (codes "www") (some 4) (some (codes "GET /")) ≡ fault
unfolding respond same_text starts_with decimal
respond_no_version = refl
