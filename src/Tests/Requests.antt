-- ===== src/Tests/Requests.antt =====
-- Requests and responses in buffers.
use os_solutions.HttpUtils.Edit.{edit_request_to_send_to_server-target}
use os_solutions.HttpUtils.Length.{get_content_length_from_data-found}
use os_solutions.HttpUtils.Url.{is_cache_method-starts_with, get_url_from_data-request}
use os_solutions.HttpUtils.{
  is_cache_method, get_url_from_data, get_content_length_from_data, get_response_code_from_data,
  edit_request_to_send_to_server, header_start, positive, strtol,
}
use os_solutions.Prelude.{
  ℕ, ◌+◌, ◌≡◌, refl, arith, Bool, true, false, some, [], ◌∷◌, ◌++◌, length, Bytes, codes,
  starts_with, ok, Returns,
}

abbrev always : ℕ → Bool
always n = true

abbrev request : Bytes
request = codes "GET http://a.ru/x HTTP/1.0\n\n"

is_cache_method-elsewhere : is_cache_method (codes "POST GET") ≡ false
unfolding starts_with
is_cache_method-elsewhere = is_cache_method-starts_with (codes "POST GET")

get_url_from_data-request_example :
    get_url_from_data always
      (codes "GET" ++ b' ' ∷ (codes "http://a.ru/x" ++ b' ' ∷ codes "HTTP/1.0\n"))
      26
    ≡ ok (some (codes "http://a.ru/x"))
get_url_from_data-request_example =
    get_url_from_data-request always (codes "GET") (codes "http://a.ru/x") (codes "HTTP/1.0\n") 26
      (refl, (refl, (refl, tt)))
      (
        refl,
        (
          refl,
          (
            refl,
            (refl, (refl, (refl, (refl, (refl, (refl, (refl, (refl, (refl, (refl, tt)))))))))),
          ),
        ),
      )
      (omega arith) (omega arith) refl

get_content_length_from_data-found_example :
    get_content_length_from_data (codes "A:1\r" ++ b'\n' ∷ (header_start ++ codes " 42\r\n\r\n")) 30
    ≡ ok (positive (strtol (codes " 42\r\n\r\n")))
get_content_length_from_data-found_example =
    get_content_length_from_data-found (codes "A:1\r") (codes " 42\r\n\r\n") 30
      (λ e. cc, (λ e. cc, (λ e. cc, (λ e. cc, tt)))) (omega arith)

value_42 : positive (strtol (codes " 42\r\n\r\n")) ≡ some 42
unfolding positive strtol
value_42 = refl

code_200 : get_response_code_from_data (codes "HTTP/1.0 200 OK\n") ≡ ok (some 200)
unfolding get_response_code_from_data
code_200 = refl

edit_request_to_send_to_server-target_example :
    Returns
      (edit_request_to_send_to_server []
        ((codes "GET" ++ b' ' ∷ [])
          ++ ((codes "http://" ++ codes "a.ru") ++ (b'/' ∷ codes "x HTTP/1.0\n\n")))
        (length (
          (codes "GET" ++ b' ' ∷ [])
          ++ ((codes "http://" ++ codes "a.ru") ++ (b'/' ∷ codes "x HTTP/1.0\n\n")))))
      λ r.
        (stale : Bytes) × (r.0
          ≡ (codes "GET" ++ b' ' ∷ []) ++ ((b'/' ∷ codes "x HTTP/1.0\n\n") ++ stale))
        × (r.1 ≡ length (codes "GET" ++ b' ' ∷ []) + length (b'/' ∷ codes "x HTTP/1.0\n\n"))
edit_request_to_send_to_server-target_example =
    edit_request_to_send_to_server-target (codes "GET") (codes "a.ru") (codes "x HTTP/1.0\n\n") []
      (refl, (refl, (refl, tt))) (refl, (refl, (refl, (refl, tt))))
