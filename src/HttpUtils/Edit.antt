-- ===== src/HttpUtils/Edit.antt =====
-- The rewriting of the request line for the target server.
use os_solutions.Prelude.{
  ℕ, ◌+◌, ◌-◌, ◌≡◌, refl, ap, ◌∙◌, arith, false, [], ◌∷◌, ◌++◌, ltb, length, take, drop,
  drop-append, take-append, Bytes, codes, ok, Returns, ◌>>=◌, length-append,
}
use mathlib.Core.List.{append_assoc}
use native.Mathlib.Nat.{zero-add, suc-add}
use os_solutions.HttpUtils.Url.{HasNo}
use os_solutions.HttpUtils.{index_from, moved, edit_request_to_send_to_server}

index_from-HasNo :
    (mark : ℕ) (s rest : Bytes) (i : ℕ)
    → HasNo mark s
    → index_from mark (s ++ mark ∷ rest) i ≡ ok (i + length s)
unfolding index_from
index_from-HasNo mark [] rest i h = ground arith
index_from-HasNo mark (c ∷ s) rest i h = ground (arith, index_from-HasNo mark s rest (i + 1) h.1)

take_all : (s : Bytes) → take (length s) s ≡ s
take_all [] = refl
take_all (c ∷ s) = ap (◌∷◌ c) (take_all s)

space_found :
    (method behind beyond : Bytes)
    → HasNo b' ' method
    → index_from b' ' (((method ++ b' ' ∷ []) ++ behind) ++ beyond) 0 ≡ ok (length method)
space_found method behind beyond m = rw (append_assoc (method ++ b' ' ∷ []) behind beyond) (
    rw (append_assoc method (b' ' ∷ []) (behind ++ beyond))
      (index_from-HasNo b' ' method (behind ++ beyond) 0 m ∙ ap ok (zero-add (length method))))

slash_found :
    (method host rest beyond : Bytes)
    → HasNo b'/' host
    → index_from b'/'
        (drop
          (length method + 8)
          (((method ++ b' ' ∷ []) ++ ((codes "http://" ++ host) ++ (b'/' ∷ rest))) ++ beyond))
        (length method + 8)
      ≡ ok (length method + 8 + length host)
slash_found method host rest beyond h =
    ap (λ s. index_from b'/' s (length method + 8)) (skipped method)
    ∙ index_from-HasNo b'/' host (rest ++ beyond) (length method + 8) h
  where
    skipped :
        (s : Bytes)
        → drop
            (length s + 8)
            (((s ++ b' ' ∷ []) ++ ((codes "http://" ++ host) ++ (b'/' ∷ rest))) ++ beyond)
          ≡ host ++ b'/' ∷ (rest ++ beyond)
    skipped [] = append_assoc host (b'/' ∷ rest) beyond
    skipped (c ∷ s) = rw suc-add (skipped s)

module _ (a x b : Bytes) where
  take_first : (n : ℕ) → n ≡ length a → take n (a ++ (x ++ b)) ≡ a
  take_first n e = rw e (take-append a (x ++ b))

  drop_second : (n : ℕ) → n ≡ length a + length x → drop n (a ++ (x ++ b)) ≡ b
  drop_second n e = rw (e, ← length-append a x, ← append_assoc a x b) (drop-append (a ++ x) b)

  -- `memmove` closes the gap `x`.
  moved-gap :
      (size first_space first_slash : ℕ)
      → first_space + 1 ≡ length a
      → first_slash ≡ length a + length x
      → size ≡ length a + length x + length b
      → Returns
          (moved (a ++ (x ++ b)) size first_space first_slash)
          λ r. (stale : Bytes) × (r.0 ≡ a ++ (b ++ stale)) × (r.1 ≡ length a + length b)
  unfolding moved
  moved-gap size first_space first_slash ea ex es =
      let whole : size - first_slash ≡ length b = omega arith in
      let inside : ltb size first_slash ≡ false = ground arith in
      let stale = drop (first_space + 1 + (size - first_slash)) (a ++ (x ++ b)) in
      (
        (a ++ (b ++ stale), size - (first_slash - (first_space + 1))),
        rw inside (λ i. ok (
          take_first (first_space + 1) ea i ++ (kept whole i ++ stale),
          size - (first_slash - (first_space + 1)),
        )),
        (stale, refl, omega arith),
      )
    where
      kept :
          size - first_slash ≡ length b
          → take (size - first_slash) (drop first_slash (a ++ (x ++ b))) ≡ b
      kept whole = rw (drop_second first_slash ex) (rw whole (take_all b))

-- A request `METHOD http://HOST/PATH`, whose method has no space and whose host no slash,
-- becomes `METHOD /PATH`, in place: the buffer begins with it, and `buffer_size` is its length.
pub edit_request_to_send_to_server-target :
    (method host rest beyond : Bytes)
    → HasNo b' ' method
    → HasNo b'/' host
    → Returns
        (edit_request_to_send_to_server beyond
          ((method ++ b' ' ∷ []) ++ ((codes "http://" ++ host) ++ (b'/' ∷ rest)))
          (length ((method ++ b' ' ∷ []) ++ ((codes "http://" ++ host) ++ (b'/' ∷ rest)))))
        λ r.
          (stale : Bytes) × (r.0 ≡ (method ++ b' ' ∷ []) ++ ((b'/' ∷ rest) ++ stale))
          × (r.1 ≡ length (method ++ b' ' ∷ []) + length (b'/' ∷ rest))
unfolding edit_request_to_send_to_server
edit_request_to_send_to_server-target method host rest beyond m h =
    let a = method ++ b' ' ∷ [] in
    let x = codes "http://" ++ host in
    let b = b'/' ∷ rest in
    let size = length-append a (x ++ b) in
    rw (space_found method (x ++ b) beyond m, ◌>>=◌)
      (rw (slash_found method host rest beyond h, ◌>>=◌)
        (moved-gap a x b (length (a ++ (x ++ b))) (length method) (length method + 8 + length host)
          (omega (arith, length-append method (b' ' ∷ [])))
          (omega (arith, length-append method (b' ' ∷ [])))
          (omega (arith, size, length-append x b))))
