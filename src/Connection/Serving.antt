-- ===== src/Connection/Serving.antt =====
-- What a client is sent out of the cache, from a finished entry and from one still downloading.
use mathlib.Core.List.{append_assoc}
use native.Mathlib.Nat.{zero-add, suc-add}
use Prim.Native.Nat.{min}
use os_solutions.Connection.Handlers.{
  load, close_socket, serve_entry, serve, responding_from_cache_handler,
}
use os_solutions.Connection.Loop.{WaitRound}
use os_solutions.Connection.State.{downloading, CacheEntry, Connection, World, wrote}
use os_solutions.Prelude.{
  ℕ, zero, suc, ◌+◌, ◌-◌, ◌%◌, ◌<◌, ◌≤◌, ◌≡◌, ◌≢◌, refl, sym, ap, ◌∙◌, arith, Bool, false, Option,
  some, List, [], ◌∷◌, ◌++◌, ltb, leb, Bool-cases, inl, inr, if◌then◌else◌, size_mod, drop, take,
  length, ◌↔◌, ◌⊎◌, not, Bytes, Outcome, ok, ◌>>=◌, Returns,
}

take_nil : (k : ℕ) → take {A = ℕ} k [] ≡ []
take_nil zero = refl
take_nil (suc k) = refl

take_add : (n k : ℕ) (s : Bytes) → take n s ++ take k (drop n s) ≡ take (n + k) s
take_add zero k s = rw zero-add
take_add (suc n) k [] = rw (suc-add, take_nil)
take_add (suc n) k (c ∷ s) = rw suc-add (ap (◌∷◌ c) (take_add n k s))

take_prefix : (n b : ℕ) (s : Bytes) → take n (take b s) ≡ take (length (take n (take b s))) s
take_prefix zero b s = refl
take_prefix (suc n) zero s = refl
take_prefix (suc n) (suc b) [] = refl
take_prefix (suc n) (suc b) (c ∷ s) = ap (◌∷◌ c) (take_prefix n b s)

length-take-take : (n b : ℕ) (s : Bytes) → length (take n (take b s)) ≡ min n (min b (length s))
length-take-take zero b s = omega arith
length-take-take (suc n) zero s = omega arith
length-take-take (suc n) (suc b) [] = omega arith
length-take-take (suc n) (suc b) (c ∷ s) = omega (arith, length-take-take n b s)

drop-length : (n : ℕ) (s : Bytes) → length (drop n s) ≡ length s - n
drop-length zero s = omega arith
drop-length (suc n) [] = omega arith
drop-length (suc n) (c ∷ s) = omega (arith, drop-length n s)

module _ (alloc : ℕ → Bool) (beyond : Bytes) (connect : Option Bytes → Outcome ℕ) (fuel : ℕ) where
  serve_live :
      (conn : Connection) (w : World) (p : ℕ) (e : CacheEntry) (n : ℕ)
      → w.entries (suc p) ≡ some e
      → serve alloc beyond connect fuel (suc p) conn w (wrote n)
        ≡ ok (serve_entry alloc beyond connect fuel conn w e (wrote n))
  unfolding serve load
  serve_live conn w p e n live = rw (live, ◌>>=◌)

  -- The chunk that one round sends.
  chunk_of : Connection → CacheEntry → ℕ → Bytes
  chunk_of conn e n =
      let left = (length e.content + size_mod - conn.cache_bytes_written) % size_mod in
      take n (take (if ltb 64 left then 64 else left) (drop conn.cache_bytes_written e.content))

  serve_entry-wrote :
      (conn : Connection) (w : World) (e : CacheEntry) (n : ℕ)
      → ((serve_entry alloc beyond connect fuel conn w e (wrote n)).1.to_client
          ≡ w.to_client ++ chunk_of conn e n)
        × ((serve_entry alloc beyond connect fuel conn w e (wrote n)).0.cache_bytes_written
            ≡ (conn.cache_bytes_written + length (chunk_of conn e n)) % size_mod)
        × ((serve_entry alloc beyond connect fuel conn w e (wrote n)).2
            ≡ not (
                leb
                  (length e.content)
                  ((conn.cache_bytes_written + length (chunk_of conn e n)) % size_mod)))
  unfolding serve_entry chunk_of close_socket
  serve_entry-wrote conn w e n =
      elim (Bool-cases (
        leb (length e.content)
          ((conn.cache_bytes_written + length (chunk_of conn e n)) % size_mod))) [
            | inl all ↦ rw all (refl, refl, refl)
            | inr more ↦ rw more (refl, refl, refl)
          ]

-- One round of serving from the cache whose `write` has no error. If the client has been sent
-- the first `cache_bytes_written` bytes of the entry, it has been sent the first bytes of it
-- again afterwards, at most 64 more; the thread ends exactly when all of the entry has been
-- sent.
pub responding_from_cache_handler-prefix :
    (alloc : ℕ → Bool) (beyond : Bytes) (connect : Option Bytes → Outcome ℕ) (fuel : ℕ)
    (conn : Connection) (w : World) (p : ℕ) (e : CacheEntry) (before : Bytes) (n : ℕ)
    → conn.cache_entry ≡ suc p
    → w.entries (suc p) ≡ some e
    → conn.cache_bytes_written ≤ length e.content
    → length e.content < size_mod
    → w.to_client ≡ before ++ take conn.cache_bytes_written e.content
    → Returns (responding_from_cache_handler alloc beyond connect fuel conn w (wrote n)) λ r.
      (r.1.to_client ≡ before ++ take r.0.cache_bytes_written e.content)
      × (r.0.cache_bytes_written
          ≡ conn.cache_bytes_written + min n (min 64 (length e.content - conn.cache_bytes_written)))
      × ((r.2 ≡ false) ↔ (r.0.cache_bytes_written ≡ length e.content))
unfolding responding_from_cache_handler chunk_of
responding_from_cache_handler-prefix alloc beyond connect fuel conn w p e before n ep live fits
      small sent_before =
    let k = conn.cache_bytes_written in
    let len = length e.content in
    let left = (len + size_mod - k) % size_mod in
    let is_left : left ≡ len - k = omega arith in
    let btw = if ltb 64 left then 64 else left in
    let is_btw : btw ≡ min 64 (len - k) = ground arith in
    let chunk = take n (take btw (drop k e.content)) in
    let count : length chunk ≡ min n (min 64 (len - k)) =
      omega (arith, length-take-take n btw (drop k e.content), drop-length k e.content) in
    let written : (k + length chunk) % size_mod ≡ k + length chunk = omega arith in
    let sent =
      ap (λ t. t ++ chunk) sent_before
      ∙ append_assoc before (take k e.content) chunk
      ∙ ap (λ t. before ++ (take k e.content ++ t)) (take_prefix n btw (drop k e.content))
      ∙ ap (λ t. before ++ t) (take_add k (length chunk) e.content)
      ∙ ap (λ m. before ++ take m e.content) (sym written) in
    let r = serve_entry alloc beyond connect fuel conn w e (wrote n) in
    let run =
      ap (λ q. serve alloc beyond connect fuel q conn w (wrote n)) ep
      ∙ serve_live alloc beyond connect fuel conn w p e n live in
    let shape = serve_entry-wrote alloc beyond connect fuel conn w e n in
    (
      r,
      run,
      (
        shape.0 ∙ sent ∙ ap (λ m. before ++ take m e.content) (sym shape.1),
        shape.1 ∙ omega arith,
        (λ h. ground (arith, shape.2, shape.1), λ h. ground (arith, shape.2, shape.1)),
      ),
    )

-- What the waiting loop sees: in each round the entry has grown, the test does not miss bytes that
-- the write would send, `write` takes all of them, and nothing is added between the write and the
-- read of the count behind it. The last round finds the entry no longer downloading, with its final
-- content.
pub data Watches (final : Bytes) : Bytes → List WaitRound → Type 0 where
  last :
      {prev : Bytes} (r : WaitRound) (n : ℕ) (more : Bytes)
      → r.written ≡ prev ++ more
      → r.status ≢ downloading
      → (more ≡ []) ⊎ (length prev < r.tested)
      → r.write_result ≡ wrote n
      → length r.written ≤ n
      → r.written ≡ final
      → Watches final prev (r ∷ [])
  next :
      {prev : Bytes} {rounds : List WaitRound} (r : WaitRound) (n : ℕ) (more : Bytes)
      → r.written ≡ prev ++ more
      → r.status ≡ downloading
      → (more ≡ []) ⊎ (length prev < r.tested)
      → r.write_result ≡ wrote n
      → length r.written ≤ n
      → r.kept ≡ length r.written
      → Watches final r.written rounds
      → Watches final prev (r ∷ rounds)
