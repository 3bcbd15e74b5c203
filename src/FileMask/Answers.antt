-- ===== src/FileMask/Answers.antt =====
-- That a search ends, and what it answers.
use os_solutions.FileMask.Decides.{pattern_match-fits}
use os_solutions.FileMask.Search.{
  next_slash, slash_before, last_byte, path_of, name_matches, Found, descend, list_entry,
  list_entries, list_dir, find_files, name_max,
}
use os_solutions.FileMask.Tokens.{fits, tokens}
use mathlib.Core.Path.{subst}
use os_solutions.Prelude.{
  ℕ, zero, suc, ◌+◌, ◌*◌, ◌≤◌, ◌<◌, ◌≡◌, ◌≢◌, refl, ◌↔◌, Bool, true, false, not, ◌&&◌, ◌||◌, Option,
  none, some, List, [], ◌∷◌, ◌++◌, ◌==◌, leb, if◌then◌else◌, length, take, drop, Bytes, codes,
  same_text, ok, ◌>>=◌, Returns, bind-Returns, arith,
}

name_matches_lem : (mask str : Bytes) → name_matches mask str ≡ ok (fits (tokens mask) str)
unfolding name_matches
name_matches_lem mask str =
    pattern_match-fits (suc (length str * suc (length mask) + length mask)) mask str (omega arith)

next_slash-lt : (mask : Bytes) (i : ℕ) → next_slash mask ≡ some i → i < length mask
unfolding next_slash
next_slash-lt [] i h = cc
next_slash-lt (c ∷ mask) i h =
    elim (next_slash mask)
        as (λ o.
          next_slash mask ≡ o
          → (if c == b'/' then some 0 else elim o [ none ↦ none | some j ↦ some (suc j) ]) ≡ some i
          → i < suc (length mask)) [
            | none ↦ λ e k. ground arith
            | some j ↦ λ e k. ground (arith, next_slash-lt mask j e)
          ]
      refl h

length-drop : (k : ℕ) (s : Bytes) → k < length s → length (drop (suc k) s) < length s
length-drop k [] h = absurd (omega arith)
length-drop zero (c ∷ s) h = omega arith
length-drop (suc k) (c ∷ s) h = omega (arith, length-drop k s)

last_byte_lem : (name : Bytes) → name ≢ [] → (c : ℕ) × (last_byte name ≡ ok c)
unfolding last_byte
last_byte_lem [] h = absurd (h refl)
last_byte_lem (c ∷ []) h = (c, refl)
last_byte_lem (c ∷ (d ∷ name)) h = last_byte_lem (d ∷ name) (λ e. cc)

-- The answer is yes exactly where something was printed.
abbrev pub Answers : List Bytes × Bool → Type 0
Answers r = (r.1 ≡ true) ↔ (r.0 ≢ [])

Answers-none : Answers ([], false)
Answers-none = (λ e. cc, λ h. absurd (h refl))

Answers-append :
    (xs ys : List Bytes) (a b : Bool)
    → Answers (xs, a)
    → Answers (ys, b)
    → Answers (xs ++ ys, a || b)
Answers-append [] ys true b h k = absurd (h.0 refl refl)
Answers-append [] ys false b h k = k
Answers-append (x ∷ xs) ys true b h k = (λ e. λ n. cc, λ e. refl)
Answers-append (x ∷ xs) ys false b h k = let e : false ≡ true = h.1 (λ n. cc) in cc

abbrev IsCons : Bytes → Type 0
IsCons [] = ⊥
IsCons (c ∷ s) = Unit {0}

some-none : {i : ℕ} → none ≡ some i → ⊥
some-none {i} e =
    elim (subst (λ o. elim o as (λ _. Type 0) [ none ↦ Unit {0} | some _ ↦ ⊥ ]) e tt) [ ]

nonempty : {c : ℕ} {s : Bytes} → c ∷ s ≢ []
nonempty e = elim (subst IsCons e tt) [ ]

take-suc-ne : (n : ℕ) (s : Bytes) → s ≢ [] → take (suc n) s ≢ []
take-suc-ne n [] h e = h refl
take-suc-ne n (c ∷ s) h e = nonempty e

length-drop-le : (k : ℕ) (s : Bytes) → length (drop k s) ≤ length s
length-drop-le zero s = omega arith
length-drop-le (suc k) [] = omega arith
length-drop-le (suc k) (c ∷ s) = omega (arith, length-drop-le k s)

slash_before-ne : (mask : Bytes) (i : ℕ) → slash_before mask 0 none ≡ some i → mask ≢ []
unfolding slash_before
slash_before-ne [] i e = absurd (some-none e)
slash_before-ne (c ∷ mask) i e = nonempty

path_of-ne : (name d_name : Bytes) (last : ℕ) → name ≢ [] → path_of name last d_name ≢ []
unfolding path_of
path_of-ne [] d_name last h e = h refl
path_of-ne (c ∷ name) d_name last h e =
    take-suc-ne 4095 (c ∷ (name ++ ((if last == b'/' then [] else codes "/") ++ d_name))) nonempty e

module _ (entries : Bytes → Option (List Bytes)) (is_directory : Bytes → Option Bool) where
  -- A search below that answers for every name, on masks shorter than this one.
  module _ (visit : Bytes → Bytes → Found) (mask : Bytes)
      (below : (n m : Bytes) → n ≢ [] → length m < length mask → Returns (visit n m) Answers) where
    descend-Answers :
        (slash : Option ℕ) (path d_name : Bytes)
        → path ≢ []
        → ((i : ℕ) → slash ≡ some i → i < length mask)
        → Returns (descend entries is_directory visit slash mask path d_name) Answers
    unfolding descend
    descend-Answers none path d_name h lt = (([], false), refl, Answers-none)
    descend-Answers (some i) path d_name h lt =
        rw (name_matches_lem (take i mask) d_name)
          (elim (fits (tokens (take i mask)) d_name)
            as (λ b.
              Returns (if b then visit path (drop (suc i) mask) else ok ([], false)) Answers) [
                | true ↦ below path (drop (suc i) mask) h (length-drop i mask (lt i refl))
                | false ↦ (([], false), refl, Answers-none)
              ])

    list_entry-Answers :
        (name d_name : Bytes) (last : ℕ)
        → name ≢ []
        → Returns (list_entry entries is_directory visit name last mask d_name) Answers
    unfolding list_entry
    list_entry-Answers name d_name last h =
        let path = path_of name last d_name in
        let shown =
          not (same_text (codes ".") d_name)
          && (not (same_text (codes "..") d_name) && fits (tokens mask) d_name) in
        rw (name_matches_lem mask d_name)
          (elim (is_directory path)
            as (λ o.
              Returns
                (elim o [
                  | none ↦ ok (if shown then path ∷ [] else [], shown)
                  | some false ↦ ok (if shown then path ∷ [] else [], shown)
                  | some true ↦ (do
                    below' ← descend entries is_directory visit (next_slash mask) mask path d_name
                    ok ((if shown then path ∷ [] else []) ++ below'.0, shown || below'.1))
                ])
                Answers) [
                  | none ↦ (_, refl, one path shown)
                  | some false ↦ (_, refl, one path shown)
                  | some true ↦
                      bind-Returns
                        (descend-Answers (next_slash mask) path d_name
                          (path_of-ne name d_name last h) (next_slash-lt mask))
                        (λ r a. (
                          _,
                          refl,
                          Answers-append (if shown then path ∷ [] else []) r.0 shown r.1
                              (one path shown) a,
                        ))
                ])
      where
        one : (path : Bytes) (b : Bool) → Answers (if b then path ∷ [] else [], b)
        one path true = (λ e. λ n. cc, λ e. refl)
        one path false = Answers-none

    list_entries-Answers :
        (name : Bytes) (last : ℕ) (names : List Bytes)
        → name ≢ []
        → Returns (list_entries entries is_directory visit name last mask names) Answers
    unfolding list_entries
    list_entries-Answers name last [] h = (([], false), refl, Answers-none)
    list_entries-Answers name last (d_name ∷ rest) h =
        bind-Returns (list_entry-Answers name d_name last h) (λ r a.
          bind-Returns (list_entries-Answers name last rest h)
            (λ r' a'. (_, refl, Answers-append r.0 r'.0 r.1 r'.1 a a')))

  list_dir-Answers :
      (fuel : ℕ) (name mask : Bytes)
      → name ≢ []
      → length mask < fuel
      → Returns (list_dir entries is_directory fuel name mask) Answers
  unfolding list_dir
  list_dir-Answers zero name mask h lt = absurd (omega arith)
  list_dir-Answers (suc fuel) name mask h lt =
      let (c, e) = last_byte_lem name h in
      elim (entries name)
        as (λ o.
          Returns
            (elim o [
              | none ↦ ok ([], false)
              | some names ↦ (do
                last ← last_byte name
                list_entries entries is_directory (λ n m. list_dir entries is_directory fuel n m)
                    name last mask names)
            ])
            Answers) [
              | none ↦ (([], false), refl, Answers-none)
              | some names ↦ rw e (
                  list_entries-Answers (λ n m. list_dir entries is_directory fuel n m) mask
                    (λ n m h' lt'. list_dir-Answers fuel n m h' (omega arith)) name c names h)
            ]

  -- Whatever the directories hold, the search with as many levels as the mask has bytes, and one
  -- more, ends without a fault, and answers yes exactly if it printed a path.
  pub find_files-Answers :
      (fuel : ℕ) (mask : Bytes)
      → length mask < fuel
      → Returns (find_files entries is_directory fuel mask) Answers
  unfolding find_files
  find_files-Answers fuel mask lt =
      elim (slash_before mask 0 none)
          as (λ o.
            slash_before mask 0 none ≡ o
            → Returns
                (elim o [
                  | none ↦ list_dir entries is_directory fuel (codes ".") mask
                  | some slash ↦
                      if leb (name_max + 1) (slash + 1)
                      then ok ([], false)
                      else list_dir entries is_directory fuel (take (suc slash) mask)
                          (drop (suc slash) mask)
                ])
                Answers) [
                  | none ↦ λ e. list_dir-Answers fuel (codes ".") mask (λ n. cc) lt
                  | some slash ↦ λ e.
                      elim (leb (name_max + 1) (slash + 1))
                        as (λ b.
                          Returns
                            (if b
                              then ok ([], false)
                              else list_dir entries is_directory fuel (take (suc slash) mask)
                                  (drop (suc slash) mask))
                            Answers) [
                              | true ↦ (([], false), refl, Answers-none)
                              | false ↦
                                  list_dir-Answers fuel (take (suc slash) mask)
                                    (drop (suc slash) mask)
                                    (take-suc-ne slash mask (slash_before-ne mask slash e))
                                    (omega (arith, length-drop-le (suc slash) mask))
                            ]
                ]
        refl
