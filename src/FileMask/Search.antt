-- ===== src/FileMask/Search.antt =====
-- `listDir` and `findFiles`: the walk over directories.
--
-- `entries` gives the names that `readdir` yields, none where `opendir` fails, and `is_directory`
-- what `lstat` says of a path, none where it fails. A search returns the paths that it prints, and
-- its answer.
use os_solutions.FileMask.Matching.{pattern_match}
use os_solutions.Prelude.{
  ℕ, zero, suc, ◌+◌, ◌*◌, Bool, true, false, not, ◌&&◌, ◌||◌, Option, none, some, List, [], ◌∷◌,
  ◌++◌, ◌==◌, leb, if◌then◌else◌, length, take, drop, Bytes, codes, same_text, Outcome, ok, fault,
  timeout, ◌>>=◌,
}

-- `nextSlash`: the index of the first '/'
unfoldable pub next_slash : Bytes → Option ℕ
next_slash [] = none
next_slash (c ∷ file) =
    let rest = next_slash file in
    if c == b'/' then some 0 else elim rest [ none ↦ none | some i ↦ some (suc i) ]

-- `slashBeforeWildcards`: the index of the last '/' that no '?' or '*' stands before; the list is
-- the text from index `i` on
unfoldable pub slash_before : Bytes → ℕ → Option ℕ → Option ℕ
slash_before [] i ret = ret
slash_before (c ∷ file) i ret =
    let rest = slash_before file (i + 1) (if c == b'/' then some i else ret) in
    if not (c == b'/') && (c == b'?' || c == b'*') then ret else rest

-- the last byte of a name; of an empty one, the byte before it is read
unfoldable pub last_byte : Bytes → Outcome ℕ
last_byte [] = fault
last_byte (c ∷ []) = ok c
last_byte (c ∷ (d ∷ name)) = last_byte (d ∷ name)

-- PATH_MAX and NAME_MAX
abbrev pub path_max : ℕ
path_max = 4096

abbrev pub name_max : ℕ
name_max = 255

-- `snprintf(path, sizeof(path), fmt, name, d_name)`
unfoldable pub path_of : Bytes → ℕ → Bytes → Bytes
path_of name last d_name =
    take path_max (name ++ ((if last == b'/' then [] else codes "/") ++ d_name))

-- `pattern_match`, with rounds enough
unfoldable pub name_matches : Bytes → Bytes → Outcome Bool
unfolding pattern_match
name_matches mask str = pattern_match (suc (length str * suc (length mask) + length mask)) mask str

abbrev pub Found : Type 0
Found = Outcome (List Bytes × Bool)

module _ (entries : Bytes → Option (List Bytes)) (is_directory : Bytes → Option Bool) where
  -- lines 170 to 183: the entry is a directory that the mask leads through; `visit` is `listDir`
  unfoldable pub descend : (Bytes → Bytes → Found) → Option ℕ → Bytes → Bytes → Bytes → Found
  unfolding name_matches
  descend visit none mask path d_name = ok ([], false)
  descend visit (some slash) mask path d_name = do
    match ← name_matches (take slash mask) d_name
    if match then visit path (drop (suc slash) mask) else ok ([], false)

  -- one round of the loop over the entries
  unfoldable pub list_entry : (Bytes → Bytes → Found) → Bytes → ℕ → Bytes → Bytes → Found
  unfolding descend next_slash
  list_entry visit name last mask d_name = do
    let path = path_of name last d_name
    matches ← name_matches mask d_name
    let here : List Bytes =
        if not (same_text (codes ".") d_name) && (not (same_text (codes "..") d_name) && matches)
        then path ∷ []
        else []
    let found : Bool =
        not (same_text (codes ".") d_name) && (not (same_text (codes "..") d_name) && matches)
    elim (is_directory path) [
      | none ↦ ok (here, found)
      | some false ↦ ok (here, found)
      | some true ↦ (do
        below ← descend visit (next_slash mask) mask path d_name
        ok (here ++ below.0, found || below.1))
    ]

  unfoldable pub list_entries : (Bytes → Bytes → Found) → Bytes → ℕ → Bytes → List Bytes → Found
  unfolding list_entry
  list_entries visit name last mask [] = ok ([], false)
  list_entries visit name last mask (d_name ∷ rest) = do
    here ← list_entry visit name last mask d_name
    later ← list_entries visit name last mask rest
    ok (here.0 ++ later.0, here.1 || later.1)

  -- each level of fuel is one directory deeper
  unfoldable pub list_dir : ℕ → Bytes → Bytes → Found
  unfolding list_entries last_byte
  list_dir zero name mask = timeout
  list_dir (suc fuel) name mask = elim (entries name) [
    | none ↦ ok ([], false)
    | some names ↦ (do
      last ← last_byte name
      list_entries (λ n m. list_dir fuel n m) name last mask names)
  ]

  unfoldable pub find_files : ℕ → Bytes → Found
  unfolding list_dir slash_before
  find_files fuel mask = elim (slash_before mask 0 none) [
    | none ↦ list_dir fuel (codes ".") mask
    | some slash ↦
        if leb (name_max + 1) (slash + 1)
        then ok ([], false)
        else list_dir fuel (take (suc slash) mask) (drop (suc slash) mask)
  ]
