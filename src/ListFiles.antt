-- ===== src/ListFiles.antt =====
-- 18_ls/task18.c: a line for each file, with its type, rights, owner, size and time.
--
-- What the system says is given: `stat`, `getpwuid`, `getgrgid`, `ctime` and `basename`, none
-- where they fail. `printInfo` ends without a `return`; `fallen` says whether what its caller finds
-- is -1. Numbers fit the `%d` that prints them.
pub mod Rights
use os_solutions.Prelude.{
  ℕ, zero, suc, ◌+◌, ◌-◌, ◌/◌, ◌%◌, ◌^◌, Bool, true, false, Option, none, some, List, [], ◌∷◌, ◌++◌,
  ◌==◌, if◌then◌else◌, length, take, replicate, Bytes, codes, decimal,
}

pub record Stat : Type 0 where
  pub st_mode : ℕ
  pub st_nlink : ℕ
  pub st_uid : ℕ
  pub st_gid : ℕ
  pub st_mtime : ℕ
  pub st_size : ℕ

-- `st_mode & S_IFMT`, as the number of its four bits: S_IFDIR is 4 and S_IFREG is 8
abbrev pub file_type : ℕ → ℕ
file_type mode = mode / 2 ^ 12 % 16

unfoldable pub print_type : Stat → Bytes
print_type sb =
    if file_type sb.st_mode == 4
    then codes "d"
    else if file_type sb.st_mode == 8
    then codes "-"
    else codes "?"

-- `Symbols[i % 3]`
abbrev pub symbol : ℕ → ℕ
symbol i = if i % 3 == 0 then b'r' else if i % 3 == 1 then b'w' else b'x'

-- the loop, for the last `n` of the nine rights; `Rights[i]` is the bit 8 - i
unfoldable pub rights_str : ℕ → ℕ → Bytes
rights_str zero mode = []
rights_str (suc n) mode =
    (if mode / 2 ^ n % 2 == 1 then symbol (8 - n) else b'-') ∷ rights_str n mode

unfoldable pub print_rights : Stat → Bytes
unfolding rights_str
print_rights sb = rights_str 9 sb.st_mode

-- a field of at least so many bytes
abbrev pub pad : ℕ → Bytes → Bytes
pad width s = replicate (width - length s) b' ' ++ s

unfoldable pub print_n_links : Stat → Bytes
print_n_links sb = pad 2 (decimal sb.st_nlink)

unfoldable pub print_size : Stat → Bytes
print_size sb = if file_type sb.st_mode == 8 then pad 10 (decimal sb.st_size) else pad 10 []

module _ (getpwuid getgrgid ctime : ℕ → Option Bytes) where
  -- whether it succeeds, and what it prints
  unfoldable pub print_owner_and_group : Stat → Bool × Bytes
  print_owner_and_group sb = elim (getpwuid sb.st_uid) [
    | none ↦ (false, [])
    | some user ↦ elim (getgrgid sb.st_gid) [
      | none ↦ (false, pad 15 user ++ codes " ")
      | some group ↦ (true, pad 15 user ++ (codes " " ++ pad 15 group))
    ]
  ]

  unfoldable pub print_modification_time : Stat → Bool × Bytes
  print_modification_time sb = elim (ctime sb.st_mtime) [
    | none ↦ (false, [])
    | some time ↦ (true, take 24 time)
  ]

  module _ (stat : Bytes → Option Stat) (basename : Bytes → Bytes) (fallen : Bool) where
    -- whether the caller goes on, and what is printed
    unfoldable pub print_info : Bytes → Bool × Bytes
    unfolding print_type print_rights print_n_links print_owner_and_group print_size
        print_modification_time
    print_info file = elim (stat file) [
      | none ↦ (false, [])
      | some sb ↦
          let front =
            print_type sb ++ (print_rights sb ++ (codes " " ++ (print_n_links sb ++ codes " "))) in
          let owner = print_owner_and_group sb in
          let behind =
            codes " "
            ++ (print_size sb
                ++ (codes " "
                    ++ ((print_modification_time sb).1
                        ++ (codes " " ++ (basename file ++ codes "\n"))))) in
          if owner.0
          then (if fallen then false else true, front ++ (owner.1 ++ behind))
          else (false, front ++ owner.1)
    ]

    -- the loop over the arguments: whether the exit code is 0, and what is printed
    unfoldable pub print_files : List Bytes → Bool × Bytes
    unfolding print_info
    print_files [] = (true, [])
    print_files (file ∷ files) =
        let info = print_info file in
        let rest = print_files files in
        if info.0 then (rest.0, info.1 ++ rest.1) else (false, info.1)

    unfoldable pub main : List Bytes → Bool × Bytes
    unfolding print_files
    main [] = print_info (codes ".")
    main (file ∷ files) = print_files (file ∷ files)
