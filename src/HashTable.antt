-- ===== src/HashTable.antt =====
-- http_proxy/hash_table.c: a chained hash table from C strings to pointers.
--
-- A bucket is the list of its nodes, and `table` is none where the C pointer is NULL. A `Pointer`
-- is an address, 0 for NULL. `destroyed` lists what `dtor` was called with, the latest call last.
-- `alloc n` says whether `malloc(n)` succeeds; the copy that `strdup` makes of a key is taken to
-- succeed. The functions on a table and a key that may be NULL take options.
pub mod Chain
pub mod Slots
pub mod Hash
pub mod Lookup
pub mod Update
pub mod Delete
pub mod Walk
pub mod Resize
pub mod Init
use os_solutions.Prelude.{
  ℕ, zero, suc, ◌+◌, ◌-◌, ◌*◌, ◌%◌, ◌^◌, ◌/◌, bit_xor, Bool, true, false, not, Option, none, some,
  List, [], ◌∷◌, ◌++◌, ltb, leb, ◌==◌, if◌then◌else◌, uint_mod, size_mod, get_elem?, set, replicate,
  Bytes, same_text, Outcome, ok, abort, fault, timeout, ◌>>=◌, read,
}

abbrev pub Pointer : Type 0
Pointer = ℕ

abbrev pub null : Pointer
null = 0

-- `struct List`; a chain of `next` pointers is a list
pub record Node : Type 0 where
  pub key : Bytes
  pub value : Pointer

pub record HashTable : Type 0 where
  pub size : ℕ
  pub count : ℕ
  pub table : Option (List (List Node))
  pub hashfunc : Bytes → ℕ → ℕ
  pub dtor : Bool
  pub destroyed : List Pointer

-- `hash += *key` with a signed `char`
char_value : ℕ → ℕ
char_value c = if ltb c 128 then c else c + uint_mod - 256

-- the body of the `for` loop
jenkins_step : ℕ → ℕ → ℕ
unfolding char_value
jenkins_step hash c =
    let a = (hash + char_value c) % uint_mod in
    let b = (a + a * 2 ^ 10) % uint_mod in bit_xor b (b / 2 ^ 6)

jenkins_loop : ℕ → Bytes → ℕ
unfolding jenkins_step
jenkins_loop hash [] = hash
jenkins_loop hash (c ∷ key) = jenkins_loop (jenkins_step hash c) key

unfoldable pub jenkins_one_at_a_time_hash : Bytes → ℕ → ℕ
unfolding jenkins_loop
jenkins_one_at_a_time_hash key ht_size =
    let hash = jenkins_loop 0 key in
    let a = (hash + hash * 2 ^ 3) % uint_mod in
    let b = bit_xor a (a / 2 ^ 11) in ((b + b * 2 ^ 15) % uint_mod) % ht_size

-- the node's data, for the first node of the chain that has the key
unfoldable pub find_list : List Node → Bytes → Option Pointer
find_list [] key = none
find_list (n ∷ head) key = if same_text n.key key then some n.value else find_list head key

-- `nlist->data = data` through the pointer that `find_list` returned
unfoldable pub assign : List Node → Bytes → Pointer → List Node
assign [] key data' = []
assign (n ∷ head) key data' =
    if same_text n.key key then record n { value = data' } ∷ head else n ∷ assign head key data'

-- `(ht->dtor != NULL) ? ht->dtor(p) : NULL`
pub call_dtor : HashTable → Pointer → HashTable
call_dtor ht p = if ht.dtor then record ht { destroyed = ht.destroyed ++ p ∷ [] } else ht

-- `ht->table[index]`; past the array, or with no array, it is undefined
unfoldable pub bucket : HashTable → ℕ → Outcome (List Node)
bucket ht index = read ht.table >>= λ slots. read (get_elem? slots index)

-- a write to `ht->table[index]`, or to a node of that chain
pub write_bucket : HashTable → ℕ → List Node → HashTable
write_bucket ht index chain = record ht {
  table = elim ht.table [ none ↦ none | some slots ↦ some (set slots index chain) ];
}

-- sizeof(List)
abbrev pub node_bytes : ℕ
node_bytes = 24

-- what `malloc` is asked for; the product wraps around
abbrev pub array_bytes : ℕ → ℕ
array_bytes n = 8 * n % size_mod

-- The loop that sets each pointer to NULL stays inside a block of so many bytes, or is undefined.
unfoldable pub clear_slots : ℕ → ℕ → Outcome (List (List Node))
clear_slots bytes n = if ltb bytes (8 * n) then fault else ok (replicate n [])

unfoldable pub ht_get : Option HashTable → Option Bytes → Outcome Pointer
unfolding bucket find_list
ht_get (some ht) (some key) =
    let index = ht.hashfunc key ht.size in
    if leb ht.size index
    then ok null
    else (do chain ← bucket ht index; elim (find_list chain key) [ some p ↦ ok p | none ↦ ok null ])
ht_get _ _ = ok null

unfoldable pub ht_has : Option HashTable → Option Bytes → Outcome Bool
unfolding bucket
ht_has (some ht) (some key) =
    let index = ht.hashfunc key ht.size in
    if leb ht.size index
    then ok false
    else (do chain ← bucket ht index; elim chain [ [] ↦ ok false | n ∷ rest ↦ ok true ])
ht_has _ _ = ok false

unfoldable pub ht_has_strict : Option HashTable → Option Bytes → Outcome Bool
unfolding ht_get
ht_has_strict ht key = do p ← ht_get ht key; ok (not (p == null))

unfoldable pub ht_count : Option HashTable → ℕ
ht_count (some ht) = ht.count
ht_count none = 0

module _ (alloc : ℕ → Bool) where
  -- the returned number is the C result; on a failed `malloc` only `table` is written
  unfoldable pub ht_init :
      Option HashTable → ℕ → Option (Bytes → ℕ → ℕ) → Bool → Outcome (Option HashTable × ℕ)
  unfolding clear_slots
  ht_init none size hf dtor = ok (none, 0)
  ht_init (some ht) size hf dtor =
      if size == 0
      then ok (some ht, 0)
      else if alloc (array_bytes size)
      then (clear_slots (array_bytes size) size >>= λ slots. ok (
        some (record ht {
          table = some slots;
          count = 0;
          size = size;
          dtor = dtor;
          hashfunc = elim hf [ none ↦ jenkins_one_at_a_time_hash | some f ↦ f ];
        }),
        1,
      ))
      else ok (some (record ht { table = none }), 0)

  -- lines 85 to 99 of `ht_set`: overwrite in the chain, or link a new node at its head
  pub store : HashTable → ℕ → List Node → Bytes → Pointer → Outcome (HashTable × Pointer)
  unfolding find_list assign call_dtor write_bucket
  store ht index chain key data' = elim (find_list chain key) [
    | some old ↦ ok (write_bucket (call_dtor ht old) index (assign chain key data'), data')
    | none ↦
        if alloc node_bytes
        then ok (
          record (write_bucket ht index (record { key = key; value = data' } ∷ chain)) {
            count = (ht.count + 1) % size_mod;
          },
          data',
        )
        else abort
  ]

  -- the loop of `ht_resize`: the first node of each old chain is set in the new table
  pub move_heads :
      (HashTable → Bytes → Pointer → Outcome (HashTable × Pointer))
      → List (List Node)
      → HashTable
      → Outcome HashTable
  move_heads put [] ht = ok ht
  move_heads put ([] ∷ slots) ht = move_heads put slots ht
  move_heads put ((n ∷ rest) ∷ slots) ht =
      put ht n.key n.value >>= (λ r. if r.1 == null then abort else ok r.0) >>= λ ht'.
      move_heads put slots ht'

  -- `ht_resize`, given the `ht_set` that it calls
  pub resize_by :
      (HashTable → Bytes → Pointer → Outcome (HashTable × Pointer))
      → HashTable
      → ℕ
      → Outcome (HashTable × ℕ)
  unfolding move_heads clear_slots
  resize_by put ht new_size =
      if new_size == 0
      then ok (ht, 0)
      else if alloc (array_bytes new_size)
      then (clear_slots (array_bytes new_size) new_size >>= λ cleared.
          (let fresh : HashTable = record ht { count = 0; size = new_size; table = some cleared } in
            elim ht.table [
              | none ↦ ok (fresh, 1)
              | some slots ↦ (do moved ← move_heads put slots fresh; ok (moved, 1))
            ]))
      else ok (ht, 0)

  -- `ht_set` past its first test; each level of fuel is one call
  pub set_at : ℕ → HashTable → Bytes → Pointer → Outcome (HashTable × Pointer)
  unfolding bucket store resize_by
  set_at zero ht key data' = timeout
  set_at (suc fuel) ht key data' =
      let index = ht.hashfunc key ht.size in
      let grown = (do
        r ← resize_by (λ t k d. set_at fuel t k d) ht index
        (if r.1 == 1 then ok r.0 else abort) >>= λ t. set_at fuel t key data') in
      if ltb ht.size index
      then grown
      else (do chain ← bucket ht index; store ht index chain key data')

  unfoldable pub ht_set :
      ℕ → Option HashTable → Option Bytes → Pointer → Outcome (Option HashTable × Pointer)
  unfolding set_at
  ht_set fuel (some ht) (some key) data' = set_at fuel ht key data' >>= λ r. ok (some r.0, r.1)
  ht_set fuel ht _ data' = ok (ht, null)

  unfoldable pub ht_resize : ℕ → Option HashTable → ℕ → Outcome (Option HashTable × ℕ)
  unfolding resize_by set_at
  ht_resize fuel (some ht) new_size =
      resize_by (λ t k d. set_at fuel t k d) ht new_size >>= λ r. ok (some r.0, r.1)
  ht_resize fuel none new_size = ok (none, 0)

-- the inner loop of `ht_delete`: the chain without the first node that has the key, and its data
unfoldable pub unlink : List Node → Bytes → Option (Pointer × List Node)
unlink [] key = none
unlink (cur ∷ next) key =
    let rest = unlink next key in
    if same_text cur.key key
    then some (cur.value, next)
    else elim rest [ none ↦ none | some (p, kept) ↦ some (p, cur ∷ kept) ]

-- lines 238 to 260 of `ht_delete`; the `NULL` head of an empty bucket is read: `*next = cur->next`
pub delete_from : HashTable → ℕ → List Node → Bytes → Outcome (Option HashTable)
unfolding call_dtor write_bucket
delete_from ht index [] key = fault
delete_from ht index (cur ∷ next) key = elim (unlink (cur ∷ next) key) [
  | none ↦ ok (some ht)
  | some (p, kept) ↦ ok (
      some (record (write_bucket (call_dtor ht p) index kept) {
        count = if ltb 0 ht.count then ht.count - 1 else ht.count;
      }))
]

unfoldable pub ht_delete : Option HashTable → Option Bytes → Outcome (Option HashTable)
unfolding bucket delete_from unlink
ht_delete (some ht) (some key) =
    let index = ht.hashfunc key ht.size in
    if leb ht.size index
    then ok (some ht)
    else (do chain ← bucket ht index; delete_from ht index chain key)
ht_delete ht _ = ok ht

-- one chain of `ht_traverse`: the visited pairs, and whether the walk goes on
pub visit_chain : (Bytes → Pointer → Bool) → List Node → List Node × Bool
visit_chain f [] = ([], true)
visit_chain f (n ∷ rest) =
    let later = visit_chain f rest in
    if f n.key n.value then (n ∷ later.0, later.1) else (n ∷ [], false)

pub visit_slots : (Bytes → Pointer → Bool) → List (List Node) → List Node
unfolding visit_chain
visit_slots f [] = []
visit_slots f (c ∷ slots) =
    let later = visit_slots f slots in
    let (seen, more) = visit_chain f c in if more then seen ++ later else seen

-- the pairs that the callback is called with, in order; `f` is the callback's answer
unfoldable pub ht_traverse :
    Option HashTable → Option (Bytes → Pointer → Bool) → Outcome (List Node)
unfolding visit_slots
ht_traverse (some ht) (some f) =
    if ltb ht.count 1 then ok [] else (do slots ← read ht.table; ok (visit_slots f slots))
ht_traverse _ _ = ok []

pub destroy_chain : List Node → HashTable → HashTable
unfolding call_dtor
destroy_chain [] ht = ht
destroy_chain (n ∷ rest) ht = destroy_chain rest (call_dtor ht n.value)

pub destroy_slots : List (List Node) → HashTable → HashTable
unfolding destroy_chain
destroy_slots [] ht = ht
destroy_slots (c ∷ slots) ht = destroy_slots slots (destroy_chain c ht)

-- the table is left as it was after the calls of `dtor`, its memory freed
unfoldable pub ht_destroy : Option HashTable → Outcome (Option HashTable)
unfolding destroy_slots
ht_destroy none = ok none
ht_destroy (some ht) =
    if ht.size == 0
    then ok (some ht)
    else (do slots ← read ht.table; ok (some (destroy_slots slots ht)))
