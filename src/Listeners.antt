-- ===== src/Listeners.antt =====
-- 31/send.c: lines of text, sent to every process that has registered.
--
-- The queue gives the process ids of the messages that wait in it; a message that is sent is the
-- id of its receiver with the bytes. `alloc n` says whether a call of `realloc` for `n` bytes
-- succeeds; the block then has these bytes and no more.
pub mod Removal
pub mod Posting
pub mod Registration
pub mod Delivery
use os_solutions.Prelude.{
  ℕ, zero, suc, ◌+◌, ◌-◌, ◌*◌, Bool, true, false, Option, none, some, List, [], ◌∷◌, ◌++◌, ◌==◌,
  ltb, leb, if◌then◌else◌, get_or, set, take, length, Bytes, Outcome, ok, fault, ◌>>=◌,
}

-- `struct array`: the cells up to indexForAdd, the cells that it counts, and its block's bytes
pub record Array : Type 0 where
  pub items : List ℕ
  pub size : ℕ
  pub space : ℕ

-- sizeof(pid_t)
abbrev pub pid_size : ℕ
pid_size = 4

abbrev pub new_array : Array
new_array = record { items = []; size = 0; space = 0 }

-- lines 42 and 43: the cell must lie in the block
abbrev pub add_item : Array → ℕ → Outcome (Bool × Array)
add_item arr item =
    if leb (pid_size * (length arr.items + 1)) arr.space
    then ok (true, record arr { items = arr.items ++ item ∷ [] })
    else fault

unfoldable pub push_back : (ℕ → Bool) → Array → ℕ → Outcome (Bool × Array)
push_back alloc arr item =
    if ltb (length arr.items) arr.size
    then add_item arr item
    else if alloc (arr.size + 2)
    then add_item (record arr { size = arr.size + 2; space = arr.size + 2 }) item
    else ok (false, arr)

-- `find`: the index of the first item that is equal
unfoldable pub find : List ℕ → ℕ → Option ℕ
find [] item = none
find (x ∷ items) item =
    let rest = find items item in
    if x == item then some 0 else elim rest [ none ↦ none | some i ↦ some (suc i) ]

-- the loop of `removeItem`, with `n` cells to move and the first of them going to `i`
unfoldable pub shift_down : ℕ → ℕ → List ℕ → List ℕ
shift_down zero i items = items
shift_down (suc n) i items = shift_down n (suc i) (set items i (get_or items (suc i) 0))

unfoldable pub remove_item : Array → ℕ → Bool × Array
unfolding shift_down
remove_item arr index =
    if leb (length arr.items) index
    then (false, arr)
    else (let moved = shift_down (length arr.items - (index + 1)) index arr.items in
        (true, record arr { items = take (length arr.items - 1) moved }))

-- `addListeners`, for the registrations in the queue
unfoldable pub add_listeners : (ℕ → Bool) → List ℕ → Array → Outcome (Bool × Array)
unfolding push_back
add_listeners alloc [] pids = ok (true, pids)
add_listeners alloc (pid ∷ queue) pids =
    push_back alloc pids pid >>= λ r. if r.0 then add_listeners alloc queue r.1 else ok (false, r.1)

-- `delListeners`, for the departures in the queue
unfoldable pub del_listeners : List ℕ → Array → Bool × Array
unfolding find remove_item
del_listeners [] pids = (true, pids)
del_listeners (pid ∷ queue) pids = elim (find pids.items pid) [
  | none ↦ (false, pids)
  | some index ↦
      let r = remove_item pids index in
      let rest = del_listeners queue r.1 in if r.0 then rest else (false, r.1)
]

-- `updListeners`
unfoldable pub upd_listeners : (ℕ → Bool) → List ℕ → List ℕ → Array → Outcome (Bool × Array)
unfolding add_listeners del_listeners
upd_listeners alloc regs ends pids =
    add_listeners alloc regs pids >>= λ r. ok (if r.0 then del_listeners ends r.1 else (false, r.1))

-- `msgLength`: the text without its newline, and the length with a 0; an empty text is read before
-- its start
unfoldable pub msg_length : Bytes → Outcome (Bytes × ℕ)
msg_length [] = fault
msg_length (c ∷ text) =
    let n = length text in
    let whole : Bytes = c ∷ text in
    ok (if get_or whole n 0 == b'\n' then (take n whole, n + 1) else (whole, n + 2))

abbrev pub Sent : Type 0
Sent = List (ℕ × Bytes)

-- `sendMessage` from the i-th listener on; `can_send i` says whether the call of `msgsnd` succeeds
unfoldable pub send_message : (ℕ → Bool) → List ℕ → Bytes → ℕ → Bool × Sent
send_message can_send [] bytes i = (true, [])
send_message can_send (pid ∷ pids) bytes i =
    let rest = send_message can_send pids bytes (i + 1) in
    if can_send i then (rest.0, (pid, bytes) ∷ rest.1) else (false, [])

-- a line that `fgets` gives, and what the queue holds then
pub record Round : Type 0 where
  pub line : Bytes
  pub regs : List ℕ
  pub ends : List ℕ
  pub can_send : ℕ → Bool

-- one round of `sendMessages`, for a text and the length of what is sent of it
unfoldable pub send_round : (ℕ → Bool) → Bytes → ℕ → Round → Array → Outcome (Bool × Array × Sent)
unfolding upd_listeners send_message
send_round alloc text n r pids = upd_listeners alloc r.regs r.ends pids >>= λ u.
    let s = send_message r.can_send u.1.items (take n (text ++ 0 ∷ [])) 0 in
    ok (if u.0 then (s.0, u.1, s.1) else (false, u.1, []))

-- `sendMessages`: the lines, then the end of the input in the round `last`
unfoldable pub send_messages :
    (ℕ → Bool) → List Round → Round → Array → Outcome (Bool × Array × Sent)
unfolding send_round msg_length
send_messages alloc [] last pids = send_round alloc [] 0 last pids
send_messages alloc (r ∷ rounds) last pids = msg_length r.line >>= λ m.
    send_round alloc m.0 m.1 r pids >>= λ sent.
    if sent.0
    then (send_messages alloc rounds last sent.1 >>= λ rest. ok (rest.0, rest.1, sent.2 ++ rest.2))
    else ok sent

-- `waitAnswers`, for the answers in the order of the queue; without one it waits, and fails when
-- the queue is removed
unfoldable pub wait_answers : List ℕ → Array → Bool × Array
unfolding find remove_item
wait_answers [] pids = (length pids.items == 0, pids)
wait_answers (pid ∷ queue) pids =
    if length pids.items == 0 then (true, pids) else elim (find pids.items pid) [
      | none ↦ (false, pids)
      | some index ↦
          let r = remove_item pids index in
          let rest = wait_answers queue r.1 in if r.0 then rest else (false, r.1)
    ]
