-- ===== src/SenderQueue/Scripts.antt =====
-- What a sender sends, and the beginnings of it.
use os_solutions.SenderQueue.{
  Message, msg_type_reg, msg_type_del, msg_type_data, count_messages, reg_in_queue, del_from_queue,
  send_rounds, send_messages, script, after_failure,
}
use os_solutions.SenderQueue.Counting.{of_type, of_type-append}
use mathlib.Core.List.{append-nil, append_assoc}
use mathlib.Core.Path.{subst}
use os_solutions.Prelude.{
  ℕ, zero, suc, ◌+◌, ◌≤◌, ◌<◌, ◌≡◌, refl, sym, ap, ◌∙◌, true, false, ◌⊎◌, List, [], ◌∷◌, ◌++◌, ◌==◌,
  arith, inl, inr, ==_iff,
}

-- how often a type stands in the texts between
send_rounds-of_type :
    (t n pid : ℕ) (rands : ℕ → ℕ → ℕ)
    → (msg_type_data == t) ≡ false
    → of_type t (send_rounds n pid rands) ≡ 0
unfolding of_type send_rounds
send_rounds-of_type t zero pid rands h = refl
send_rounds-of_type t (suc n) pid rands h =
    rw h (send_rounds-of_type t n pid (λ i. rands (suc i)) h)

-- Each message is from the sender.
abbrev pub AllFrom : ℕ → List Message → Type 0
AllFrom p [] = Unit
AllFrom p (m ∷ ms) = (m.pid ≡ p) × AllFrom p ms

pub AllFrom-append : (p : ℕ) (ms ns : List Message) → AllFrom p (ms ++ ns) → AllFrom p ns
AllFrom-append p [] ns h = h
AllFrom-append p (m ∷ ms) ns h = AllFrom-append p ms ns h.1

send_rounds-AllFrom :
    (n pid : ℕ) (rands : ℕ → ℕ → ℕ)
    → AllFrom pid (send_rounds n pid rands ++ del_from_queue pid ∷ [])
unfolding send_rounds
send_rounds-AllFrom zero pid rands = (refl, tt)
send_rounds-AllFrom (suc n) pid rands = (refl, send_rounds-AllFrom n pid (λ i. rands (suc i)))

nil_behind : (begun rest : List Message) → begun ++ rest ≡ [] → rest ≡ []
nil_behind [] rest e = e
nil_behind (m ∷ begun) rest e = cc

last_counts :
    (ms : List Message) (last : Message)
    → last.mtype ≡ msg_type_del
    → 0 < of_type msg_type_del (ms ++ last ∷ [])
unfolding of_type
last_counts ms last d =
    let one : (last.mtype == msg_type_del) ≡ true = (==_iff last.mtype msg_type_del).1 d in
    rw (of_type-append msg_type_del ms (last ∷ []), one) (omega arith)

-- behind a departure there is nothing
nothing_behind :
    (begun rest ms : List Message) (last : Message)
    → begun ++ rest ≡ ms ++ last ∷ []
    → last.mtype ≡ msg_type_del
    → of_type msg_type_del rest ≡ 0
    → rest ≡ []
unfolding of_type
nothing_behind [] rest ms last e d z =
    absurd (omega (arith, z, ap (of_type msg_type_del) e, last_counts ms last d))
nothing_behind (m ∷ begun) rest [] last e d z = nil_behind begun rest cc
nothing_behind (m ∷ begun) rest (x ∷ ms) last e d z = nothing_behind begun rest ms last (cc) d z

-- What a sender puts into the queue: nothing, or its registration, the first of its texts, and
-- then its departure or nothing.
pub data Cut (pid : ℕ) (rands : ℕ → ℕ → ℕ) (sent : List Message) : Type 0 where
  no_run : sent ≡ [] → Cut pid rands sent
  a_run :
      (texts later end : List Message)
      → texts ++ later ≡ send_messages pid rands
      → (end ≡ []) ⊎ (end ≡ del_from_queue pid ∷ [])
      → sent ≡ reg_in_queue pid ∷ (texts ++ end)
      → Cut pid rands sent

-- The texts of a sender have one type.
texts_of_type :
    (t pid : ℕ) (rands : ℕ → ℕ → ℕ) (texts later : List Message)
    → (msg_type_data == t) ≡ false
    → texts ++ later ≡ send_messages pid rands
    → of_type t texts ≡ 0
unfolding send_messages
texts_of_type t pid rands texts later h e = omega (
  arith,
  of_type-append t texts later,
  ap (of_type t) e,
  send_rounds-of_type t count_messages pid rands h,
)

-- The types in a beginning of a run, behind the registration.
between :
    (t pid : ℕ) (rands : ℕ → ℕ → ℕ) (begun rest texts later end : List Message)
    → (msg_type_data == t) ≡ false
    → texts ++ later ≡ send_messages pid rands
    → begun ++ rest ≡ texts ++ end
    → of_type t begun + of_type t rest ≡ of_type t end
between t pid rands begun rest texts later end h all e = omega (
  arith,
  of_type-append t begun rest,
  of_type-append t texts end,
  ap (of_type t) e,
  texts_of_type t pid rands texts later h all,
)

end_once :
    (pid : ℕ) (end : List Message)
    → (end ≡ []) ⊎ (end ≡ del_from_queue pid ∷ [])
    → of_type msg_type_del end ≤ 1
unfolding of_type
end_once pid end (inl e) = rw e (omega arith)
end_once pid end (inr e) = rw e (omega arith)

pub begun_fair :
    (pid : ℕ) (rands : ℕ → ℕ → ℕ) (begun rest : List Message)
    → Cut pid rands (begun ++ rest)
    → of_type msg_type_del begun ≤ of_type msg_type_reg begun
unfolding of_type
begun_fair pid rands [] rest cut = omega arith
begun_fair pid rands (m ∷ begun) rest (no_run e) = absurd (cc)
begun_fair pid rands (m ∷ begun) rest (a_run texts later end all ends e) =
    let registration : m ≡ reg_in_queue pid = cc in
    let same : begun ++ rest ≡ texts ++ end = cc in
    rw registration (
      omega (
        arith,
        between msg_type_del pid rands begun rest texts later end refl all same,
        end_once pid end ends,
      ))

-- A beginning of what a sender puts into the queue with as many departures as registrations is
-- empty or ends with the departure.
pub begun_complete :
    (pid : ℕ) (rands : ℕ → ℕ → ℕ) (begun rest : List Message)
    → Cut pid rands (begun ++ rest)
    → of_type msg_type_del begun ≡ of_type msg_type_reg begun
    → (begun ≡ [])
      ⊎ ((texts : List Message) × (later : List Message) × (texts ++ later
            ≡ send_messages pid rands)
          × (begun ≡ reg_in_queue pid ∷ (texts ++ del_from_queue pid ∷ []))
          × (rest ≡ []))
unfolding of_type
begun_complete pid rands [] rest cut same = inl refl
begun_complete pid rands (m ∷ begun) rest (no_run e) same = absurd (cc)
begun_complete pid rands (m ∷ begun) rest (a_run texts later end all ends e) same =
    let registration : m ≡ reg_in_queue pid = cc in
    let behind : begun ++ rest ≡ texts ++ end = cc in
    let left : of_type msg_type_del begun ≡ suc (of_type msg_type_reg begun) =
      rw registration at same in
    let count = between msg_type_del pid rands begun rest texts later end refl all behind in
    elim ends [
      | inl none_left ↦ absurd (omega (arith, left, count, ap (of_type msg_type_del) none_left))
      | inr departs ↦
          let one : of_type msg_type_del end ≡ 1 = rw departs refl in
          let whole : begun ++ rest ≡ texts ++ del_from_queue pid ∷ [] =
            behind ∙ ap (λ t. texts ++ t) departs in
          let nothing : rest ≡ [] =
            nothing_behind begun rest texts (del_from_queue pid) whole refl
              (omega (arith, left, count, one)) in
          inr (
            texts,
            later,
            all,
            sym (append-nil (m ∷ begun))
                ∙ ap (λ t. (m ∷ begun) ++ t) (sym nothing)
                ∙ e
                ∙ ap (λ t. reg_in_queue pid ∷ (texts ++ t)) departs,
            nothing,
          )
    ]

-- A message of a run is the last or stands before it.
split_run :
    (begun : List Message) (m : Message) (rest texts end : List Message) (last : Message)
    → begun ++ m ∷ rest ≡ texts ++ end
    → (end ≡ []) ⊎ (end ≡ last ∷ [])
    → ((m ≡ last) × (begun ≡ texts)) ⊎ ((behind : List Message) × (texts ≡ begun ++ m ∷ behind))
split_run begun m rest texts end last e (inl nothing) =
    inr (rest, sym (append-nil texts) ∙ ap (λ t. texts ++ t) (sym nothing) ∙ sym e)
split_run [] m rest [] end last e (inr one) = inl (cc, refl)
split_run [] m rest (x ∷ texts) end last e (inr one) =
    let same : x ≡ m = cc in inr (texts, ap (λ y. y ∷ texts) same)
split_run (x ∷ begun) m rest [] end last e (inr one) =
    let nothing : begun ++ m ∷ rest ≡ [] = cc in
    let gone : m ∷ rest ≡ [] = nil_behind begun (m ∷ rest) nothing in absurd (cc)
split_run (x ∷ begun) m rest (y ∷ texts) end last e (inr one) =
    let same : x ≡ y = cc in
    let tails : begun ++ m ∷ rest ≡ texts ++ end = cc in
    elim (split_run begun m rest texts end last tails (inr one)) [
      | inl at_end ↦ inl (at_end.0, cc)
      | inr (behind, f) ↦ inr (behind, cc)
    ]

send_rounds-type :
    (n pid : ℕ) (rands : ℕ → ℕ → ℕ) (begun : List Message) (m : Message) (rest : List Message)
    → begun ++ m ∷ rest ≡ send_rounds n pid rands
    → (m.mtype == msg_type_data) ≡ true
unfolding send_rounds
send_rounds-type zero pid rands begun m rest e =
    let gone : m ∷ rest ≡ [] = nil_behind begun (m ∷ rest) e in absurd (cc)
send_rounds-type (suc n) pid rands [] m rest e =
    let is_text : m.mtype ≡ msg_type_data = cc in (==_iff m.mtype msg_type_data).1 is_text
send_rounds-type (suc n) pid rands (x ∷ begun) m rest e =
    let tails : begun ++ m ∷ rest ≡ send_rounds n pid (λ i. rands (suc i)) = cc in
    send_rounds-type n pid (λ i. rands (suc i)) begun m rest tails

-- A run stays one where a call fails.
pub after_failure-Cut :
    (pid : ℕ) (rands : ℕ → ℕ → ℕ) (begun : List Message) (m : Message) (rest : List Message)
    → m.pid ≡ pid
    → Cut pid rands (begun ++ m ∷ rest)
    → Cut pid rands (begun ++ after_failure m)
unfolding after_failure send_messages
after_failure-Cut pid rands begun m rest own (no_run e) =
    let gone : m ∷ rest ≡ [] = nil_behind begun (m ∷ rest) e in absurd (cc)
after_failure-Cut pid rands [] m rest own (a_run texts later end all ends e) =
    let registration : m ≡ reg_in_queue pid = cc in no_run (rw registration refl)
after_failure-Cut pid rands (x ∷ begun) m rest own (a_run texts later end all ends e) =
    let registration : x ≡ reg_in_queue pid = cc in
    let behind_it : begun ++ m ∷ rest ≡ texts ++ end = cc in
    elim (split_run begun m rest texts end (del_from_queue pid) behind_it ends) [
      | inl (last, same) ↦
          let nothing : after_failure m ≡ [] = ap after_failure last in
          a_run texts later [] all (inl refl) (rw (nothing, registration, same) refl)
      | inr (behind, f) ↦
          let before : begun ++ (m ∷ behind ++ later) ≡ send_rounds count_messages pid rands =
            sym (append_assoc begun (m ∷ behind) later) ∙ ap (λ t. t ++ later) (sym f) ∙ all in
          let is_text =
            send_rounds-type count_messages pid rands begun m (behind ++ later) before in
          let departs : after_failure m ≡ del_from_queue pid ∷ [] =
            rw is_text (ap (λ q. del_from_queue q ∷ []) own) in
          a_run begun (m ∷ behind ++ later) (del_from_queue pid ∷ []) before (inr refl)
            (rw (departs, registration) refl)
    ]

-- The messages of a run are from its sender.
texts-AllFrom : (p : ℕ) (ms ns : List Message) → AllFrom p (ms ++ ns) → AllFrom p ms
texts-AllFrom p [] ns h = tt
texts-AllFrom p (m ∷ ms) ns h = (h.0, texts-AllFrom p ms ns h.1)

join-AllFrom : (p : ℕ) (ms ns : List Message) → AllFrom p ms → AllFrom p ns → AllFrom p (ms ++ ns)
join-AllFrom p [] ns h k = k
join-AllFrom p (m ∷ ms) ns h k = (h.0, join-AllFrom p ms ns h.1 k)

pub Cut-AllFrom :
    (pid : ℕ) (rands : ℕ → ℕ → ℕ) (sent : List Message) → Cut pid rands sent → AllFrom pid sent
unfolding send_messages
Cut-AllFrom pid rands sent (no_run e) = subst (AllFrom pid) (sym e) tt
Cut-AllFrom pid rands sent (a_run texts later end all ends e) =
    let own : AllFrom pid (send_rounds count_messages pid rands) =
      texts-AllFrom pid (send_rounds count_messages pid rands) (del_from_queue pid ∷ [])
        (send_rounds-AllFrom count_messages pid rands) in
    let first = texts-AllFrom pid texts later (subst (AllFrom pid) (sym all) own) in
    let last : AllFrom pid end = elim ends [
      | inl nothing ↦ subst (AllFrom pid) (sym nothing) tt
      | inr departs ↦ subst (AllFrom pid) (sym departs) (refl, tt)
    ] in
    subst (AllFrom pid) (sym e) (refl, join-AllFrom pid texts end first last)

-- A sender whose calls succeed makes a run.
pub script-Cut : (pid : ℕ) (rands : ℕ → ℕ → ℕ) → Cut pid rands (script pid rands)
unfolding script
script-Cut pid rands =
    a_run (send_messages pid rands) [] (del_from_queue pid ∷ [])
      (append-nil (send_messages pid rands)) (inr refl) refl

-- A beginning of a whole run that has begun and left as often as it came is all of it.
pub script_complete :
    (pid : ℕ) (rands : ℕ → ℕ → ℕ) (begun rest : List Message)
    → begun ++ rest ≡ script pid rands
    → of_type msg_type_del begun ≡ of_type msg_type_reg begun
    → (m : Message) (ms : List Message) → begun ≡ m ∷ ms
    → begun ≡ script pid rands
script_complete pid rands begun rest e same m ms some_begun =
    elim (begun_complete pid rands begun rest (subst (Cut pid rands) (sym e) (script-Cut pid rands))
      same) [
        | inl nothing ↦ let gone : m ∷ ms ≡ [] = sym some_begun ∙ nothing in absurd (cc)
        | inr (texts, later, all, run, done) ↦
            sym (append-nil begun) ∙ ap (λ t. begun ++ t) (sym done) ∙ e
      ]
