-- ===== src/SenderQueue/Order.antt =====
-- What the master has received, in every order of the steps.
use os_solutions.SenderQueue.{
  Message, msg_type_reg, msg_type_del, reg_in_queue, del_from_queue, send_messages, script,
  after_failure, System, print_message, count_message, rec_message, with_todo, with_failed, Step,
  sends, fails, receives, closes, new_system, Reachable, here, then_step,
}
use os_solutions.SenderQueue.Counting.{
  of_type, of_type-append, from, from-append, Fair, total, balanced,
}
use os_solutions.SenderQueue.Scripts.{
  AllFrom, AllFrom-append, Cut, Cut-AllFrom, script-Cut, after_failure-Cut, begun_fair,
  begun_complete, script_complete,
}
use mathlib.Core.List.{append_assoc, append-nil}
use mathlib.Core.Path.{subst}
use os_solutions.Prelude.{
  ℕ, ◌+◌, ◌≤◌, ◌≡◌, refl, sym, ap, ◌∙◌, true, false, ◌⊎◌, List, [], ◌∷◌, ◌++◌, ◌==◌, Bytes, codes,
  decimal, if◌then◌else◌, arith, Bool-cases, inl, inr, ==_iff,
}

-- what a message tells of its sender
pub data Told : Type 0 where
  came : ℕ → Told
  left : ℕ → Told
  said : ℕ → Bytes → Told

unfoldable pub told_by : Message → Told
told_by m =
    if m.mtype == msg_type_del
    then left m.pid
    else if m.mtype == msg_type_reg
    then came m.pid
    else said m.pid m.mtext

unfoldable pub report : Told → Bytes
report (came pid) = codes "New sender " ++ (decimal pid ++ codes "\n")
report (left pid) = codes "Del sender " ++ (decimal pid ++ codes "\n")
report (said pid text) = codes "Process " ++ (decimal pid ++ (codes ": " ++ (text ++ codes "\n")))

-- a line for each message
unfoldable pub transcript : List Message → Bytes
transcript [] = []
transcript (m ∷ ms) = report (told_by m) ++ transcript ms

print_message-report : (m : Message) → print_message m ≡ report (told_by m)
unfolding print_message report told_by
print_message-report m = elim (Bool-cases (m.mtype == msg_type_reg)) [
  | inl e ↦ let other : (m.mtype == msg_type_del) ≡ false = ground arith in rw (e, other) refl
  | inr e ↦ elim (Bool-cases (m.mtype == msg_type_del)) [
    | inl f ↦ rw (e, f) refl
    | inr f ↦ rw (e, f) refl
  ]
]

transcript-append : (ms ns : List Message) → transcript (ms ++ ns) ≡ transcript ms ++ transcript ns
unfolding transcript
transcript-append [] ns = refl
transcript-append (m ∷ ms) ns =
    ap (λ t. report (told_by m) ++ t) (transcript-append ms ns)
    ∙ sym (append_assoc (report (told_by m)) (transcript ms) (transcript ns))

-- What holds between two steps.
record Inv (rands : ℕ → ℕ → ℕ → ℕ) (s : System) : Type 0 where
  whole :
      (p : ℕ) → s.exists_queue ≡ true → Cut p (rands p) (from p (s.received ++ s.queue) ++ s.todo p)
  begun : (p : ℕ) → (rest : List Message) × Cut p (rands p) (from p s.received ++ rest)
  whole_kept :
      (p : ℕ)
      → s.failed p ≡ false
      → s.exists_queue ≡ true
      → from p (s.received ++ s.queue) ++ s.todo p ≡ script p (rands p)
  kept :
      (p : ℕ)
      → s.failed p ≡ false
      → (rest : List Message) × (from p s.received ++ rest ≡ script p (rands p))
  counted : s.count + of_type msg_type_del s.received ≡ of_type msg_type_reg s.received
  ended : s.running ≡ false → s.count ≡ 0
  opened : s.running ≡ true → s.exists_queue ≡ true
  shown : s.printed ≡ codes "Queue was created\n" ++ transcript s.received

from-own : (m : Message) → from m.pid (m ∷ []) ≡ m ∷ []
unfolding from
from-own m = let same : (m.pid == m.pid) ≡ true = (==_iff m.pid m.pid).1 refl in rw same refl

from-other : (p : ℕ) (m : Message) → (p == m.pid) ≡ false → from p (m ∷ []) ≡ []
unfolding from
from-other p m h = let other : (m.pid == p) ≡ false = ground arith in rw other refl

-- a message goes from what is left to do to the end of the queue
send_whole :
    (received queue rest : List Message) (todo : ℕ → List Message) (m : Message) (p : ℕ)
    → todo m.pid ≡ m ∷ rest
    → from p (received ++ (queue ++ m ∷ [])) ++ with_todo todo m.pid rest p
      ≡ from p (received ++ queue) ++ todo p
send_whole received queue rest todo m p e =
    let split : from p (received ++ (queue ++ m ∷ []))
        ≡ from p (received ++ queue) ++ from p (m ∷ []) =
      ap (from p) (sym (append_assoc received queue (m ∷ [])))
      ∙ from-append p (received ++ queue) (m ∷ []) in
    elim (Bool-cases (p == m.pid)) [
      | inl h ↦
          let q : p ≡ m.pid = (==_iff p m.pid).0 h in
          let own : from p (m ∷ []) ≡ m ∷ [] = ap (λ r. from r (m ∷ [])) q ∙ from-own m in
          rw h (
            ap (λ t. t ++ rest) split
            ∙ append_assoc (from p (received ++ queue)) (from p (m ∷ [])) rest
            ∙ ap (λ t. from p (received ++ queue) ++ (t ++ rest)) own
            ∙ ap (λ t. from p (received ++ queue) ++ t) (sym e ∙ ap todo (sym q)))
      | inr h ↦ rw h (
          ap (λ t. t ++ todo p)
            (split
              ∙ ap (λ t. from p (received ++ queue) ++ t) (from-other p m h)
              ∙ append-nil (from p (received ++ queue))))
    ]

-- the count behind a message
count_message-of_type :
    (m : Message) (count : ℕ) (received : List Message)
    → count + of_type msg_type_del received ≡ of_type msg_type_reg received
    → of_type msg_type_del (received ++ m ∷ []) ≤ of_type msg_type_reg (received ++ m ∷ [])
    → count_message m count + of_type msg_type_del (received ++ m ∷ [])
      ≡ of_type msg_type_reg (received ++ m ∷ [])
unfolding count_message of_type
count_message-of_type m count received e h = ground (
  arith,
  of_type-append msg_type_del received (m ∷ []),
  of_type-append msg_type_reg received (m ∷ []),
)

module _ (rands : ℕ → ℕ → ℕ → ℕ) where
  new_system-Inv : Inv rands (new_system rands)
  unfolding from of_type transcript
  new_system-Inv = record {
    whole = λ p e. script-Cut p (rands p);
    begun = λ p. (script p (rands p), script-Cut p (rands p));
    whole_kept = λ p f e. refl;
    kept = λ p f. (script p (rands p), refl);
    counted = omega arith;
    ended = λ e. refl;
    opened = λ e. refl;
    shown = refl;
  }

  todo-AllFrom : (s : System) (p : ℕ) → Inv rands s → s.exists_queue ≡ true → AllFrom p (s.todo p)
  todo-AllFrom s p inv e =
      AllFrom-append p (from p (s.received ++ s.queue)) (s.todo p)
        (Cut-AllFrom p (rands p) (from p (s.received ++ s.queue) ++ s.todo p) (inv.whole p e))

  received-begun :
      (s : System) (m : Message) (rest : List Message) (p : ℕ)
      → s.queue ≡ m ∷ rest
      → from p (s.received ++ m ∷ []) ++ (from p rest ++ s.todo p)
        ≡ from p (s.received ++ s.queue) ++ s.todo p
  received-begun s m rest p q =
      sym (append_assoc (from p (s.received ++ m ∷ [])) (from p rest) (s.todo p))
      ∙ ap (λ t. t ++ s.todo p)
          (sym (from-append p (s.received ++ m ∷ []) rest)
            ∙ ap (from p)
                (append_assoc s.received (m ∷ []) rest ∙ ap (λ t. s.received ++ t) (sym q)))

  begun-Fair :
      (received : List Message)
      → ((p : ℕ) → (rest : List Message) × Cut p (rands p) (from p received ++ rest))
      → Fair received
  begun-Fair received begun p =
      let (rest, e) = begun p in begun_fair p (rands p) (from p received) rest e

  sends-Inv :
      (s : System) (pid : ℕ) (m : Message) (rest : List Message)
      → s.exists_queue ≡ true
      → s.todo pid ≡ m ∷ rest
      → Inv rands s
      → Inv rands (record s { todo = with_todo s.todo pid rest; queue = s.queue ++ m ∷ [] })
  sends-Inv s pid m rest exists e inv =
      let own : AllFrom pid (m ∷ rest) = subst (AllFrom pid) e (todo-AllFrom s pid inv exists) in
      let sender : pid ≡ m.pid = sym own.0 in
      let same : (p : ℕ)
          → from p (s.received ++ (s.queue ++ m ∷ [])) ++ with_todo s.todo pid rest p
            ≡ from p (s.received ++ s.queue) ++ s.todo p =
        λ p.
          ap (λ r. from p (s.received ++ (s.queue ++ m ∷ [])) ++ with_todo s.todo r rest p) sender
          ∙ send_whole s.received s.queue rest s.todo m p (ap s.todo (sym sender) ∙ e) in
      record {
        whole = λ p x. subst (Cut p (rands p)) (sym (same p)) (inv.whole p exists);
        begun = inv.begun;
        whole_kept = λ p f x. same p ∙ inv.whole_kept p f exists;
        kept = inv.kept;
        counted = inv.counted;
        ended = inv.ended;
        opened = inv.opened;
        shown = inv.shown;
      }

  receives-Inv :
      (s : System) (m : Message) (rest : List Message)
      → s.running ≡ true
      → s.queue ≡ m ∷ rest
      → Inv rands s
      → Inv rands (rec_message m rest s)
  unfolding rec_message transcript
  receives-Inv s m rest run q inv =
      let exists = inv.opened run in
      let begun_now : (p : ℕ)
          → (rest' : List Message) × Cut p (rands p) (from p (s.received ++ m ∷ []) ++ rest') =
        λ p. (
          from p rest ++ s.todo p,
          subst (Cut p (rands p)) (sym (received-begun s m rest p q)) (inv.whole p exists),
        ) in
      let fair = total (s.received ++ m ∷ []) (begun-Fair (s.received ++ m ∷ []) begun_now) in
      let same : (p : ℕ)
          → from p ((s.received ++ m ∷ []) ++ rest) ++ s.todo p
            ≡ from p (s.received ++ s.queue) ++ s.todo p =
        λ p.
          ap (λ t. from p t ++ s.todo p)
            (append_assoc s.received (m ∷ []) rest ∙ ap (λ t. s.received ++ t) (sym q)) in
      record {
        whole = λ p x. subst (Cut p (rands p)) (sym (same p)) (inv.whole p exists);
        begun = begun_now;
        whole_kept = λ p f x. same p ∙ inv.whole_kept p f exists;
        kept = λ p f.
            (from p rest ++ s.todo p, received-begun s m rest p q ∙ inv.whole_kept p f exists);
        counted = count_message-of_type m s.count s.received inv.counted fair;
        ended = λ x. ground (arith, x);
        opened = λ x. inv.opened run;
        shown =
            ap (λ t. s.printed ++ t) (print_message-report m)
            ∙ ap (λ t. t ++ report (told_by m)) inv.shown
            ∙ append_assoc (codes "Queue was created\n") (transcript s.received)
                (report (told_by m))
            ∙ ap (λ t. codes "Queue was created\n" ++ t)
                (sym (
                  transcript-append s.received (m ∷ [])
                  ∙ ap (λ t. transcript s.received ++ t) (append-nil (report (told_by m)))));
      }

  fails-Inv :
      (s : System) (pid : ℕ) (m : Message) (rest : List Message)
      → s.todo pid ≡ m ∷ rest
      → Inv rands s
      → Inv rands (record s {
        todo = with_todo s.todo pid (after_failure m);
        failed = with_failed s.failed pid;
      })
  fails-Inv s pid m rest e inv = record {
    whole = λ p x. elim (Bool-cases (p == pid)) [
      | inl h ↦
          let q : p ≡ pid = (==_iff p pid).0 h in
          let mine : s.todo p ≡ m ∷ rest = ap s.todo q ∙ e in
          let own : AllFrom p (m ∷ rest) = subst (AllFrom p) mine (todo-AllFrom s p inv x) in
          let cut =
            subst (λ t. Cut p (rands p) (from p (s.received ++ s.queue) ++ t)) mine
              (inv.whole p x) in
          rw h (after_failure-Cut p (rands p) (from p (s.received ++ s.queue)) m rest own.0 cut)
      | inr h ↦ rw h (inv.whole p x)
    ];
    begun = inv.begun;
    whole_kept = λ p f x. elim (Bool-cases (p == pid)) [
      | inl h ↦ let wrong : true ≡ false = rw h at f in absurd (cc)
      | inr h ↦
          let none_failed : s.failed p ≡ false = rw h at f in rw h (inv.whole_kept p none_failed x)
    ];
    kept = λ p f. elim (Bool-cases (p == pid)) [
      | inl h ↦ let wrong : true ≡ false = rw h at f in absurd (cc)
      | inr h ↦ let none_failed : s.failed p ≡ false = rw h at f in inv.kept p none_failed
    ];
    counted = inv.counted;
    ended = inv.ended;
    opened = inv.opened;
    shown = inv.shown;
  }

  Step-Inv : {s s' : System} → Step s s' → Inv rands s → Inv rands s'
  Step-Inv (sends s pid m rest exists e) inv = sends-Inv s pid m rest exists e inv
  Step-Inv (fails s pid m rest e) inv = fails-Inv s pid m rest e inv
  Step-Inv (receives s m rest run q) inv = receives-Inv s m rest run q inv
  Step-Inv (closes s run exists) inv = record {
    whole = λ p x. absurd (cc);
    begun = inv.begun;
    whole_kept = λ p f x. absurd (cc);
    kept = inv.kept;
    counted = inv.counted;
    ended = inv.ended;
    opened = λ x. cc;
    shown = inv.shown;
  }

  Reachable-Inv : {s : System} → Reachable (new_system rands) s → Inv rands s
  Reachable-Inv here = new_system-Inv
  Reachable-Inv (then_step before step) = Step-Inv step (Reachable-Inv before)

-- In every state that the master and the senders reach, in any order of their calls and
-- whichever calls of the senders fail, the output is the line on the queue and, for each message
-- received, in order, the line on who came, left or said which text, and what was received from
-- a sender is a beginning of nothing, or of its registration, the first of its texts and,
-- perhaps, its departure.
pub Reachable-Printed :
    (rands : ℕ → ℕ → ℕ → ℕ) (s : System)
    → Reachable (new_system rands) s
    → (s.printed ≡ codes "Queue was created\n" ++ transcript s.received)
      × ((p : ℕ) → (rest : List Message) × Cut p (rands p) (from p s.received ++ rest))
Reachable-Printed rands s reached = let inv = Reachable-Inv rands reached in (inv.shown, inv.begun)

-- Whatever the order of the calls and whichever of the senders' calls fail, where each process
-- number is a sender of its own: when the master has left its loop, it has received from each
-- sender either nothing or a run, the registration, the first of its ten texts and the
-- departure, and all ten where no call of that sender failed.
pub Reachable-Complete :
    (rands : ℕ → ℕ → ℕ → ℕ) (s : System) (p : ℕ)
    → Reachable (new_system rands) s
    → s.running ≡ false
    → (from p s.received ≡ [])
      ⊎ ((texts : List Message) × (later : List Message) × (texts ++ later
            ≡ send_messages p (rands p))
          × (from p s.received ≡ reg_in_queue p ∷ (texts ++ del_from_queue p ∷ []))
          × (s.failed p ≡ false → from p s.received ≡ script p (rands p)))
Reachable-Complete rands s p reached stopped =
    let inv = Reachable-Inv rands reached in
    let (rest, cut) = inv.begun p in
    let none_left = inv.ended stopped in
    let same =
      balanced s.received p (begun-Fair rands s.received inv.begun)
        (omega (arith, none_left, inv.counted)) in
    elim (begun_complete p (rands p) (from p s.received) rest cut same) [
      | inl nothing ↦ inl nothing
      | inr (texts, later, all, run, done) ↦ inr (
        texts,
        later,
        all,
        run,
        λ f.
            (let (rest', e) = inv.kept p f in
              script_complete p (rands p) (from p s.received) rest' e same (reg_in_queue p)
                (texts ++ del_from_queue p ∷ []) run),
      )
    ]
