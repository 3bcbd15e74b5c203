-- ===== src/StrList/Growth.antt =====
-- What append and prepend do to the nodes that are linked.
use os_solutions.StrList.Nodes.{Address, DlNode, DlList, Store, write_at}
use os_solutions.StrList.Visits.{Linked, ends, links}
use mathlib.Core.Path.{subst}
use os_solutions.Prelude.{
  ℕ, zero, suc, ◌+◌, ◌≡◌, ◌≢◌, refl, sym, ap, ◌∙◌, Option, none, some, List, [], ◌∷◌, ◌++◌, length,
  ◌==◌, arith, Bool-cases, ==_iff, inl, inr,
}

-- the address of the last item
abbrev pub end_of : Address → List (Address × ℕ) → Address
end_of p [] = p
end_of p ((q, d) ∷ rest) = end_of q rest

-- A list structure describes the linked nodes: their number, the first and the last. There is no
-- node at NULL and none at the addresses that `malloc` gives next.
pub record IsDlList (st : Store) (l : DlList) (items : List (Address × ℕ)) : Type 0 where
  pub linked : Linked st.nodes l.first items
  pub is_count : l.node_count ≡ length items
  pub is_last : end_of 0 items ≡ l.last
  pub no_null : st.nodes 0 ≡ none
  pub unused : (k : ℕ) → st.nodes (st.fresh + k) ≡ none
  pub is_fresh : st.fresh ≢ 0

-- Nodes keep their data and their `next`.
abbrev pub Keeps : (Address → Option DlNode) → (Address → Option DlNode) → Type 0
Keeps f g =
    (q : Address) (n : DlNode)
    → f q ≡ some n
    → (m : DlNode) × (g q ≡ some m) × (m.next_node ≡ n.next_node) × (m.datum ≡ n.datum)

pub Linked-frame :
    {f g : Address → Option DlNode} {p : Address} {items : List (Address × ℕ)}
    → Keeps f g
    → Linked f p items
    → Linked g p items
Linked-frame keep ends = ends
Linked-frame {g} keep (links {p} {rest} n e l) =
    let (m, at, to, data') = keep (suc p) n e in
    subst (λ d. Linked g (suc p) ((suc p, d) ∷ rest)) data'
      (links m at (subst (λ q. Linked g q rest) (sym to) (Linked-frame keep l)))

pub write_at_self :
    (f : Address → Option DlNode) (p : Address) (n : Option DlNode) → write_at f p n p ≡ n
write_at_self f p n = ground arith

next_of : Option DlNode → Address
next_of none = 0
next_of (some n) = n.next_node

datum_of : Option DlNode → ℕ
datum_of none = 0
datum_of (some n) = n.datum

pub Keeps-write_at :
    (f : Address → Option DlNode) (a : Address) (n new : DlNode)
    → f a ≡ some n
    → new.next_node ≡ n.next_node
    → new.datum ≡ n.datum
    → Keeps f (write_at f a (some new))
unfolding next_of datum_of
Keeps-write_at f a n new e to data' q m em = elim (Bool-cases (a == q)) [
  | inl h ↦
      let same : some n ≡ some m = sym e ∙ ap f ((==_iff a q).0 h) ∙ em in
      (new, rw h refl, to ∙ ap next_of same, data' ∙ ap datum_of same)
  | inr h ↦ (m, rw h em, refl, refl)
]

pub Keeps-fresh :
    (f : Address → Option DlNode) (a : Address) (new : DlNode)
    → f a ≡ none
    → Keeps f (write_at f a (some new))
Keeps-fresh f a new e q m em = elim (Bool-cases (a == q)) [
  | inl h ↦ let same : none ≡ some m = sym e ∙ ap f ((==_iff a q).0 h) ∙ em in cc
  | inr h ↦ (m, rw h em, refl, refl)
]

pub Linked-nil : {f : Address → Option DlNode} {x : Address} → Linked f x [] → x ≡ 0
Linked-nil ends = refl

pub Linked-cons :
    {f : Address → Option DlNode} {x q d : ℕ} {rest : List (Address × ℕ)}
    → Linked f x ((q, d) ∷ rest)
    → (x ≡ q) × (x ≢ 0) × (n : DlNode) × (f x ≡ some n) × (n.datum ≡ d) × Linked f n.next_node rest
Linked-cons (links n e l) = (refl, (λ z. omega (arith, z)), n, e, refl, l)

pub links_at :
    {f : Address → Option DlNode} (x : Address) {d : ℕ} {rest : List (Address × ℕ)} (n : DlNode)
    → x ≢ 0
    → f x ≡ some n
    → n.datum ≡ d
    → Linked f n.next_node rest
    → Linked f x ((x, d) ∷ rest)
links_at zero n some_node e data' l = elim (some_node refl) [ ]
links_at {f} (suc x) {rest} n some_node e data' l =
    subst (λ d. Linked f (suc x) ((suc x, d) ∷ rest)) data' (links n e l)

-- the last node, which has no next
pub end_node :
    (f : Address → Option DlNode) (x q d : ℕ) (rest : List (Address × ℕ))
    → Linked f x ((q, d) ∷ rest)
    → (m : DlNode) × (f (end_of q rest) ≡ some m) × (m.next_node ≡ 0)
end_node f x q d [] l =
    let (same, _, n, e, _, more) = Linked-cons l in (n, sym (ap f same) ∙ e, Linked-nil more)
end_node f x q d ((q', d') ∷ rest) l =
    let (_, _, n, _, _, more) = Linked-cons l in end_node f n.next_node q' d' rest more

-- A new node is linked behind the last one.
pub Linked-snoc :
    (f g : Address → Option DlNode) (a b : Address) (m new : DlNode) (x q d : ℕ)
    (rest : List (Address × ℕ))
    → Linked f x ((q, d) ∷ rest)
    → end_of q rest ≡ a
    → f a ≡ some m
    → m.next_node ≡ 0
    → ((p : Address) (n : DlNode) → f p ≡ some n → a ≢ p → g p ≡ some n)
    → g a ≡ some (record m { next_node = b })
    → g b ≡ some new
    → new.next_node ≡ 0
    → b ≢ 0
    → Linked g x (((q, d) ∷ rest) ++ (b, new.datum) ∷ [])
unfolding next_of datum_of
Linked-snoc f g a b m new x q d [] l at fm stop keep ga gb new_stop some_b =
    let (same, some_x, n, e, data', more) = Linked-cons l in
    let xa : x ≡ a = same ∙ at in
    let is_m : some n ≡ some m = sym e ∙ ap f xa ∙ fm in
    subst (λ y. Linked g x ((y, d) ∷ ((b, new.datum) ∷ []))) same
      (links_at x (record m { next_node = b }) some_x (ap g xa ∙ ga)
        (sym (ap datum_of is_m) ∙ data')
        (links_at b new some_b gb refl (subst (λ y. Linked g y []) (sym new_stop) ends)))
Linked-snoc f g a b m new x q d ((q', d') ∷ rest) l at fm stop keep ga gb new_stop some_b =
    let (same, some_x, n, e, data', more) = Linked-cons l in
    let (_, some_next, _, _, _, _) = Linked-cons more in
    let apart : a ≢ x = λ h. some_next (ap next_of (sym e ∙ sym (ap f h) ∙ fm) ∙ stop) in
    subst (λ y. Linked g x ((y, d) ∷ (((q', d') ∷ rest) ++ (b, new.datum) ∷ []))) same
      (links_at x n some_x (keep x n e apart) data' (
        Linked-snoc f g a b m new n.next_node q' d' rest more at fm stop keep ga gb new_stop
          some_b))
