-- ===== src/LineEditor/Editing.antt =====
-- A key that edits the line: the terminal shows the text afterwards.
use os_solutions.LineEditor.{
  Editor, line_size, cwerase, is_space, not_space, is_print, back_while, backspace, edit_key,
}
use os_solutions.LineEditor.Lines.{
  typed, length-typed, typed_front, back_while-typed, back_while-le, back_while-Shows, print-Shows,
}
use os_solutions.LineEditor.Screen.{
  Row, Shows, show, show-append, backspace-Shows, newline-Shows, bell-Shows,
}
use os_solutions.LineEditor.Text.{
  drop_while, edit_text, AllPrint, drop_while-AllPrint, drop_while-all,
}
use mathlib.Core.Path.{subst}
use os_solutions.Prelude.{
  ℕ, zero, suc, ◌-◌, ◌≤◌, ◌<◌, ◌≡◌, refl, sym, ap, ◌∙◌, Bool, true, ◌&&◌, [], ◌∷◌, ◌++◌, ◌==◌, ltb,
  length, set, drop, Bytes, arith, Bool-cases, ==_iff, inl, inr, length-set, Returns,
}

-- The state holds the text, which is printable, and the row shows it.
pub record Holds (text : Bytes) (e : Editor) (r : Row) : Type 0 where
  pub is_text : typed e.line e.pos ≡ text
  pub is_size : length e.line ≡ line_size
  pub prints : AllPrint text
  pub shows : Shows text r

-- a step's result, for the row before it
abbrev After : Row → Bytes → Editor × Bytes → Type 0
After r text q = Holds text q.0 (show r q.1) × (q.0.pos ≤ line_size)

pub moved_back :
    (test : ℕ → Bool) (text : Bytes) (e : Editor) (r : Row)
    → Holds text e r
    → Holds
        (drop_while test text)
        (record e { pos = (back_while test e.line e.pos).0 })
        (show r (back_while test e.line e.pos).1)
moved_back test text e r h = record {
  is_text = back_while-typed test e.line e.pos ∙ ap (drop_while test) h.is_text;
  is_size = h.is_size;
  prints = drop_while-AllPrint test text h.prints;
  shows =
      subst (λ t. Shows (drop_while test t) (show r (back_while test e.line e.pos).1)) h.is_text
        (back_while-Shows test e.line e.pos r (subst (λ t. Shows t r) (sym h.is_text) h.shows));
}

erased :
    (line : Bytes) (pos : ℕ) (text : Bytes) (r : Row)
    → Holds text (record { line = line; pos = pos }) r
    → 0 < pos
    → Holds (drop 1 text) (record { line = line; pos = pos - 1 }) (show r backspace)
unfolding typed
erased line zero text r h p = elim p [ ]
erased line (suc pos) [] r h p = let e = ap length h.is_text in absurd (omega (arith, e))
erased line (suc pos) (c ∷ text) r h p = record {
  is_text = ap (typed line) (omega arith) ∙ ap (drop 1) h.is_text;
  is_size = h.is_size;
  prints = h.prints.1;
  shows = backspace-Shows c text r h.shows;
}

pub position : (text : Bytes) (e : Editor) (r : Row) → Holds text e r → e.pos ≡ length text
position text e r h = sym (length-typed e.line e.pos) ∙ ap length h.is_text

killed :
    (text : Bytes) (e : Editor) (r : Row)
    → Holds text e r
    → Holds []
        (record e { pos = (back_while (λ c. true) e.line e.pos).0 })
        (show r (back_while (λ c. true) e.line e.pos).1)
killed text e r h =
    subst
      (λ t.
        Holds t (record e { pos = (back_while (λ c. true) e.line e.pos).0 })
          (show r (back_while (λ c. true) e.line e.pos).1))
      (drop_while-all text) (moved_back (λ c. true) text e r h)

-- CWERASE: spaces, then a word
word_erased :
    (text : Bytes) (e : Editor) (r : Row)
    → Holds text e r
    → Holds
        (drop_while not_space (drop_while is_space text))
        (record e { pos = (back_while not_space e.line (back_while is_space e.line e.pos).0).0 })
        (show r (
          (back_while is_space e.line e.pos).1
          ++ (back_while not_space e.line (back_while is_space e.line e.pos).0).1))
word_erased text e r h =
    let first = (back_while is_space e.line e.pos) in
    rw (show-append r first.1 (back_while not_space e.line first.0).1) (
      moved_back not_space (drop_while is_space text) (record e { pos = first.0 }) (show r first.1)
        (moved_back is_space text e r h))

pub row_ended :
    (text : Bytes) (e : Editor) (r : Row)
    → Holds text e r
    → Holds [] (record e { pos = 0 }) (show r (b'\n' ∷ []))
unfolding typed
row_ended text e r h = record {
  is_text = refl;
  is_size = h.is_size;
  prints = tt;
  shows = newline-Shows text r;
}

rung : (text : Bytes) (e : Editor) (r : Row) → Holds text e r → Holds text e (show r (7 ∷ []))
rung text e r h = record {
  is_text = h.is_text;
  is_size = h.is_size;
  prints = h.prints;
  shows = bell-Shows text r h.shows;
}

printed :
    (text : Bytes) (ch : ℕ) (e : Editor) (r : Row)
    → Holds text e r
    → e.pos < line_size
    → is_print ch ≡ true
    → Holds (ch ∷ text) (record { line = set e.line e.pos ch; pos = suc e.pos }) (show r (ch ∷ []))
printed text ch e r h lt p = record {
  is_text = typed_front e.line e.pos ch (omega (arith, h.is_size)) ∙ ap (◌∷◌ ch) h.is_text;
  is_size = length-set e.line e.pos ch ∙ h.is_size;
  prints = (p, h.prints);
  shows = print-Shows ch text r p h.shows;
}

pub edit_key-After :
    (erase kill ch : ℕ) (text : Bytes) (e : Editor) (r : Row)
    → Holds text e r
    → e.pos < line_size
    → Returns (edit_key erase kill e ch) (After r (edit_text erase kill text ch))
unfolding edit_key show
edit_key-After erase kill ch text e r h lt =
    rw (sym (position text e r h)) (elim (Bool-cases (ch == erase && ltb 0 e.pos)) [
      | inl t ↦ rw t (_, refl, (erased e.line e.pos text r h (ground arith), omega arith))
      | inr t ↦ rw t (elim (Bool-cases (ch == kill)) [
        | inl u ↦
            rw u
              (_, refl, (killed text e r h, omega (arith, back_while-le (λ c. true) e.line e.pos)))
        | inr u ↦ rw u (elim (Bool-cases (ch == cwerase)) [
          | inl v ↦ rw v (
            _,
            refl,
            (
              word_erased text e r h,
              omega (
                arith,
                back_while-le is_space e.line e.pos,
                back_while-le not_space e.line (back_while is_space e.line e.pos).0,
              ),
            ),
          )
          | inr v ↦ rw v (elim (Bool-cases (ch == b'\n')) [
            | inl x ↦ rw x (
              _,
              refl,
              (
                subst (λ c. Holds [] (record e { pos = 0 }) (show r (c ∷ [])))
                    (sym ((==_iff ch b'\n').0 x)) (row_ended text e r h),
                omega arith,
              ),
            )
            | inr x ↦ rw x (elim (Bool-cases (is_print ch)) [
              | inl y ↦
                  let room : ltb e.pos line_size ≡ true = ground arith in
                  rw (y, room)
                    (
                      _,
                      refl,
                      (
                        subst
                            (λ k.
                              Holds (ch ∷ text) (record { line = set e.line e.pos ch; pos = k })
                                (show r (ch ∷ [])))
                            (omega arith) (printed text ch e r h lt y),
                        omega arith,
                      ),
                    )
              | inr y ↦ rw y (_, refl, (rung text e r h, omega arith))
            ])
          ])
        ])
      ])
    ])
