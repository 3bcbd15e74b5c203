-- ===== src/LineEditor/Shows.antt =====
-- The terminal shows the text of the line after every key.
use os_solutions.LineEditor.Editing.{Holds, moved_back, position, row_ended, edit_key-After}
use os_solutions.LineEditor.{
  Editor, line_size, ceot, is_space, not_space, back_while, copy_down, wrap_line, press, run,
}
use os_solutions.LineEditor.Lines.{
  typed, back_while-le, copy_down-typed, length-copy_down, take-Shows,
}
use os_solutions.LineEditor.Screen.{Row, Shows, show, show-append, newline-Shows}
use os_solutions.LineEditor.Text.{
  drop_while, edit_text, wrap_text, press_text, run_text, AllPrint, take-AllPrint,
}
use mathlib.Core.List.{append-nil}
use mathlib.Core.Path.{subst}
use os_solutions.Prelude.{
  ℕ, ◌+◌, ◌-◌, ◌≤◌, ◌<◌, ◌≡◌, refl, sym, ap, ◌∙◌, true, false, ◌&&◌, Option, none, some, List, [],
  ◌∷◌, ◌++◌, ◌==◌, ltb, length, take, drop, Bytes, codes, arith, Bool-cases, ==_iff, ltb→lt, inl,
  inr, Outcome, ok, Returns, bind-Returns,
}

-- The last `n` bytes of the text go to the next row.
word_moved :
    (text : Bytes) (e : Editor) (r : Row) (from n : ℕ)
    → Holds text e r
    → e.pos ≡ from + n
    → e.pos ≤ line_size
    → Holds
        (take n text)
        (record { line = (copy_down n e.line from 0).0; pos = n })
        (show r
          ((copy_down n e.line from 0).1 ++ (codes "\n" ++ take n (copy_down n e.line from 0).0)))
unfolding typed
word_moved text e r from n h at fits =
    let moved = copy_down n e.line from 0 in
    let front : typed moved.0 n ≡ take n text =
      ap (typed moved.0) (omega arith)
      ∙ copy_down-typed n e.line from 0 e.pos at (omega arith) (omega (arith, h.is_size))
      ∙ append-nil (take n (typed e.line e.pos))
      ∙ ap (take n) h.is_text in
    let size = length-copy_down n e.line from 0 ∙ h.is_size in
    let cleared = newline-Shows (drop n text) (show r moved.1) in
    record {
      is_text = front;
      is_size = size;
      prints = take-AllPrint n text h.prints;
      shows =
          rw
            (
              show-append r moved.1 (codes "\n" ++ take n moved.0),
              show-append (show r moved.1) (codes "\n") (take n moved.0),
            )
            (subst (λ t. Shows t (show (show (show r moved.1) (codes "\n")) (take n moved.0))) front
              (take-Shows moved.0 n (show (show r moved.1) (codes "\n")) (omega (arith, size))
                (subst AllPrint (sym front) (take-AllPrint n text h.prints)) cleared));
    }

wrap_line-After :
    (text : Bytes) (ch : ℕ) (e : Editor) (r : Row)
    → Holds text e r
    → e.pos ≡ line_size
    → Holds (wrap_text text ch) (wrap_line e ch).0 (show r (wrap_line e ch).1)
      × ((wrap_line e ch).0.pos < line_size)
unfolding wrap_line
wrap_line-After text ch e r h full =
    let back = (back_while not_space e.line e.pos).0 in
    let kept : length (drop_while not_space text) ≡ back = sym (
      position (drop_while not_space text) (record e { pos = back })
        (show r (back_while not_space e.line e.pos).1) (moved_back not_space text e r h)) in
    let short = back_while-le not_space e.line e.pos in
    rw (kept, sym (position text e r h))
      (elim (Bool-cases (is_space ch)) [
        | inl t ↦ rw t (row_ended text e r h, omega arith)
        | inr t ↦ rw t (elim (Bool-cases (ltb 0 back)) [
          | inl u ↦ rw u (
            word_moved text e r back (e.pos - back) h (omega (arith, short)) (omega (arith, full)),
            omega (arith, full, short, ltb→lt 0 back u),
          )
          | inr u ↦ rw u (row_ended text e r h, omega arith)
        ])
      ])

-- A key that ends the program in the plain reading ends it; any other leaves what that says.
abbrev Goes : Row → Outcome (Option (Editor × Bytes)) → Option Bytes → Type 0
Goes r m none = m ≡ ok none
Goes r m (some text) =
    (q : Editor × Bytes) × (m ≡ ok (some q)) × Holds text q.0 (show r q.1) × (q.0.pos < line_size)

below : (k : ℕ) → k ≤ line_size → (k == line_size) ≡ false → k < line_size
below k h e = ground arith

press-Goes :
    (erase kill ch : ℕ) (text : Bytes) (e : Editor) (r : Row)
    → Holds text e r
    → e.pos < line_size
    → Goes r (press erase kill e ch) (press_text erase kill text ch)
unfolding press press_text
press-Goes erase kill ch text e r h lt = elim (Bool-cases (ch == ceot && e.pos == 0)) [
  | inl t ↦
      let u : ch == ceot && length text == 0 ≡ true =
        subst (λ k. ch == ceot && k == 0 ≡ true) (position text e r h) t in
      rw (t, u) refl
  | inr t ↦
      let u : ch == ceot && length text == 0 ≡ false =
        subst (λ k. ch == ceot && k == 0 ≡ false) (position text e r h) t in
      let (q, run', (held, room)) = edit_key-After erase kill ch text e r h lt in
      let edited = edit_text erase kill text ch in
      let same = position edited q.0 (show r q.1) held in
      rw (t, u, run')
        (elim (Bool-cases (q.0.pos == line_size)) [
          | inl v ↦
              let w : (length edited == line_size) ≡ true =
                subst (λ k. (k == line_size) ≡ true) same v in
              let (wrapped, less) =
                wrap_line-After edited ch q.0 (show r q.1) held ((==_iff q.0.pos line_size).0 v) in
              rw (v, w)
                (
                  _,
                  refl,
                  subst (Holds (wrap_text edited ch) (wrap_line q.0 ch).0)
                      (sym (show-append r q.1 (wrap_line q.0 ch).1)) wrapped,
                  less,
                )
          | inr v ↦
              let w : (length edited == line_size) ≡ false =
                subst (λ k. (k == line_size) ≡ false) same v in
              rw (v, w) (q, refl, held, below q.0.pos room v)
        ])
]

run-Holds :
    (erase kill : ℕ) (keys : List ℕ) (text : Bytes) (e : Editor) (r : Row)
    → Holds text e r
    → e.pos < line_size
    → Returns
        (run erase kill e keys)
        λ q. Holds (run_text erase kill text keys) q.0 (show r q.1) × (q.0.pos < line_size)
unfolding run run_text show
run-Holds erase kill [] text e r h lt = ((e, []), refl, (h, lt))
run-Holds erase kill (ch ∷ keys) text e r h lt =
    elim (press_text erase kill text ch)
        as (λ o.
          Goes r (press erase kill e ch) o
          → Returns (run erase kill e (ch ∷ keys)) λ q.
            Holds (elim o [ none ↦ text | some text' ↦ run_text erase kill text' keys ]) q.0
              (show r q.1)
            × (q.0.pos < line_size)) [
              | none ↦ λ g. rw g ((e, []), refl, (h, lt))
              | some text' ↦ λ g.
                  let (q, pressed, held, less) = g in
                  rw pressed (
                    bind-Returns (run-Holds erase kill keys text' q.0 (show r q.1) held less)
                      (λ later k. (
                        (later.0, q.1 ++ later.1),
                        refl,
                        (
                          subst (Holds (run_text erase kill text' keys) later.0)
                              (sym (show-append r q.1 later.1)) k.0,
                          k.1,
                        ),
                      )))
            ]
      (press-Goes erase kill ch text e r h lt)

-- Whatever keys are pressed on an empty line, the editor ends without a write past its line; the
-- line holds the text that the keys make by the abstract editor, fewer than 40 bytes, and the
-- terminal's row shows that text and blanks.
pub run-Shows :
    (erase kill : ℕ) (keys : List ℕ) (line : Bytes)
    → length line ≡ line_size
    → Returns (run erase kill (record { line = line; pos = 0 }) keys) λ q.
      (typed q.0.line q.0.pos ≡ run_text erase kill [] keys)
      × (q.0.pos < line_size)
      × Shows (run_text erase kill [] keys) (show (record { before = []; behind = [] }) q.1)
unfolding typed
run-Shows erase kill keys line size =
    let start : Holds [] (record { line = line; pos = 0 }) (record { before = []; behind = [] }) =
      record {
        is_text = refl;
        is_size = size;
        prints = tt;
        shows = record { is_before = refl; is_blank = tt };
      } in
    let (q, run', (held, less)) =
      run-Holds erase kill keys [] (record { line = line; pos = 0 })
        (record { before = []; behind = [] }) start (omega arith) in
    (q, run', (held.is_text, less, held.shows))
