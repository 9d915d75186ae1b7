-- ===== src/DrumTab/Bars.antt =====
-- src/drumtabreader.cpp: the bars and the notes of a line.
use native.Mathlib.Nat.{div-eq_of_lt, div-le_self}
use bipscript.Prelude.{
  ℕ, suc, ◌+◌, ◌-◌, ◌<◌, ◌≡◌, subst, ◌∙◌, [], ◌∷◌, ◌++◌, true, false, Bool-cases, inl, inr, ◌==◌,
  ne→==_false, if◌then◌else◌, length, length-append, ok, Returns, Returns-map, Returns-bind, ◌>>=◌,
  arith,
}
use bipscript.Prelude.Int.{pos}
use bipscript.Position.{u32, Duration, make_position, make_duration, normalize}
use bipscript.Position.Normalize.{normalize_lem, make_position_lem}
use bipscript.Midi.{Note, Pattern, add_note}
use bipscript.DrumTab.{
  Text, Reader, note_number, hit_velocity, reverse_onto, add_hit, process_bar, process_bars,
  process_tab_line,
}

abbrev pub bar_lines : Text → ℕ
bar_lines [] = 0
bar_lines (c ∷ line) = if c == 124 then suc (bar_lines line) else bar_lines line

-- The strikes of a bar.
abbrev pub strikes : Text → ℕ
strikes [] = 0
strikes (c ∷ bar) = if c == 45 then strikes bar else suc (strikes bar)

-- The strikes of a line that a bar line follows; `open_strikes` are those of the bar so far.
abbrev pub barred_strikes : ℕ → Text → ℕ
barred_strikes open_strikes [] = 0
barred_strikes open_strikes (c ∷ line) =
    if c == 124
    then open_strikes + barred_strikes 0 line
    else barred_strikes (if c == 45 then open_strikes else suc open_strikes) line

strikes-reverse_onto : (xs ys : Text) → strikes (reverse_onto xs ys) ≡ strikes xs + strikes ys
strikes-reverse_onto [] ys = omega arith
strikes-reverse_onto (x ∷ xs) ys = elim (Bool-cases (x == 45)) [
  | inl t ↦ strikes-reverse_onto xs (x ∷ ys) ∙ rw t (omega arith)
  | inr t ↦ strikes-reverse_onto xs (x ∷ ys) ∙ rw t (omega arith)
]

length-reverse_onto : (xs ys : Text) → length (reverse_onto xs ys) ≡ length xs + length ys
length-reverse_onto [] ys = omega arith
length-reverse_onto (x ∷ xs) ys = length-reverse_onto xs (x ∷ ys) ∙ omega arith

-- The notes of the pattern, and those added.
abbrev Grows : ℕ → Reader → Reader → Type 0
Grows n r r' = length r'.pattern ≡ length r.pattern + n

add_note-length :
    (note : Note) (bar i len : ℕ) (notes : Pattern)
    → 0 < bar
    → bar < u32
    → i < len
    → Returns (add_note note bar i len notes) (λ p. length p ≡ length notes + 1)
unfolding add_note
add_note-length note bar i len notes b u h =
    Returns-bind (make_position bar i len)
      (λ start. ok (notes ++ (record { note = note; position = start }) ∷ []))
      (λ p. length p ≡ length notes + 1)
      (make_position_lem bar i len b (omega (arith, h)) (omega (arith, div-eq_of_lt h, u)))
      (λ start n. length-append notes ((record { note = note; position = start }) ∷ []))

add_hit-Grows :
    (bar a b strike i len : ℕ) (r : Reader)
    → 0 < bar
    → bar < u32
    → i < len
    → Returns (add_hit bar a b strike i len r) (Grows 1 r)
unfolding add_hit make_duration
add_hit-Grows bar a b strike i len r p u h = rw (ne→==_false len 0 (λ e. omega (arith, e, h))) (
    Returns-bind (normalize (record { whole = 0; position = 1; division = len }))
      (λ duration.
        add_note (note duration) bar i len r.pattern >>= λ notes. ok (record r { pattern = notes }))
      (Grows 1 r)
      (normalize_lem (record { whole = 0; position = 1; division = len }) (omega (arith, h))
        (omega (arith, div-le_self 1 len)))
      (λ duration n.
        Returns-bind (add_note (note duration) bar i len r.pattern)
          (λ notes. ok (record r { pattern = notes })) (Grows 1 r)
          (add_note-length (note duration) bar i len r.pattern p u h) (λ notes l. l)))
  where
    note : Duration → Note
    note duration = record {
      value = pos (note_number a b);
      vel = hit_velocity r.velocities a b strike;
      duration = duration;
      channel = 0;
    }

process_bar-Grows :
    (bar a b i len : ℕ) (text : Text) (r : Reader)
    → 0 < bar
    → bar < u32
    → i + length text ≡ len
    → Returns (process_bar bar a b i len text r) (Grows (strikes text) r)
unfolding process_bar
process_bar-Grows bar a b i len [] r p u h = omega arith
process_bar-Grows bar a b i len (c ∷ text) r p u h = elim (Bool-cases (c == 45)) [
  | inl t ↦ rw t (process_bar-Grows bar a b (suc i) len text r p u (omega (arith, h)))
  | inr t ↦ rw t (
      Returns-bind (add_hit bar a b c i len r) (process_bar bar a b (suc i) len text)
        (Grows (suc (strikes text)) r) (add_hit-Grows bar a b c i len r p u (omega (arith, h)))
        (λ r' g.
          Returns-map (process_bar bar a b (suc i) len text r') (λ r'' g'. omega (arith, g, g'))
            (process_bar-Grows bar a b (suc i) len text r' p u (omega (arith, h)))))
]

-- The next bar, and the notes added.
pub record Read (bar added : ℕ) (r : Reader) (q : ℕ × Reader) : Type 0 where
  pub bars : q.0 ≡ bar
  pub notes : length q.1.pattern ≡ length r.pattern + added

process_bars-Read :
    (bar a b : ℕ) (text line : Text) (r : Reader)
    → 0 < bar
    → bar + bar_lines line < u32
    → Returns
        (process_bars bar a b text line r)
        (Read (bar + bar_lines line) (barred_strikes (strikes text) line) r)
unfolding process_bars
process_bars-Read bar a b text [] r p u = record { bars = omega arith; notes = omega arith }
process_bars-Read bar a b text (c ∷ line) r p u = elim (Bool-cases (c == 124)) [
  | inl t ↦ rw t (
      Returns-bind (process_bar bar a b 0 (length text) (reverse_onto text []) r)
        (process_bars (suc bar) a b [] line)
        (Read (bar + suc (bar_lines line)) (strikes text + barred_strikes 0 line) r)
        (process_bar-Grows bar a b 0 (length text) (reverse_onto text []) r p (below t)
          (omega (arith, length-reverse_onto text [])))
        (λ r' g.
          Returns-map (process_bars (suc bar) a b [] line r')
            (λ q d. record {
              bars = omega (arith, d.bars);
              notes = omega (arith, d.notes, g, strikes-reverse_onto text []);
            })
            (process_bars-Read (suc bar) a b [] line r' (omega arith) (room t))))
  | inr t ↦ rw t (process_bars-Read bar a b (c ∷ text) line r p (same t))
]
  where
    room : (c == 124) ≡ true → suc bar + bar_lines line < u32
    room t =
        omega
          (arith, subst (λ v. bar + (if v then suc (bar_lines line) else bar_lines line) < u32) t u)

    below : (c == 124) ≡ true → bar < u32
    below t = omega (arith, room t)

    same : (c == 124) ≡ false → bar + bar_lines line < u32
    same t = subst (λ v. bar + (if v then suc (bar_lines line) else bar_lines line) < u32) t u

-- A tab line, whose channel and first bar line are its first three characters, gives as many bars as
-- it has further bar lines, and a note for every strike that a bar line follows, where the bars start
-- at 1 or later and their numbers do not wrap.
pub process_tab_line-Read :
    (start_bar a b c : ℕ) (line : Text) (r : Reader)
    → 0 < start_bar
    → start_bar + bar_lines line < u32
    → Returns
        (process_tab_line start_bar (a ∷ b ∷ c ∷ line) r)
        (Read (bar_lines line) (barred_strikes 0 line) r)
unfolding process_tab_line
process_tab_line-Read start_bar a b c line r p u =
    Returns-bind (process_bars start_bar a b [] line r) (λ q. ok (q.0 - start_bar, q.1))
      (Read (bar_lines line) (barred_strikes 0 line) r)
      (process_bars-Read start_bar a b [] line r p u)
      (λ q d. record { bars = omega (arith, d.bars); notes = d.notes })
