-- ===== src/Midi/Transpose.antt =====
-- src/module_midi.h and src/midipattern.cpp: transposition.
use bipscript.Prelude.{
  ◌≡◌, ◌⊎◌, inl, inr, refl, ap, subst, List, [], ◌∷◌, ◌++◌, map, true, false, Bool-cases, Option,
  none, some, if◌then◌else◌, Result, ok, err, String, arith,
}
use bipscript.Prelude.Int.{ℤ, pos, negsuc, ltb_ℤ, ◌≤ℤ◌, ◌+ℤ◌}
use bipscript.Midi.{Note, PatternNote, Pattern, transpose_note, transposed, transpose}

-- A pitch that MIDI has, or the text of the exception for one that it does not.
abbrev pub low_text : String
low_text = "Cannot transpose this note that low"

abbrev pub high_text : String
high_text = "Cannot transpose this note that high"

abbrev pub HasPitch : ℤ → Type 0
HasPitch v = (pos 0 ≤ℤ v) × (v ≤ℤ pos 127)

abbrev pub LacksPitch : ℤ → String → Type 0
LacksPitch v text = ((text ≡ low_text) × (v ≤ℤ negsuc 0)) ⊎ ((text ≡ high_text) × (pos 128 ≤ℤ v))

abbrev pub shift : ℤ → PatternNote → PatternNote
shift amount n =
    let note = n.note in record n { note = record note { value = note.value +ℤ amount } }

abbrev pub AllShift : ℤ → List PatternNote → Type 0
AllShift amount [] = Unit {0}
AllShift amount (n ∷ ns) = HasPitch (n.note.value +ℤ amount) × AllShift amount ns

-- The notes that were changed, and, after an exception, the one that it is about and those behind it.
pub record Stopped (amount : ℤ) (notes : Pattern) (r : Pattern × Option String) (text : String)
    : Type 0 where
  pub before : Pattern
  pub at : PatternNote
  pub after : Pattern
  pub notes_are : notes ≡ before ++ at ∷ after
  pub left_are : r.0 ≡ map (shift amount) before ++ at ∷ after
  pub in_range : AllShift amount before
  pub out_of_range : LacksPitch (at.note.value +ℤ amount) text

abbrev Ends : ℤ → Pattern → Pattern × Option String → Option String → Type 0
Ends amount notes r none = (r.0 ≡ map (shift amount) notes) × AllShift amount notes
Ends amount notes r (some text) = Stopped amount notes r text

-- What became of a pattern.
abbrev pub Transposed : ℤ → Pattern → Pattern × Option String → Type 0
Transposed amount notes r = Ends amount notes r r.1

data NoteCase (amount : ℤ) (n : Note) : Result Note → Type 0 where
  moved :
      HasPitch (n.value +ℤ amount) → NoteCase amount n (ok (record n { value = n.value +ℤ amount }))
  thrown : (text : String) → LacksPitch (n.value +ℤ amount) text → NoteCase amount n (err text)

transpose_note-NoteCase : (amount : ℤ) (n : Note) → NoteCase amount n (transpose_note amount n)
unfolding transpose_note
transpose_note-NoteCase amount n = go (n.value +ℤ amount) refl
  where
    go :
        (v : ℤ)
        → n.value +ℤ amount ≡ v
        → NoteCase amount n (
            if ltb_ℤ v (pos 0)
            then err low_text
            else if ltb_ℤ (pos 127) v
            then err high_text
            else ok (record n { value = v }))
    go v e = elim (Bool-cases (ltb_ℤ v (pos 0))) [
      | inl t ↦ rw t (thrown low_text (inl (refl, rw e (low v t))))
      | inr t ↦ elim (Bool-cases (ltb_ℤ (pos 127) v)) [
        | inl u ↦ rw (t, u) (thrown high_text (inr (refl, rw e (high v u))))
        | inr u ↦
            rw (t, u)
              (subst (λ x. NoteCase amount n (ok (record n { value = x }))) e
                (moved (rw e (mid v t u))))
      ]
    ]
      where
        low : (v : ℤ) → ltb_ℤ v (pos 0) ≡ true → v ≤ℤ negsuc 0
        low v t = ground arith

        high : (v : ℤ) → ltb_ℤ (pos 127) v ≡ true → pos 128 ≤ℤ v
        high v t = ground arith

        mid : (v : ℤ) → ltb_ℤ v (pos 0) ≡ false → ltb_ℤ (pos 127) v ≡ false → HasPitch v
        mid v t u = (ground arith, ground arith)

transposed-Transposed :
    (amount : ℤ) (n : PatternNote) (ns : Pattern) (rest : Pattern × Option String) {r : Result Note}
    → NoteCase amount n.note r
    → Transposed amount ns rest
    → Transposed amount (n ∷ ns) (transposed n ns r rest)
transposed-Transposed amount n ns (xs, none) (moved h) t =
    (ap (λ v. shift amount n ∷ v) t.0, (h, t.1))
transposed-Transposed amount n ns (xs, some text) (moved h) t = record {
  before = n ∷ t.before;
  at = t.at;
  after = t.after;
  notes_are = ap (λ v. n ∷ v) t.notes_are;
  left_are = ap (λ v. shift amount n ∷ v) t.left_are;
  in_range = (h, t.in_range);
  out_of_range = t.out_of_range;
}
transposed-Transposed amount n ns rest (thrown text h) t = record {
  before = [];
  at = n;
  after = ns;
  notes_are = refl;
  left_are = refl;
  in_range = tt;
  out_of_range = h;
}

-- `Pattern::transpose` either shifts every note, all to pitches from 0 to 127, or throws at the first
-- note whose pitch would leave that range; then the notes before it have been shifted, and it and
-- those behind it have not.
pub transpose-Transposed :
    (amount : ℤ) (notes : Pattern) → Transposed amount notes (transpose amount notes)
unfolding transpose
transpose-Transposed amount [] = (refl, tt)
transpose-Transposed amount (n ∷ ns) =
    transposed-Transposed amount n ns (transpose amount ns) (transpose_note-NoteCase amount n.note)
      (transpose-Transposed amount ns)
