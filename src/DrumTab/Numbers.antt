-- ===== src/DrumTab/Numbers.antt =====
-- src/drumtabreader.cpp: the number of a note.
use bipscript.Prelude.{
  ℕ, ◌≡◌, ◌≢◌, refl, [], ◌∷◌, false, ◌&&◌, Bool-cases, inl, inr, ◌==◌, length, arith,
}
use bipscript.DrumTab.{
  Text, Table, same_text, value_of, note_value, is_digit, to_upper, note_number,
}

same_text-length : (xs ys : Text) → length xs ≢ length ys → same_text xs ys ≡ false
same_text-length [] [] n = absurd (n refl)
same_text-length [] (y ∷ ys) n = refl
same_text-length (x ∷ xs) [] n = refl
same_text-length (x ∷ xs) (y ∷ ys) n = elim (Bool-cases (x == y)) [
  | inl t ↦ rw (t, same_text-length xs ys (λ e. n (omega (arith, e)))) refl
  | inr t ↦ rw t refl
]

abbrev AllLength : ℕ → Table → Type 0
AllLength n [] = Unit {0}
AllLength n (e ∷ table) = (length e.0 ≡ n) × AllLength n table

value_of-AllLength :
    (n : ℕ) (table : Table) (key : Text)
    → AllLength n table
    → length key ≢ n
    → value_of table key ≡ 0
value_of-AllLength n [] key a ne = refl
value_of-AllLength n (e ∷ table) key a ne =
    rw (same_text-length e.0 key (λ k. ne (omega (arith, k, a.0))))
      (value_of-AllLength n table key a.1 ne)

-- Every channel that is not two digits has the note number zero: the table's keys have three
-- characters, and it is asked for the two of the channel.
note_number-zero : (a b : ℕ) → (is_digit a && is_digit b) ≡ false → note_number a b ≡ 0
unfolding note_number
note_number-zero a b h = rw h (
    value_of-AllLength 3 note_value (to_upper a ∷ to_upper b ∷ []) (omega arith)
      (λ e. omega (arith, e)))
