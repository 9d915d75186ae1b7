-- ===== src/Mml/Tests.antt =====
-- The theorem on src/mmlreader.cpp at a chord of two notes and a rest.
use bipscript.Prelude.{ℕ, ◌≡◌, refl, [], ◌∷◌, List, map, false, ok, ◌>>=◌, arith, Returns}
use bipscript.Position.{normalize, carry, shrink, make_duration, add, raw_sum}
use bipscript.Position.Clock.{start}
use bipscript.Mml.{
  TimeSignature, MmlInfo, note, rest, other, MmlReader, process_note, process_rest, mml_callback,
  sound, fetch_all, bar_ticks, read,
}
use bipscript.Mml.Timed.{PlaysAll, score, left_over, read-Reached}

abbrev no_signature : TimeSignature
no_signature = record { valid = false; numerator = 0; denominator = 0 }

abbrev reader : MmlReader
reader = record { chord = []; ticks_per_bar = 0; current_position = start; pattern = [] }

abbrev text : List MmlInfo
text = note 60 0 ∷ note 64 480 ∷ rest 480 ∷ other ∷ note 67 960 ∷ note 72 0 ∷ []

abbrev begins : MmlReader → List ℕ
begins r = map (λ n. n.position.position) r.pattern

-- The chord, and a note in the middle of the bar.
three_notes : (read 480 no_signature text reader >>= λ r. ok (begins r)) ≡ ok (0 ∷ 0 ∷ 960 ∷ [])
unfolding read bar_ticks fetch_all mml_callback process_note process_rest sound make_duration add
    normalize carry shrink raw_sum
three_notes = refl

read-Reached_example :
    Returns
      (read 480 no_signature text reader)
      (λ r'. PlaysAll 1920 (score 0 [] text) r'.pattern × (r'.chord ≡ left_over [] text))
unfolding bar_ticks
read-Reached_example =
    read-Reached 1920 (omega arith) (omega arith) 480 no_signature text reader refl (omega arith)
