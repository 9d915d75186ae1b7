-- ===== src/DrumTab/Tests.antt =====
-- The theorems on src/drumtabreader.cpp at a line of two bars.
use bipscript.Prelude.{◌≡◌, refl, [], ◌∷◌, Returns, arith}
use bipscript.DrumTab.{Text, Reader, note_velocity, note_number, process_tab_line}
use bipscript.DrumTab.Bars.{Read, process_tab_line-Read}

-- `x-x-|xx|`, after the channel.
abbrev two_bars : Text
two_bars = 120 ∷ 45 ∷ 120 ∷ 45 ∷ 124 ∷ 120 ∷ 120 ∷ 124 ∷ []

abbrev reader : Reader
reader = record { velocities = note_velocity; pattern = [] }

-- `35` is a number, and `hh` is none.
numbered : note_number 51 53 ≡ 35
unfolding note_number
numbered = refl

unnumbered : note_number 104 104 ≡ 0
unfolding note_number
unnumbered = refl

process_tab_line-Read_example :
    Returns (process_tab_line 1 (104 ∷ 104 ∷ 124 ∷ two_bars) reader) (Read 2 4 reader)
process_tab_line-Read_example =
    process_tab_line-Read 1 104 104 124 two_bars reader (omega arith) (omega arith)
