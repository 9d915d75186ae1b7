-- ===== src/Midi/Schedule.antt =====
-- src/midisink.cpp: the events that notes and patterns become.
use bipscript.Prelude.{
  ℕ, ◌-◌, ◌≡◌, refl, [], ◌∷◌, Bool, true, false, if◌then◌else◌, Result, ok, err, Returns,
  Returns-bind, Returns-both, Returns-map, ◌>>=◌,
}
use bipscript.Position.{Position, add}
use bipscript.Position.Normalize.{IsValid}
use bipscript.Position.Sum.{SumFits, IsSum, add_lem}
use bipscript.Midi.{
  MidiEvent, make_event, low_byte, note_on, note_off, Note, PatternNote, Pattern, bad_channel,
  channel_error, bar_before, schedule_note, schedule_each, schedule_pattern,
}

module _ {S : Type 0} (add_event : MidiEvent → S → S) where
  -- A note is two events: its start, and its end later by its duration.
  pub record NoteScheduled (note : Note) (position : Position) (channel : ℕ) (s s' : S)
      : Type 0 where
    pub end : Position
    pub end-IsValid : IsValid end
    pub later : IsSum position note.duration end
    pub events :
        s'
        ≡ add_event
            (make_event end (low_byte note.value) 0 note_off (channel - 1))
            (add_event (make_event position (low_byte note.value) note.vel note_on (channel - 1)) s)

  -- For a valid position and duration that can be added without a wrap, `scheduleNote` returns and has
  -- added the start of the note at the position and its end later by the duration.
  pub schedule_note_lem :
      (note : Note) (position : Position) (channel : ℕ) (s : S)
      → IsValid position
      → IsValid note.duration
      → SumFits position note.duration
      → Returns
          (schedule_note add_event note position channel s)
          (NoteScheduled note position channel s)
  unfolding schedule_note
  schedule_note_lem note position channel s v w f =
      Returns-bind (add position note.duration)
        (λ end. ok (
          add_event (make_event end (low_byte note.value) 0 note_off (channel - 1)) (
            add_event (make_event position (low_byte note.value) note.vel note_on (channel - 1))
              s)))
        (NoteScheduled note position channel s) (add_lem position note.duration v w f)
        (λ end e. record { end = end; end-IsValid = e.0; later = e.1; events = refl })

  -- The note of a pattern starts as long after the bar before `position` as it stands in the pattern.
  pub record Placed (n : PatternNote) (position : Position) (channel : ℕ) (s s' : S) : Type 0 where
    pub start : Position
    pub start-IsValid : IsValid start
    pub shifted : IsSum position n.position start
    pub scheduled : NoteScheduled n.note (bar_before start) channel s s'

  abbrev pub AllPlaced : Pattern → Position → ℕ → S → S → Type 0
  AllPlaced [] position channel s s' = s' ≡ s
  AllPlaced (n ∷ ns) position channel s s' =
      (m : S) × Placed n position channel s m × AllPlaced ns position channel m s'

  -- No sum wraps.
  pub record NoteFits (position : Position) (n : PatternNote) : Type 0 where
    pub position-IsValid : IsValid n.position
    pub duration-IsValid : IsValid n.note.duration
    pub start_fits : SumFits position n.position
    pub end_fits :
        Returns (add position n.position) (λ start. SumFits (bar_before start) n.note.duration)

  abbrev pub AllFit : Position → Pattern → Type 0
  AllFit position [] = Unit {0}
  AllFit position (n ∷ ns) = NoteFits position n × AllFit position ns

  schedule_each-AllPlaced :
      (notes : Pattern) (position : Position) (channel : ℕ) (s : S)
      → IsValid position
      → AllFit position notes
      → Returns
          (schedule_each add_event notes position channel s)
          (AllPlaced notes position channel s)
  unfolding schedule_each
  schedule_each-AllPlaced [] position channel s v f = refl
  schedule_each-AllPlaced (n ∷ ns) position channel s v f =
      Returns-bind (add position n.position)
        (λ start. schedule_note add_event n.note (bar_before start) channel s >>= λ m.
          schedule_each add_event ns position channel m)
        (AllPlaced (n ∷ ns) position channel s)
        (Returns-both (add position n.position)
          (λ start. IsValid start × IsSum position n.position start)
          (λ start. SumFits (bar_before start) n.note.duration)
          (add_lem position n.position v f.0.position-IsValid f.0.start_fits) f.0.end_fits)
        (λ start e.
          Returns-bind (schedule_note add_event n.note (bar_before start) channel s)
            (λ m. schedule_each add_event ns position channel m)
            (AllPlaced (n ∷ ns) position channel s)
            (schedule_note_lem n.note (bar_before start) channel s (before-IsValid start e.0.0)
              f.0.duration-IsValid e.1)
            (λ m p.
              Returns-map (schedule_each add_event ns position channel m)
                (λ s' q. (
                  m,
                  record { start = start; start-IsValid = e.0.0; shifted = e.0.1; scheduled = p },
                  q,
                ))
                (schedule_each-AllPlaced ns position channel m v f.1)))
    where
      before-IsValid : (start : Position) → IsValid start → IsValid (bar_before start)
      before-IsValid start h = record { divided = h.divided; proper = h.proper }

  abbrev pub PatternScheduled : Pattern → Position → ℕ → S → Result S → Type 0
  PatternScheduled notes position channel s r =
      if bad_channel channel
      then r ≡ err channel_error
      else Returns r (AllPlaced notes position channel s)

  -- Where no sum of its positions and durations wraps, a pattern is scheduled note by note, each
  -- shifted by its position in the pattern less one bar; a channel not from 1 to 16 is an error.
  pub schedule_pattern-PatternScheduled :
      (notes : Pattern) (position : Position) (channel : ℕ) (s : S)
      → IsValid position
      → AllFit position notes
      → PatternScheduled notes position channel s
          (schedule_pattern add_event notes position channel s)
  unfolding schedule_pattern
  schedule_pattern-PatternScheduled notes position channel s v f = go (bad_channel channel)
    where
      r : Result S
      r = schedule_each add_event notes position channel s

      go :
          (b : Bool)
          → if b
            then (if b then err channel_error else r) ≡ err channel_error
            else Returns (if b then err channel_error else r) (AllPlaced notes position channel s)
      go true = refl
      go false = schedule_each-AllPlaced notes position channel s v f
