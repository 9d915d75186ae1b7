-- ===== src/Abc/Score.antt =====
-- A score in ticks for the tracks of src/abcreader.cpp, and how a reader follows it.
use bipscript.Prelude.{
  ℕ, ◌+◌, ◌-◌, ◌%◌, ◌≤◌, ◌≡◌, List, [], ◌∷◌, ◌++◌, Option, none, some, ◌==◌, if◌then◌else◌,
  get_elem?,
}
use bipscript.Prelude.Int.{pos}
use bipscript.Position.{Position}
use bipscript.Position.Clock.{IsAt, NowAt}
use bipscript.Midi.{u8, note_on, note_off, Note, PatternNote, Pattern}
use bipscript.Abc.{Tune, AbcReader, TrackCall, meta, midi, update, key_of, bar_ticks}

-- A key that is down: its note and when it began, in ticks.
pub record Held : Type 0 where
  pub pitch : ℕ
  pub velocity : ℕ
  pub channel : ℕ
  pub begin : ℕ

pub record Sound : Type 0 where
  pub held : Held
  pub ticks : ℕ

-- A track as far as it has been played.
pub record Score : Type 0 where
  pub time : ℕ
  pub keys : ℕ → Option Held
  pub sounds : List Sound

abbrev pub silence : Score
silence = record { time = 0; keys = λ key. none; sounds = [] }

-- A key that is pressed again keeps its first velocity, and begins again.
abbrev pub press : ℕ → ℕ → ℕ → ℕ → Option Held → Held
press time chan byte1 byte2 none = record {
  pitch = byte1;
  velocity = byte2 % u8;
  channel = chan;
  begin = time;
}
press time chan byte1 byte2 (some h) = record h { begin = time }

abbrev pub released : ℕ → Option Held → Score → Score
released key none s = s
released key (some h) s = record s {
  keys = update key none s.keys;
  sounds = s.sounds ++ record { held = h; ticks = s.time - h.begin } ∷ [];
}

abbrev pub score_event : ℕ → ℕ → ℕ → ℕ → Score → Score
score_event type chan byte1 byte2 s =
    let key = key_of byte1 chan in
    if type == note_on
    then record s { keys = update key (some (press s.time chan byte1 byte2 (s.keys key))) s.keys }
    else if type == note_off
    then released key (s.keys key) s
    else s

abbrev pub score_call : TrackCall → Score → Score
score_call (midi delta_time type chan byte1 byte2) s =
    score_event type chan byte1 byte2 (record s { time = s.time + delta_time })
score_call _ s = s

abbrev pub score_calls : List TrackCall → Score → Score
score_calls [] s = s
score_calls (c ∷ cs) s = score_calls cs (score_call c s)

abbrev pub delta_of : TrackCall → ℕ
delta_of (midi delta_time type chan byte1 byte2) = delta_time
delta_of _ = 0

abbrev pub total : List TrackCall → ℕ
total [] = 0
total (c ∷ cs) = delta_of c + total cs

-- No title and no new meter within the track.
abbrev pub NoMeta : List TrackCall → Type 0
NoMeta [] = Unit {0}
NoMeta (meta type bytes ∷ cs) = ⊥
NoMeta (_ ∷ cs) = NoMeta cs

module _ (d : ℕ) where
  pub record IsHeld (time : ℕ) (h : Held) (n : Note) (p : Position) : Type 0 where
    pub pitch : n.value ≡ pos h.pitch
    pub velocity : n.vel ≡ h.velocity
    pub channel : n.channel ≡ h.channel
    pub begin : IsAt d h.begin p
    pub past : h.begin ≤ time

  abbrev pub KeyMatches : ℕ → Option Held → Option Note → Position → Type 0
  KeyMatches time none none p = Unit {0}
  KeyMatches time none (some n) p = ⊥
  KeyMatches time (some h) none p = ⊥
  KeyMatches time (some h) (some n) p = IsHeld time h n p

  -- The note of a pattern that a sound stands for.
  pub record Plays (s : Sound) (n : PatternNote) : Type 0 where
    pub pitch : n.note.value ≡ pos s.held.pitch
    pub velocity : n.note.vel ≡ s.held.velocity
    pub channel : n.note.channel ≡ s.held.channel
    pub begin : IsAt d s.held.begin n.position
    pub duration : n.note.duration ≡ record { whole = 0; position = s.ticks; division = d }

  abbrev pub PlaysAll : List Sound → Pattern → Type 0
  PlaysAll [] [] = Unit {0}
  PlaysAll [] (n ∷ ns) = ⊥
  PlaysAll (s ∷ ss) [] = ⊥
  PlaysAll (s ∷ ss) (n ∷ ns) = Plays s n × PlaysAll ss ns

  pub PlaysAll-snoc :
      (ss : List Sound) (ns : Pattern) (s : Sound) (n : PatternNote)
      → PlaysAll ss ns
      → Plays s n
      → PlaysAll (ss ++ s ∷ []) (ns ++ n ∷ [])
  PlaysAll-snoc [] [] s n h k = (k, tt)
  PlaysAll-snoc [] (m ∷ ns) s n h k = absurd h
  PlaysAll-snoc (x ∷ ss) [] s n h k = absurd h
  PlaysAll-snoc (x ∷ ss) (m ∷ ns) s n h k = (h.0, PlaysAll-snoc ss ns s n h.1 k)

  -- The last tune has this track, and the track plays the sounds.
  pub record Writes (track : ℕ) (ss : List Sound) (tunes : List Tune) : Type 0 where
    pub tune : Tune
    pub older : List Tune
    pub last : tunes ≡ tune ∷ older
    pub notes : Pattern
    pub has : get_elem? tune.tracks track ≡ some notes
    pub plays : PlaysAll ss notes

  -- The reader has come as far as the score.
  pub record Follows (track : ℕ) (s : Score) (r : AbcReader) : Type 0 where
    pub now : NowAt d s.time r.current_position
    pub bar : bar_ticks r ≡ d
    pub active : r.active_track ≡ track
    pub keys : (key : ℕ) → KeyMatches s.time (s.keys key) (r.active_note key) (r.note_start key)
    pub writes : Writes track s.sounds r.tunes
