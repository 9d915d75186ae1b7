-- ===== src/Abc/Timed.antt =====
-- src/abcreader.cpp: what a track adds to its pattern, against a score in ticks.
use bipscript.Prelude.{
  ℕ, ◌+◌, ◌≤◌, ◌<◌, ◌≡◌, refl, sym, subst, inl, List, [], ◌∷◌, ◌++◌, some, get_elem?, arith,
  Returns, Returns-map, Returns-bind,
}
use bipscript.Position.{u32, max_denominator}
use bipscript.Position.Clock.{advance, IsAt, advance-IsAt}
use bipscript.Abc.{
  Tune, AbcReader, TrackCall, tempo, meta, midi, tuning, error, warning, bar_ticks,
  write_midi_event, track_call, track_calls, start_track,
}
use bipscript.Abc.Score.{Score, score_event, score_calls, silence, total, NoMeta, Writes, Follows}
use bipscript.Abc.Keys.{time-score_event, midi_event-Follows, at_position}

module _ (d : ℕ) where
  module _ (positive : 0 < d) (small : d ≤ max_denominator) where
    write_midi_event-Follows :
        (track delta_time type chan byte1 byte2 : ℕ) (s : Score) (r : AbcReader)
        → d + s.time + delta_time < u32
        → Follows d track s r
        → Returns (write_midi_event delta_time type chan byte1 byte2 r) (
            Follows d track
              (score_event type chan byte1 byte2 (record s { time = s.time + delta_time })))
    unfolding write_midi_event
    write_midi_event-Follows track delta_time type chan byte1 byte2 s r fits f =
        Returns-bind (advance (bar_ticks r) delta_time r.current_position) _ _
          (subst
            (λ k. Returns (advance k delta_time r.current_position) (IsAt d (s.time + delta_time)))
            (sym f.bar)
            (advance-IsAt d s.time delta_time r.current_position positive small fits f.now))
          (λ p i.
            midi_event-Follows d track type chan byte1 byte2
              (record s { time = s.time + delta_time }) (record r { current_position = p })
              (omega arith) i (at_position d track (s.time + delta_time) s r p (omega arith) i f))

    track_calls-Follows :
        (track : ℕ) (calls : List TrackCall) (s : Score) (r : AbcReader)
        → NoMeta calls
        → d + s.time + total calls < u32
        → Follows d track s r
        → Returns (track_calls calls r) (Follows d track (score_calls calls s))
    unfolding track_calls track_call
    track_calls-Follows track [] s r m fits f = f
    track_calls-Follows track (tempo ∷ cs) s r m fits f =
        track_calls-Follows track cs s r m (omega arith) f
    track_calls-Follows track (meta type bytes ∷ cs) s r m fits f = absurd m
    track_calls-Follows track (midi delta_time type chan byte1 byte2 ∷ cs) s r m fits f =
        Returns-bind (write_midi_event delta_time type chan byte1 byte2 r) (track_calls cs) _
          (write_midi_event-Follows track delta_time type chan byte1 byte2 s r (omega arith) f)
          (λ r' f'.
            track_calls-Follows track cs _ r' m
              (omega (
                arith,
                time-score_event type chan byte1 byte2 (record s { time = s.time + delta_time }),
              ))
              f')
    track_calls-Follows track (tuning ∷ cs) s r m fits f =
        track_calls-Follows track cs s r m (omega arith) f
    track_calls-Follows track (error e ∷ cs) s r m fits f =
        track_calls-Follows track cs s (record r { errors = r.errors ++ e ∷ [] }) m (omega arith)
          (record { now = f.now; bar = f.bar; active = f.active; keys = f.keys; writes = f.writes })
    track_calls-Follows track (warning e ∷ cs) s r m fits f =
        track_calls-Follows track cs s r m (omega arith) f

    -- Where the last tune has this track and the track is empty, no title or meter comes within the
    -- track, a bar has `d` ticks, and the ticks stay below 2 ^ 32, the calls of the track return, and
    -- the track of the last tune then has the sounds of the score: each note begins at the sum of the
    -- delta times before it, in ticks after bar 1, and lasts until its key is released. A release of a
    -- key that is not down does nothing, and a key that is pressed again keeps its first velocity and
    -- begins again.
    pub track_calls-Writes :
        (track : ℕ) (calls : List TrackCall) (r : AbcReader) (t : Tune) (ts : List Tune)
        → r.tunes ≡ t ∷ ts
        → get_elem? t.tracks track ≡ some []
        → bar_ticks r ≡ d
        → NoMeta calls
        → d + total calls < u32
        → Returns
            (track_calls calls (start_track track r))
            (λ r'. Writes d track (score_calls calls silence).sounds r'.tunes)
    unfolding start_track
    track_calls-Writes track calls r t ts e has bar m fits =
        Returns-map (track_calls calls (start_track track r)) (λ r' f. f.writes)
          (track_calls-Follows track calls silence (start_track track r) m (omega arith) (record {
            now = inl (refl, refl);
            bar = bar;
            active = refl;
            keys = λ key. tt;
            writes = record { tune = t; older = ts; last = e; notes = []; has = has; plays = tt };
          }))
