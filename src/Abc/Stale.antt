-- ===== src/Abc/Stale.antt =====
-- src/abcreader.cpp: the tunes that a text with errors leaves in the reader.
use bipscript.Prelude.{
  ℕ, suc, ◌≡◌, refl, List, [], ◌∷◌, ◌&&◌, Option, none, some, ◌==◌, Bool-cases, Option-cases, inl,
  inr, Result, ok, err, fault, ◌>>=◌,
}
use bipscript.Position.{Position, Duration, sub}
use bipscript.Position.Clock.{advance}
use bipscript.Midi.{note_on, note_off, Note, PatternNote}
use bipscript.Abc.{
  AbcError, Tune, AbcReader, TrackCall, tempo, meta, midi, tuning, error, warning, AbcCall, call,
  mfwrite, with_tune, add_midi_note, unit_of, set_title, set_time_signature, set_meter, meter_bytes,
  write_meta_event, key_of, begin_note, end_note, bar_ticks, midi_event, write_midi_event,
  track_call, track_calls, start_sequence, start_track, write_tracks, abc_call, parse_abc,
  first_tune, Outcome, failed, found, take_tune, read_tune,
}

-- If the call returns, its value has the property.
abbrev pub IfOk : {A : Type 0} → (A → Type 0) → Result A → Type 0
IfOk P fault = Unit {0}
IfOk P (err text) = Unit {0}
IfOk P (ok a) = P a

IfOk-bind :
    {A B : Type 0} (r : Result A) (f : A → Result B) {P : A → Type 0} (Q : B → Type 0)
    → IfOk P r
    → ((a : A) → P a → IfOk Q (f a))
    → IfOk Q (r >>= f)
IfOk-bind fault f Q h k = tt
IfOk-bind (err text) f Q h k = tt
IfOk-bind (ok a) f Q h k = k a h

IfOk-any : {A : Type 0} (r : Result A) → IfOk (λ a. Unit {0}) r
IfOk-any fault = tt
IfOk-any (err text) = tt
IfOk-any (ok a) = tt

-- The tune that was made first.
abbrev pub oldest : List Tune → Option Tune
oldest [] = none
oldest (t ∷ []) = some t
oldest (t ∷ u ∷ ts) = oldest (u ∷ ts)

module _ (old : Tune) where
  -- A newer tune than the oldest is written.
  abbrev Kept : List Tune → Type 0
  Kept [] = ⊥
  Kept (t ∷ ts) = oldest ts ≡ some old

  abbrev Keeps : AbcReader → Type 0
  Keeps r = Kept r.tunes

  with_tune-Keeps :
      (change : Tune → Result Tune) (r : AbcReader) (tunes : List Tune)
      → r.tunes ≡ tunes
      → Kept tunes
      → IfOk Keeps (with_tune change r)
  with_tune-Keeps change r [] e k = absurd k
  with_tune-Keeps change r (t ∷ ts) e k =
      rw (e, with_tune) (IfOk-bind (change t) _ Keeps (IfOk-any (change t)) (λ t' u. k))

  meter_bytes-Keeps : (bytes : List ℕ) (r : AbcReader) → Keeps r → IfOk Keeps (meter_bytes bytes r)
  meter_bytes-Keeps [] r k = tt
  meter_bytes-Keeps (beats ∷ []) r k = tt
  meter_bytes-Keeps (beats ∷ power ∷ more) r k =
      IfOk-bind (unit_of power) _ Keeps (IfOk-any (unit_of power)) (λ unit u.
        with_tune-Keeps (set_time_signature beats unit) (set_meter beats unit r) r.tunes refl k)

  write_meta_event-Keeps :
      (type : ℕ) (bytes : List ℕ) (r : AbcReader)
      → Keeps r
      → IfOk Keeps (write_meta_event type bytes r)
  unfolding write_meta_event
  write_meta_event-Keeps type bytes r k =
      elim (Bool-cases ((type == 0x03) && (r.active_track == 0))) [
        | inl e ↦ rw e (with_tune-Keeps (set_title bytes) r r.tunes refl k)
        | inr e ↦ elim (Bool-cases (type == 0x58)) [
          | inl e' ↦ rw (e, e') (meter_bytes-Keeps bytes r k)
          | inr e' ↦ rw (e, e') k
        ]
      ]

  end_note-Keeps : (chan byte1 : ℕ) (r : AbcReader) → Keeps r → IfOk Keeps (end_note chan byte1 r)
  unfolding end_note
  end_note-Keeps chan byte1 r k = elim (Option-cases (r.active_note (key_of byte1 chan))) [
    | inl e ↦ rw (e, end_note) k
    | inr (n, e) ↦
        rw (e, end_note)
          (IfOk-bind (sub r.current_position start) _ Keeps
            (IfOk-any (sub r.current_position start))
            (λ a u.
              IfOk-bind (with_tune (add_midi_note r.active_track (sounded n a)) r) _ Keeps
                (with_tune-Keeps (add_midi_note r.active_track (sounded n a)) r r.tunes refl k)
                (λ r' k'. k')))
  ]
    where
      start : Position
      start = r.note_start (key_of byte1 chan)

      sounded : Note → Duration → PatternNote
      sounded n a = record { note = record n { duration = a }; position = start }

  write_midi_event-Keeps :
      (delta_time type chan byte1 byte2 : ℕ) (r : AbcReader)
      → Keeps r
      → IfOk Keeps (write_midi_event delta_time type chan byte1 byte2 r)
  unfolding write_midi_event midi_event begin_note
  write_midi_event-Keeps delta_time type chan byte1 byte2 r k =
      IfOk-bind (advance (bar_ticks r) delta_time r.current_position) _ Keeps
        (IfOk-any (advance (bar_ticks r) delta_time r.current_position))
        (λ p u. elim (Bool-cases (type == note_on)) [
          | inl e ↦ rw e k
          | inr e ↦ elim (Bool-cases (type == note_off)) [
            | inl e' ↦ rw (e, e') (end_note-Keeps chan byte1 (record r { current_position = p }) k)
            | inr e' ↦ rw (e, e') k
          ]
        ])

  track_call-Keeps : (c : TrackCall) (r : AbcReader) → Keeps r → IfOk Keeps (track_call c r)
  unfolding track_call
  track_call-Keeps tempo r k = k
  track_call-Keeps (meta type bytes) r k = write_meta_event-Keeps type bytes r k
  track_call-Keeps (midi delta_time type chan byte1 byte2) r k =
      write_midi_event-Keeps delta_time type chan byte1 byte2 r k
  track_call-Keeps tuning r k = k
  track_call-Keeps (error e) r k = k
  track_call-Keeps (warning e) r k = k

  track_calls-Keeps :
      (cs : List TrackCall) (r : AbcReader) → Keeps r → IfOk Keeps (track_calls cs r)
  unfolding track_calls
  track_calls-Keeps [] r k = k
  track_calls-Keeps (c ∷ cs) r k =
      IfOk-bind (track_call c r) (track_calls cs) Keeps (track_call-Keeps c r k)
        (track_calls-Keeps cs)

  write_tracks-Keeps :
      (i : ℕ) (tracks : List (List TrackCall)) (r : AbcReader)
      → Keeps r
      → IfOk Keeps (write_tracks i tracks r)
  unfolding write_tracks start_track
  write_tracks-Keeps i [] r k = k
  write_tracks-Keeps i (calls ∷ more) r k =
      IfOk-bind (track_calls calls (start_track i r)) (write_tracks (suc i) more) Keeps
        (track_calls-Keeps calls (start_track i r) k) (write_tracks-Keeps (suc i) more)

  -- A new tune is the newest; the oldest is as before.
  mfwrite-Keeps :
      (division : ℕ) (tracks : List (List TrackCall)) (r : AbcReader)
      → oldest r.tunes ≡ some old
      → IfOk Keeps (abc_call (mfwrite division tracks) r)
  unfolding abc_call start_sequence
  mfwrite-Keeps division tracks r o = elim (Bool-cases (r.beat_unit == 0)) [
    | inl e ↦ rw e tt
    | inr e ↦ rw e (write_tracks-Keeps 0 tracks _ o)
  ]

  oldest-Kept : (tunes : List Tune) → Kept tunes → oldest tunes ≡ some old
  oldest-Kept [] k = absurd k
  oldest-Kept (t ∷ []) k = cc
  oldest-Kept (t ∷ u ∷ ts) k = k

  parse_abc-Keeps : (cs : List AbcCall) (r : AbcReader) → Keeps r → IfOk Keeps (parse_abc cs r)
  unfolding parse_abc abc_call
  parse_abc-Keeps [] r k = k
  parse_abc-Keeps (call c ∷ cs) r k =
      IfOk-bind (track_call c r) (parse_abc cs) Keeps (track_call-Keeps c r k) (parse_abc-Keeps cs)
  parse_abc-Keeps (mfwrite division tracks ∷ cs) r k =
      IfOk-bind (abc_call (mfwrite division tracks) r) (parse_abc cs) Keeps
        (mfwrite-Keeps division tracks r (oldest-Kept r.tunes k)) (parse_abc-Keeps cs)

  first_tune-oldest : (t : Tune) (ts : List Tune) → oldest (t ∷ ts) ≡ some (first_tune t ts)
  unfolding first_tune
  first_tune-oldest t [] = refl
  first_tune-oldest t (u ∷ ts) = first_tune-oldest u ts

  -- The outcome is an exception, or the old tune.
  abbrev pub IsOld : AbcReader × Outcome Tune → Type 0
  IsOld (r, failed e) = Unit {0}
  IsOld (r, found t) = t ≡ old

  take_tune-IsOld :
      (r : AbcReader) (es : List AbcError) (ts : List Tune)
      → r.errors ≡ es
      → r.tunes ≡ ts
      → Kept ts
      → IfOk IsOld (take_tune r)
  take_tune-IsOld r es [] e f k = absurd k
  take_tune-IsOld r (x ∷ es) (t ∷ ts) e f k = rw (e, take_tune) tt
  take_tune-IsOld r [] (t ∷ ts) e f k =
      rw (e, f, take_tune) (cc (first_tune-oldest t ts, oldest-Kept (t ∷ ts) k))

  IfOk-read : (r : Result AbcReader) → IfOk Keeps r → IfOk IsOld (r >>= take_tune)
  IfOk-read r k =
      IfOk-bind r take_tune IsOld k (λ a h. take_tune-IsOld a a.errors a.tunes refl refl h)

-- Where a tune is left in the reader, `readTune` on a text that begins with a tune reads, if it reads
-- one at all, that old tune.
pub read_tune-IsOld :
    (old : Tune) (division : ℕ) (tracks : List (List TrackCall)) (cs : List AbcCall) (r : AbcReader)
    → oldest r.tunes ≡ some old
    → IfOk (IsOld old) (read_tune (mfwrite division tracks ∷ cs) r)
unfolding read_tune parse_abc
read_tune-IsOld old division tracks cs r o =
    IfOk-read old (parse_abc (mfwrite division tracks ∷ cs) r') (
      IfOk-bind (abc_call (mfwrite division tracks) r') (parse_abc cs) (Keeps old)
        (mfwrite-Keeps old division tracks r' o) (parse_abc-Keeps old cs))
  where
    r' : AbcReader
    r' = record r { errors = [] }
