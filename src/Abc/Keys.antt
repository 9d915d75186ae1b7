-- ===== src/Abc/Keys.antt =====
-- src/abcreader.cpp: the keys that a track presses and releases, against a score in ticks.
use bipscript.Prelude.{
  ℕ, zero, suc, ◌+◌, ◌-◌, ◌≤◌, ◌<◌, ◌≡◌, refl, sym, ap, subst, ◌∙◌, inl, inr, List, [], ◌∷◌, ◌++◌,
  Option, none, some, ◌==◌, if◌then◌else◌, Bool-cases, Option-cases, ==_iff, get_elem?, set, arith,
  Result, ok, ◌>>=◌, Returns,
}
use bipscript.Position.{u32, Position}
use bipscript.Position.Clock.{IsAt, sub-IsAt}
use bipscript.Midi.{note_on, note_off, Note, PatternNote, Pattern}
use bipscript.Abc.{
  Tune, AbcReader, update, with_tune, add_midi_note, key_of, new_note, insert, begin_note, erase,
  end_note, midi_event,
}
use bipscript.Abc.Score.{
  Held, Sound, Score, press, released, score_event, IsHeld, KeyMatches, PlaysAll-snoc, Writes,
  Follows,
}

with_tune_lem :
    (change : Tune → Result Tune) (r : AbcReader) (t t' : Tune) (ts : List Tune)
    → r.tunes ≡ t ∷ ts
    → change t ≡ ok t'
    → with_tune change r ≡ ok (record r { tunes = t' ∷ ts })
with_tune_lem change r t t' ts e c = rw (e, with_tune) (rw c refl)

set_there :
    {A : Type 0} (xs : List A) (i : ℕ) (v y : A)
    → get_elem? xs i ≡ some y
    → get_elem? (set xs i v) i ≡ some v
set_there [] i v y e = cc
set_there (x ∷ xs) zero v y e = refl
set_there (x ∷ xs) (suc i) v y e = set_there xs i v y e

add_midi_note_lem :
    (track : ℕ) (n : PatternNote) (t : Tune) (notes : Pattern)
    → get_elem? t.tracks track ≡ some notes
    → add_midi_note track n t ≡ ok (record t { tracks = set t.tracks track (notes ++ n ∷ []) })
unfolding add_midi_note
add_midi_note_lem track n t notes e = rw (e, add_midi_note) refl

time-released : (key : ℕ) (h : Option Held) (s : Score) → (released key h s).time ≡ s.time
time-released key none s = refl
time-released key (some h) s = refl

pub time-score_event :
    (type chan byte1 byte2 : ℕ) (s : Score) → (score_event type chan byte1 byte2 s).time ≡ s.time
time-score_event type chan byte1 byte2 s = elim (Bool-cases (type == note_on)) [
  | inl e ↦ rw e refl
  | inr e ↦ elim (Bool-cases (type == note_off)) [
    | inl e' ↦ rw (e, e') (time-released key (s.keys key) s)
    | inr e' ↦ rw (e, e') refl
  ]
]
  where
    key : ℕ
    key = key_of byte1 chan

module _ (d : ℕ) where
  later :
      (time time' : ℕ) (h : Option Held) (n : Option Note) (p : Position)
      → time ≤ time'
      → KeyMatches d time h n p
      → KeyMatches d time' h n p
  later time time' none none p le k = tt
  later time time' none (some n) p le k = absurd k
  later time time' (some h) none p le k = absurd k
  later time time' (some h) (some n) p le k = record {
    pitch = k.pitch;
    velocity = k.velocity;
    channel = k.channel;
    begin = k.begin;
    past = omega (arith, k.past);
  }

  abbrev kept : Option Note → Note → Note
  kept none n = n
  kept (some there) n = there

  insert-elem :
      (key : ℕ) (n : Note) (notes : ℕ → Option Note) (key' : ℕ)
      → insert key n notes key' ≡ (if key == key' then some (kept (notes key) n) else notes key')
  insert-elem key n notes key' = elim (Option-cases (notes key)) [
    | inl e ↦ rw (e, insert) refl
    | inr (there, e) ↦ elim (Bool-cases (key == key')) [
      | inl same ↦ rw (e, insert, same) (ap notes (sym ((==_iff key key').0 same)) ∙ e)
      | inr other ↦ rw (e, insert, other) refl
    ]
  ]

  pressed :
      (time chan byte1 byte2 : ℕ) (h : Option Held) (n : Option Note) (p q : Position)
      → IsAt d time p
      → KeyMatches d time h n q
      → KeyMatches d time
          (some (press time chan byte1 byte2 h))
          (some (kept n (new_note byte1 byte2 chan)))
          p
  pressed time chan byte1 byte2 none none p q i k = record {
    pitch = refl;
    velocity = refl;
    channel = refl;
    begin = i;
    past = omega arith;
  }
  pressed time chan byte1 byte2 none (some n) p q i k = absurd k
  pressed time chan byte1 byte2 (some h) none p q i k = absurd k
  pressed time chan byte1 byte2 (some h) (some n) p q i k = record {
    pitch = k.pitch;
    velocity = k.velocity;
    channel = k.channel;
    begin = i;
    past = omega arith;
  }

  begin_note-Follows :
      (track chan byte1 byte2 : ℕ) (s : Score) (r : AbcReader)
      → IsAt d s.time r.current_position
      → Follows d track s r
      → let key = key_of byte1 chan in
        Follows d track
          (record s {
            keys = update key (some (press s.time chan byte1 byte2 (s.keys key))) s.keys;
          })
          (begin_note chan byte1 byte2 r)
  unfolding begin_note
  begin_note-Follows track chan byte1 byte2 s r i f = record {
    now = inr i;
    bar = f.bar;
    active = f.active;
    keys = λ key'. elim (Bool-cases (key == key')) [
      | inl same ↦
          rw (insert-elem key (new_note byte1 byte2 chan) r.active_note key', same)
            (pressed s.time chan byte1 byte2 (s.keys key) (r.active_note key) r.current_position
              (r.note_start key) i (f.keys key))
      | inr other ↦
          rw (insert-elem key (new_note byte1 byte2 chan) r.active_note key', other) (f.keys key')
    ];
    writes = f.writes;
  }
    where
      key : ℕ
      key = key_of byte1 chan

  -- What `end_note` leaves where the key is down.
  abbrev ended : ℕ → ℕ → Sound → Note → AbcReader → Tune → List Tune → Pattern → AbcReader
  ended key track s n r t ts notes = record r {
    active_note = update key none r.active_note;
    tunes =
        record t {
          tracks = set t.tracks track (
              notes
              ++ record {
                note = record n {
                  duration = record { whole = 0; position = s.ticks; division = d };
                };
                position = r.note_start key;
              }
                ∷ []);
        }
        ∷ ts;
  }

  end_note-ended :
      (track chan byte1 : ℕ) (s : Score) (h : Held) (n : Note) (r : AbcReader)
      (w : Writes d track s.sounds r.tunes)
      → d + s.time < u32
      → IsAt d s.time r.current_position
      → r.active_track ≡ track
      → let key = key_of byte1 chan in
        r.active_note key ≡ some n
        → IsHeld d s.time h n (r.note_start key)
        → end_note chan byte1 r
          ≡ ok (
              ended key track
                (record { held = h; ticks = s.time - h.begin })
                n
                r
                w.tune
                w.older
                w.notes)
  unfolding end_note
  end_note-ended track chan byte1 s h n r w fits i active e k =
      rw (e, end_note)
        (rw (sub-IsAt d s.time h.begin r.current_position (r.note_start key) i k.begin k.past fits)
          (ap (λ o. o >>= λ r'. ok (erase key r'))
            (with_tune_lem _ r w.tune _ w.older w.last (
              subst
                (λ v.
                  add_midi_note v sounded w.tune
                  ≡ ok (record w.tune {
                    tracks = set w.tune.tracks track (w.notes ++ sounded ∷ []);
                  }))
                (sym active) (add_midi_note_lem track sounded w.tune w.notes w.has)))))
    where
      key : ℕ
      key = key_of byte1 chan

      sounded : PatternNote
      sounded = record {
        note = record n {
          duration = record { whole = 0; position = s.time - h.begin; division = d };
        };
        position = r.note_start key;
      }

  ended-Follows :
      (track key : ℕ) (s : Score) (h : Held) (n : Note) (r : AbcReader)
      → IsAt d s.time r.current_position
      → (f : Follows d track s r) → IsHeld d s.time h n (r.note_start key)
      → Follows d track (released key (some h) s) (
          ended key track
            (record { held = h; ticks = s.time - h.begin })
            n
            r
            f.writes.tune
            f.writes.older
            f.writes.notes)
  ended-Follows track key s h n r i f k = record {
    now = inr i;
    bar = f.bar;
    active = f.active;
    keys = λ key'. elim (Bool-cases (key == key')) [
      | inl same ↦ rw same tt
      | inr differ ↦ rw differ (f.keys key')
    ];
    writes = record {
      tune = _;
      older = f.writes.older;
      last = refl;
      notes = _;
      has = set_there f.writes.tune.tracks track _ f.writes.notes f.writes.has;
      plays = PlaysAll-snoc d s.sounds f.writes.notes _ _ f.writes.plays (record {
        pitch = k.pitch;
        velocity = k.velocity;
        channel = k.channel;
        begin = k.begin;
        duration = refl;
      });
    };
  }

  end_note-Follows :
      (track chan byte1 : ℕ) (s : Score) (r : AbcReader) (h : Option Held) (n : Option Note)
      → d + s.time < u32
      → IsAt d s.time r.current_position
      → Follows d track s r
      → r.active_note (key_of byte1 chan) ≡ n
      → KeyMatches d s.time h n (r.note_start (key_of byte1 chan))
      → Returns (end_note chan byte1 r) (Follows d track (released (key_of byte1 chan) h s))
  unfolding end_note
  end_note-Follows track chan byte1 s r none none fits i f e k = rw (e, end_note) f
  end_note-Follows track chan byte1 s r none (some n) fits i f e k = absurd k
  end_note-Follows track chan byte1 s r (some h) none fits i f e k = absurd k
  end_note-Follows track chan byte1 s r (some h) (some n) fits i f e k =
      subst (λ o. Returns o (Follows d track (released (key_of byte1 chan) (some h) s)))
        (sym (end_note-ended track chan byte1 s h n r f.writes fits i f.active e k))
        (ended-Follows track (key_of byte1 chan) s h n r i f k)

  pub midi_event-Follows :
      (track type chan byte1 byte2 : ℕ) (s : Score) (r : AbcReader)
      → d + s.time < u32
      → IsAt d s.time r.current_position
      → Follows d track s r
      → Returns
          (midi_event type chan byte1 byte2 r)
          (Follows d track (score_event type chan byte1 byte2 s))
  unfolding midi_event
  midi_event-Follows track type chan byte1 byte2 s r fits i f =
      elim (Bool-cases (type == note_on)) [
        | inl e ↦ rw e (begin_note-Follows track chan byte1 byte2 s r i f)
        | inr e ↦ elim (Bool-cases (type == note_off)) [
          | inl e' ↦
              rw (e, e')
                (end_note-Follows track chan byte1 s r (s.keys key) (r.active_note key) fits i f
                  refl (f.keys key))
          | inr e' ↦ rw (e, e') f
        ]
      ]
    where
      key : ℕ
      key = key_of byte1 chan

  pub at_position :
      (track t : ℕ) (s : Score) (r : AbcReader) (p : Position)
      → s.time ≤ t
      → IsAt d t p
      → Follows d track s r
      → Follows d track (record s { time = t }) (record r { current_position = p })
  at_position track t s r p le i f = record {
    now = inr i;
    bar = f.bar;
    active = f.active;
    keys =
        λ key. later s.time t (s.keys key) (r.active_note key) (r.note_start key) le (f.keys key);
    writes = f.writes;
  }
