-- ===== src/Mml/Timed.antt =====
-- src/mmlreader.cpp against a score in ticks.
use bipscript.Prelude.{
  ℕ, ◌+◌, ◌≤◌, ◌<◌, ◌≡◌, refl, sym, ap, subst, ◌∙◌, inl, inr, List, [], ◌∷◌, ◌++◌, map, ◌==◌,
  if◌then◌else◌, Bool-cases, ==_iff, arith, ok, Returns, Returns-map, Returns-bind,
}
use mathlib.Core.List.{append_assoc, append-nil}
use bipscript.Prelude.Int.{pos}
use bipscript.Position.{u32, max_denominator, Duration, Position, make_duration, add}
use bipscript.Position.Clock.{
  start, advance, Carried, NowAt, IsAt, make_duration-Carried, add-IsAt, advance-IsAt,
}
use bipscript.Midi.{PatternNote, Pattern}
use bipscript.Mml.{
  MmlInfo, note, rest, other, MmlReader, TimeSignature, note_at, hold, sound, process_note,
  process_rest, mml_callback, fetch_all, bar_ticks, read,
}

-- A note of a score: its pitch, its start in ticks, and its length.
pub record Scored : Type 0 where
  pub pitch : ℕ
  pub begin : ℕ
  pub ticks : ℕ

abbrev pub scored : ℕ → ℕ → ℕ → Scored
scored begin ticks pitch = record { pitch = pitch; begin = begin; ticks = ticks }

-- What is to be heard at `t` while `chord` is held: a chord begins with the note that ends it, and is
-- as long.
abbrev pub heard : ℕ → List ℕ → MmlInfo → List Scored
heard t chord (note number ticks) =
    if ticks == 0 then [] else map (scored t ticks) chord ++ scored t ticks number ∷ []
heard t chord (rest ticks) = []
heard t chord other = []

-- The chord that is held then; a rest drops it.
abbrev pub held : List ℕ → MmlInfo → List ℕ
held chord (note number ticks) = if ticks == 0 then hold number chord else []
held chord (rest ticks) = []
held chord other = chord

abbrev pub ticks_of : MmlInfo → ℕ
ticks_of (note number ticks) = ticks
ticks_of (rest ticks) = ticks
ticks_of other = 0

abbrev pub score : ℕ → List ℕ → List MmlInfo → List Scored
score t chord [] = []
score t chord (info ∷ infos) =
    heard t chord info ++ score (t + ticks_of info) (held chord info) infos

abbrev pub total : List MmlInfo → ℕ
total [] = 0
total (info ∷ infos) = ticks_of info + total infos

-- The chord that is held at the end.
abbrev pub left_over : List ℕ → List MmlInfo → List ℕ
left_over chord [] = chord
left_over chord (info ∷ infos) = left_over (held chord info) infos

module _ (d : ℕ) where
  -- The note of a pattern that a note of a score stands for, `d` ticks to a bar.
  pub record Plays (s : Scored) (n : PatternNote) : Type 0 where
    pub pitch : n.note.value ≡ pos s.pitch
    pub velocity : n.note.vel ≡ 127
    pub begin : NowAt d s.begin n.position
    pub ticks : Carried 0 s.ticks d n.note.duration

  abbrev pub PlaysAll : List Scored → Pattern → Type 0
  PlaysAll [] [] = Unit {0}
  PlaysAll [] (n ∷ ns) = ⊥
  PlaysAll (s ∷ ss) [] = ⊥
  PlaysAll (s ∷ ss) (n ∷ ns) = Plays s n × PlaysAll ss ns

  PlaysAll-append :
      (ss ss' : List Scored) (ns ns' : Pattern)
      → PlaysAll ss ns
      → PlaysAll ss' ns'
      → PlaysAll (ss ++ ss') (ns ++ ns')
  PlaysAll-append [] ss' [] ns' h k = k
  PlaysAll-append [] ss' (n ∷ ns) ns' h k = absurd h
  PlaysAll-append (s ∷ ss) ss' [] ns' h k = absurd h
  PlaysAll-append (s ∷ ss) ss' (n ∷ ns) ns' h k = (h.0, PlaysAll-append ss ss' ns ns' h.1 k)

  PlaysAll-map :
      (t ticks : ℕ) (p : Position) (a : Duration) (pitches : List ℕ)
      → NowAt d t p
      → Carried 0 ticks d a
      → PlaysAll (map (scored t ticks) pitches) (map (note_at p a) pitches)
  PlaysAll-map t ticks p a [] h k = tt
  PlaysAll-map t ticks p a (x ∷ xs) h k = (
    record { pitch = refl; velocity = refl; begin = h; ticks = k },
    PlaysAll-map t ticks p a xs h k,
  )

  -- The reader has added these notes, holds this chord, and is at this time.
  pub record Reached (r : MmlReader) (ss : List Scored) (chord : List ℕ) (t : ℕ) (r' : MmlReader)
      : Type 0 where
    pub added : (ns : Pattern) × (r'.pattern ≡ r.pattern ++ ns) × PlaysAll ss ns
    pub holds : r'.chord ≡ chord
    pub now : NowAt d t r'.current_position
    pub bar : r'.ticks_per_bar ≡ d

  Reached-trans :
      (r r' r'' : MmlReader) (ss ss' : List Scored) (chord chord' : List ℕ) (t t' : ℕ)
      → Reached r ss chord t r'
      → Reached r' ss' chord' t' r''
      → Reached r (ss ++ ss') chord' t' r''
  Reached-trans r r' r'' ss ss' chord chord' t t' a b = record {
    added = (
      a.added.0 ++ b.added.0,
      b.added.1 ∙ ap (λ v. v ++ b.added.0) a.added.1 ∙ append_assoc r.pattern a.added.0 b.added.0,
      PlaysAll-append ss ss' a.added.0 b.added.0 a.added.2 b.added.2,
    );
    holds = b.holds;
    now = b.now;
    bar = b.bar;
  }

  module _ (positive : 0 < d) (small : d ≤ max_denominator) where
    sound-Reached :
        (t number ticks : ℕ) (r : MmlReader)
        → r.ticks_per_bar ≡ d
        → d + t + ticks < u32
        → NowAt d t r.current_position
        → Returns
            (sound number ticks r)
            (Reached r (map (scored t ticks) r.chord ++ scored t ticks number ∷ []) [] (t + ticks))
    unfolding sound
    sound-Reached t number ticks r e fits now = rw e (
        Returns-bind (make_duration 0 ticks d) _ _
          (make_duration-Carried ticks d positive small (omega arith))
          (λ a c.
            Returns-bind (add r.current_position a) _ _
              (add-IsAt d t ticks r.current_position a positive small fits now c)
              (λ p i. record {
                added = (
                  map (note_at r.current_position a) r.chord
                      ++ note_at r.current_position a number ∷ [],
                  append_assoc r.pattern (map (note_at r.current_position a) r.chord)
                      (note_at r.current_position a number ∷ []),
                  PlaysAll-append (map (scored t ticks) r.chord) (scored t ticks number ∷ [])
                      (map (note_at r.current_position a) r.chord)
                      (note_at r.current_position a number ∷ [])
                      (PlaysAll-map t ticks r.current_position a r.chord now c)
                      (record { pitch = refl; velocity = refl; begin = now; ticks = c }, tt),
                );
                holds = refl;
                now = inr i;
                bar = refl;
              })))

    -- A call that adds no note.
    silent :
        (r : MmlReader) (chord : List ℕ) (t : ℕ) (p : Position)
        → r.ticks_per_bar ≡ d
        → NowAt d t p
        → Reached r [] chord t (record r { chord = chord; current_position = p })
    silent r chord t p e now = record {
      added = ([], sym (append-nil r.pattern), tt);
      holds = refl;
      now = now;
      bar = e;
    }

    at_once : (t n : ℕ) (p : Position) → n ≡ 0 → NowAt d t p → NowAt d (t + n) p
    at_once t n p e now = subst (λ v. NowAt d v p) (omega arith) now

    mml_callback-Reached :
        (t : ℕ) (info : MmlInfo) (r : MmlReader)
        → r.ticks_per_bar ≡ d
        → d + t + ticks_of info < u32
        → NowAt d t r.current_position
        → Returns
            (mml_callback info r)
            (Reached r (heard t r.chord info) (held r.chord info) (t + ticks_of info))
    unfolding mml_callback process_note process_rest
    mml_callback-Reached t (note number ticks) r e fits now = elim (Bool-cases (ticks == 0)) [
      | inl z ↦ rw z (
          silent r (hold number r.chord) (t + ticks) r.current_position e
            (at_once t ticks r.current_position ((==_iff ticks 0).0 z) now))
      | inr z ↦ rw z (sound-Reached t number ticks r e fits now)
    ]
    mml_callback-Reached t (rest ticks) r e fits now =
        Returns-bind (advance r.ticks_per_bar ticks r.current_position) _ _
          (subst (λ k. Returns (advance k ticks r.current_position) (IsAt d (t + ticks))) (sym e)
            (advance-IsAt d t ticks r.current_position positive small fits now))
          (λ p i. silent r [] (t + ticks) p e (inr i))
    mml_callback-Reached t other r e fits now =
        silent r r.chord (t + 0) r.current_position e (at_once t 0 r.current_position refl now)

    fetch_all-Reached :
        (t : ℕ) (infos : List MmlInfo) (r : MmlReader)
        → r.ticks_per_bar ≡ d
        → d + t + total infos < u32
        → NowAt d t r.current_position
        → Returns
            (fetch_all infos r)
            (Reached r (score t r.chord infos) (left_over r.chord infos) (t + total infos))
    unfolding fetch_all
    fetch_all-Reached t [] r e fits now =
        silent r r.chord (t + 0) r.current_position e (at_once t 0 r.current_position refl now)
    fetch_all-Reached t (info ∷ infos) r e fits now =
        Returns-bind (mml_callback info r) (fetch_all infos) _
          (mml_callback-Reached t info r e (omega arith) now)
          (λ r' a.
            Returns-map (fetch_all infos r')
              (λ r'' b.
                subst
                  (λ v.
                    Reached r (score t r.chord (info ∷ infos)) (left_over r.chord (info ∷ infos)) v
                      r'')
                  (omega arith)
                  (Reached-trans r r' r'' (heard t r.chord info)
                    (score (t + ticks_of info) (held r.chord info) infos) (held r.chord info)
                    (left_over (held r.chord info) infos) (t + ticks_of info)
                    (t + ticks_of info + total infos) a b))
              (subst
                (λ c. Returns (fetch_all infos r') (
                  Reached r' (score (t + ticks_of info) c infos) (left_over c infos)
                    (t + ticks_of info + total infos)))
                a.holds (fetch_all-Reached (t + ticks_of info) infos r' a.bar (omega arith) a.now)))

    -- Where the parser's ticks make a bar of `d`, and the ticks of the text stay below 2 ^ 32, `read`
    -- returns. Its pattern is the score of the text: each note begins as many ticks after bar 1 as the
    -- notes and rests before it last, a chord begins with the note that ends it and is as long, and a
    -- rest drops a chord. A chord that the text before has left is part of this score, and what this
    -- text leaves of one stays for the next.
    pub read-Reached :
        (bticks : ℕ) (time : TimeSignature) (infos : List MmlInfo) (r : MmlReader)
        → bar_ticks bticks time ≡ ok d
        → d + total infos < u32
        → Returns (read bticks time infos r) (λ r'.
          PlaysAll (score 0 r.chord infos) r'.pattern × (r'.chord ≡ left_over r.chord infos))
    unfolding read
    read-Reached bticks time infos r e fits = rw e (
        Returns-map
          (fetch_all infos (record r { ticks_per_bar = d; current_position = start; pattern = [] }))
          (λ r' a. (subst (PlaysAll (score 0 r.chord infos)) (sym a.added.1) a.added.2, a.holds))
          (fetch_all-Reached 0 infos
            (record r { ticks_per_bar = d; current_position = start; pattern = [] }) refl
            (omega arith) (inl (refl, refl))))
