-- ===== src/Midi/Wire.antt =====
-- src/midievent.cpp: the bytes of an event and back.
use bipscript.Prelude.{
  ℕ, ◌+◌, ◌*◌, ◌/◌, ◌%◌, ◌<◌, ◌≡◌, ap₂, List, [], ◌∷◌, Bool, true, false, ◌==◌, if◌then◌else◌, ok,
  arith,
}
use bipscript.Midi.{EventData, u8, program, data_size, pack, unpack}

-- A status in the upper half of the first byte, a channel in the lower.
pub record IsWire (d : EventData) : Type 0 where
  pub upper : d.type % 16 ≡ 0
  pub byte : d.type < u8
  pub lower : d.channel < 16

-- What arrives where an event had been: a program change has one data byte, and the old second.
abbrev pub received : EventData → EventData → EventData
received old d = if d.type == program then record d { databyte2 = old.databyte2 } else d

status_split :
    (t c : ℕ)
    → t % 16 ≡ 0
    → t < u8
    → c < 16
    → (((t + c) % u8) / 16 * 16 ≡ t) × (((t + c) % u8) % 16 ≡ c)
status_split t c u b l = (omega arith, omega arith)

-- An event whose type fills the upper half of a byte and whose channel fits the lower half comes
-- back from its bytes, but for the second data byte of a program change, which is not sent.
pub unpack-pack : (old d : EventData) → IsWire d → unpack (pack d) old ≡ ok (received old d)
unfolding unpack pack data_size
unpack-pack old d w = go (d.type == program)
  where
    split :
        (((d.type + d.channel) % u8) / 16 * 16 ≡ d.type)
        × (((d.type + d.channel) % u8) % 16 ≡ d.channel)
    split = status_split d.type d.channel w.upper w.byte w.lower

    head : ℕ
    head = (d.type + d.channel) % u8

    bytes : Bool → List ℕ
    bytes b =
        if (if b then 1 else 2) == 2
        then head ∷ d.databyte1 ∷ d.databyte2 ∷ []
        else head ∷ d.databyte1 ∷ []

    go :
        (b : Bool)
        → unpack (bytes b) old ≡ ok (if b then record d { databyte2 = old.databyte2 } else d)
    go true =
        ap₂
          (λ t c.
            ok (record {
              type = t;
              databyte1 = d.databyte1;
              databyte2 = old.databyte2;
              channel = c;
            }))
          split.0 split.1
    go false =
        ap₂
          (λ t c.
            ok (record { type = t; databyte1 = d.databyte1; databyte2 = d.databyte2; channel = c }))
          split.0 split.1
