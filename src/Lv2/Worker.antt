-- ===== src/Lv2/Worker.antt =====
-- src/lv2plugin.cpp: `Worker`, between the plugin in the process thread and its work in a thread of its
-- own, with a ring buffer each way. The ring is that of the audio server.
use mathlib.Core.List.{append_assoc, append-nil}
use bipscript.Prelude.{
  ℕ, zero, suc, ◌+◌, ◌-◌, ◌*◌, ◌/◌, ◌%◌, ◌≤◌, ◌<◌, ◌≡◌, refl, sym, ap, ◌∙◌, List, [], ◌∷◌, ◌++◌,
  false, ltb, ◌==◌, if◌then◌else◌, ne→==_false, length, length-append, get_or, arith, Result, ok,
  err, fault, Returns,
}
use bipscript.Position.{u32}

-- `jack_ringbuffer_create(4096)` holds one byte less.
abbrev pub capacity : ℕ
capacity = 4095

-- The size of `response`.
abbrev pub response_size : ℕ
response_size = 2048

-- What is relied on of `jack_ringbuffer_t`: a write that fits is appended, a read of what is there
-- takes it from the front, and the read space is the number of bytes held.
pub record Ring : Type 1 where
  pub R : Type 0
  pub contents : R → List ℕ
  pub write : List ℕ → R → R
  pub read : ℕ → R → List ℕ × R
  pub read_space : R → ℕ
  pub write_fits :
      (bytes : List ℕ) (r : R)
      → length (contents r) + length bytes ≤ capacity
      → contents (write bytes r) ≡ contents r ++ bytes
  pub read_front :
      (bytes rest : List ℕ) (r : R)
      → contents r ≡ bytes ++ rest
      → ((read (length bytes) r).0 ≡ bytes) × (contents (read (length bytes) r).1 ≡ rest)
  pub read_space_lem : (r : R) → read_space r ≡ length (contents r)

-- The bytes of a `uint32_t`, the lowest first.
abbrev pub bytes_of : ℕ → List ℕ
bytes_of n = n % 256 ∷ n / 256 % 256 ∷ n / 65_536 % 256 ∷ n / 16_777_216 % 256 ∷ []

abbrev pub number_of : List ℕ → ℕ
number_of b = get_or b 0 0 + get_or b 1 0 * 256 + get_or b 2 0 * 65_536 + get_or b 3 0 * 16_777_216

module _ (ring : Ring) where
  open ring use {R, contents, write, read, read_space, write_fits, read_front, read_space_lem}

  -- `scheduleWork` and `queueResponse`, each on its ring; the semaphore is not modelled.
  unfoldable pub put : List ℕ → R → R
  put message r = write message (write (bytes_of (length message)) r)

  -- One round of `run`: the message that is given to `work`, whose buffer is as large as it.
  unfoldable pub next_request : R → List ℕ × R
  next_request r = let s = read 4 r in read (number_of s.0) s.1

  abbrev pub responded : List ℕ → Result (List (List ℕ) × R) → Result (List (List ℕ) × R)
  responded message (ok (later, r)) = ok (message ∷ later, r)
  responded message (err text) = err text
  responded message fault = fault

  -- The loop of `respond`, with fuel: what is given to `work_response`. A message that is longer
  -- than `response` is written behind it.
  unfoldable pub respond_from : (fuel read_space : ℕ) → R → Result (List (List ℕ) × R)
  respond_from zero space r = err "out of fuel"
  respond_from (suc fuel) space r =
      let s = read 4 r in
      let size = number_of s.0 in
      let d = read size s.1 in
      let rest = responded d.0 (respond_from fuel ((space + u32 - (4 + size) % u32) % u32) d.1) in
      if space == 0 then ok ([], r) else if ltb response_size size then fault else rest

  unfoldable pub respond : ℕ → R → Result (List (List ℕ) × R)
  respond fuel r = respond_from fuel (read_space r) r

  pub put_all : List (List ℕ) → R → R
  put_all [] r = r
  put_all (m ∷ ms) r = put_all ms (put m r)

  abbrev framed : List (List ℕ) → List ℕ
  framed [] = []
  framed (m ∷ ms) = bytes_of (length m) ++ m ++ framed ms

  -- The bytes that the messages take, and that each fits the response.
  abbrev pub total : List (List ℕ) → ℕ
  total [] = 0
  total (m ∷ ms) = 4 + length m + total ms

  abbrev pub AllShort : List (List ℕ) → Type 0
  AllShort [] = Unit {0}
  AllShort (m ∷ ms) = (length m ≤ response_size) × AllShort ms

  number_of-bytes_of : (n : ℕ) → n < u32 → number_of (bytes_of n) ≡ n
  number_of-bytes_of n h = omega arith

  length-framed : (ms : List (List ℕ)) → length (framed ms) ≡ total ms
  length-framed [] = refl
  length-framed (m ∷ ms) = omega (arith, length-append m (framed ms), length-framed ms)

  contents-put :
      (m : List ℕ) (r : R)
      → length (contents r) + (4 + length m) ≤ capacity
      → contents (put m r) ≡ contents r ++ (bytes_of (length m) ++ m)
  unfolding put
  contents-put m r fits =
      let sized = write_fits (bytes_of (length m)) r (omega arith) in
      write_fits m (write (bytes_of (length m)) r)
        (omega (arith, ap length sized, length-append (contents r) (bytes_of (length m))))
      ∙ ap (λ v. v ++ m) sized
      ∙ append_assoc (contents r) (bytes_of (length m)) m

  contents-put_all :
      (ms : List (List ℕ)) (r : R)
      → length (contents r) + total ms ≤ capacity
      → contents (put_all ms r) ≡ contents r ++ framed ms
  unfolding put_all
  contents-put_all [] r fits = sym (append-nil (contents r))
  contents-put_all (m ∷ ms) r fits =
      let one = contents-put m r (omega arith) in
      contents-put_all ms (put m r)
        (omega (arith, ap length one, length-append (contents r) (bytes_of (length m) ++ m)))
      ∙ ap (λ v. v ++ framed ms) one
      ∙ append_assoc (contents r) (bytes_of (length m) ++ m) (framed ms)

  -- A message at the front is read whole.
  pub record ReadMessage (m rest : List ℕ) (r : R) : Type 0 where
    pub size : number_of (read 4 r).0 ≡ length m
    pub message : (read (length m) (read 4 r).1).0 ≡ m
    pub behind : contents (read (length m) (read 4 r).1).1 ≡ rest

  read_message :
      (m rest : List ℕ) (r : R)
      → length m < u32
      → contents r ≡ bytes_of (length m) ++ (m ++ rest)
      → ReadMessage m rest r
  read_message m rest r small e =
      let s = read_front (bytes_of (length m)) (m ++ rest) r e in
      let d = read_front m rest (read 4 r).1 s.1 in
      record {
        size = ap number_of s.0 ∙ number_of-bytes_of (length m) small;
        message = d.0;
        behind = d.1;
      }

  -- The responses are those messages, and the ring is empty.
  abbrev pub Responds : List (List ℕ) → List (List ℕ) × R → Type 0
  Responds ms p = (p.0 ≡ ms) × (contents p.1 ≡ [])

  responded-Responds :
      (m m' : List ℕ) (ms : List (List ℕ)) (o : Result (List (List ℕ) × R))
      → m' ≡ m
      → Returns o (Responds ms)
      → Returns (responded m' o) (Responds (m ∷ ms))
  responded-Responds m m' ms fault e h = absurd h
  responded-Responds m m' ms (err text) e h = absurd h
  responded-Responds m m' ms (ok (later, r)) e h = (rw (e, h.0) refl, h.1)

  respond_from-Responds :
      (fuel space : ℕ) (ms : List (List ℕ)) (r : R)
      → length ms < fuel
      → space ≡ total ms
      → total ms ≤ capacity
      → AllShort ms
      → contents r ≡ framed ms
      → Returns (respond_from fuel space r) (Responds ms)
  unfolding respond_from
  respond_from-Responds zero space ms r h e fits short c = absurd (omega arith)
  respond_from-Responds (suc fuel) space [] r h e fits short c = rw e (refl, c)
  respond_from-Responds (suc fuel) space (m ∷ ms) r h e fits short c =
      rw (ne→==_false space 0 (λ z. omega arith), k.size, long)
        (responded-Responds m (read (length m) (read 4 r).1).0 ms _ k.message (
          respond_from-Responds fuel ((space + u32 - (4 + length m) % u32) % u32) ms
            (read (length m) (read 4 r).1).1 (omega arith) (omega arith) (omega arith) short.1
            k.behind))
    where
      k : ReadMessage m (framed ms) r
      k = read_message m (framed ms) r (omega arith) c

      long : ltb response_size (length m) ≡ false
      long = ground arith

  -- Messages that fit the ring together, and the response each, are given to the plugin in their order
  -- by one call of `respond` with more fuel than there are messages, and the ring is empty after it.
  pub respond-put_all :
      (fuel : ℕ) (ms : List (List ℕ)) (r : R)
      → contents r ≡ []
      → total ms ≤ capacity
      → AllShort ms
      → length ms < fuel
      → Returns (respond fuel (put_all ms r)) (Responds ms)
  unfolding respond
  respond-put_all fuel ms r empty fits short h =
      let c =
        contents-put_all ms r (omega (arith, ap length empty)) ∙ ap (λ v. v ++ framed ms) empty in
      respond_from-Responds fuel (read_space (put_all ms r)) ms (put_all ms r) h
        (read_space_lem (put_all ms r) ∙ ap length c ∙ length-framed ms) fits short c
