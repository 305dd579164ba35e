-- ===== src/Tokiort/Reading.antt =====
-- Reading through `TokioIo` in either direction: the buffers stay sound, and no call panics.
use mathlib.Core.List.{append_assoc}
use socks_hub.Prelude.{
  ℕ, ◌+◌, ◌≤◌, ◌<◌, ◌≡◌, refl, sym, ap, ◌∙◌, List, ◌++◌, none, some, arith, length, take, drop,
  length-append, length-take, length-drop, take-append, leb, if◌then◌else◌,
}
use socks_hub.Tokiort.{
  ready, BufferOps, capacity, filled, unfilled_len, Buffers, Reader, Polled, polled,
  hyper_poll_read, tokio_poll_read,
}

-- The regions that both crates document: the filled one within the initialized one, and that within
-- the memory.
pub record IsBuffer {Buf : Type 0} (ops : BufferOps Buf) (b : Buf) : Type 0 where
  pub filled-le : ops.filled_len b ≤ ops.initialized_len b
  pub initialized-le : ops.initialized_len b ≤ capacity ops b

-- Fresh memory has nothing filled, and bytes that are put at the start of the unfilled part change
-- these bytes alone and no length.
pub record BufferLaws {Buf : Type 0} (ops : BufferOps Buf) : Type 0 where
  pub capacity-uninit : (n : ℕ) → length (ops.memory (ops.uninit n)) ≡ n
  pub filled_len-uninit : (n : ℕ) → ops.filled_len (ops.uninit n) ≡ 0
  pub uninit-IsBuffer : (n : ℕ) → IsBuffer ops (ops.uninit n)
  pub filled_len-write :
      (b : Buf) (bytes : List ℕ) → ops.filled_len (ops.write b bytes) ≡ ops.filled_len b
  pub initialized_len-write :
      (b : Buf) (bytes : List ℕ) → ops.initialized_len (ops.write b bytes) ≡ ops.initialized_len b
  pub memory-write :
      (b : Buf) (bytes : List ℕ)
      → ops.filled_len b + length bytes ≤ length (ops.memory b)
      → ops.memory (ops.write b bytes)
        ≡ take (ops.filled_len b) (ops.memory b)
          ++ (bytes ++ drop (ops.filled_len b + length bytes) (ops.memory b))

-- What tokio documents of `assume_init` and `set_filled`, and hyper of `advance`.
pub record BuffersLaws (c : Buffers) : Type 0 where
  pub tokio : BufferLaws c.tokio
  pub hyper : BufferLaws c.hyper
  pub memory-assume_init :
      (b : c.TokioBuf) (n : ℕ) → c.tokio.memory (c.assume_init b n) ≡ c.tokio.memory b
  pub filled_len-assume_init :
      (b : c.TokioBuf) (n : ℕ) → c.tokio.filled_len (c.assume_init b n) ≡ c.tokio.filled_len b
  pub initialized_len-assume_init :
      (b : c.TokioBuf) (n : ℕ)
      → c.tokio.initialized_len (c.assume_init b n) ≡ (
          if leb (c.tokio.filled_len b + n) (c.tokio.initialized_len b)
          then c.tokio.initialized_len b
          else c.tokio.filled_len b + n)
  -- it panics where the filled region would become larger than the initialized one
  pub set_filled-none :
      (b : c.TokioBuf) (n : ℕ) → c.tokio.initialized_len b < n → c.set_filled b n ≡ none
  pub set_filled-some :
      (b : c.TokioBuf) (n : ℕ)
      → n ≤ c.tokio.initialized_len b
      → (b' : c.TokioBuf) × (c.set_filled b n ≡ some b')
        × (c.tokio.memory b' ≡ c.tokio.memory b)
        × (c.tokio.filled_len b' ≡ n)
        × (c.tokio.initialized_len b' ≡ c.tokio.initialized_len b)
  pub advance-some :
      (b : c.HyperBuf) (n : ℕ)
      → c.hyper.filled_len b + n ≤ length (c.hyper.memory b)
      → (b' : c.HyperBuf) × (c.advance b n ≡ some b')
        × (c.hyper.memory b' ≡ c.hyper.memory b)
        × (c.hyper.filled_len b' ≡ c.hyper.filled_len b + n)
        × (c.hyper.initialized_len b' ≡ (
            if leb (c.hyper.filled_len b + n) (c.hyper.initialized_len b)
            then c.hyper.initialized_len b
            else c.hyper.filled_len b + n))

-- A stream fills no more bytes than the buffer has room for.
abbrev pub Fits : Reader → Type 0
Fits inner = (n : ℕ) (bytes : List ℕ) → inner n ≡ ready bytes → length bytes ≤ n

-- The memory after a write, cut off behind the new bytes.
take-write :
    (f : ℕ) (bytes memory : List ℕ)
    → f + length bytes ≤ length memory
    → take (f + length bytes) (take f memory ++ (bytes ++ drop (f + length bytes) memory))
      ≡ take f memory ++ bytes
take-write f bytes memory h =
    let rest = drop (f + length bytes) memory in
    let size : f + length bytes ≡ length (take f memory ++ bytes) =
      omega (arith, length-append (take f memory) bytes, length-take f memory) in
    ap (λ n. take n (take f memory ++ (bytes ++ rest))) size
    ∙ ap (take (length (take f memory ++ bytes))) (sym (append_assoc (take f memory) bytes rest))
    ∙ take-append (take f memory ++ bytes) rest

length-write :
    (f : ℕ) (bytes memory : List ℕ)
    → f + length bytes ≤ length memory
    → length (take f memory ++ (bytes ++ drop (f + length bytes) memory)) ≡ length memory
length-write f bytes memory h =
    let rest = drop (f + length bytes) memory in
    omega (
      arith,
      length-append (take f memory) (bytes ++ rest),
      length-append bytes rest,
      length-take f memory,
      length-drop (f + length bytes) memory,
    )

-- The caller's buffer comes back with the bytes behind what was filled before.
abbrev pub Grown : {Buf : Type 0} → BufferOps Buf → Buf → List ℕ → Polled Buf → Type 0
Grown {Buf} ops b bytes outcome =
    (b' : Buf) × (outcome ≡ some (ready b'))
    × (filled ops b' ≡ filled ops b ++ bytes)
    × (capacity ops b' ≡ capacity ops b)
    × IsBuffer ops b'

module _ {Buf : Type 0} (ops : BufferOps Buf) (laws : BufferLaws ops) where
  -- A buffer whose memory was written and whose filled region then took the bytes in.
  written-Grown :
      (b b' : Buf) (bytes : List ℕ)
      → IsBuffer ops b
      → ops.filled_len b + length bytes ≤ length (ops.memory b)
      → ops.memory b' ≡ ops.memory (ops.write b bytes)
      → ops.filled_len b' ≡ ops.filled_len b + length bytes
      → ops.initialized_len b' ≡ (
          if leb (ops.filled_len b + length bytes) (ops.initialized_len b)
          then ops.initialized_len b
          else ops.filled_len b + length bytes)
      → (filled ops b' ≡ filled ops b ++ bytes)
        × (capacity ops b' ≡ capacity ops b)
        × IsBuffer ops b'
  written-Grown b b' bytes sound room memory filled_to initialized_to =
      let same : ops.memory b'
          ≡ take (ops.filled_len b) (ops.memory b)
            ++ (bytes ++ drop (ops.filled_len b + length bytes) (ops.memory b)) =
        memory ∙ laws.memory-write b bytes room in
      let size : capacity ops b' ≡ capacity ops b =
        ap length same ∙ length-write (ops.filled_len b) bytes (ops.memory b) room in
      let within = sound.initialized-le in
      (
        rw (filled_to, same) (take-write (ops.filled_len b) bytes (ops.memory b) room),
        size,
        record { filled-le = ground arith; initialized-le = ground arith },
      )

module _ (c : Buffers) (laws : BuffersLaws c) (inner : Reader) (fits : Fits inner) where
  -- Where the inner stream of a `TokioIo` is hyper's and fills no more than it is offered, and the
  -- buffer's regions are sound: `set_filled` does not panic, the caller's buffer has the bytes
  -- behind what was filled before, as much memory as before, and sound regions.
  pub tokio_poll_read-Grown :
      (tbuf : c.TokioBuf) (bytes : List ℕ)
      → IsBuffer c.tokio tbuf
      → inner (unfilled_len c.tokio tbuf) ≡ ready bytes
      → Grown c.tokio tbuf bytes (tokio_poll_read c inner tbuf)
  unfolding tokio_poll_read
  tokio_poll_read-Grown tbuf bytes sound delivered =
      let l = laws.tokio in
      let filled_within = sound.filled-le in
      let memory_within = sound.initialized-le in
      let short = fits (unfilled_len c.tokio tbuf) bytes delivered in
      let room : c.tokio.filled_len tbuf + length bytes ≤ length (c.tokio.memory tbuf) =
        omega arith in
      let written = c.tokio.write tbuf bytes in
      let marked = c.assume_init written (length bytes) in
      let enough : c.tokio.filled_len tbuf + length bytes ≤ c.tokio.initialized_len marked =
        ground (
          arith,
          laws.initialized_len-assume_init written (length bytes),
          l.filled_len-write tbuf bytes,
        ) in
      let (b', set, memory, filled_to, initialized_to) =
        laws.set_filled-some marked (c.tokio.filled_len tbuf + length bytes) enough in
      let (bytes_behind, size, sound') =
        written-Grown c.tokio l tbuf b' bytes sound room
          (memory ∙ laws.memory-assume_init written (length bytes)) filled_to
          (initialized_to
            ∙ laws.initialized_len-assume_init written (length bytes)
            ∙ rw (l.filled_len-write tbuf bytes, l.initialized_len-write tbuf bytes) refl) in
      (b', rw (delivered, tokio_poll_read) (ap polled set), bytes_behind, size, sound')

  -- The same of the other direction, where the caller's buffer is hyper's, for `advance`.
  pub hyper_poll_read-Grown :
      (buf : c.HyperBuf) (bytes : List ℕ)
      → IsBuffer c.hyper buf
      → inner (unfilled_len c.hyper buf) ≡ ready bytes
      → Grown c.hyper buf bytes (hyper_poll_read c inner buf)
  unfolding hyper_poll_read
  hyper_poll_read-Grown buf bytes sound delivered =
      let l = laws.hyper in
      let filled_within = sound.filled-le in
      let memory_within = sound.initialized-le in
      let short = fits (unfilled_len c.hyper buf) bytes delivered in
      let room : c.hyper.filled_len buf + length bytes ≤ length (c.hyper.memory buf) =
        omega arith in
      let written = c.hyper.write buf bytes in
      let same_size : length (c.hyper.memory written) ≡ length (c.hyper.memory buf) =
        ap length (l.memory-write buf bytes room)
        ∙ length-write (c.hyper.filled_len buf) bytes (c.hyper.memory buf) room in
      let (b', advanced, memory, filled_to, initialized_to) =
        laws.advance-some written (length bytes) (omega (arith, l.filled_len-write buf bytes)) in
      let (bytes_behind, size, sound') =
        written-Grown c.hyper l buf b' bytes sound room memory
          (filled_to ∙ rw (l.filled_len-write buf bytes) refl)
          (initialized_to
            ∙ rw (l.filled_len-write buf bytes, l.initialized_len-write buf bytes) refl) in
      (b', rw (delivered, hyper_poll_read) (ap polled advanced), bytes_behind, size, sound')
