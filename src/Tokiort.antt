-- ===== src/Tokiort.antt =====
-- src/tokiort.rs: a stream of tokio as a stream of hyper, and a stream of hyper as one of tokio.
-- The buffers of both crates are parameters. A pin, a context and a waker carry no data and are
-- left out.
pub mod Reading
pub mod Inner
pub mod Timer
use socks_hub.Prelude.{
  ℕ, Bool, ◌+◌, ◌-◌, ◌≤◌, ◌≡◌, List, ◌++◌, Option, none, some, length, take, drop,
}
use socks_hub.Io.{Error}

-- `Poll<Result<A, std::io::Error>>`
pub data Poll (A : Type 0) : Type 0 where
  pending : Poll A
  failed : Error → Poll A
  ready : A → Poll A

-- A buffer that is filled from its start: `tokio::io::ReadBuf`, or `hyper::rt::ReadBuf` with its
-- cursor. `write` is what a writer to the unfilled part leaves there from its start; the others are
-- calls of the crates, with `none` for a panic.
pub record BufferOps (Buf : Type 0) : Type 0 where
  -- every byte of the memory, whatever it is where nothing has been written
  pub memory : Buf → List ℕ
  pub filled_len : Buf → ℕ
  pub initialized_len : Buf → ℕ
  pub write : Buf → List ℕ → Buf
  -- over fresh memory of so many bytes
  pub uninit : ℕ → Buf

abbrev pub capacity : {Buf : Type 0} → BufferOps Buf → Buf → ℕ
capacity ops b = length (ops.memory b)

-- `filled()`
abbrev pub filled : {Buf : Type 0} → BufferOps Buf → Buf → List ℕ
filled ops b = take (ops.filled_len b) (ops.memory b)

-- The length of `unfilled_mut()`, or of the cursor's `as_mut()`.
abbrev pub unfilled_len : {Buf : Type 0} → BufferOps Buf → Buf → ℕ
unfilled_len ops b = capacity ops b - ops.filled_len b

pub record Buffers : Type 1 where
  pub TokioBuf : Type 0
  pub tokio : BufferOps TokioBuf
  pub assume_init : TokioBuf → ℕ → TokioBuf
  pub set_filled : TokioBuf → ℕ → Option TokioBuf
  pub HyperBuf : Type 0
  pub hyper : BufferOps HyperBuf
  -- `ReadBufCursor::advance`
  pub advance : HyperBuf → ℕ → Option HyperBuf

-- A stream to read from, by what it does to an unfilled buffer of so many bytes: the bytes that it
-- fills in. Both `tokio::io::AsyncRead` and `hyper::rt::Read` are this.
abbrev pub Reader : Type 0
Reader = ℕ → Poll (List ℕ)

-- What becomes of the buffer that a caller hands to `poll_read`; `none` is a panic.
abbrev pub Polled : Type 0 → Type 0
Polled Buf = Option (Poll Buf)

abbrev polled : {Buf : Type 0} → Option Buf → Polled Buf
polled none = none
polled (some b) = some (ready b)

module _ (c : Buffers) (inner : Reader) where
  -- `hyper::rt::Read for TokioIo`: `inner` reads into a fresh buffer over the unfilled part.
  unfoldable pub hyper_poll_read : c.HyperBuf → Polled c.HyperBuf
  hyper_poll_read buf = elim (inner (unfilled_len c.hyper buf)) [
    | pending ↦ some pending
    | failed e ↦ some (failed e)
    | ready bytes ↦ polled (c.advance (c.hyper.write buf bytes) (length bytes))
  ]

  -- `tokio::io::AsyncRead for TokioIo`
  unfoldable pub tokio_poll_read : c.TokioBuf → Polled c.TokioBuf
  tokio_poll_read tbuf =
      let filled = c.tokio.filled_len tbuf in
      elim (inner (unfilled_len c.tokio tbuf)) [
        | pending ↦ some pending
        | failed e ↦ some (failed e)
        | ready bytes ↦
            let sub_filled = length bytes in
            let n_filled = filled + sub_filled in
            let n_init = sub_filled in
            polled (c.set_filled (c.assume_init (c.tokio.write tbuf bytes) n_init) n_filled)
      ]

-- `hyper::rt::Write` and `tokio::io::AsyncWrite`, whose methods are the same.
pub record Write (T : Type 0) : Type 0 where
  pub poll_write : T → List ℕ → T × Poll ℕ
  pub poll_flush : T → T × Poll (Unit {0})
  pub poll_shutdown : T → T × Poll (Unit {0})
  pub is_write_vectored : T → Bool
  pub poll_write_vectored : T → List (List ℕ) → T × Poll ℕ

-- `TokioIo`, with `new` and `inner`
pub record TokioIo (T : Type 0) : Type 0 where
  pub inner : T

abbrev pub new : {T : Type 0} → T → TokioIo T
new inner = record { inner = inner }

-- A call of the inner stream, with the stream put back.
abbrev delegate : {T A : Type 0} → T × A → TokioIo T × A
delegate (inner, result) = (new inner, result)

-- Both implementations of writing; each method is that of the inner stream.
unfoldable pub write_through : {T : Type 0} → Write T → Write (TokioIo T)
write_through w = record {
  poll_write = λ io buf. delegate (w.poll_write io.inner buf);
  poll_flush = λ io. delegate (w.poll_flush io.inner);
  poll_shutdown = λ io. delegate (w.poll_shutdown io.inner);
  is_write_vectored = λ io. w.is_write_vectored io.inner;
  poll_write_vectored = λ io bufs. delegate (w.poll_write_vectored io.inner bufs);
}
