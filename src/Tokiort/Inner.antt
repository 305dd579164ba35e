-- ===== src/Tokiort/Inner.antt =====
-- A read through `TokioIo` is a read of the inner stream.
use socks_hub.Prelude.{ℕ, ◌≡◌, refl, ap, ◌∙◌, List, [], ◌++◌, none, some, arith, take}
use socks_hub.Tokiort.{
  Poll, pending, failed, ready, BufferOps, filled, unfilled_len, Buffers, Reader, Polled,
  hyper_poll_read, tokio_poll_read,
}
use socks_hub.Tokiort.Reading.{
  BufferLaws, BuffersLaws, Fits, Grown, tokio_poll_read-Grown, hyper_poll_read-Grown,
}

-- What a reader sees of its buffer.
abbrev pub seen : {Buf : Type 0} → BufferOps Buf → Polled Buf → Polled (List ℕ)
seen ops none = none
seen ops (some pending) = some pending
seen ops (some (failed e)) = some (failed e)
seen ops (some (ready b)) = some (ready (filled ops b))

module _ {Buf : Type 0} (ops : BufferOps Buf) (laws : BufferLaws ops) where
  unfilled_len-uninit : (n : ℕ) → unfilled_len ops (ops.uninit n) ≡ n
  unfilled_len-uninit n = omega (arith, laws.capacity-uninit n, laws.filled_len-uninit n)

  filled-uninit : (n : ℕ) → filled ops (ops.uninit n) ≡ []
  filled-uninit n = ap (λ k. take k (ops.memory (ops.uninit n))) (laws.filled_len-uninit n)

  seen-Grown :
      (n : ℕ) (bytes : List ℕ) (outcome : Polled Buf)
      → Grown ops (ops.uninit n) bytes outcome
      → seen ops outcome ≡ some (ready bytes)
  seen-Grown n bytes outcome (b', returned, behind, size, sound) =
      ap (seen ops) returned
      ∙ ap (λ bs. some (ready bs)) (behind ∙ ap (λ bs. bs ++ bytes) (filled-uninit n))

module _ (c : Buffers) (laws : BuffersLaws c) (inner : Reader) (fits : Fits inner) where
  -- The adapter adds and loses nothing: where the inner stream fills no more than it is offered, a
  -- read of any size through `TokioIo` into fresh memory, in either direction, is the inner
  -- stream's read of that size: it waits, fails or delivers the same bytes, and does not panic.
  pub poll_read-eq-inner :
      (n : ℕ)
      → (seen c.tokio (tokio_poll_read c inner (c.tokio.uninit n)) ≡ some (inner n))
        × (seen c.hyper (hyper_poll_read c inner (c.hyper.uninit n)) ≡ some (inner n))
  unfolding tokio_poll_read hyper_poll_read
  poll_read-eq-inner n = (tokio_side (inner n) refl, hyper_side (inner n) refl)
    where
      tokio_side :
          (r : Poll (List ℕ))
          → inner n ≡ r
          → seen c.tokio (tokio_poll_read c inner (c.tokio.uninit n)) ≡ some r
      tokio_side pending e = rw (unfilled_len-uninit c.tokio laws.tokio n, e, tokio_poll_read) refl
      tokio_side (failed why) e =
          rw (unfilled_len-uninit c.tokio laws.tokio n, e, tokio_poll_read) refl
      tokio_side (ready bytes) e = seen-Grown c.tokio laws.tokio n bytes _ (
          tokio_poll_read-Grown c laws inner fits (c.tokio.uninit n) bytes
            (laws.tokio.uninit-IsBuffer n)
            (ap inner (unfilled_len-uninit c.tokio laws.tokio n) ∙ e))

      hyper_side :
          (r : Poll (List ℕ))
          → inner n ≡ r
          → seen c.hyper (hyper_poll_read c inner (c.hyper.uninit n)) ≡ some r
      hyper_side pending e = rw (unfilled_len-uninit c.hyper laws.hyper n, e, hyper_poll_read) refl
      hyper_side (failed why) e =
          rw (unfilled_len-uninit c.hyper laws.hyper n, e, hyper_poll_read) refl
      hyper_side (ready bytes) e = seen-Grown c.hyper laws.hyper n bytes _ (
          hyper_poll_read-Grown c laws inner fits (c.hyper.uninit n) bytes
            (laws.hyper.uninit-IsBuffer n)
            (ap inner (unfilled_len-uninit c.hyper laws.hyper n) ∙ e))
