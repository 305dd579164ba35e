-- ===== src/Tests/Adapters.antt =====
-- The stream adapters over concrete buffers.
use socks_hub.Prelude.{
  ℕ, zero, suc, ◌+◌, ◌≤◌, ◌<◌, ◌≡◌, refl, List, [], ◌∷◌, ◌++◌, none, some, length, take, drop, leb,
  if◌then◌else◌, arith,
}
use socks_hub.Tokiort.{ready, BufferOps, Buffers, Reader, hyper_poll_read, tokio_poll_read}
use socks_hub.Tokiort.Reading.{BufferLaws, BuffersLaws, Fits, Grown, tokio_poll_read-Grown}
use socks_hub.Tokiort.Inner.{seen, poll_read-eq-inner}

record Buf : Type 0 where
  memory : List ℕ
  filled_len : ℕ
  initialized_len : ℕ

abbrev zeros : ℕ → List ℕ
zeros zero = []
zeros (suc n) = 0 ∷ zeros n

abbrev ops : BufferOps Buf
ops = record {
  memory = λ b. b.memory;
  filled_len = λ b. b.filled_len;
  initialized_len = λ b. b.initialized_len;
  write = λ b bytes. record b {
    memory = take b.filled_len b.memory ++ (bytes ++ drop (b.filled_len + length bytes) b.memory);
  };
  uninit = λ n. record { memory = zeros n; filled_len = 0; initialized_len = 0 };
}

abbrev larger : ℕ → ℕ → ℕ
larger f i = if leb f i then i else f

abbrev buffers : Buffers
buffers = record {
  TokioBuf = Buf;
  tokio = ops;
  assume_init = λ b n. record b { initialized_len = larger (b.filled_len + n) b.initialized_len };
  set_filled = λ b n. if leb n b.initialized_len then some (record b { filled_len = n }) else none;
  HyperBuf = Buf;
  hyper = ops;
  advance = λ b n. some (record b {
    filled_len = b.filled_len + n;
    initialized_len = larger (b.filled_len + n) b.initialized_len;
  });
}

length-zeros : (n : ℕ) → length (zeros n) ≡ n
length-zeros zero = refl
length-zeros (suc n) = omega (arith, length-zeros n)

ops_laws : BufferLaws ops
ops_laws = record {
  capacity-uninit = length-zeros;
  filled_len-uninit = λ n. refl;
  uninit-IsBuffer = λ n. record { filled-le = omega arith; initialized-le = omega arith };
  filled_len-write = λ b bytes. refl;
  initialized_len-write = λ b bytes. refl;
  memory-write = λ b bytes h. refl;
}

refuses : (b : Buf) (n : ℕ) → b.initialized_len < n → buffers.set_filled b n ≡ none
refuses b n h = ground arith

accepts :
    (b : Buf) (n : ℕ)
    → n ≤ b.initialized_len
    → buffers.set_filled b n ≡ some (record b { filled_len = n })
accepts b n h = ground arith

buffers_laws : BuffersLaws buffers
buffers_laws = record {
  tokio = ops_laws;
  hyper = ops_laws;
  memory-assume_init = λ b n. refl;
  filled_len-assume_init = λ b n. refl;
  initialized_len-assume_init = λ b n. refl;
  set_filled-none = refuses;
  set_filled-some = λ b n h. (record b { filled_len = n }, accepts b n h, refl, refl, refl);
  advance-some = λ b n h. (_, refl, refl, refl, refl);
}

-- A stream that delivers two bytes at most.
abbrev two_bytes : Reader
two_bytes n = ready (take n (5 ∷ 6 ∷ []))

two_bytes-Fits : Fits two_bytes
two_bytes-Fits zero bytes e = ground arith
two_bytes-Fits (suc zero) bytes e = ground arith
two_bytes-Fits (suc (suc zero)) bytes e = ground arith
two_bytes-Fits (suc (suc (suc n))) bytes e = ground arith

-- A buffer of four bytes, one of them filled.
abbrev started : Buf
started = record { memory = 9 ∷ 0 ∷ 0 ∷ 0 ∷ []; filled_len = 1; initialized_len = 1 }

read_through :
    tokio_poll_read buffers two_bytes started
    ≡ some (ready (record { memory = 9 ∷ 5 ∷ 6 ∷ 0 ∷ []; filled_len = 3; initialized_len = 3 }))
unfolding tokio_poll_read
read_through = refl

tokio_poll_read-Grown_example :
    Grown ops started (5 ∷ 6 ∷ []) (tokio_poll_read buffers two_bytes started)
tokio_poll_read-Grown_example =
    tokio_poll_read-Grown buffers buffers_laws two_bytes two_bytes-Fits started (5 ∷ 6 ∷ [])
      (record { filled-le = omega arith; initialized-le = omega arith }) refl

poll_read-eq-inner_example :
    (seen ops (tokio_poll_read buffers two_bytes (ops.uninit 4)) ≡ some (two_bytes 4))
    × (seen ops (hyper_poll_read buffers two_bytes (ops.uninit 4)) ≡ some (two_bytes 4))
poll_read-eq-inner_example = poll_read-eq-inner buffers buffers_laws two_bytes two_bytes-Fits 4
