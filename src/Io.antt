-- ===== src/Io.antt =====
-- `std::io::Result`: what the fallible functions of src/ return.
use socks_hub.Prelude.{◌≡◌, refl}
use socks_hub.Text.{Text}

-- `ErrorKind`, as far as the program makes one itself; `os` stands for all that it passes on.
pub data ErrorKind : Type 0 where
  other invalid_input os : ErrorKind

pub record Error : Type 0 where
  pub kind : ErrorKind
  pub message : Text

pub data Result {ℓ} (T : Type ℓ) : Type ℓ where
  ok : T → Result T
  err : Error → Result T

module _ {ℓ κ} {T : Type ℓ} {U : Type κ} where
  -- The `?` operator: an error is what the whole function returns.
  infixl 5 ◌>>=◌
  abbrev pub ◌>>=◌ : Result T → (T → Result U) → Result U
  ok value >>= next = next value
  err error >>= next = err error

  -- A function that returns `ok` has passed each `?`.
  pub >>=-eq-ok :
      (r : Result T) (next : T → Result U) {u : U}
      → (r >>= next) ≡ ok u
      → (value : T) × (r ≡ ok value) × (next value ≡ ok u)
  >>=-eq-ok (ok value) next returned = (value, refl, returned)
  >>=-eq-ok (err error) next returned = cc
