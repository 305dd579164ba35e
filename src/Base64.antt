-- ===== src/Base64.antt =====
-- src/base64_wrapper.rs. The base64 crate's engines and their two functions are parameters.
use socks_hub.Prelude.{ℕ, ◌≡◌, List, Option, some}
use socks_hub.Text.{Text}

pub data Base64Engine : Type 0 where
  standard standard_no_pad url_safe url_safe_no_pad : Base64Engine

-- The engines of `base64::engine::general_purpose`.
pub record EngineCrate : Type 1 where
  pub Engine : Type 0
  pub standard_engine : Engine
  pub standard_no_pad_engine : Engine
  pub url_safe_engine : Engine
  pub url_safe_no_pad_engine : Engine
  pub encode : Engine → List ℕ → Text
  pub decode : Engine → Text → Option (List ℕ)

module _ (b : EngineCrate) where
  -- The crate documents that an engine decodes what it has encoded.
  pub record EngineLaws : Type 0 where
    pub decode-encode : (e : b.Engine) (bytes : List ℕ) → b.decode e (b.encode e bytes) ≡ some bytes

  unfoldable pub base64_encode : List ℕ → Base64Engine → Text
  base64_encode bytes standard = b.encode b.standard_engine bytes
  base64_encode bytes standard_no_pad = b.encode b.standard_no_pad_engine bytes
  base64_encode bytes url_safe = b.encode b.url_safe_engine bytes
  base64_encode bytes url_safe_no_pad = b.encode b.url_safe_no_pad_engine bytes

  unfoldable pub base64_decode : Text → Base64Engine → Option (List ℕ)
  base64_decode b64str standard = b.decode b.standard_engine b64str
  base64_decode b64str standard_no_pad = b.decode b.standard_no_pad_engine b64str
  base64_decode b64str url_safe = b.decode b.url_safe_engine b64str
  base64_decode b64str url_safe_no_pad = b.decode b.url_safe_no_pad_engine b64str

  -- What one engine of the wrapper encodes, the same engine decodes.
  pub base64_decode-base64_encode :
      (laws : EngineLaws) (bytes : List ℕ) (engine : Base64Engine)
      → base64_decode (base64_encode bytes engine) engine ≡ some bytes
  unfolding base64_encode base64_decode
  base64_decode-base64_encode laws bytes standard = laws.decode-encode _ bytes
  base64_decode-base64_encode laws bytes standard_no_pad = laws.decode-encode _ bytes
  base64_decode-base64_encode laws bytes url_safe = laws.decode-encode _ bytes
  base64_decode-base64_encode laws bytes url_safe_no_pad = laws.decode-encode _ bytes
