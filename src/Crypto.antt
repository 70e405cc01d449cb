-- ===== src/Crypto.antt =====
-- What continuity_receipt/*.py takes from other packages: SHA-256 of `hashlib`, the decoder of
-- `base64` and the signature check of `cryptography`. They are parameters of the model.
use continuity_receipt.Base.{ℕ, String, Bool, Option, List}

pub record Crypto : Type 0 where
  -- `hashlib.sha256(data).hexdigest()`
  pub sha256_hex : List ℕ → String
  -- `base64.urlsafe_b64decode(text)`; `none` is its ValueError.
  pub urlsafe_b64decode : String → Option (List ℕ)
  -- `Ed25519PublicKey.from_public_bytes(key).verify(signature, message)` does not raise.
  pub ed25519_verify : List ℕ → List ℕ → List ℕ → Bool
