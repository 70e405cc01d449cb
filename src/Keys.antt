-- ===== src/Keys.antt =====
-- continuity_receipt/keys.py: base 58, `did:key` names and the check of a signature.
use Prim.Native.String.{◌++◌ as append_text, count}
use continuity_receipt.Base.{
  ℕ, zero, suc, ◌+◌, ◌*◌, ◌-◌, ◌/◌, ◌%◌, String, Bool, true, false, Option, none, some, List, [],
  ◌∷◌, ◌++◌, length, ◌==◌, if◌then◌else◌, ◌>>=◌,
}
use continuity_receipt.Value.Number.{codes}
use continuity_receipt.Crypto.{Crypto}

abbrev pub alphabet : List ℕ
alphabet = codes "123456789ABCDEFGHJKLMNPQRSTUVWXYZabcdefghijkmnopqrstuvwxyz"

-- `_B58_ALPHABET.index(char)`; `none` is the ValueError.
index_of : ℕ → List ℕ → Option ℕ
index_of c [] = none
index_of c (d ∷ ds) = if d == c then some 0 else (index_of c ds >>= λ i. some (suc i))

-- The value of the digits, most significant first.
from_b58 : ℕ → List ℕ → Option ℕ
unfolding index_of
from_b58 acc [] = some acc
from_b58 acc (c ∷ s) = elim (index_of c alphabet) [
  | none ↦ none
  | some i ↦ from_b58 (acc * 58 + i) s
]

-- The bytes of `n`, most significant first, before `tail`: `n.to_bytes(…, "big")` with no leading 0.
to_bytes : ℕ → ℕ → List ℕ → List ℕ
to_bytes zero n tail = tail
to_bytes (suc fuel) n tail = elim (n == 0) [
  | true ↦ tail
  | false ↦ to_bytes fuel (n / 256) ((n % 256) ∷ tail)
]

-- The leading `1` characters, each a zero byte.
leading_zeros : List ℕ → List ℕ
leading_zeros [] = []
leading_zeros (c ∷ s) = if c == b'1' then 0 ∷ leading_zeros s else []

unfoldable pub b58decode : List ℕ → Option (List ℕ)
unfolding from_b58 to_bytes leading_zeros
b58decode s = from_b58 0 s >>= λ n. some (leading_zeros s ++ to_bytes (suc n) n [])

-- `s[len(prefix):]` if `s` starts with the prefix.
unfoldable pub drop_prefix : List ℕ → List ℕ → Option (List ℕ)
drop_prefix [] s = some s
drop_prefix (c ∷ p) [] = none
drop_prefix (c ∷ p) (d ∷ s) = let rest = drop_prefix p s in if c == d then rest else none

-- The 32 bytes of the key; `none` is a ValueError.
unfoldable pub did_key_to_pubkey : String → Option (List ℕ)
unfolding b58decode drop_prefix
did_key_to_pubkey did = drop_prefix (codes "did:key:z") (codes did) >>= λ text.
    b58decode text >>= λ raw.
    drop_prefix (0xed ∷ 0x01 ∷ []) raw >>= λ key. if length raw == 34 then some key else none

abbrev padding : ℕ → String
padding zero = ""
padding (suc zero) = "="
padding (suc (suc zero)) = "=="
padding _ = "==="

module _ (c : Crypto) where
  -- The text is padded to a multiple of four.
  unfoldable pub b64u_decode : String → Option (List ℕ)
  b64u_decode text = c.urlsafe_b64decode (append_text text (padding ((4 - count text % 4) % 4)))

  unfoldable pub verify : String → List ℕ → String → Bool
  unfolding did_key_to_pubkey b64u_decode
  verify did message signature = elim (did_key_to_pubkey did) [
    | none ↦ false
    | some key ↦ elim (b64u_decode signature) [
      | none ↦ false
      | some raw ↦ c.ed25519_verify key raw message
    ]
  ]
