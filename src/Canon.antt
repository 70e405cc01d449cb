-- ===== src/Canon.antt =====
-- continuity_receipt/canon.py: the bytes that are hashed and signed. A text is a sequence of
-- Unicode scalar values, so UTF-8 encoding does not fail.
pub mod Text
pub mod Order
pub use Text.{lt_codes, join, decimal, quote, utf8}
use Prim.Native.String.{◌++◌ as append_text}
use continuity_receipt.Base.{
  ℕ, ◌+◌, ◌*◌, ◌-◌, String, Bool, true, false, ◌&&◌, ◌||◌, Option, none, some, List, [], ◌∷◌, ◌++◌,
  map, ℤ, pos, negsuc, suc, leb, ◌==◌, if◌then◌else◌, ◌>>=◌,
}
use continuity_receipt.Value.{
  Value, null, bool, int, float, str, list, dict, Items, nil, cons, Fields, end, field,
}
use continuity_receipt.Value.Number.{codes}
use continuity_receipt.Crypto.{Crypto}

-- `_reject_floats`: true if it raises. The keys of a parsed object are texts.
unfoldable mutual
  pub reject_floats : Value → Bool
  reject_floats (float f) = true
  reject_floats (list vs) = reject_items vs
  reject_floats (dict d) = reject_fields d
  reject_floats _ = false

  pub reject_items : Items → Bool
  reject_items nil = false
  reject_items (cons v vs) = reject_floats v || reject_items vs

  pub reject_fields : Fields → Bool
  reject_fields end = false
  reject_fields (field k v d) = reject_floats v || reject_fields d

abbrev pub Member : Type 0
Member = String × List ℕ

unfoldable pub insert_member : Member → List Member → List Member
insert_member m [] = m ∷ []
insert_member m (n ∷ ns) =
    if lt_codes (codes n.0) (codes m.0) then n ∷ insert_member m ns else m ∷ n ∷ ns

-- `sorted(d.items())`: the keys of a dict are distinct, so the values are never compared.
unfoldable pub sort_members : List Member → List Member
sort_members [] = []
sort_members (m ∷ ms) = insert_member m (sort_members ms)

abbrev pub print_member : Member → List ℕ
print_member m = quote m.0 ++ b':' ∷ m.1

abbrev pub print_int : ℤ → List ℕ
print_int (pos n) = decimal n
print_int (negsuc n) = b'-' ∷ decimal (suc n)

-- `json.dumps(obj, separators=(",", ":"), ensure_ascii=False, sort_keys=True)`. `canonical_bytes`
-- calls it on values without floats only.
unfoldable mutual
  pub dump : Value → List ℕ
  dump null = codes "null"
  dump (bool true) = codes "true"
  dump (bool false) = codes "false"
  dump (int z) = print_int z
  dump (float f) = []
  dump (str s) = quote s
  dump (list vs) = b'[' ∷ join (dump_items vs) ++ b']' ∷ []
  dump (dict d) = b'{' ∷ join (map print_member (sort_members (dump_fields d))) ++ b'}' ∷ []

  pub dump_items : Items → List (List ℕ)
  dump_items nil = []
  dump_items (cons v vs) = dump v ∷ dump_items vs

  pub dump_fields : Fields → List Member
  dump_fields end = []
  dump_fields (field k v d) = (k, dump v) ∷ dump_fields d

-- `none` is the ValueError of `_reject_floats`.
unfoldable pub canonical_bytes : Value → Option (List ℕ)
canonical_bytes v = if reject_floats v then none else some (utf8 (dump v))

abbrev hex_digit : ℕ → Option ℕ
hex_digit c =
    if leb b'0' c && leb c b'9'
    then some (c - b'0')
    else if leb b'a' c && leb c b'f'
    then some (c - b'a' + 10)
    else if leb b'A' c && leb c b'F'
    then some (c - b'A' + 10)
    else none

-- `bytes.fromhex`: whitespace may stand between bytes; `none` is its ValueError.
unfoldable pub from_hex : List ℕ → Option (List ℕ)
from_hex [] = some []
from_hex (c ∷ []) = if leb 9 c && leb c 13 || c == 32 then some [] else none
from_hex (c ∷ d ∷ s) = elim (leb 9 c && leb c 13 || c == 32) [
  | true ↦ from_hex (d ∷ s)
  | false ↦
      (hex_digit c >>= λ high.
      hex_digit d >>= λ low. from_hex s >>= λ bytes. some ((high * 16 + low) ∷ bytes))
]

module _ (c : Crypto) where
  unfoldable pub sha256_prefixed : List ℕ → String
  sha256_prefixed bytes = append_text "sha256:" (c.sha256_hex bytes)

  -- `none` is a TypeError or a ValueError, which the callers handle alike.
  unfoldable pub commit_field : Value → Value → Option String
  unfolding canonical_bytes from_hex sha256_prefixed
  commit_field (str salt) v = from_hex (codes salt) >>= λ bytes.
      canonical_bytes v >>= λ message. some (sha256_prefixed (bytes ++ b'|' ∷ message))
  commit_field _ v = none
