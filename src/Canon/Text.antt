-- ===== src/Canon/Text.antt =====
-- What `json.dumps` and `str.encode` do with one text or one number.
use continuity_receipt.Base.{
  ℕ, zero, suc, ◌+◌, ◌/◌, ◌%◌, String, Bool, true, false, List, [], ◌∷◌, ◌++◌, ltb, ◌==◌,
  if◌then◌else◌,
}
use continuity_receipt.Value.Number.{codes}

-- The order of texts, by code point.
unfoldable pub lt_codes : List ℕ → List ℕ → Bool
lt_codes s [] = false
lt_codes [] (d ∷ t) = true
lt_codes (c ∷ s) (d ∷ t) = let rest = lt_codes s t in if c == d then rest else ltb c d

unfoldable pub join : List (List ℕ) → List ℕ
join [] = []
join (s ∷ []) = s
join (s ∷ t ∷ rest) = s ++ b',' ∷ join (t ∷ rest)

-- The digits of `n` before `tail`; the fuel is more than the number of digits.
unfoldable pub digits : ℕ → ℕ → List ℕ → List ℕ
digits zero n tail = tail
digits (suc fuel) n tail =
    let more = digits fuel (n / 10) ((b'0' + n % 10) ∷ tail) in
    if ltb n 10 then (b'0' + n) ∷ tail else more

unfoldable pub decimal : ℕ → List ℕ
unfolding digits
decimal n = digits (suc n) n []

abbrev hex_lower : ℕ → ℕ
hex_lower d = if ltb d 10 then b'0' + d else 87 + d

-- `py_encode_basestring`: the short escapes, and `\u00xx` for the other control characters.
abbrev escape : ℕ → List ℕ
escape c =
    if c == 34
    then 92 ∷ 34 ∷ []
    else if c == 92
    then 92 ∷ 92 ∷ []
    else if c == 10
    then 92 ∷ b'n' ∷ []
    else if c == 13
    then 92 ∷ b'r' ∷ []
    else if c == 9
    then 92 ∷ b't' ∷ []
    else if c == 12
    then 92 ∷ b'f' ∷ []
    else if c == 8
    then 92 ∷ b'b' ∷ []
    else if ltb c 32
    then 92 ∷ b'u' ∷ b'0' ∷ b'0' ∷ hex_lower (c / 16) ∷ hex_lower (c % 16) ∷ []
    else c ∷ []

escape_all : List ℕ → List ℕ
escape_all [] = []
escape_all (c ∷ s) = escape c ++ escape_all s

unfoldable pub quote : String → List ℕ
unfolding escape_all
quote s = 34 ∷ escape_all (codes s) ++ 34 ∷ []

abbrev utf8_char : ℕ → List ℕ
utf8_char c =
    if ltb c 128
    then c ∷ []
    else if ltb c 2048
    then (192 + c / 64) ∷ (128 + c % 64) ∷ []
    else if ltb c 65536
    then (224 + c / 4096) ∷ (128 + c / 64 % 64) ∷ (128 + c % 64) ∷ []
    else (240 + c / 262144) ∷ (128 + c / 4096 % 64) ∷ (128 + c / 64 % 64) ∷ (128 + c % 64) ∷ []

-- `text.encode("utf-8")`
unfoldable pub utf8 : List ℕ → List ℕ
utf8 [] = []
utf8 (c ∷ s) = utf8_char c ++ utf8 s
