-- ===== src/Value/Number.antt =====
-- Python's `int()` on a value, with the exceptions that it raises.
pub mod Decimal
use Prim.Native.Char.{code}
use continuity_receipt.Base.{
  ℕ, zero, suc, ◌+◌, ◌-◌, ◌*◌, ◌/◌, ◌^◌, String, Bool, true, false, ◌&&◌, ◌||◌, Option, none, some,
  List, [], ◌∷◌, ℤ, pos, negsuc, leb, ◌==◌, if◌then◌else◌,
}
use continuity_receipt.Value.{nan, infinite, finite, Value, bool, int, float, str}

-- The code points of a text. `String` has its own `[]` and `∷`.
abbrev pub codes : String → List ℕ
codes String.[] = []
codes (String.◌∷◌ c s) = code c ∷ codes s

abbrev pub is_digit : ℕ → Bool
is_digit c = leb b'0' c && leb c b'9'

-- What `int(v)` does: TypeError and ValueError share a handler in the program, OverflowError has
-- none.
pub data Conversion : Type 0 where
  converted : ℤ → Conversion
  not_numeric : Conversion
  overflow_error : Conversion

abbrev pub negate : Bool → ℕ → ℤ
negate false n = pos n
negate true zero = pos 0
negate true (suc n) = negsuc n

-- Text digits, with single underscores between digits; `after` says that a digit was just read.
read_digits : Bool → ℕ → List ℕ → Option ℕ
read_digits after acc [] = if after then some acc else none
read_digits after acc (c ∷ s) =
    let digit = read_digits true (acc * 10 + (c - b'0')) s in
    let underscore = read_digits false acc s in
    if is_digit c then digit else if after && (c == b'_') then underscore else none

-- Python's `str.isspace` for one code point.
abbrev pub is_space : ℕ → Bool
is_space c =
    leb 9 c && leb c 13
    || leb 28 c && leb c 32
    || c == 133
    || c == 160
    || c == 5760
    || leb 8192 c && leb c 8202
    || c == 8232
    || c == 8233
    || c == 8239
    || c == 8287
    || c == 12288

strip_left : List ℕ → List ℕ
strip_left [] = []
strip_left (c ∷ s) = let rest = strip_left s in if is_space c then rest else c ∷ s

-- Drops the trailing whitespace.
strip_right : List ℕ → List ℕ
strip_right [] = []
strip_right (c ∷ s) = elim (strip_right s) [
  | [] ↦ if is_space c then [] else c ∷ []
  | d ∷ r ↦ c ∷ d ∷ r
]

abbrev read_signed : List ℕ → Option ℤ
read_signed [] = none
read_signed (c ∷ s) =
    if c == b'-'
    then (elim (read_digits false 0 s) [ none ↦ none | some n ↦ some (negate true n) ])
    else if c == b'+'
    then (elim (read_digits false 0 s) [ none ↦ none | some n ↦ some (pos n) ])
    else elim (read_digits false 0 (c ∷ s)) [ none ↦ none | some n ↦ some (pos n) ]

-- `int(s)` for a text; `none` is its ValueError.
unfoldable pub read_int : List ℕ → Option ℤ
unfolding read_digits strip_left strip_right
read_int s = read_signed (strip_right (strip_left s))

-- `int(v)`: a float is cut towards 0, a text is read in base 10 (ASCII digits).
unfoldable pub to_int : Value → Conversion
unfolding read_int
to_int (bool false) = converted (pos 0)
to_int (bool true) = converted (pos 1)
to_int (int z) = converted z
to_int (float nan) = not_numeric
to_int (float (infinite s)) = overflow_error
to_int (float (finite s m k)) = converted (negate s (m / 2 ^ k))
to_int (str t) = elim (read_int (codes t)) [ none ↦ not_numeric | some z ↦ converted z ]
to_int _ = not_numeric
