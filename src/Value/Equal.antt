-- ===== src/Value/Equal.antt =====
-- Python's `==` on values. Numbers of the three kinds compare by their exact values, so that
-- `True == 1` and `1.0 == 1`; dicts compare without regard to order.
use continuity_receipt.Base.{
  ℕ, suc, ◌*◌, ◌^◌, ◌≡◌, refl, String, Bool, true, false, not, ◌&&◌, ◌||◌, Option, none, some, pos,
  negsuc, ◌==◌, str_eq, eq_iff, arith, ap,
}
use continuity_receipt.Value.{
  is_text, Float, nan, infinite, finite, Value, null, bool, int, float, str, list, dict, Items, nil,
  cons, Fields, end, field, lookup,
}

-- A number is a signed fraction `top / 2 ^ shift`, or one of the special floats.
pub data Number : Type 0 where
  fraction : Bool → ℕ → ℕ → Number
  special : Float → Number

abbrev pub number : Value → Option Number
number (bool false) = some (fraction false 0 0)
number (bool true) = some (fraction false 1 0)
number (int (pos n)) = some (fraction false n 0)
number (int (negsuc n)) = some (fraction true (suc n) 0)
number (float (finite s m k)) = some (fraction s m k)
number (float nan) = some (special nan)
number (float (infinite s)) = some (special (infinite s))
number _ = none

abbrev same_sign : Bool → Bool → Bool
same_sign true b = b
same_sign false b = not b

abbrev pub number_eq : Number → Number → Bool
number_eq (fraction s m k) (fraction t n j) = m * 2 ^ j == n * 2 ^ k && (m == 0 || same_sign s t)
number_eq (special (infinite s)) (special (infinite t)) = same_sign s t
number_eq _ _ = false

abbrev pub scalar_eq : Value → Value → Bool
scalar_eq v w = elim (number v) [
  | none ↦ false
  | some x ↦ elim (number w) [ none ↦ false | some y ↦ number_eq x y ]
]

abbrev size : Fields → ℕ
size end = 0
size (field k v fs) = suc (size fs)

unfoldable mutual
  pub py_eq : Value → Value → Bool
  py_eq null null = true
  py_eq (str s) (str t) = str_eq s t
  py_eq (list vs) (list ws) = items_eq vs ws
  py_eq (dict d) (dict e) = (size d == size e) && fields_eq d e
  py_eq v w = scalar_eq v w

  pub items_eq : Items → Items → Bool
  items_eq nil nil = true
  items_eq (cons v vs) (cons w ws) = py_eq v w && items_eq vs ws
  items_eq _ _ = false

  pub fields_eq : Fields → Fields → Bool
  fields_eq end e = true
  fields_eq (field k v d) e =
      (elim (lookup k e) [ none ↦ false | some w ↦ py_eq v w ]) && fields_eq d e

-- A value equals a text only if it is that text.
pub py_eq-str : (v : Value) (s : String) → py_eq v (str s) ≡ true → v ≡ str s
unfolding py_eq
py_eq-str (str t) s h = ap str ((eq_iff t s).0 h)
py_eq-str null s h = ground arith
py_eq-str (bool true) s h = ground arith
py_eq-str (bool false) s h = ground arith
py_eq-str (int (pos n)) s h = ground arith
py_eq-str (int (negsuc n)) s h = ground arith
py_eq-str (float nan) s h = ground arith
py_eq-str (float (infinite b)) s h = ground arith
py_eq-str (float (finite b m k)) s h = ground arith
py_eq-str (list vs) s h = ground arith
py_eq-str (dict d) s h = ground arith

-- A value is a literal text only if it is that text.
pub is_text-eq : (v : Value) (s : String) → is_text v s ≡ true → v ≡ str s
is_text-eq (str t) s h = ap str ((eq_iff t s).0 h)
is_text-eq null s h = cc
is_text-eq (bool b) s h = cc
is_text-eq (int z) s h = cc
is_text-eq (float f) s h = cc
is_text-eq (list vs) s h = cc
is_text-eq (dict d) s h = cc

-- A value equals None only if it is None.
pub py_eq-null : (v : Value) → py_eq v null ≡ true → v ≡ null
unfolding py_eq
py_eq-null null h = refl
py_eq-null (bool true) h = ground arith
py_eq-null (bool false) h = ground arith
py_eq-null (int (pos n)) h = ground arith
py_eq-null (int (negsuc n)) h = ground arith
py_eq-null (float nan) h = ground arith
py_eq-null (float (infinite b)) h = ground arith
py_eq-null (float (finite b m k)) h = ground arith
py_eq-null (str s) h = ground arith
py_eq-null (list vs) h = ground arith
py_eq-null (dict d) h = ground arith

-- What equals the position `n`: the integer, `False` for 0 and `True` for 1, or a float.
abbrev pub IsPosition : ℕ → Value → Type 0
IsPosition n (int z) = z ≡ pos n
IsPosition n (bool true) = n ≡ 1
IsPosition n (bool false) = n ≡ 0
IsPosition n (float f) = Unit
IsPosition n _ = ⊥

pub py_eq-IsPosition : (v : Value) (n : ℕ) → py_eq v (int (pos n)) ≡ true → IsPosition n v
unfolding py_eq
py_eq-IsPosition null n h = ground arith
py_eq-IsPosition (bool true) n h = ground arith
py_eq-IsPosition (bool false) n h = ground arith
py_eq-IsPosition (int (pos m)) n h = ground arith
py_eq-IsPosition (int (negsuc m)) n h = ground arith
py_eq-IsPosition (float f) n h = tt
py_eq-IsPosition (str s) n h = ground arith
py_eq-IsPosition (list vs) n h = ground arith
py_eq-IsPosition (dict d) n h = ground arith

abbrev bool_eq : Bool → Bool → Bool
bool_eq true b = b
bool_eq false b = not b

-- The same `repr`: the same value, member by member in order. (The fraction of a float is in
-- lowest terms.)
unfoldable mutual
  pub identical : Value → Value → Bool
  identical null null = true
  identical (bool a) (bool b) = bool_eq a b
  identical (int (pos m)) (int (pos n)) = m == n
  identical (int (negsuc m)) (int (negsuc n)) = m == n
  identical (float nan) (float nan) = true
  identical (float (infinite s)) (float (infinite t)) = bool_eq s t
  identical (float (finite s m k)) (float (finite t n j)) = bool_eq s t && (m == n && k == j)
  identical (str s) (str t) = str_eq s t
  identical (list vs) (list ws) = identical_items vs ws
  identical (dict d) (dict e) = identical_fields d e
  identical _ _ = false

  pub identical_items : Items → Items → Bool
  identical_items nil nil = true
  identical_items (cons v vs) (cons w ws) = identical v w && identical_items vs ws
  identical_items _ _ = false

  pub identical_fields : Fields → Fields → Bool
  identical_fields end end = true
  identical_fields (field k v d) (field j w e) =
      str_eq k j && (identical v w && identical_fields d e)
  identical_fields _ _ = false
