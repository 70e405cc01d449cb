-- ===== src/Value.antt =====
-- The values that Python's `json` module yields, and the operations of the language that
-- continuity_receipt/*.py applies to them: `isinstance`, `.get`, `in`, truth, `==` and `int()`.
pub mod Equal
pub mod Number
pub mod Put
use continuity_receipt.Base.{
  ℕ, zero, suc, ◌+◌, ◌-◌, ◌*◌, ◌/◌, ◌^◌, ◌≡◌, String, Bool, true, false, not, ◌&&◌, ◌||◌, Option,
  none, some, List, [], ◌∷◌, ℤ, pos, negsuc, ltb, leb, ◌==◌, if◌then◌else◌, str_eq, member, is_some,
}

-- A double: `finite s m k` is m / 2^k, below zero if `s`. (Every finite double has that form.)
pub data Float : Type 0 where
  nan : Float
  infinite : Bool → Float
  finite : Bool → ℕ → ℕ → Float

-- `int` is exact; a `bool` is its own constructor although Python's `bool` is a subclass of `int`.
mutual
  pub data Value : Type 0 where
    null : Value
    bool : Bool → Value
    int : ℤ → Value
    float : Float → Value
    str : String → Value
    list : Items → Value
    dict : Fields → Value

  pub data Items : Type 0 where
    nil : Items
    cons : Value → Items → Items

  -- A dict with text keys, in insertion order.
  pub data Fields : Type 0 where
    end : Fields
    field : String → Value → Fields → Fields

abbrev pub elements : Items → List Value
elements nil = []
elements (cons v vs) = v ∷ elements vs

abbrev pub entries : Fields → List (String × Value)
entries end = []
entries (field k v fs) = (k, v) ∷ entries fs

-- `d[k]`, `none` if the key is missing.
abbrev pub lookup : String → Fields → Option Value
lookup k end = none
lookup k (field j v fs) = if str_eq j k then some v else lookup k fs

-- `d.get(k)`: `null` is None.
abbrev pub get : Fields → String → Value
get d k = elim (lookup k d) [ none ↦ null | some v ↦ v ]

-- `k in d`
abbrev pub has : String → Fields → Bool
has k d = is_some (lookup k d)

-- `d[k] = v`
abbrev pub put : String → Value → Fields → Fields
put k v end = field k v end
put k v (field j w fs) = if str_eq j k then field j v fs else field j w (put k v fs)

-- `{key: value for key, value in d.items() if key != k}`
abbrev pub without : String → Fields → Fields
without k end = end
without k (field j v fs) = let rest = without k fs in if str_eq j k then rest else field j v rest

abbrev pub as_dict : Value → Option Fields
as_dict (dict d) = some d
as_dict _ = none

abbrev pub as_list : Value → Option (List Value)
as_list (list vs) = some (elements vs)
as_list _ = none

abbrev pub as_text : Value → Option String
as_text (str s) = some s
as_text _ = none

abbrev pub is_dict : Value → Bool
is_dict v = is_some (as_dict v)

abbrev pub is_null : Value → Bool
is_null null = true
is_null _ = false

-- `isinstance(v, str) and v`
abbrev pub is_nonempty_text : Value → Bool
is_nonempty_text (str s) = not (str_eq s "")
is_nonempty_text _ = false

-- `v == s` for a literal text `s`, and `v in (…)` for a tuple of them.
abbrev pub is_text : Value → String → Bool
is_text (str t) s = str_eq t s
is_text _ s = false

abbrev pub text_in : Value → List String → Bool
text_in (str t) ts = member t ts
text_in _ ts = false

-- `bool(v)`
abbrev pub truthy : Value → Bool
truthy null = false
truthy (bool b) = b
truthy (int (pos zero)) = false
truthy (int _) = true
truthy (float (finite _ zero _)) = false
truthy (float _) = true
truthy (str s) = not (str_eq s "")
truthy (list nil) = false
truthy (list _) = true
truthy (dict end) = false
truthy (dict _) = true
