-- ===== src/Canon/Order.antt =====
-- The canonical bytes of a value do not depend on the order of its members, at any depth.
use Prim.Native.Char.{code}
use text.Mathlib.TextEquality.{Char-path}
use continuity_receipt.Base.{
  some, ◌++◌, none, ℕ, String, Bool, true, false, not, ◌||◌, ◌≡◌, refl, sym, ap, ◌∙◌, List, [], ◌∷◌,
  arith, str_eq, eq_iff, if◌then◌else◌, Bool-cases, inl, inr, map,
}
use mathlib.Core.Path.{ap₂}
use continuity_receipt.Value.{Value, list, dict, Items, nil, cons, Fields, end, field}
use continuity_receipt.Value.Number.{codes}
use continuity_receipt.Canon.Text.{lt_codes}
use continuity_receipt.Canon.{
  Member, insert_member, sort_members, print_member, dump, dump_items, dump_fields, reject_floats,
  reject_items, reject_fields, canonical_bytes, utf8, join,
}

-- The order of the keys is strict and total.
lt_codes_trans : (s t u : List ℕ) → lt_codes s t ≡ true → lt_codes t u ≡ true → lt_codes s u ≡ true
unfolding lt_codes
lt_codes_trans s [] u h k = cc
lt_codes_trans s (d ∷ t) [] h k = cc
lt_codes_trans [] (d ∷ t) (e ∷ u) h k = refl
lt_codes_trans (c ∷ s) (d ∷ t) (e ∷ u) h k = ground (arith, lt_codes_trans s t u)

lt_codes_asymm : (s t : List ℕ) → lt_codes s t ≡ true → lt_codes t s ≡ false
unfolding lt_codes
lt_codes_asymm s [] h = cc
lt_codes_asymm [] (d ∷ t) h = refl
lt_codes_asymm (c ∷ s) (d ∷ t) h = ground (arith, lt_codes_asymm s t)

lt_codes_total : (s t : List ℕ) → lt_codes s t ≡ false → lt_codes t s ≡ false → s ≡ t
unfolding lt_codes
lt_codes_total [] [] h k = refl
lt_codes_total [] (d ∷ t) h k = cc
lt_codes_total (c ∷ s) [] h k = cc
lt_codes_total (c ∷ s) (d ∷ t) h k = ground (arith, lt_codes_total s t)

codes_injective : (s t : String) → codes s ≡ codes t → s ≡ t
codes_injective String.[] String.[] h = refl
codes_injective String.[] (String.◌∷◌ d t) h = cc
codes_injective (String.◌∷◌ c s) String.[] h = cc
codes_injective (String.◌∷◌ c s) (String.◌∷◌ d t) h =
    let heads : code c ≡ code d = cc in
    let tails : codes s ≡ codes t = cc in
    ap₂ String.◌∷◌ (Char-path c d heads) (codes_injective s t tails)

abbrev lt_key : Member → Member → Bool
lt_key m n = lt_codes (codes m.0) (codes n.0)

-- Of two members with different keys exactly one is the smaller.
one_is_less : (m n : Member) → str_eq m.0 n.0 ≡ false → lt_key m n ≡ not (lt_key n m)
one_is_less m n ne = elim (Bool-cases (lt_key n m)) [
  | inl e ↦ lt_codes_asymm (codes n.0) (codes m.0) e ∙ ap not (sym e)
  | inr e ↦ elim (Bool-cases (lt_key m n)) [
    | inl f ↦ f ∙ ap not (sym e)
    | inr f ↦
        let same = codes_injective m.0 n.0 (lt_codes_total (codes m.0) (codes n.0) f e) in
        let bad : str_eq m.0 n.0 ≡ true = (eq_iff m.0 n.0).1 same in cc
  ]
]

-- Members of different keys are inserted in either order.
insert_member_comm :
    (m n : Member) (l : List Member)
    → str_eq m.0 n.0 ≡ false
    → insert_member m (insert_member n l) ≡ insert_member n (insert_member m l)
unfolding insert_member
insert_member_comm m n [] ne = ground (arith, one_is_less m n ne)
insert_member_comm m n (p ∷ l) ne = ground (
  arith,
  one_is_less m n ne,
  lt_codes_trans (codes p.0) (codes m.0) (codes n.0),
  lt_codes_trans (codes p.0) (codes n.0) (codes m.0),
  insert_member_comm m n l ne,
)

-- Two values that differ in the order of members only.
mutual
  pub data Same : Value → Value → Type 0 where
    same : (v : Value) → Same v v
    lists : {vs ws : Items} → SameItems vs ws → Same (list vs) (list ws)
    dicts : {d e : Fields} → SameFields d e → Same (dict d) (dict e)

  pub data SameItems : Items → Items → Type 0 where
    done : SameItems nil nil
    next :
        {v w : Value} {vs ws : Items}
        → Same v w
        → SameItems vs ws
        → SameItems (cons v vs) (cons w ws)

  pub data SameFields : Fields → Fields → Type 0 where
    stop : SameFields end end
    keep :
        (k : String) {v w : Value} {d e : Fields}
        → Same v w
        → SameFields d e
        → SameFields (field k v d) (field k w e)
    swap :
        (j k : String) (v w : Value) (d : Fields)
        → str_eq j k ≡ false
        → SameFields (field j v (field k w d)) (field k w (field j v d))
    trans : {d e f : Fields} → SameFields d e → SameFields e f → SameFields d f

mutual
  unfolding dump sort_members

  dump-Same : {v w : Value} → Same v w → dump v ≡ dump w
  dump-Same (same v) = refl
  dump-Same (lists h) = ap (λ l. b'[' ∷ (join l ++ b']' ∷ [])) (dump-SameItems h)
  dump-Same (dicts h) =
      ap (λ l. b'{' ∷ (join (map print_member l) ++ b'}' ∷ [])) (sort_same_fields h)

  dump-SameItems : {vs ws : Items} → SameItems vs ws → dump_items vs ≡ dump_items ws
  dump-SameItems done = refl
  dump-SameItems (next h hs) = ap₂ (λ a as'. a ∷ as') (dump-Same h) (dump-SameItems hs)

  sort_same_fields :
      {d e : Fields} → SameFields d e → sort_members (dump_fields d) ≡ sort_members (dump_fields e)
  sort_same_fields stop = refl
  sort_same_fields (keep k h hs) =
      ap₂ (λ a l. insert_member (k, a) l) (dump-Same h) (sort_same_fields hs)
  sort_same_fields (swap j k v w d ne) =
      insert_member_comm (j, dump v) (k, dump w) (sort_members (dump_fields d)) ne
  sort_same_fields (trans h k) = sort_same_fields h ∙ sort_same_fields k

||_swap : (a b c : Bool) → (a || (b || c)) ≡ (b || (a || c))
||_swap a b c = ground arith

mutual
  unfolding reject_floats

  reject-Same : {v w : Value} → Same v w → reject_floats v ≡ reject_floats w
  reject-Same (same v) = refl
  reject-Same (lists h) = reject-SameItems h
  reject-Same (dicts h) = reject_same_fields h

  reject-SameItems : {vs ws : Items} → SameItems vs ws → reject_items vs ≡ reject_items ws
  reject-SameItems done = refl
  reject-SameItems (next h hs) = ap₂ (λ a b. a || b) (reject-Same h) (reject-SameItems hs)

  reject_same_fields : {d e : Fields} → SameFields d e → reject_fields d ≡ reject_fields e
  reject_same_fields stop = refl
  reject_same_fields (keep k h hs) = ap₂ (λ a b. a || b) (reject-Same h) (reject_same_fields hs)
  reject_same_fields (swap j k v w d ne) =
      ||_swap (reject_floats v) (reject_floats w) (reject_fields d)
  reject_same_fields (trans h k) = reject_same_fields h ∙ reject_same_fields k

-- Two values that differ only in the order of the members of their objects, at any depth, have the
-- same canonical bytes, or both have none.
pub canonical_bytes-Same : {v w : Value} → Same v w → canonical_bytes v ≡ canonical_bytes w
unfolding canonical_bytes
canonical_bytes-Same h =
    ap₂ (λ b l. if b then none else some (utf8 l)) (reject-Same h) (dump-Same h)
