-- ===== src/StrictJson/Unique.antt =====
-- What the hook for object members accepts.
use continuity_receipt.Base.{
  String, Bool, true, false, Option, none, some, ◌≡◌, refl, sym, ap, ◌∙◌, List, [], ◌∷◌, ◌++◌, ◌||◌,
  arith, str_eq, eq_iff, if◌then◌else◌, All,
}
use mathlib.Core.List.{append_assoc, append-nil}
use continuity_receipt.Value.{Value, Fields, end, field, has, put, entries}
use continuity_receipt.StrictJson.{add_members, unique_members}

-- No two members have the same name.
abbrev pub AllDiffer : List (String × Value) → Type 0
AllDiffer [] = Unit
AllDiffer ((k, v) ∷ pairs) = All (λ p. str_eq k p.0 ≡ false) pairs × AllDiffer pairs

abbrev NoneIn : Fields → List (String × Value) → Type 0
NoneIn d pairs = All (λ p. has p.0 d ≡ false) pairs

entries-put :
    (k : String) (v : Value) (d : Fields)
    → has k d ≡ false
    → entries (put k v d) ≡ entries d ++ (k, v) ∷ []
entries-put k v end h = refl
entries-put k v (field j w d) h = ground (arith, entries-put k v d)

pub has-put : (k j : String) (v : Value) (d : Fields) → has j (put k v d) ≡ (str_eq k j || has j d)
has-put k j v end = ground arith
has-put k j v (field i w d) = ground (arith, has-put k j v d, eq_iff i k, eq_iff i j, eq_iff k j)

NoneIn-put :
    (k : String) (v : Value) (d : Fields) (pairs : List (String × Value))
    → All (λ p. str_eq k p.0 ≡ false) pairs × NoneIn d pairs
    → NoneIn (put k v d) pairs
NoneIn-put k v d [] h = tt
NoneIn-put k v d (p ∷ pairs) h =
    (ground (arith, has-put k p.0 v d), NoneIn-put k v d pairs (h.0.1, h.1.1))

NoneIn-of_put :
    (k : String) (v : Value) (d : Fields) (pairs : List (String × Value))
    → NoneIn (put k v d) pairs
    → All (λ p. str_eq k p.0 ≡ false) pairs × NoneIn d pairs
NoneIn-of_put k v d [] h = (tt, tt)
NoneIn-of_put k v d (p ∷ pairs) h =
    let (differ, absent) = NoneIn-of_put k v d pairs h.1 in
    ((ground (arith, has-put k p.0 v d), differ), (ground (arith, has-put k p.0 v d), absent))

if_none :
    (b : Bool) (o : Option Fields) {d : Fields}
    → (if b then none else o) ≡ some d
    → (b ≡ false) × (o ≡ some d)
if_none true o h = cc
if_none false o h = (refl, h)

add_members_lem :
    (d e : Fields) (pairs : List (String × Value))
    → add_members d pairs ≡ some e
    → NoneIn d pairs × AllDiffer pairs × (entries e ≡ entries d ++ pairs)
unfolding add_members
add_members_lem d e [] h =
    (tt, tt, let same : d ≡ e = cc in ap entries (sym same) ∙ sym (append-nil (entries d)))
add_members_lem d e ((k, v) ∷ pairs) h =
    let (absent, added) = if_none (has k d) (add_members (put k v d) pairs) h in
    let (others, differ, kept) = add_members_lem (put k v d) e pairs added in
    let (apart, outside) = NoneIn-of_put k v d pairs others in
    (
      (absent, outside),
      (apart, differ),
      kept
          ∙ ap (λ l. l ++ pairs) (entries-put k v d absent)
          ∙ append_assoc (entries d) ((k, v) ∷ []) pairs,
    )

add_members-AllDiffer :
    (d : Fields) (pairs : List (String × Value))
    → NoneIn d pairs
    → AllDiffer pairs
    → (e : Fields) × (add_members d pairs ≡ some e)
unfolding add_members
add_members-AllDiffer d [] absent differ = (d, refl)
add_members-AllDiffer d ((k, v) ∷ pairs) absent differ =
    let (e, added) =
      add_members-AllDiffer (put k v d) pairs (NoneIn-put k v d pairs (differ.0, absent.1))
        differ.1 in
    (e, ap (λ b. if b then none else add_members (put k v d) pairs) absent.0 ∙ added)

NoneIn-end : (pairs : List (String × Value)) → NoneIn end pairs
NoneIn-end [] = tt
NoneIn-end (p ∷ pairs) = (refl, NoneIn-end pairs)

-- The hook accepts the members of an object only if no two have the same name, and then the dict
-- has just these members, in their order.
pub unique_members-AllDiffer :
    (pairs : List (String × Value)) (d : Fields)
    → unique_members pairs ≡ some d
    → AllDiffer pairs × (entries d ≡ pairs)
unfolding unique_members
unique_members-AllDiffer pairs d h =
    let (absent, differ, kept) = add_members_lem end d pairs h in (differ, kept)

-- The hook accepts members of different names.
pub unique_members-total :
    (pairs : List (String × Value))
    → AllDiffer pairs
    → (d : Fields) × (unique_members pairs ≡ some d) × (entries d ≡ pairs)
unfolding unique_members
unique_members-total pairs differ =
    let (d, added) = add_members-AllDiffer end pairs (NoneIn-end pairs) differ in
    (d, added, (unique_members-AllDiffer pairs d added).1)
