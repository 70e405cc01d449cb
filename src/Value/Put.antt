-- ===== src/Value/Put.antt =====
-- What a member of a dict is after an assignment.
use continuity_receipt.Base.{
  String, Bool, true, false, some, none, ◌≡◌, refl, sym, ap, ◌∙◌, str_eq, eq_iff, if◌then◌else◌,
}
use continuity_receipt.Value.{Value, null, Fields, end, field, get, put, lookup}

-- The member that is assigned.
pub get-put : (k : String) (v : Value) (d : Fields) → get (put k v d) k ≡ v
get-put k v end =
    ap (λ b. elim (if b then some v else none) [ none ↦ null | some w ↦ w ]) ((eq_iff k k).1 refl)
get-put k v (field j w d) = go (str_eq j k) refl (get-put k v d)
  where
    go :
        (b : Bool)
        → str_eq j k ≡ b
        → get (put k v d) k ≡ v
        → get (if b then field j v d else field j w (put k v d)) k ≡ v
    go true e h = ap (λ b. elim (if b then some v else lookup k d) [ none ↦ null | some u ↦ u ]) e
    go false e h =
        ap (λ b. elim (if b then some w else lookup k (put k v d)) [ none ↦ null | some u ↦ u ]) e
        ∙ h

-- Another member.
pub get-put_other :
    (k j : String) (v : Value) (d : Fields) → str_eq k j ≡ false → get (put k v d) j ≡ get d j
get-put_other k j v end h =
    ap (λ b. elim (if b then some v else none) [ none ↦ null | some w ↦ w ]) h
get-put_other k j v (field i w d) h = go (str_eq i k) refl (get-put_other k j v d h)
  where
    go :
        (b : Bool)
        → str_eq i k ≡ b
        → get (put k v d) j ≡ get d j
        → get (if b then field i v d else field i w (put k v d)) j ≡ get (field i w d) j
    go true e rest =
        let here : i ≡ k = (eq_iff i k).0 e in
        let apart : str_eq i j ≡ false = ap (λ s. str_eq s j) here ∙ h in
        ap (λ b. elim (if b then some v else lookup j d) [ none ↦ null | some u ↦ u ]) apart
        ∙ sym (ap (λ b. elim (if b then some w else lookup j d) [ none ↦ null | some u ↦ u ]) apart)
    go false e rest = at (str_eq i j)
      where
        at :
            (b : Bool)
            → elim (if b then some w else lookup j (put k v d)) [ none ↦ null | some u ↦ u ]
              ≡ elim (if b then some w else lookup j d) [ none ↦ null | some u ↦ u ]
        at true = refl
        at false = rest
