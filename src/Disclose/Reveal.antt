-- ===== src/Disclose/Reveal.antt =====
-- What a package discloses.
use mathlib.Core.Path.{subst}
use continuity_receipt.Base.{
  none, not, ◌>>=◌, Option, All, String, Bool, true, false, ◌||◌, some, List, [], ◌∷◌, str_eq,
  eq_iff, member, arith, is_some, ◌≡◌, refl, sym, ap, ◌∙◌, if◌then◌else◌,
}
use continuity_receipt.Value.{Value, Fields, end, field, get, put, has, lookup}
use continuity_receipt.Value.Put.{get-put, get-put_other}
use continuity_receipt.StrictJson.Unique.{has-put}
use continuity_receipt.Disclose.{all_in, attach, dict, reveal, map_of, update, select}

-- Every member of that name has the value.
abbrev Says : String → Value → Fields → Type 0
Says k v end = Unit
Says k v (field j w e) = (j ≡ k → w ≡ v) × Says k v e

unlike : (j k : String) → str_eq j k ≡ false → ¬ (j ≡ k)
unlike j k h e = ground (arith, eq_iff j k)

Says-put :
    (k p : String) (v w : Value) (d : Fields) → (p ≡ k → w ≡ v) → Says k v d → Says k v (put p w d)
Says-put k p v w end h s = (h, tt)
Says-put k p v w (field j u d) h s = go (str_eq j p) refl (Says-put k p v w d h s.1)
  where
    go :
        (b : Bool)
        → str_eq j p ≡ b
        → Says k v (put p w d)
        → Says k v (if b then field j w d else field j u (put p w d))
    go true e rest = ((λ same. h (sym ((eq_iff j p).0 e) ∙ same)), s.1)
    go false e rest = (s.0, rest)

get-put_either :
    (k j : String) (v w : Value) (d : Fields)
    → (j ≡ k → w ≡ v)
    → get d k ≡ v
    → get (put j w d) k ≡ v
get-put_either k j v w d h e = go (str_eq j k) refl
  where
    go : (b : Bool) → str_eq j k ≡ b → get (put j w d) k ≡ v
    go true s =
        let same = (eq_iff j k).0 s in
        ap (λ i. get (put j w d) i) (sym same) ∙ get-put j w d ∙ h same
    go false s = get-put_other j k w d s ∙ e

get-update_kept :
    (k : String) (v : Value) (d e : Fields) → Says k v e → get d k ≡ v → get (update d e) k ≡ v
unfolding update
get-update_kept k v d end s h = h
get-update_kept k v d (field j w e) s h =
    get-update_kept k v (put j w d) e s.1 (get-put_either k j v w d s.0 h)

get-update :
    (k : String) (v : Value) (d e : Fields) → has k e ≡ true → Says k v e → get (update d e) k ≡ v
unfolding update
get-update k v d end h s = cc
get-update k v d (field j w e) h s = go (str_eq j k) refl h (get-update k v (put j w d) e)
  where
    go :
        (b : Bool)
        → str_eq j k ≡ b
        → is_some (if b then some w else lookup k e) ≡ true
        → (has k e ≡ true → Says k v e → get (update (put j w d) e) k ≡ v)
        → get (update (put j w d) e) k ≡ v
    go true same here rest =
        let equal = (eq_iff j k).0 same in
        get-update_kept k v (put j w d) e s.1
          (ap (λ i. get (put j w d) i) (sym equal) ∙ get-put j w d ∙ s.0 equal)
    go false apart here rest = rest here s.1

get-update_other : (k : String) (d e : Fields) → has k e ≡ false → get (update d e) k ≡ get d k
unfolding update
get-update_other k d end h = refl
get-update_other k d (field j w e) h = go (str_eq j k) refl h (get-update_other k (put j w d) e)
  where
    go :
        (b : Bool)
        → str_eq j k ≡ b
        → is_some (if b then some w else lookup k e) ≡ false
        → (has k e ≡ false → get (update (put j w d) e) k ≡ get (put j w d) k)
        → get (update (put j w d) e) k ≡ get d k
    go true same absent rest = cc
    go false apart absent rest = rest absent ∙ get-put_other j k w d apart

Says-select :
    (k : String) (disclosure : Fields) (paths : List String) (chosen : Fields)
    → Says k (get disclosure k) chosen
    → Says k (get disclosure k) (select disclosure paths chosen)
unfolding select
Says-select k disclosure [] chosen s = s
Says-select k disclosure (p ∷ paths) chosen s =
    Says-select k disclosure paths (put p (get disclosure p) chosen)
      (Says-put k p (get disclosure k) (get disclosure p) chosen (λ e. ap (get disclosure) e) s)

has-select :
    (k : String) (disclosure : Fields) (paths : List String) (chosen : Fields)
    → has k (select disclosure paths chosen) ≡ (member k paths || has k chosen)
unfolding select
has-select k disclosure [] chosen = refl
has-select k disclosure (p ∷ paths) chosen =
    has-select k disclosure paths (put p (get disclosure p) chosen)
    ∙ reorder (member k paths) (str_eq p k) (str_eq k p) (has k chosen)
        (has k (put p (get disclosure p) chosen)) (has-put p k (get disclosure p) chosen)
        (ground (arith, eq_iff p k, eq_iff k p))
  where
    reorder : (m a b h h' : Bool) → h' ≡ (a || h) → a ≡ b → (m || h') ≡ ((b || m) || h)
    reorder m a b h h' e f = ground arith

-- A package of the asked paths.
pub record IsPackage (redacted disclosure : Fields) (paths : List String) (parcel : Fields)
    : Type 0 where
  pub before : Fields
  pub after : Fields
  pub had : map_of redacted ≡ some before
  pub has_now : get parcel "disclosure_map" ≡ dict after
  pub shown : All (λ p. get after p ≡ get disclosure p) paths
  pub kept :
      (p : String) → get after p ≡ (if member p paths then get disclosure p else get before p)
  pub rest :
      (k : String)
      → get parcel k ≡ (if str_eq "disclosure_map" k then dict after else get redacted k)

member_self : (p : String) (ps : List String) → member p (p ∷ ps) ≡ true
member_self p ps = ground (arith, eq_iff p p)

All-of_members :
    {P : String → Type 0} (ps : List String) → ((p : String) → member p ps ≡ true → P p) → All P ps
All-of_members [] h = tt
All-of_members (p ∷ ps) h =
    (h p (member_self p ps), All-of_members ps (λ q m. h q (later (str_eq q p) (member q ps) m)))
  where
    later : (a b : Bool) → b ≡ true → (a || b) ≡ true
    later a b m = ground arith

get-updated :
    (d disclosure : Fields) (paths : List String) (p : String)
    → get (update d (select disclosure paths end)) p
      ≡ (if member p paths then get disclosure p else get d p)
get-updated d disclosure paths p = go (member p paths) refl
  where
    asked : (b : Bool) → (b || false) ≡ b
    asked b = ground arith

    go :
        (b : Bool)
        → member p paths ≡ b
        → get (update d (select disclosure paths end)) p ≡ (if b then get disclosure p else get d p)
    go true e =
        get-update p (get disclosure p) d (select disclosure paths end)
          (has-select p disclosure paths end ∙ asked (member p paths) ∙ e)
          (Says-select p disclosure paths end tt)
    go false e =
        get-update_other p d (select disclosure paths end)
          (has-select p disclosure paths end ∙ asked (member p paths) ∙ e)

get-put_if :
    (k j : String) (v : Value) (d : Fields)
    → get (put k v d) j ≡ (if str_eq k j then v else get d j)
get-put_if k j v d = go (str_eq k j) refl
  where
    go : (b : Bool) → str_eq k j ≡ b → get (put k v d) j ≡ (if b then v else get d j)
    go true e = ap (λ i. get (put k v d) i) (sym ((eq_iff k j).0 e)) ∙ get-put k v d
    go false e = get-put_other k j v d e

IsPackage-attach :
    (redacted disclosure : Fields) (paths : List String) (parcel : Fields) (o : Option Fields)
    → map_of redacted ≡ o
    → (o >>= λ held.
        some (put "disclosure_map" (dict (update held (select disclosure paths end))) redacted))
      ≡ some parcel
    → IsPackage redacted disclosure paths parcel
IsPackage-attach redacted disclosure paths parcel none e h = cc
IsPackage-attach redacted disclosure paths parcel (some held) e h =
    let after = update held (select disclosure paths end) in
    let made = put "disclosure_map" (dict after) redacted in
    let same : made ≡ parcel = cc h in
    subst (IsPackage redacted disclosure paths) same (record {
      before = held;
      after = after;
      had = e;
      has_now = get-put "disclosure_map" (dict after) redacted;
      shown = All-of_members paths (λ p m.
          get-updated held disclosure paths p
          ∙ ap (λ b. if b then get disclosure p else get held p) m);
      kept = λ p. get-updated held disclosure paths p;
      rest = λ k. get-put_if "disclosure_map" k (dict after) redacted;
    })

-- The package of `reveal` opens each path that is asked for as the full map does, keeps the redacted
-- bundle's disclosure at every other path, and keeps its other members.
pub reveal-IsPackage :
    (redacted disclosure : Fields) (paths : List String) (parcel : Fields)
    → reveal redacted disclosure paths ≡ some parcel
    → IsPackage redacted disclosure paths parcel
unfolding reveal attach
reveal-IsPackage redacted disclosure paths parcel h = go (all_in paths disclosure) h
  where
    go :
        (b : Bool)
        → (if not b then none else attach redacted (select disclosure paths end)) ≡ some parcel
        → IsPackage redacted disclosure paths parcel
    go true k = IsPackage-attach redacted disclosure paths parcel (map_of redacted) refl k
    go false k = cc
