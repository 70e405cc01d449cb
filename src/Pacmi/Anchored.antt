-- ===== src/Pacmi/Anchored.antt =====
-- What a bundle has that `evaluate_pacmi` takes for an anchor, and for a commitment to an erasure.
use continuity_receipt.Base.{
  ℕ, suc, Bool, true, false, not, ◌||◌, ◌≢◌, ◌⊎◌, inl, inr, get_elem?, some, List, [], ◌∷◌, ◌≡◌,
  refl, &&_true,
}
use continuity_receipt.Value.{
  Value, null, bool, int, float, str, list, dict, Fields, get, has, is_text, is_null, truthy,
}
use continuity_receipt.Value.Equal.{is_text-eq}
use continuity_receipt.Verify.Main.{dict_or_empty}
use continuity_receipt.Pacmi.{any_field, commits_erasure, commits_offstore, body_of, is_anchored}

-- A receipt whose body says that what it commits to is kept outside the store.
pub record CommitsOffstore (r : Fields) : Type 0 where
  pub what :
      (has "anchor_ref" (body_of r) ≡ true)
      ⊎ ((has "offstore_digest" (body_of r) ≡ true) ⊎ (get r "type" ≡ str "state.commitment"))
  pub place :
      (get (body_of r) "anchor_location" ≡ str "offstore")
      ⊎ (truthy (get (body_of r) "offstore") ≡ true)

-- Where an anchor is: given beside the bundle, or named by the bundle itself, by a receipt of it, by
-- its anchors or by its chain head.
pub data HasAnchor (b : Fields) (receipts : List Fields) (offstore : Value) : Type 0 where
  given : truthy offstore ≡ true → HasAnchor b receipts offstore
  in_receipt :
      (i : ℕ) (r : Fields)
      → get_elem? receipts i ≡ some r
      → CommitsOffstore r
      → HasAnchor b receipts offstore
  in_anchors : truthy (get b "anchors") ≡ true → HasAnchor b receipts offstore
  in_head :
      (head : Fields)
      → get b "chain_head" ≡ dict head
      → truthy (get head "anchored") ≡ true
      → HasAnchor b receipts offstore

-- A state commitment whose body says what was erased or which revision it is.
pub record CommitsErasure (r : Fields) : Type 0 where
  pub type_is : get r "type" ≡ str "state.commitment"
  pub names :
      (has "erasure_count" (body_of r) ≡ true)
      ⊎ ((has "erased_crystal_ids_digest" (body_of r) ≡ true)
          ⊎ ((has "erased_ids_digest" (body_of r) ≡ true) ⊎ (get (body_of r) "revision" ≢ null)))

either : (a b : Bool) → (a || b) ≡ true → (a ≡ true) ⊎ (b ≡ true)
either true b h = inl refl
either false b h = inr h

pub found_in :
    (test : Fields → Bool) (ds : List Fields)
    → any_field test ds ≡ true
    → (i : ℕ) × (r : Fields) × (get_elem? ds i ≡ some r) × (test r ≡ true)
found_in test [] h = cc
found_in test (d ∷ ds) h = elim (either (test d) (any_field test ds) h) [
  | inl here ↦ (0, d, refl, here)
  | inr later ↦ let (i, r, at, passes) = found_in test ds later in (suc i, r, at, passes)
]

CommitsOffstore-commits_offstore : (r : Fields) → commits_offstore r ≡ true → CommitsOffstore r
unfolding commits_offstore
CommitsOffstore-commits_offstore r h =
    let body = body_of r in
    let digest = has "offstore_digest" body in
    let typed = is_text (get r "type") "state.commitment" in
    let located = is_text (get body "anchor_location") "offstore" in
    let flagged = truthy (get body "offstore") in
    let (what, place) =
      (&&_true (has "anchor_ref" body || (digest || typed)) (located || flagged)).0 h in
    record {
      what = elim (either (has "anchor_ref" body) (digest || typed) what) [
        | inl e ↦ inl e
        | inr e ↦ elim (either digest typed e) [
          | inl d ↦ inr (inl d)
          | inr t ↦ inr (inr (is_text-eq (get r "type") "state.commitment" t))
        ]
      ];
      place = elim (either located flagged place) [
        | inl e ↦ inl (is_text-eq (get body "anchor_location") "offstore" e)
        | inr e ↦ inr e
      ];
    }

head_anchored :
    (v : Value)
    → truthy (get (dict_or_empty v) "anchored") ≡ true
    → (head : Fields) × (v ≡ dict head) × (truthy (get head "anchored") ≡ true)
head_anchored (dict head) h = (head, refl, h)
head_anchored null h = cc
head_anchored (bool x) h = cc
head_anchored (int z) h = cc
head_anchored (float f) h = cc
head_anchored (str s) h = cc
head_anchored (list vs) h = cc

pub HasAnchor-is_anchored :
    (b : Fields) (receipts : List Fields) (offstore : Value)
    → is_anchored b receipts offstore ≡ true
    → HasAnchor b receipts offstore
unfolding is_anchored
HasAnchor-is_anchored b receipts offstore h =
    let listed = truthy (get b "anchors") in
    let headed = truthy (get (dict_or_empty (get b "chain_head")) "anchored") in
    let committed = any_field commits_offstore receipts in
    elim (either (truthy offstore) (committed || (listed || headed)) h) [
      | inl e ↦ given e
      | inr e ↦ elim (either committed (listed || headed) e) [
        | inl k ↦
            let (i, r, at, passes) = found_in commits_offstore receipts k in
            in_receipt i r at (CommitsOffstore-commits_offstore r passes)
        | inr k ↦ elim (either listed headed k) [
          | inl l ↦ in_anchors l
          | inr l ↦
              let (head, is_head, flag) = head_anchored (get b "chain_head") l in
              in_head head is_head flag
        ]
      ]
    ]

ne_null : (v : Value) → not (is_null v) ≡ true → v ≢ null
ne_null null h e = cc
ne_null (bool x) h e = cc
ne_null (int z) h e = cc
ne_null (float f) h e = cc
ne_null (str s) h e = cc
ne_null (list vs) h e = cc
ne_null (dict d) h e = cc

pub CommitsErasure-commits_erasure : (r : Fields) → commits_erasure r ≡ true → CommitsErasure r
unfolding commits_erasure
CommitsErasure-commits_erasure r h =
    let body = body_of r in
    let count = has "erasure_count" body in
    let crystals = has "erased_crystal_ids_digest" body in
    let erased = has "erased_ids_digest" body in
    let revised = not (is_null (get body "revision")) in
    let (typed, named) =
      (&&_true (is_text (get r "type") "state.commitment")
          (count || (crystals || (erased || revised)))).0
        h in
    record {
      type_is = is_text-eq (get r "type") "state.commitment" typed;
      names = elim (either count (crystals || (erased || revised)) named) [
        | inl e ↦ inl e
        | inr e ↦ elim (either crystals (erased || revised) e) [
          | inl k ↦ inr (inl k)
          | inr k ↦ elim (either erased revised k) [
            | inl l ↦ inr (inr (inl l))
            | inr l ↦ inr (inr (inr (ne_null (get body "revision") l)))
          ]
        ]
      ];
    }
