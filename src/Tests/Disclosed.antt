-- ===== src/Tests/Disclosed.antt =====
-- A disclosure of one of two paths.
use continuity_receipt.Base.{String, List, [], ◌∷◌, some, ◌≡◌, refl}
use continuity_receipt.Value.{str, Fields}
use continuity_receipt.Tests.{fields, obj}
use continuity_receipt.Disclose.{reveal}
use continuity_receipt.Disclose.Reveal.{IsPackage, reveal-IsPackage}

redacted_bundle : Fields
redacted_bundle = fields (("spec", str "continuity-receipt/0.3") ∷ [])

full_map : Fields
full_map = fields (
    ("receipts[0].body.a", obj (("salt", str "00") ∷ ("value", str "x") ∷ []))
    ∷ ("receipts[0].body.b", obj (("salt", str "01") ∷ ("value", str "y") ∷ []))
    ∷ [])

abbrev asked : List String
asked = "receipts[0].body.b" ∷ []

parcel : Fields
parcel = fields (
    ("spec", str "continuity-receipt/0.3")
    ∷ (
      "disclosure_map",
      obj (("receipts[0].body.b", obj (("salt", str "01") ∷ ("value", str "y") ∷ [])) ∷ []),
    )
    ∷ [])

is_revealed : reveal redacted_bundle full_map asked ≡ some parcel
unfolding reveal redacted_bundle full_map parcel
is_revealed = refl

reveal-IsPackage_example : IsPackage redacted_bundle full_map asked parcel
reveal-IsPackage_example = reveal-IsPackage redacted_bundle full_map asked parcel is_revealed
