-- ===== src/StrictJson.antt =====
-- continuity_receipt/strict_json.py: the members of an object must differ. The decoder of Python's
-- `json` module, which calls the hook for each object, is a parameter.
pub mod Unique
use continuity_receipt.Base.{ℕ, String, Option, none, some, List, [], ◌∷◌, if◌then◌else◌}
use continuity_receipt.Value.{Value, Fields, end, has, put}

-- The loop of `_unique_members`: `none` is its ValueError.
unfoldable pub add_members : Fields → List (String × Value) → Option Fields
add_members result [] = some result
add_members result ((k, v) ∷ pairs) =
    let rest = add_members (put k v result) pairs in if has k result then none else rest

unfoldable pub unique_members : List (String × Value) → Option Fields
unfolding add_members
unique_members pairs = add_members end pairs

pub record Json : Type 0 where
  -- `json.loads(text, object_pairs_hook=hook)`; `none` is its ValueError or that of the hook.
  pub decode : (List (String × Value) → Option Fields) → List ℕ → Option Value

module _ (j : Json) where
  -- `loads`
  unfoldable pub loads : List ℕ → Option Value
  loads text = j.decode unique_members text
