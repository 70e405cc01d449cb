-- ===== src/Disclose.antt =====
-- continuity_receipt/disclose.py: `attach` and `reveal`. Redaction, which signs the chain again, and
-- the command line are not modelled.
pub mod Reveal
use continuity_receipt.Base.{String, not, Option, none, some, List, [], ◌∷◌, if◌then◌else◌, ◌>>=◌}
use continuity_receipt.Value.{Value, dict, Fields, end, field, get, put, truthy}
use continuity_receipt.Checkpoint.Statement.{all_in}

-- `d.update(e)`
unfoldable pub update : Fields → Fields → Fields
update d end = d
update d (field k v e) = update (put k v d) e

abbrev pub object_of : Value → Option Fields
object_of (dict d) = some d
object_of _ = none

-- `dict(bundle.get("disclosure_map") or {})`, for a map that is no list of pairs.
unfoldable pub map_of : Fields → Option Fields
map_of bundle =
    let held = get bundle "disclosure_map" in if truthy held then object_of held else some end

-- `attach`
unfoldable pub attach : Fields → Fields → Option Fields
unfolding update map_of
attach bundle disclosure =
    map_of bundle >>= λ held. some (put "disclosure_map" (dict (update held disclosure)) bundle)

-- `{path: disclosure[path] for path in paths}`, from the members that are there.
unfoldable pub select : Fields → List String → Fields → Fields
select disclosure [] chosen = chosen
select disclosure (p ∷ paths) chosen = select disclosure paths (put p (get disclosure p) chosen)

-- `reveal`; `none` is the ValueError for a path that the map lacks, or an exception of `attach`.
unfoldable pub reveal : Fields → Fields → List String → Option Fields
unfolding attach select
reveal redacted disclosure paths =
    if not (all_in paths disclosure) then none else attach redacted (select disclosure paths end)
