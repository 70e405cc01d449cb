-- ===== src/Pacmi/Attacks.antt =====
-- The attacks of continuity_receipt/pacmi.py on a bundle: `_mutate_t01` to `_mutate_t08`. `none` is an
-- exception. The bundles that are attacked are accepted, so their receipts are a list.
use continuity_receipt.Base.{String, Option, none, some, pos, ◌>>=◌, length}
use continuity_receipt.Value.{
  Value, int, str, list, dict, Items, nil, cons, elements, Fields, lookup, get, put,
}

-- An attack on the list of receipts.
abbrev pub on_list : (Items → Option Items) → Value → Fields → Option Fields
on_list attack (list vs) b = attack vs >>= λ ws. some (put "receipts" (list ws) b)
on_list attack _ b = none

abbrev pub on_receipts : (Items → Option Items) → Fields → Option Fields
on_receipts attack b = on_list attack (get b "receipts") b

-- `v[k]`, as an object.
abbrev pub member_dict : String → Fields → Option Fields
member_dict k d = elim (lookup k d) [ some (dict e) ↦ some e | _ ↦ none ]

abbrev pub append_item : Items → Value → Items
append_item nil v = cons v nil
append_item (cons w ws) v = cons w (append_item ws v)

-- `vs.pop()`, for a list that is not empty.
abbrev pub drop_last : Items → Items
drop_last nil = nil
drop_last (cons v nil) = nil
drop_last (cons v (cons w ws)) = cons v (drop_last (cons w ws))

unfoldable pub tamper_record : Items → Option Items
tamper_record (cons (dict d) vs) = member_dict "body" d >>= λ body.
    some
      (cons (dict (put "body" (dict (put "tampered_field" (str "malicious_payload") body)) d)) vs)
tamper_record (cons _ vs) = none
tamper_record nil = some nil

unfoldable pub truncate_tail : Items → Option Items
truncate_tail (cons v (cons w vs)) = some (drop_last (cons v (cons w vs)))
truncate_tail vs = some vs

unfoldable pub delete_middle : Items → Option Items
delete_middle (cons v (cons w (cons x vs))) = some (cons v (cons x vs))
delete_middle vs = some vs

unfoldable pub reorder : Items → Option Items
reorder (cons v (cons w vs)) = some (cons w (cons v vs))
reorder vs = some vs

abbrev pub fake_signature : String
fake_signature = "fake_sig_0000000000000000000000000000000000000000"

unfoldable pub forge_record : Items → Option Items
forge_record (cons (dict d) vs) = member_dict "sig" d >>= λ sig. some (
    append_item (cons (dict d) vs) (
      dict (
        put "seq" (int (pos (length (elements (cons (dict d) vs)))))
          (put "sig" (dict (put "value" (str fake_signature) sig)) d))))
forge_record (cons _ vs) = none
forge_record nil = some nil

abbrev pub other_task : String
other_task = "task-cross-tenant-replay-attack"

unfoldable pub cross_replay : Fields → Option Fields
cross_replay b = some (put "task_id" (str other_task) b)

unfoldable pub rollback_replay : Items → Option Items
rollback_replay (cons v (cons (dict d) vs)) =
    some (cons v (cons (dict (put "seq" (int (pos 0)) d)) vs))
rollback_replay (cons v (cons _ vs)) = none
rollback_replay vs = some vs

unfoldable pub tamper_metadata : Items → Option Items
tamper_metadata (cons (dict d) vs) =
    some (cons (dict (put "type" (str "task.unauthorized_metadata") d)) vs)
tamper_metadata (cons _ vs) = none
tamper_metadata nil = some nil
