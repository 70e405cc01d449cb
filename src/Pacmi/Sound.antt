-- ===== src/Pacmi/Sound.antt =====
-- What a report on an accepted bundle says.
use continuity_receipt.Base.{
  String, true, false, ◌≤◌, none, some, List, ◌∷◌, length, ◌≡◌, ◌≢◌, refl, sym, ap, ◌∙◌, arith,
  eq_iff,
}
use mathlib.Core.Path.{subst}
use continuity_receipt.Value.{
  Value, null, bool, int, float, str, list, dict, Items, nil, cons, elements, Fields, get, put,
  as_list,
}
use continuity_receipt.Value.Equal.{py_eq, py_eq-str}
use continuity_receipt.Value.Put.{get-put, get-put_other}
use continuity_receipt.Crypto.{Crypto}
use continuity_receipt.Verify.Main.{verify_bundle}
use continuity_receipt.Verify.Accepted.{IsAccepted}
use continuity_receipt.Verify.Chain.Linked.{IsChain}
use continuity_receipt.Pacmi.Attacks.{
  on_receipts, delete_middle, reorder, cross_replay, rollback_replay, tamper_metadata, other_task,
}
use continuity_receipt.Pacmi.{attack_refused}
use continuity_receipt.Pacmi.Refusals.{
  IsChain-receipts, refusal_of, IsChain-rest, listed_items, delete_middle_refused, reorder_refused,
  rollback_replay_refused, tamper_metadata_refused,
}

-- What equals a text in Python is that text.
str-py_eq : (s : String) (v : Value) → py_eq (str s) v ≡ true → v ≡ str s
unfolding py_eq
str-py_eq s (str t) h = ap str (sym ((eq_iff s t).0 h))
str-py_eq s null h = cc
str-py_eq s (bool b) h = cc
str-py_eq s (int z) h = cc
str-py_eq s (float f) h = cc
str-py_eq s (list vs) h = cc
str-py_eq s (dict d) h = cc

module _ (c : Crypto) where
  cross_replay_refused :
      (b : Fields) (v : Value) (vs : List Value)
      → as_list (get b "receipts") ≡ some (v ∷ vs)
      → IsChain c (get b "task_id") 0 null (v ∷ vs)
      → get b "task_id" ≢ str other_task
      → attack_refused c (cross_replay b) ≡ true
  unfolding cross_replay
  cross_replay_refused b (dict d) vs listed h elsewhere =
      let moved = put "task_id" (str other_task) b in
      refusal_of c moved (λ accepted.
        let k =
          IsChain-receipts c moved (dict d ∷ vs) accepted
            (ap as_list (get-put_other "task_id" "receipts" (str other_task) b refl) ∙ listed) in
        let same : get d "task_id" ≡ str other_task = py_eq-str (get d "task_id") other_task (
          sym (ap (λ t. py_eq (get d "task_id") t) (get-put "task_id" (str other_task) b))
          ∙ k.0.same_task) in
        elsewhere (
          str-py_eq other_task (get b "task_id")
            (sym (ap (λ t. py_eq t (get b "task_id")) same) ∙ h.0.same_task)))
  cross_replay_refused b _ vs listed h elsewhere = absurd h

  -- The attacks that an accepted bundle of three receipts or more withstands whatever the digest and
  -- the signatures: T03, T04, T06, T07 and T08.
  pub record Withstands (b : Fields) : Type 0 where
    pub deletion : attack_refused c (on_receipts delete_middle b) ≡ true
    pub reordering : attack_refused c (on_receipts reorder b) ≡ true
    pub replay : attack_refused c (cross_replay b) ≡ true
    pub rollback : attack_refused c (on_receipts rollback_replay b) ≡ true
    pub retyping : attack_refused c (on_receipts tamper_metadata b) ≡ true

  withstands :
      (b : Fields) (vs : Items)
      → get b "receipts" ≡ list vs
      → 3 ≤ length (elements vs)
      → IsChain c (get b "task_id") 0 null (elements vs)
      → get b "task_id" ≢ str other_task
      → Withstands b
  withstands b nil e long h elsewhere = absurd (omega arith)
  withstands b (cons v nil) e long h elsewhere = absurd (omega arith)
  withstands b (cons v (cons w nil)) e long h elsewhere = absurd (omega arith)
  withstands b (cons v (cons w (cons x vs))) e long h elsewhere =
      let t = get b "task_id" in
      let (l, first, is_first, rest) = IsChain-rest c t null 0 v (w ∷ x ∷ elements vs) h in
      let (_, second, is_second, _) = IsChain-rest c t l 1 w (x ∷ elements vs) rest in
      record {
        deletion = delete_middle_refused c t b v w x vs e h;
        reordering = reorder_refused c t b v w (cons x vs) e h;
        replay = cross_replay_refused b v (w ∷ x ∷ elements vs) (ap as_list e) h elsewhere;
        rollback =
            rollback_replay_refused c b v second (cons x vs)
              (e ∙ ap (λ u. list (cons v (cons u (cons x vs)))) is_second);
        retyping =
            tamper_metadata_refused c b first (cons w (cons x vs))
              (e ∙ ap (λ u. list (cons u (cons w (cons x vs)))) is_first);
      }

  -- A bundle that the verifier does not call UNTRUSTED, with three receipts or more and another task
  -- than that of the replay attack, withstands the deletion of a receipt in the middle, the exchange of
  -- the first two, the change of its task, the repetition of a position and the change of a type.
  pub verify_bundle-Withstands :
      (b : Fields) (receipts : List Value)
      → IsAccepted (verify_bundle c false none (dict b))
      → as_list (get b "receipts") ≡ some receipts
      → 3 ≤ length receipts
      → get b "task_id" ≢ str other_task
      → Withstands b
  verify_bundle-Withstands b receipts accepted listed long elsewhere =
      let (vs, e, same) = listed_items (get b "receipts") receipts listed in
      withstands b vs e (subst (λ l. 3 ≤ length l) (sym same) long)
        (subst (λ l. IsChain c (get b "task_id") 0 null l) (sym same)
          (IsChain-receipts c b receipts accepted listed))
        elsewhere
