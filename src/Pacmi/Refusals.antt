-- ===== src/Pacmi/Refusals.antt =====
-- Attacks on the order of an accepted bundle are refused.
use continuity_receipt.Base.{
  ℕ, suc, String, Bool, true, false, not, ◌||◌, Option, none, some, List, ◌∷◌, pos, ◌≡◌, refl, sym,
  ap, ◌∙◌, arith, ◌>>=◌,
}
use mathlib.Core.Path.{subst}
use continuity_receipt.Value.{
  Value, null, bool, int, float, str, list, dict, Items, cons, elements, Fields, get, put, as_list,
}
use continuity_receipt.Value.Put.{get-put}
use continuity_receipt.Crypto.{Crypto}
use continuity_receipt.Verify.Main.{Outcome, finished, overflow_error, verify_bundle}
use continuity_receipt.Verify.Accepted.{IsAccepted}
use continuity_receipt.Verify.Soundness.{verify_bundle-IsChain}
use continuity_receipt.Verify.Chain.{known_type, link_after}
use continuity_receipt.Verify.Chain.Linked.{IsChain, IsIndex, integer, zero_as_false, one_as_true}
use continuity_receipt.Pacmi.Attacks.{
  on_list, on_receipts, delete_middle, reorder, rollback_replay, tamper_metadata,
}
use continuity_receipt.Pacmi.{is_nil, attack_refused, refused, is_untrusted}

-- A value stands at one position only.
IsIndex-unique : (n m : ℕ) (v : Value) → IsIndex n v → IsIndex m v → n ≡ m
IsIndex-unique n m v (integer e) (integer f) = cc (e, f)
IsIndex-unique n m v (integer e) (zero_as_false f z) = cc (e, f)
IsIndex-unique n m v (integer e) (one_as_true f z) = cc (e, f)
IsIndex-unique n m v (zero_as_false e z) (integer f) = cc (e, f)
IsIndex-unique n m v (zero_as_false e z) (zero_as_false f y) = z ∙ sym y
IsIndex-unique n m v (zero_as_false e z) (one_as_true f y) = cc (e, f)
IsIndex-unique n m v (one_as_true e z) (integer f) = cc (e, f)
IsIndex-unique n m v (one_as_true e z) (zero_as_false f y) = cc (e, f)
IsIndex-unique n m v (one_as_true e z) (one_as_true f y) = z ∙ sym y

-- A result that is not refused is accepted.
pub IsAccepted-refused : (o : Outcome) → refused o ≡ false → IsAccepted o
IsAccepted-refused (finished r summary) h =
    λ e. trusted_twice (is_nil r.errors) (is_untrusted r.verdict) h (ap is_untrusted e)
  where
    trusted_twice : (a b : Bool) → (not a || b) ≡ false → ¬ (b ≡ true)
    trusted_twice a b p q = ground arith
IsAccepted-refused overflow_error h = cc

pub listed_items :
    (v : Value) (rs : List Value)
    → as_list v ≡ some rs
    → (vs : Items) × (v ≡ list vs) × (elements vs ≡ rs)
listed_items (list vs) rs h = (vs, refl, cc h)
listed_items null rs h = cc
listed_items (bool b) rs h = cc
listed_items (int z) rs h = cc
listed_items (float f) rs h = cc
listed_items (str s) rs h = cc
listed_items (dict d) rs h = cc

module _ (c : Crypto) where
  pub refusal_of :
      (b : Fields)
      → ¬ IsAccepted (verify_bundle c false none (dict b))
      → attack_refused c (some b) ≡ true
  unfolding attack_refused
  refusal_of b h = go (refused (verify_bundle c false none (dict b))) refl
    where
      go :
          (r : Bool)
          → refused (verify_bundle c false none (dict b)) ≡ r
          → refused (verify_bundle c false none (dict b)) ≡ true
      go true e = e
      go false e = absurd (h (IsAccepted-refused (verify_bundle c false none (dict b)) e))

  -- The chain of an accepted bundle whose receipts are given.
  pub IsChain-receipts :
      (b : Fields) (rs : List Value)
      → IsAccepted (verify_bundle c false none (dict b))
      → as_list (get b "receipts") ≡ some rs
      → IsChain c (get b "task_id") 0 null rs
  IsChain-receipts b rs accepted listed =
      let (bundle, receipts, same, _, found, _, _, chain) =
        verify_bundle-IsChain c false none (dict b) accepted in
      let here : bundle ≡ b = cc same in
      let there : receipts ≡ rs = cc (here, found, listed) in
      subst (λ l. IsChain c (get b "task_id") 0 null l) there
        (subst (λ d. IsChain c (get d "task_id") 0 null receipts) here chain)

  abbrev seq_of : Value → Value
  seq_of (dict d) = get d "seq"
  seq_of _ = null

  IsIndex-seq_of :
      (task e : Value) (n : ℕ) (v : Value) (vs : List Value)
      → IsChain c task n e (v ∷ vs)
      → IsIndex n (seq_of v)
  IsIndex-seq_of task e n (dict d) vs h = h.0.in_position
  IsIndex-seq_of task e n null vs h = absurd h
  IsIndex-seq_of task e n (bool b) vs h = absurd h
  IsIndex-seq_of task e n (int b) vs h = absurd h
  IsIndex-seq_of task e n (float b) vs h = absurd h
  IsIndex-seq_of task e n (str b) vs h = absurd h
  IsIndex-seq_of task e n (list b) vs h = absurd h

  pub IsChain-rest :
      (task e : Value) (n : ℕ) (v : Value) (vs : List Value)
      → IsChain c task n e (v ∷ vs)
      → (e' : Value) × (d : Fields) × (v ≡ dict d) × IsChain c task (suc n) e' vs
  IsChain-rest task e n (dict d) vs h = (link_after c d, d, refl, h.1)
  IsChain-rest task e n null vs h = absurd h
  IsChain-rest task e n (bool b) vs h = absurd h
  IsChain-rest task e n (int b) vs h = absurd h
  IsChain-rest task e n (float b) vs h = absurd h
  IsChain-rest task e n (str b) vs h = absurd h
  IsChain-rest task e n (list b) vs h = absurd h

  on_receipts-lem :
      (attack : Items → Option Items) (b : Fields) (vs ws : Items)
      → get b "receipts" ≡ list vs
      → attack vs ≡ some ws
      → on_receipts attack b ≡ some (put "receipts" (list ws) b)
  on_receipts-lem attack b vs ws e h =
      ap (λ v. on_list attack v b) e ∙ ap (λ o. o >>= λ us. some (put "receipts" (list us) b)) h

  -- An attack that breaks the chain is refused.
  broken :
      (attack : Items → Option Items) (b : Fields) (vs ws : Items)
      → get b "receipts" ≡ list vs
      → attack vs ≡ some ws
      → ((t : Value) → ¬ IsChain c t 0 null (elements ws))
      → attack_refused c (on_receipts attack b) ≡ true
  broken attack b vs ws e h unchained =
      let attacked = put "receipts" (list ws) b in
      ap (attack_refused c) (on_receipts-lem attack b vs ws e h)
      ∙ refusal_of attacked (λ accepted. unchained (get attacked "task_id") (
          IsChain-receipts attacked (elements ws) accepted
            (ap as_list (get-put "receipts" (list ws) b))))

  unordered :
      (t t' e e' : Value) (n m : ℕ) (v : Value) (vs ws : List Value)
      → IsChain c t n e (v ∷ vs)
      → IsChain c t' m e' (v ∷ ws)
      → n ≡ m
  unordered t t' e e' n m v vs ws h k =
      IsIndex-unique n m (seq_of v) (IsIndex-seq_of t e n v vs h) (IsIndex-seq_of t' e' m v ws k)

  pub delete_middle_refused :
      (t : Value) (b : Fields) (v w x : Value) (vs : Items)
      → get b "receipts" ≡ list (cons v (cons w (cons x vs)))
      → IsChain c t 0 null (v ∷ w ∷ x ∷ elements vs)
      → attack_refused c (on_receipts delete_middle b) ≡ true
  unfolding delete_middle
  delete_middle_refused t b v w x vs e h =
      let (l, _, _, after_first) = IsChain-rest t null 0 v (w ∷ x ∷ elements vs) h in
      let (l', _, _, after_second) = IsChain-rest t l 1 w (x ∷ elements vs) after_first in
      broken delete_middle b (cons v (cons w (cons x vs))) (cons v (cons x vs)) e refl (λ t' k.
        let (l'', _, _, moved) = IsChain-rest t' null 0 v (x ∷ elements vs) k in
        let same : 2 ≡ 1 =
          unordered t t' l' l'' 2 1 x (elements vs) (elements vs) after_second moved in
        omega (arith, same))

  pub reorder_refused :
      (t : Value) (b : Fields) (v w : Value) (vs : Items)
      → get b "receipts" ≡ list (cons v (cons w vs))
      → IsChain c t 0 null (v ∷ w ∷ elements vs)
      → attack_refused c (on_receipts reorder b) ≡ true
  unfolding reorder
  reorder_refused t b v w vs e h =
      let (l, _, _, after_first) = IsChain-rest t null 0 v (w ∷ elements vs) h in
      broken reorder b (cons v (cons w vs)) (cons w (cons v vs)) e refl (λ t' k.
        let same : 1 ≡ 0 =
          unordered t t' l null 1 0 w (elements vs) (v ∷ elements vs) after_first k in
        omega (arith, same))

  pub rollback_replay_refused :
      (b : Fields) (v : Value) (d : Fields) (vs : Items)
      → get b "receipts" ≡ list (cons v (cons (dict d) vs))
      → attack_refused c (on_receipts rollback_replay b) ≡ true
  unfolding rollback_replay
  rollback_replay_refused b v d vs e =
      let replayed = dict (put "seq" (int (pos 0)) d) in
      broken rollback_replay b (cons v (cons (dict d) vs)) (cons v (cons replayed vs)) e refl
        (λ t' k.
          let (l, _, _, after_first) = IsChain-rest t' null 0 v (replayed ∷ elements vs) k in
          let same : 1 ≡ 0 =
            IsIndex-unique 1 0 (seq_of replayed)
              (IsIndex-seq_of t' l 1 replayed (elements vs) after_first)
              (integer (get-put "seq" (int (pos 0)) d)) in
          omega (arith, same))

  unknown_type_lem :
      (t : String) (spec : Value) → t ≡ "task.unauthorized_metadata" → ¬ (known_type t spec ≡ true)
  unfolding known_type
  unknown_type_lem t spec e h =
      let none_known : known_type "task.unauthorized_metadata" spec ≡ true =
        sym (ap (λ s. known_type s spec) e) ∙ h in
      cc none_known

  pub tamper_metadata_refused :
      (b d : Fields) (vs : Items)
      → get b "receipts" ≡ list (cons (dict d) vs)
      → attack_refused c (on_receipts tamper_metadata b) ≡ true
  unfolding tamper_metadata
  tamper_metadata_refused b d vs e =
      broken tamper_metadata b (cons (dict d) vs)
        (cons (dict (put "type" (str "task.unauthorized_metadata") d)) vs) e refl
        (λ t' k.
          unknown_type_lem k.0.record_type
            (get (put "type" (str "task.unauthorized_metadata") d) "spec")
            (cc (k.0.typed, get-put "type" (str "task.unauthorized_metadata") d)) k.0.known)
