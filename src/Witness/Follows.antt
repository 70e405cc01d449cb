-- ===== src/Witness/Follows.antt =====
-- What `verify` trusts.
use mathlib.Core.Path.{subst}
use continuity_receipt.Base.{
  sym, ◌↔◌, str_eq, ◌≢◌, ◌==◌, ℕ, ◌<◌, String, Bool, true, false, not, Option, none, some, ltb,
  eq_iff, if◌then◌else◌, ◌≡◌, refl, ap, ◌∙◌, ◌⊎◌, inl, inr, arith,
}
use continuity_receipt.Witness.{
  read_generation, read_digest, read_sequence, raises, generation_invalid, checkpoint_invalid,
  generation_mismatch, sequence_invalid, checkpoint_mismatch, done, null, pin, below_witness,
  new_witness, Value, verify_witness, Answer, OffHostWitness, differs_from, verify_at, trusted,
}

-- What follows a witness: a higher sequence, or the same with the same checkpoint and generation.
abbrev pub Follows : OffHostWitness → OffHostWitness → Type 0
Follows w v =
    (w.min_sequence < v.min_sequence)
    ⊎ ((w.min_sequence ≡ v.min_sequence)
        × (w.latest_checkpoint ≡ v.latest_checkpoint)
        × (differs_from w.generation_id v.generation_id ≡ false))

differs_from_trans :
    (a b c : Option String)
    → differs_from a b ≡ false
    → differs_from b c ≡ false
    → differs_from a c ≡ false
differs_from_trans none b c h k = refl
differs_from_trans (some a) none c h k = cc
differs_from_trans (some a) (some b) none h k = cc
differs_from_trans (some a) (some b) (some c) h k =
    ground (arith, eq_iff b a, eq_iff c b, eq_iff c a)

pub Follows-refl : (w : OffHostWitness) → Follows w w
Follows-refl w = inr (refl, refl, same w.generation_id)
  where
    same : (g : Option String) → differs_from g g ≡ false
    same none = refl
    same (some g) = ap not ((eq_iff g g).1 refl)

pub Follows-trans : (u v w : OffHostWitness) → Follows u v → Follows v w → Follows u w
Follows-trans u v w (inl a) (inl b) = inl (omega arith)
Follows-trans u v w (inl a) (inr (n, c, g)) = inl (omega arith)
Follows-trans u v w (inr (n, c, g)) (inl b) = inl (omega arith)
Follows-trans u v w (inr (n, c, g)) (inr (n', c', g')) =
    inr (n ∙ n', c ∙ c', differs_from_trans u.generation_id v.generation_id w.generation_id g g')

pub verify_at-Follows :
    (w v : OffHostWitness)
    → Follows w v
    → verify_at w v.min_sequence v.latest_checkpoint v.generation_id ≡ trusted
unfolding verify_at
verify_at-Follows w v (inl h) = ground arith
verify_at-Follows w v (inr (n, c, g)) =
    ground (arith, eq_iff v.latest_checkpoint w.latest_checkpoint, n, c, g)

pub not_below : (n m : ℕ) → ltb m n ≡ false → (n < m) ⊎ (n ≡ m)
not_below n m h = go (ltb n m) refl
  where
    go : (b : Bool) → ltb n m ≡ b → (n < m) ⊎ (n ≡ m)
    go true e = inl (ground arith)
    go false e = inr (ground arith)

pub all_pass :
    (a b d e : Bool) (x y : String)
    → (if a
        then some x
        else if b
        then (if not d then some y else if e then some y else none)
        else none)
      ≡ none
    → (a ≡ false) × ((b ≡ false) ⊎ ((d ≡ true) × (e ≡ false)))
all_pass true b d e x y h = cc
all_pass false false d e x y h = (refl, inl refl)
all_pass false true false e x y h = cc
all_pass false true true true x y h = cc
all_pass false true true false x y h = (refl, inr (refl, refl))

pub unequal : (b : Bool) → b ≡ true → ¬ (b ≡ false)
unequal b h k = cc (h, k)

passes :
    (a b d e : Bool) (x y z : Answer)
    → x ≢ trusted
    → y ≢ trusted
    → z ≢ trusted
    → (if a then x else if b then (if not d then y else if e then z else trusted) else trusted)
      ≡ trusted
    → (a ≡ false) × ((b ≡ false) ⊎ ((d ≡ true) × (e ≡ false)))
passes true b d e x y z p q r h = absurd (p h)
passes false false d e x y z p q r h = (refl, inl refl)
passes false true false e x y z p q r h = absurd (q h)
passes false true true true x y z p q r h = absurd (r h)
passes false true true false x y z p q r h = (refl, inr (refl, refl))

Follows-verify_at :
    (w v : OffHostWitness)
    → verify_at w v.min_sequence v.latest_checkpoint v.generation_id ≡ trusted
    → Follows w v
unfolding verify_at
Follows-verify_at w v h =
    let n = v.min_sequence in
    let (above, rest) =
      passes (ltb n w.min_sequence) (n == w.min_sequence)
        (str_eq v.latest_checkpoint w.latest_checkpoint)
        (differs_from w.generation_id v.generation_id) (below_witness n w.min_sequence)
        (checkpoint_mismatch n) (generation_mismatch n) (λ e. cc e) (λ e. cc e) (λ e. cc e) h in
    elim (not_below w.min_sequence n above) [
      | inl higher ↦ inl higher
      | inr level ↦ elim rest [
        | inl apart ↦ absurd (unequal (n == w.min_sequence) (ground arith) apart)
        | inr (checkpoint, generation) ↦
            inr (
              level,
              sym ((eq_iff v.latest_checkpoint w.latest_checkpoint).0 checkpoint),
              generation,
            )
      ]
    ]

-- The witness that the arguments of `verify` make, if they make one, follows the given one.
abbrev pub IsTrusted : OffHostWitness → (sequence digest generation : Value) → Type 0
IsTrusted w sequence digest generation =
    (v : OffHostWitness) × (new_witness sequence digest generation null ≡ done v) × Follows w v

-- `verify` trusts a sequence, a checkpoint and a generation just if a witness can be made of them
-- that follows the given one.
pub verify_witness-IsTrusted :
    (w : OffHostWitness) (sequence digest generation : Value)
    → verify_witness w sequence digest generation ≡ trusted ↔ IsTrusted w sequence digest generation
unfolding verify_witness new_witness pin
verify_witness-IsTrusted w sequence digest generation =
    go (read_sequence sequence) (read_digest digest) (read_generation generation)
  where
    go :
        (a : Option ℕ) (b : Option String) (c : Option (Option String))
        → (elim a [
          | none ↦ sequence_invalid
          | some n ↦ elim b [
            | none ↦ checkpoint_invalid
            | some d ↦ elim c [ none ↦ generation_invalid | some g ↦ verify_at w n d g ]
          ]
        ]
            ≡ trusted)
          ↔ ((v : OffHostWitness) × (elim a [
            | none ↦ raises "off_host_witness_sequence_invalid"
            | some n ↦ elim b [
              | none ↦ raises "off_host_witness_checkpoint_invalid"
              | some d ↦ elim c [
                | none ↦ raises "off_host_witness_generation_invalid"
                | some g ↦ pin n d g null
              ]
            ]
          ]
                ≡ done v)
              × Follows w v)
    go none b c = (λ h. cc h, λ (v, e, f). cc e)
    go (some n) none c = (λ h. cc h, λ (v, e, f). cc e)
    go (some n) (some d) none = (λ h. cc h, λ (v, e, f). cc e)
    go (some n) (some d) (some g) =
        let made : OffHostWitness = record {
          min_sequence = n;
          latest_checkpoint = d;
          generation_id = g;
          expected_checkpoint_digest = none;
        } in
        (
          λ h. (made, refl, Follows-verify_at w made h),
          λ (v, e, f).
              let same : v ≡ made = cc e in
              verify_at-Follows w made (subst (λ u. Follows w u) same f),
        )
