-- ===== src/Verify/Depth.antt =====
-- `_depth_exceeded` of continuity_receipt/verify.py: the worklist and its result.
use Prim.Native.Nat.{max}
use continuity_receipt.Base.{
  ℕ, zero, suc, ◌+◌, ◌<◌, ◌≤◌, ◌≡◌, ◌∙◌, sym, ap, refl, Bool, true, false, ◌||◌, List, [], ◌∷◌, ltb,
  if◌then◌else◌, arith,
}
use continuity_receipt.Value.{Value, list, dict, Items, nil, cons, Fields, end, field}

abbrev Stack : Type 0
Stack = List (Value × ℕ)

-- `stack.extend(…)`: the last child ends on the top, which is the head here.
push_items : Items → ℕ → Stack → Stack
push_items nil d s = s
push_items (cons v vs) d s = push_items vs d ((v, d) ∷ s)

push_fields : Fields → ℕ → Stack → Stack
push_fields end d s = s
push_fields (field k v fs) d s = push_fields fs d ((v, d) ∷ s)

abbrev push : Value → ℕ → Stack → Stack
push (list vs) d s = push_items vs d s
push (dict fs) d s = push_fields fs d s
push _ d s = s

-- The `while` loop, one round for each unit of fuel.
probe : ℕ → ℕ → Stack → Bool
unfolding push_items push_fields
probe zero limit s = false
probe (suc fuel) limit [] = false
probe (suc fuel) limit ((v, d) ∷ s) =
    let rest = probe fuel limit (push v (suc d) s) in if ltb limit d then true else rest

-- The nodes of a value: one round pops one of them.
mutual
  nodes : Value → ℕ
  nodes (list vs) = suc (nodes_items vs)
  nodes (dict fs) = suc (nodes_fields fs)
  nodes _ = 1

  nodes_items : Items → ℕ
  nodes_items nil = 0
  nodes_items (cons v vs) = nodes v + nodes_items vs

  nodes_fields : Fields → ℕ
  nodes_fields end = 0
  nodes_fields (field k v fs) = nodes v + nodes_fields fs

unfoldable pub depth_exceeded : Value → ℕ → Bool
unfolding probe nodes
depth_exceeded v limit = probe (suc (nodes v)) limit ((v, 1) ∷ [])

-- How many levels lie below a value.
mutual
  pub levels : Value → ℕ
  levels (list vs) = levels_items vs
  levels (dict fs) = levels_fields fs
  levels _ = 0

  levels_items : Items → ℕ
  levels_items nil = 0
  levels_items (cons v vs) = max (suc (levels v)) (levels_items vs)

  levels_fields : Fields → ℕ
  levels_fields end = 0
  levels_fields (field k v fs) = max (suc (levels v)) (levels_fields fs)

weight : Stack → ℕ
weight [] = 0
weight ((v, d) ∷ s) = nodes v + weight s

weight-push_items :
    (vs : Items) (d : ℕ) (s : Stack) → weight (push_items vs d s) ≡ nodes_items vs + weight s
unfolding weight push_items nodes
weight-push_items nil d s = omega arith
weight-push_items (cons v vs) d s = omega (arith, weight-push_items vs d ((v, d) ∷ s))

weight-push_fields :
    (fs : Fields) (d : ℕ) (s : Stack) → weight (push_fields fs d s) ≡ nodes_fields fs + weight s
unfolding weight push_fields nodes
weight-push_fields end d s = omega arith
weight-push_fields (field k v fs) d s = omega (arith, weight-push_fields fs d ((v, d) ∷ s))

-- Some value on the stack reaches below the limit.
any_deep : ℕ → Stack → Bool
any_deep limit [] = false
any_deep limit ((v, d) ∷ s) = ltb limit (d + levels v) || any_deep limit s

ltb-max : (l d a b : ℕ) → ltb l (d + max (suc a) b) ≡ (ltb l (suc d + a) || ltb l (d + b))
ltb-max l d a b = ground arith

||_regroup : (a b c : Bool) → (b || (a || c)) ≡ ((a || b) || c)
||_regroup a b c = ground arith

any_deep-push_items :
    (limit : ℕ) (vs : Items) (d : ℕ) (s : Stack)
    → d ≤ limit
    → any_deep limit (push_items vs (suc d) s)
      ≡ (ltb limit (d + levels_items vs) || any_deep limit s)
unfolding any_deep push_items levels
any_deep-push_items limit nil d s h = ground arith
any_deep-push_items limit (cons v vs) d s h =
    any_deep-push_items limit vs d ((v, suc d) ∷ s) h
    ∙ (||_regroup (ltb limit (suc d + levels v)) (ltb limit (d + levels_items vs))
          (any_deep limit s)
        ∙ ap (λ b. b || any_deep limit s) (sym (ltb-max limit d (levels v) (levels_items vs))))

any_deep-push_fields :
    (limit : ℕ) (fs : Fields) (d : ℕ) (s : Stack)
    → d ≤ limit
    → any_deep limit (push_fields fs (suc d) s)
      ≡ (ltb limit (d + levels_fields fs) || any_deep limit s)
unfolding any_deep push_fields levels
any_deep-push_fields limit end d s h = ground arith
any_deep-push_fields limit (field k v fs) d s h =
    any_deep-push_fields limit fs d ((v, suc d) ∷ s) h
    ∙ (||_regroup (ltb limit (suc d + levels v)) (ltb limit (d + levels_fields fs))
          (any_deep limit s)
        ∙ ap (λ b. b || any_deep limit s) (sym (ltb-max limit d (levels v) (levels_fields fs))))

-- One round keeps the answer, and takes one node off the stack.
any_deep-push :
    (limit : ℕ) (v : Value) (d : ℕ) (s : Stack)
    → d ≤ limit
    → any_deep limit (push v (suc d) s) ≡ (ltb limit (d + levels v) || any_deep limit s)
unfolding levels
any_deep-push limit (list vs) d s h = any_deep-push_items limit vs d s h
any_deep-push limit (dict fs) d s h = any_deep-push_fields limit fs d s h
any_deep-push limit _ d s h = ground arith

weight-push : (v : Value) (d : ℕ) (s : Stack) → suc (weight (push v d s)) ≡ nodes v + weight s
unfolding nodes
weight-push (list vs) d s = omega (arith, weight-push_items vs d s)
weight-push (dict fs) d s = omega (arith, weight-push_fields fs d s)
weight-push _ d s = omega arith

probe-eq-any_deep :
    (fuel limit : ℕ) (s : Stack) → weight s < fuel → probe fuel limit s ≡ any_deep limit s
unfolding probe any_deep weight
probe-eq-any_deep zero limit s h = absurd (omega arith)
probe-eq-any_deep (suc fuel) limit [] h = refl
probe-eq-any_deep (suc fuel) limit ((v, d) ∷ s) h = ground (
  arith,
  weight-push v (suc d) s,
  any_deep-push limit v d s,
  probe-eq-any_deep fuel limit (push v (suc d) s),
)

-- The worklist, with the fuel that it is given, answers whether the value is nested more than
-- `limit` deep, a value without children being of depth 1.
pub depth_exceeded-eq_levels :
    (v : Value) (limit : ℕ) → depth_exceeded v limit ≡ ltb limit (1 + levels v)
unfolding depth_exceeded any_deep weight
depth_exceeded-eq_levels v limit =
    ground (arith, probe-eq-any_deep (suc (nodes v)) limit ((v, 1) ∷ []))
