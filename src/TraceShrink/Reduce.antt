-- ===== src/TraceShrink/Reduce.antt =====
-- What the two loops of the trace shrinker keep.
use mathlib.Core.List.Sublist
use mathlib.Core.List.{Sublist, nil-sublist}
use continuity_receipt.Base.{
  either_way, ℕ, zero, suc, ◌+◌, ◌/◌, ◌<◌, ◌≤◌, Bool, true, Option, some, List, [], ◌∷◌, ◌≡◌, refl,
  ap, ◌⊎◌, inl, inr, arith, length, leb, ltb,
}
use continuity_receipt.TraceShrink.{take, omit, Bounds, narrow, search, omit_step, omissions}

module _ {ℓ} {A : Type ℓ} where
  pub Sublist-take : (n : ℕ) (xs : List A) → Sublist (take n xs) xs
  Sublist-take zero xs = nil-sublist xs
  Sublist-take (suc n) [] = Sublist.refl []
  Sublist-take (suc n) (x ∷ xs) = Sublist.cons-cons x (Sublist-take n xs)

  pub Sublist-omit : (i : ℕ) (xs : List A) → Sublist (omit i xs) xs
  Sublist-omit zero [] = Sublist.refl []
  Sublist-omit zero (x ∷ xs) = Sublist.cons x (Sublist.refl xs)
  Sublist-omit (suc i) [] = Sublist.refl []
  Sublist-omit (suc i) (x ∷ xs) = Sublist.cons-cons x (Sublist-omit i xs)

  -- An omission before another one.
  pub Sublist-omit_omit : (j i : ℕ) (xs : List A) → j < i → Sublist (omit j (omit i xs)) (omit j xs)
  Sublist-omit_omit zero zero xs h = absurd (omega arith)
  Sublist-omit_omit (suc j) zero xs h = absurd (omega arith)
  Sublist-omit_omit zero (suc i) [] h = Sublist.refl []
  Sublist-omit_omit (suc j) (suc i) [] h = Sublist.refl []
  Sublist-omit_omit zero (suc i) (x ∷ xs) h = Sublist-omit i xs
  Sublist-omit_omit (suc j) (suc i) (x ∷ xs) h =
      Sublist.cons-cons x (Sublist-omit_omit j i xs (omega arith))

  pub length-omit : (i : ℕ) (xs : List A) → i < length xs → suc (length (omit i xs)) ≡ length xs
  length-omit i [] h = absurd (omega arith)
  length-omit zero (x ∷ xs) h = refl
  length-omit (suc i) (x ∷ xs) h = ap suc (length-omit i xs (omega arith))

module _ {ℓ} {A : Type ℓ} (fails : List A → Bool) (events : List A) where
  -- Part of the events, which fails unless it is all of them.
  abbrev pub IsReduced : List A → Type ℓ
  IsReduced xs = Sublist xs events × ((fails xs ≡ true) ⊎ (xs ≡ events))

  -- The rounds are enough for the interval.
  abbrev pub Enough : ℕ → Bounds A → Type 0
  Enough rounds b = (1 ≤ b.low) × (b.low ≤ b.high + 1) × (b.high + 1 < rounds + b.low)

  IsReduced-narrow :
      (b : Bounds A) → IsReduced b.failing_prefix → IsReduced (narrow fails events b).failing_prefix
  unfolding narrow
  IsReduced-narrow b h =
      let mid = (b.low + b.high) / 2 in
      either_way (λ (n : Bounds A). IsReduced n.failing_prefix) (fails (take mid events))
        (λ e. (Sublist-take mid events, inl e)) (λ e. h)

  Enough-narrow :
      (rounds : ℕ) (b : Bounds A)
      → b.low ≤ b.high
      → Enough (suc rounds) b
      → Enough rounds (narrow fails events b)
  unfolding narrow
  Enough-narrow rounds b h enough =
      either_way (Enough rounds) (fails (take ((b.low + b.high) / 2) events))
        (λ e. (omega arith, omega arith, omega arith))
        (λ e. (omega arith, omega arith, omega arith))

  pub search-IsReduced :
      (rounds : ℕ) (b : Bounds A)
      → Enough rounds b
      → IsReduced b.failing_prefix
      → (xs : List A) × (search fails rounds events b ≡ some xs) × IsReduced xs
  unfolding search
  search-IsReduced zero b enough h = absurd (omega arith)
  search-IsReduced (suc rounds) b enough h =
      either_way (λ o. (xs : List A) × (o ≡ some xs) × IsReduced xs) (leb b.low b.high)
        (λ e.
          search-IsReduced rounds (narrow fails events b)
            (Enough-narrow rounds b (ground arith) enough) (IsReduced-narrow b h))
        (λ e. (b.failing_prefix, refl, h))

  pub IsReduced-omit_step :
      (xs : List A) (i : ℕ) → IsReduced xs → IsReduced (omit_step fails xs i).0
  unfolding omit_step
  IsReduced-omit_step xs i h =
      either_way (λ (n : List A × ℕ). IsReduced n.0) (fails (omit i xs))
        (λ e. (Sublist.trans (Sublist-omit i xs) h.0, inl e)) (λ e. h)

module _ {ℓ} {A : Type ℓ} (fails : List A → Bool) where
  abbrev pub Fits : ℕ → List A × ℕ → Type 0
  Fits rounds s = (s.1 ≤ length s.0) × (length s.0 < rounds + s.1)

  Fits-omit_step :
      (rounds : ℕ) (xs : List A) (i : ℕ)
      → i < length xs
      → Fits (suc rounds) (xs, i)
      → Fits rounds (omit_step fails xs i)
  unfolding omit_step
  Fits-omit_step rounds xs i h fit =
      either_way (Fits rounds) (fails (omit i xs))
        (λ e. (omega (arith, length-omit i xs h), omega (arith, length-omit i xs h)))
        (λ e. (omega arith, omega arith))

  at_most_one : (xs : List A) (i : ℕ) → i < length xs → omit i xs ≡ [] → length xs ≤ 1
  at_most_one xs i h e =
      let short : length (omit i xs) ≡ 0 = ap length e in omega (arith, length-omit i xs h)

module _ {ℓ κ} {A : Type ℓ} (fails : List A → Bool) (I : List A → ℕ → Type κ)
    (keeps : (xs : List A) (i : ℕ)
      → i < length xs
      → I xs i
      → I (omit_step fails xs i).0 (omit_step fails xs i).1) where
  -- The rounds are enough, and what a round keeps holds where the loop ends.
  pub omissions-keep :
      (rounds : ℕ) (xs : List A) (i : ℕ)
      → Fits fails rounds (xs, i)
      → I xs i
      → (ys : List A) × (k : ℕ) × (omissions fails rounds xs i ≡ some ys)
        × I ys k
        × (length ys ≤ k ⊎ length ys ≤ 1)
  unfolding omissions
  omissions-keep zero xs i fit h = absurd (omega arith)
  omissions-keep (suc rounds) xs i fit h =
      either_way
        (λ o. (ys : List A) × (k : ℕ) × (o ≡ some ys) × I ys k × (length ys ≤ k ⊎ length ys ≤ 1))
        (ltb i (length xs))
        (λ e.
          let within : i < length xs = ground arith in
          let next = omit_step fails xs i in
          unless_nil (omit i xs) xs i within refl h (
            omissions-keep rounds next.0 next.1 (Fits-omit_step fails rounds xs i within fit)
              (keeps xs i within h)))
        (λ e. (xs, i, refl, h, inl (ground arith)))
    where
      unless_nil :
          (candidate xs : List A) (i : ℕ)
          → i < length xs
          → omit i xs ≡ candidate
          → I xs i
          → {rest : Option (List A)}
          → ((ys : List A) × (k : ℕ) × (rest ≡ some ys) × I ys k × (length ys ≤ k ⊎ length ys ≤ 1))
          → (ys : List A) × (k : ℕ) × (elim candidate [ [] ↦ some xs | x ∷ cs ↦ rest ] ≡ some ys)
            × I ys k
            × (length ys ≤ k ⊎ length ys ≤ 1)
      unless_nil [] xs i within e h rest = (xs, i, refl, h, inr (at_most_one fails xs i within e))
      unless_nil (x ∷ cs) xs i within e h rest = rest
