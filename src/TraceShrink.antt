-- ===== src/TraceShrink.antt =====
-- continuity_receipt/trace_shrink.py: a failing input is made smaller while it still fails. The
-- predicate is a parameter: it fails when its answer is falsy or it raises.
pub mod Reduce
pub mod Minimal
pub mod Captured
use continuity_receipt.Base.{
  ℕ, zero, suc, ◌+◌, ◌-◌, ◌/◌, String, Bool, Option, none, some, List, [], ◌∷◌, ◌++◌, length, leb,
  ltb, str_eq, if◌then◌else◌, ◌>>=◌,
}

module _ {ℓ} {A : Type ℓ} where
  -- `xs[:n]` and `xs[n:]`
  abbrev pub take : ℕ → List A → List A
  take zero xs = []
  take (suc n) [] = []
  take (suc n) (x ∷ xs) = x ∷ take n xs

  abbrev pub drop : ℕ → List A → List A
  drop zero xs = xs
  drop (suc n) [] = []
  drop (suc n) (x ∷ xs) = drop n xs

  -- `xs[:i] + xs[i + 1:]`
  abbrev pub omit : ℕ → List A → List A
  omit i xs = take i xs ++ drop (suc i) xs

-- The names that the search for the smallest failing prefix assigns.
pub record Bounds {ℓ} (A : Type ℓ) : Type ℓ where
  pub low : ℕ
  pub high : ℕ
  pub failing_prefix : List A

module _ {ℓ} {A : Type ℓ} (fails : List A → Bool) where
  -- One round of the binary search.
  unfoldable pub narrow : List A → Bounds A → Bounds A
  narrow events b =
      let mid = (b.low + b.high) / 2 in
      let prefix = take mid events in
      if fails prefix
      then record { low = b.low; high = mid - 1; failing_prefix = prefix }
      else record { low = mid + 1; high = b.high; failing_prefix = b.failing_prefix }

  -- The loop of the search; `none` when the rounds run out.
  unfoldable pub search : ℕ → List A → Bounds A → Option (List A)
  search zero events b = none
  search (suc rounds) events b =
      let rest = search rounds events (narrow events b) in
      if leb b.low b.high then rest else some b.failing_prefix

  -- One round of the omissions: the list and the index after it.
  unfoldable pub omit_step : List A → ℕ → List A × ℕ
  omit_step shrunk i =
      let candidate = omit i shrunk in if fails candidate then (candidate, i) else (shrunk, suc i)

  -- The loop of the omissions; `none` when the rounds run out.
  unfoldable pub omissions : ℕ → List A → ℕ → Option (List A)
  unfolding omit_step
  omissions zero shrunk i = none
  omissions (suc rounds) shrunk i =
      let next = omit_step shrunk i in
      let rest = omissions rounds next.0 next.1 in
      if ltb i (length shrunk)
      then elim (omit i shrunk) [ [] ↦ some shrunk | x ∷ xs ↦ rest ]
      else some shrunk

  -- `shrink_trace`
  unfoldable pub shrink_trace : List A → Option (List A)
  unfolding search omissions
  shrink_trace events =
      if leb (length events) 1
      then some events
      else (search (suc (length events)) events
            (record { low = 1; high = length events; failing_prefix = events })
          >>= λ failing_prefix. omissions (suc (length failing_prefix)) failing_prefix 0)

module _ {ℓ} {A : Type ℓ} (fails : List (String × A) → Bool) where
  -- The first key that fails alone.
  unfoldable pub alone : List (String × A) → Option (List (String × A))
  alone [] = none
  alone (entry ∷ entries) =
      let rest = alone entries in if fails (entry ∷ []) then some (entry ∷ []) else rest

  -- `{x: captured[x] for x in keys if x != k}`
  abbrev pub except : String → List (String × A) → List (String × A)
  except k [] = []
  except k ((x, a) ∷ entries) =
      let rest = except k entries in if str_eq x k then rest else (x, a) ∷ rest

  -- The loop of the deletions, for the keys left.
  unfoldable pub deletions :
      List (String × A) → List (String × A) → List (String × A) → List (String × A)
  deletions captured [] minimal = minimal
  deletions captured ((k, a) ∷ entries) minimal =
      let trial = except k captured in
      deletions captured entries (if fails trial then trial else minimal)

  -- `shrink_counterexample`
  unfoldable pub shrink_counterexample : List (String × A) → List (String × A)
  unfolding alone deletions
  shrink_counterexample captured =
      if leb (length captured) 1 then captured else elim (alone captured) [
        | some trial ↦ trial
        | none ↦ deletions captured captured captured
      ]
