-- ===== src/Tests/Shrink.antt =====
-- Traces that are shrunk.
use mathlib.Core.List.{Sublist, Sublistᴰ}
use mathlib.Core.Bool.{Bool-set}
use mathlib.Core.Logic.{∥∥₁_elim}
use continuity_receipt.Base.{
  ap, ℕ, String, Bool, true, false, some, List, [], ◌∷◌, ◌≡◌, refl, ◌||◌, ◌&&◌, ◌==◌, arith, ◌≤◌,
  ◌+◌, leb, ◌⊎◌, All, length,
}
use continuity_receipt.TraceShrink.{shrink_trace, shrink_counterexample, search, omissions, narrow}
use continuity_receipt.TraceShrink.Reduce.{IsReduced}
use continuity_receipt.TraceShrink.Minimal.{omitted, shrink_trace-IsReduced, shrink_trace-IsMinimal}
use continuity_receipt.TraceShrink.Captured.{shrink_counterexample-IsReduced}

abbrev has : ℕ → List ℕ → Bool
has n [] = false
has n (x ∷ xs) = (x == n) || has n xs

-- The events 3 and 5 together fail.
abbrev both : List ℕ → Bool
both xs = has 3 xs && has 5 xs

trace : List ℕ
trace = 1 ∷ 3 ∷ 4 ∷ 5 ∷ 6 ∷ []

shrunk : shrink_trace both trace ≡ some (3 ∷ 5 ∷ [])
unfolding shrink_trace trace search omissions narrow
shrunk = refl

has_part : (n : ℕ) (xs ys : List ℕ) → Sublistᴰ xs ys → has n xs ≡ true → has n ys ≡ true
has_part n _ _ Sublistᴰ.slnil h = h
has_part n xs (y ∷ ys) (Sublistᴰ.cons s) h = ground (arith, has_part n xs ys s h)
has_part n (x ∷ xs) (y ∷ ys) (Sublistᴰ.cons-cons e s) h =
    ground (arith, has_part n xs ys s, ap (λ k. k == n) e)

both-Sublist : (xs ys : List ℕ) → Sublist xs ys → both xs ≡ true → both ys ≡ true
both-Sublist xs ys s h =
    ∥∥₁_elim s (Bool-set (both ys) true)
      (λ d. ground (arith, has_part 3 xs ys d, has_part 5 xs ys d))

shrink_trace-IsReduced_example :
    (ys : List ℕ) × (shrink_trace both trace ≡ some ys) × IsReduced both trace ys
shrink_trace-IsReduced_example = shrink_trace-IsReduced both trace

shrink_trace-IsMinimal_example :
    (ys : List ℕ) × (shrink_trace both trace ≡ some ys)
    × (length ys ≤ 1 ⊎ All (λ l. both l ≡ false) (omitted ys))
shrink_trace-IsMinimal_example = shrink_trace-IsMinimal both both-Sublist trace

-- Three files, of which two are large.
files : List (String × ℕ)
files = ("a", 1) ∷ ("b", 7) ∷ ("c", 9) ∷ []

abbrev total : List (String × ℕ) → ℕ
total [] = 0
total ((k, n) ∷ xs) = n + total xs

abbrev large : List (String × ℕ) → Bool
large xs = leb 16 (total xs)

shrink_counterexample-IsReduced_example : IsReduced large files (shrink_counterexample large files)
shrink_counterexample-IsReduced_example = shrink_counterexample-IsReduced large files
