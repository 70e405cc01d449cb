-- ===== src/Verify/Report/Grade.antt =====
-- The verdict as a function of the entries, and the entries of two passes in a row.
use continuity_receipt.Base.{
  Bool, true, false, not, ◌&&◌, ◌≡◌, ◌≢◌, refl, [], ◌∷◌, ◌++◌, if◌then◌else◌, arith, Bool-cases,
  inl, inr, ◌∙◌,
}
use continuity_receipt.Value.{Value}
use continuity_receipt.Verify.Report.{
  Code, fatal, insufficient, provisional, note, Report, Verdict, trusted, conditional,
  insufficient_evidence, untrusted, collect, finish, fatal_if, is_nil,
}

-- No entry is fatal; none is a reason for insufficiency; none is a provisional reason.
abbrev pub fatal_free : Report → Bool
fatal_free [] = true
fatal_free (fatal code rid ∷ es) = false
fatal_free (_ ∷ es) = fatal_free es

abbrev pub sufficient : Report → Bool
sufficient [] = true
sufficient (insufficient reason ∷ es) = false
sufficient (_ ∷ es) = sufficient es

abbrev pub settled_reasons : Report → Bool
settled_reasons [] = true
settled_reasons (provisional reason ∷ es) = false
settled_reasons (_ ∷ es) = settled_reasons es

pub fatal_free-append : (a b : Report) → fatal_free (a ++ b) ≡ (fatal_free a && fatal_free b)
fatal_free-append [] b = refl
fatal_free-append (fatal code rid ∷ a) b = refl
fatal_free-append (insufficient reason ∷ a) b = fatal_free-append a b
fatal_free-append (provisional reason ∷ a) b = fatal_free-append a b
fatal_free-append (note n ∷ a) b = fatal_free-append a b

pub fatal_free-fatal_if :
    (test : Bool) (code : Code) (rid : Value) → fatal_free (fatal_if test code rid) ≡ not test
fatal_free-fatal_if true code rid = refl
fatal_free-fatal_if false code rid = refl

pub fatal_free_parts :
    (a b : Report) → fatal_free (a ++ b) ≡ true → (fatal_free a ≡ true) × (fatal_free b ≡ true)
fatal_free_parts a b h = ground (arith, fatal_free-append a b)

pub fatal_free_join :
    (a b : Report) → fatal_free a ≡ true → fatal_free b ≡ true → fatal_free (a ++ b) ≡ true
fatal_free_join a b h k = ground (arith, fatal_free-append a b)

pub passed :
    (test : Bool) (code : Code) (rid : Value)
    → fatal_free (fatal_if (not test) code rid) ≡ true
    → test ≡ true
passed true code rid h = refl
passed false code rid h = h

pub not_raised :
    (test : Bool) (code : Code) (rid : Value)
    → fatal_free (fatal_if test code rid) ≡ true
    → test ≡ false
not_raised true code rid h = cc
not_raised false code rid h = refl

errors-collect : (report : Report) → is_nil (collect report).errors ≡ fatal_free report
unfolding collect
errors-collect [] = refl
errors-collect (fatal code rid ∷ es) = refl
errors-collect (insufficient reason ∷ es) = errors-collect es
errors-collect (provisional reason ∷ es) = errors-collect es
errors-collect (note n ∷ es) = errors-collect es

insufficient-collect :
    (report : Report) → is_nil (collect report).insufficient_reasons ≡ sufficient report
unfolding collect
insufficient-collect [] = refl
insufficient-collect (fatal code rid ∷ es) = insufficient-collect es
insufficient-collect (insufficient reason ∷ es) = refl
insufficient-collect (provisional reason ∷ es) = insufficient-collect es
insufficient-collect (note n ∷ es) = insufficient-collect es

provisional-collect :
    (report : Report) → is_nil (collect report).provisional_reasons ≡ settled_reasons report
unfolding collect
provisional-collect [] = refl
provisional-collect (fatal code rid ∷ es) = provisional-collect es
provisional-collect (insufficient reason ∷ es) = provisional-collect es
provisional-collect (provisional reason ∷ es) = refl
provisional-collect (note n ∷ es) = provisional-collect es

-- The verdict that a report deserves: an error outweighs missing evidence, and that outweighs
-- what is provisional.
abbrev pub verdict_of : Report → Verdict
verdict_of report =
    if fatal_free report
    then if sufficient report
      then if settled_reasons report then trusted else conditional
      else insufficient_evidence
    else untrusted

-- The verdict of a finished result is the one that its entries deserve.
pub verdict-finish : (report : Report) → (finish (collect report)).verdict ≡ verdict_of report
unfolding finish
verdict-finish report =
    ground (arith, errors-collect report, insufficient-collect report, provisional-collect report)

-- A verdict other than UNTRUSTED means that no entry is fatal.
pub fatal_free_of_verdict :
    (report : Report) → (finish (collect report)).verdict ≢ untrusted → fatal_free report ≡ true
fatal_free_of_verdict report h = elim (Bool-cases (fatal_free report)) [
  | inl free ↦ free
  | inr bad ↦ absurd (h (verdict-finish report ∙ rw bad refl))
]

-- A conditional pass whose test holds.
pub taken :
    (test : Bool) (r : Report)
    → fatal_free (if test then r else []) ≡ true
    → test ≡ true
    → fatal_free r ≡ true
taken true r h e = h
taken false r h e = cc
