-- ===== src/Profile/Sound.antt =====
-- What a receiver's profile is that `validate_profile` returns a summary of.
use mathlib.Core.List.Perm
use mathlib.Core.List.{Perm}
use continuity_receipt.Base.{
  ℕ, String, Bool, true, not, ◌&&◌, ◌||◌, ◌==◌, List, [], ◌∷◌, str_eq, eq_iff, member, ◌≡◌, ◌≢◌,
  arith, All, &&_true, either_way,
}
use continuity_receipt.Value.Number.{codes}
use continuity_receipt.Canon.Text.{lt_codes}
use continuity_receipt.Profile.{
  components, is_plain, all_plain, path_valid, all_texts_are, no_repeat, chosen_from, insert_text,
  sort_texts,
}

-- A component of a path that neither is empty nor leads out of the directory.
abbrev pub IsPlain : List ℕ → Type 0
IsPlain part = (part ≢ []) × (part ≢ b'.' ∷ []) × (part ≢ b'.' ∷ b'.' ∷ [])

-- A path of the inventory stays below the directory that it starts in.
abbrev pub IsBelow : String → Type 0
IsBelow p = All IsPlain (components (codes p))

-- The texts differ from one another.
abbrev pub AllDiffer : List String → Type 0
AllDiffer [] = Unit
AllDiffer (s ∷ ss) = All (λ t. s ≢ t) ss × AllDiffer ss

-- Texts of the inventory that differ.
abbrev pub IsChosen : List String → List String → Type 0
IsChosen inventory ss = All (λ s. member s inventory ≡ true) ss × AllDiffer ss

IsPlain-is_plain : (part : List ℕ) → is_plain part ≡ true → IsPlain part
IsPlain-is_plain [] h = cc
IsPlain-is_plain (x ∷ []) h =
    (λ e. cc e, λ e. let same : x ≡ b'.' = cc e in dotted x same h, λ e. cc e)
  where
    dotted : (x : ℕ) → x ≡ b'.' → ¬ (not (x == b'.') ≡ true)
    dotted x e h = ground arith
IsPlain-is_plain (x ∷ y ∷ []) h = (
  λ e. cc e,
  λ e. cc e,
  λ e. let first : x ≡ b'.' = cc e in let second : y ≡ b'.' = cc e in dotted x y first second h,
)
  where
    dotted : (x y : ℕ) → x ≡ b'.' → y ≡ b'.' → ¬ (not ((x == b'.') && (y == b'.')) ≡ true)
    dotted x y e f h = ground arith
IsPlain-is_plain (x ∷ y ∷ z ∷ part) h = (λ e. cc e, λ e. cc e, λ e. cc e)

All-all_plain : (parts : List (List ℕ)) → all_plain parts ≡ true → All IsPlain parts
All-all_plain [] h = tt
All-all_plain (part ∷ parts) h =
    let (first, rest) = (&&_true (is_plain part) (all_plain parts)).0 h in
    (IsPlain-is_plain part first, All-all_plain parts rest)

pub IsBelow-path_valid : (p : String) → path_valid p ≡ true → IsBelow p
unfolding path_valid
IsBelow-path_valid p h = All-all_plain (components (codes p)) ((&&_true _ _).0 h).1

pub All-all_texts_are :
    {P : String → Type 0} (test : String → Bool) (ss : List String)
    → ((s : String) → test s ≡ true → P s)
    → all_texts_are test ss ≡ true
    → All P ss
All-all_texts_are test [] sound h = tt
All-all_texts_are test (s ∷ ss) sound h =
    let (first, rest) = (&&_true (test s) (all_texts_are test ss)).0 h in
    (sound s first, All-all_texts_are test ss sound rest)

All-member : (s : String) (ss : List String) → not (member s ss) ≡ true → All (λ t. s ≢ t) ss
All-member s [] h = tt
All-member s (t ∷ ts) h = (
  (λ e. met (str_eq s t) (member s ts) h ((eq_iff s t).1 e)),
  All-member s ts (others (str_eq s t) (member s ts) h),
)
  where
    met : (a b : Bool) → not (a || b) ≡ true → ¬ (a ≡ true)
    met a b h e = ground arith

    others : (a b : Bool) → not (a || b) ≡ true → not b ≡ true
    others a b h = ground arith

pub AllDiffer-no_repeat : (ss : List String) → no_repeat ss ≡ true → AllDiffer ss
AllDiffer-no_repeat [] h = tt
AllDiffer-no_repeat (s ∷ ss) h =
    let (first, rest) = (&&_true (not (member s ss)) (no_repeat ss)).0 h in
    (All-member s ss first, AllDiffer-no_repeat ss rest)

pub IsChosen-chosen_from :
    (inventory ss : List String) → chosen_from inventory ss ≡ true → IsChosen inventory ss
IsChosen-chosen_from inventory ss h =
    let (from, differ) =
      (&&_true (all_texts_are (λ s. member s inventory) ss) (no_repeat ss)).0 h in
    (All-all_texts_are (λ s. member s inventory) ss (λ s e. e) from, AllDiffer-no_repeat ss differ)

Perm-insert_text : (s : String) (ts : List String) → Perm (insert_text s ts) (s ∷ ts)
unfolding insert_text
Perm-insert_text s [] = Perm.refl (s ∷ [])
Perm-insert_text s (t ∷ ts) =
    either_way (λ l. Perm l (s ∷ t ∷ ts)) (lt_codes (codes t) (codes s))
      (λ e. Perm.trans (Perm.cons t (Perm-insert_text s ts)) (Perm.swap s t ts))
      (λ e. Perm.refl (s ∷ t ∷ ts))

pub Perm-sort_texts : (ss : List String) → Perm (sort_texts ss) ss
unfolding sort_texts
Perm-sort_texts [] = Perm.refl []
Perm-sort_texts (s ∷ ss) =
    Perm.trans (Perm-insert_text s (sort_texts ss)) (Perm.cons s (Perm-sort_texts ss))
