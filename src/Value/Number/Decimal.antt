-- ===== src/Value/Number/Decimal.antt =====
-- `int(str(n))` for a natural number: `read_int` on what `decimal` prints.
use continuity_receipt.Base.{
  ℕ, zero, suc, ◌+◌, ◌*◌, ◌/◌, ◌%◌, ◌<◌, Bool, true, false, some, List, [], ◌∷◌, pos, ltb, ◌==◌,
  All, ◌≡◌, refl, ap, ◌∙◌, arith, either_way,
}
use continuity_receipt.Value.Number.{
  is_digit, is_space, read_digits, read_signed, read_int, strip_left, strip_right,
}
use continuity_receipt.Canon.Text.{digits, decimal}

-- A code point that is a digit.
abbrev pub IsDigit : ℕ → Type 0
IsDigit c = is_digit c ≡ true

IsDigit-char : (n : ℕ) → n < 10 → IsDigit (b'0' + n)
IsDigit-char n h = ground arith

pub IsDigit-digits :
    (fuel n : ℕ) (tail : List ℕ) → All IsDigit tail → All IsDigit (digits fuel n tail)
unfolding digits
IsDigit-digits zero n tail h = h
IsDigit-digits (suc fuel) n tail h =
    either_way (All IsDigit) (ltb n 10) (λ e. (IsDigit-char n (ground arith), h))
      (λ e.
        IsDigit-digits fuel (n / 10) ((b'0' + n % 10) ∷ tail)
          (IsDigit-char (n % 10) (omega arith), h))

pub IsDigit-decimal : (n : ℕ) → All IsDigit (decimal n)
unfolding decimal
IsDigit-decimal n = IsDigit-digits (suc n) n [] tt

-- A digit is read after what was read before it.
read_step :
    (after : Bool) (acc n : ℕ) (tail : List ℕ)
    → n < 10
    → read_digits after acc ((b'0' + n) ∷ tail) ≡ read_digits true (acc * 10 + n) tail
unfolding read_digits
read_step after acc n tail h =
    rw (IsDigit-char n h) (ap (λ m. read_digits true (acc * 10 + m) tail) (omega arith))

read_digits-digits :
    (fuel n : ℕ) (after : Bool) (tail : List ℕ)
    → n < fuel
    → read_digits after 0 (digits fuel n tail) ≡ read_digits true n tail
unfolding digits
read_digits-digits zero n after tail h = elim h [ ]
read_digits-digits (suc fuel) n after tail h =
    either_way (λ s. read_digits after 0 s ≡ read_digits true n tail) (ltb n 10)
      (λ e.
        read_step after 0 n tail (ground arith) ∙ ap (λ m. read_digits true m tail) (omega arith))
      (λ e.
        read_digits-digits fuel (n / 10) after ((b'0' + n % 10) ∷ tail) (ground arith)
        ∙ (read_step true (n / 10) (n % 10) tail (omega arith)
            ∙ ap (λ m. read_digits true m tail) (omega arith)))

digit_no_space : (c : ℕ) → IsDigit c → is_space c ≡ false
digit_no_space c h = ground arith

digit_no_minus : (c : ℕ) → IsDigit c → (c == b'-') ≡ false
digit_no_minus c h = ground arith

digit_no_plus : (c : ℕ) → IsDigit c → (c == b'+') ≡ false
digit_no_plus c h = ground arith

strip_right_digits : (s : List ℕ) → All IsDigit s → strip_right s ≡ s
unfolding strip_right
strip_right_digits [] h = refl
strip_right_digits (c ∷ []) (d, h) = rw (digit_no_space c d)
strip_right_digits (c ∷ x ∷ s) (d, h) = rw (strip_right_digits (x ∷ s) h)

strip_left_digits : (s : List ℕ) → All IsDigit s → strip_left s ≡ s
unfolding strip_left
strip_left_digits [] h = refl
strip_left_digits (c ∷ s) (d, h) = rw (digit_no_space c d)

read_unsigned :
    (s : List ℕ) (n : ℕ)
    → All IsDigit s
    → read_digits false 0 s ≡ some n
    → read_signed s ≡ some (pos n)
unfolding read_digits
read_unsigned [] n h e = cc
read_unsigned (c ∷ s) n (d, h) e = rw (digit_no_minus c d, digit_no_plus c d, e)

pub read_int-decimal : (n : ℕ) → read_int (decimal n) ≡ some (pos n)
unfolding read_int decimal read_digits
read_int-decimal n =
    let s = digits (suc n) n [] in
    let digital = IsDigit-digits (suc n) n [] tt in
    ap (λ t. read_signed (strip_right t)) (strip_left_digits s digital)
    ∙ (ap read_signed (strip_right_digits s digital)
        ∙ read_unsigned s n digital (read_digits-digits (suc n) n false [] (omega arith)))
