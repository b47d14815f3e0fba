-- ===== src/Decimal/RoundTrip.antt =====
-- A printed number is read back.
use discord_copilot_sdk.Base.{
  ℕ, zero, suc, ◌+◌, ◌/◌, ◌%◌, ◌<◌, true, List, [], ◌∷◌, ltb, ◌≡◌, refl, arith, Bool-cases, inl,
  inr, ap, ◌∙◌,
}
use discord_copilot_sdk.Decimal.{digits_from, print_number, all_digits, is_number_text, value_from}

digits_from-all_digits :
    (fuel n : ℕ) (out : List ℕ)
    → n < fuel
    → all_digits out ≡ true
    → is_number_text (digits_from fuel n out) ≡ true
unfolding digits_from
digits_from-all_digits zero n out h k = absurd (omega arith)
digits_from-all_digits (suc fuel) n out h k = elim (Bool-cases (ltb n 10)) [
  | inl last ↦ rw last (ground arith)
  | inr more ↦
      rw more
        (digits_from-all_digits fuel (n / 10) ((b'0' + n % 10) ∷ out) (ground arith) (ground arith))
]

digits_from-value_from :
    (fuel n : ℕ) (out : List ℕ)
    → n < fuel
    → value_from 0 (digits_from fuel n out) ≡ value_from n out
unfolding digits_from
digits_from-value_from zero n out h = absurd (omega arith)
digits_from-value_from (suc fuel) n out h = elim (Bool-cases (ltb n 10)) [
  | inl last ↦ rw last (ap (λ k. value_from k out) (omega arith))
  | inr more ↦ rw more (
      digits_from-value_from fuel (n / 10) ((b'0' + n % 10) ∷ out) (ground arith)
      ∙ ap (λ k. value_from k out) (omega arith))
]

pub print_number-is_number_text : (n : ℕ) → is_number_text (print_number n) ≡ true
unfolding print_number
print_number-is_number_text n = digits_from-all_digits (suc n) n [] (omega arith) refl

pub print_number-value_from : (n : ℕ) → value_from 0 (print_number n) ≡ n
unfolding print_number
print_number-value_from n = digits_from-value_from (suc n) n [] (omega arith)
