-- ===== src/Decimal.antt =====
-- Numbers in decimal, as JavaScript writes them in a template and `/^\d+$/` and `parseInt` read them.
-- A text is the list of its UTF-16 code units.
pub mod RoundTrip
use discord_copilot_sdk.Base.{
  ℕ, zero, suc, ◌+◌, ◌-◌, ◌*◌, ◌/◌, ◌%◌, Bool, true, false, ◌&&◌, List, [], ◌∷◌, ltb, leb,
  if◌then◌else◌,
}

-- The digits of `n` before those of `out`, with fuel.
unfoldable pub digits_from : ℕ → ℕ → List ℕ → List ℕ
digits_from zero n out = out
digits_from (suc fuel) n out =
    let more = digits_from fuel (n / 10) ((b'0' + n % 10) ∷ out) in
    if ltb n 10 then (b'0' + n) ∷ out else more

-- Every round divides the number by ten, so that `n + 1` rounds are enough.
unfoldable pub print_number : ℕ → List ℕ
unfolding digits_from
print_number n = digits_from (suc n) n []

abbrev pub is_digit : ℕ → Bool
is_digit c = leb b'0' c && leb c b'9'

abbrev pub all_digits : List ℕ → Bool
all_digits [] = true
all_digits (c ∷ s) = is_digit c && all_digits s

-- `/^\d+$/.test(s)`
abbrev pub is_number_text : List ℕ → Bool
is_number_text [] = false
is_number_text (c ∷ s) = all_digits (c ∷ s)

abbrev pub value_from : ℕ → List ℕ → ℕ
value_from n [] = n
value_from n (c ∷ s) = value_from (n * 10 + (c - b'0')) s
