-- ===== src/ThreadName/Truncated.antt =====
-- A cut title fits its bound, and is a beginning of the text.
use discord_copilot_sdk.Base.{
  ℕ, zero, suc, ◌≤◌, ◌<◌, List, ltb, leb, ◌≡◌, refl, ◌⊎◌, inl, inr, arith, Bool-cases, leb→le,
  false,
}
use discord_copilot_sdk.ThreadName.{units, cut_at, shrink, truncate}

pub record IsTruncated (s : List ℕ) (bound : ℕ) (out : List ℕ) : Type 0 where
  pub fits : units out ≤ bound
  pub beginning :
      ((units s ≤ bound) × (out ≡ s)) ⊎ ((bound < units s) × ((n : ℕ) × (out ≡ cut_at n s)))

not_ltb-le : (a b : ℕ) → ltb a b ≡ false → b ≤ a
not_ltb-le a b h = ground arith

not_leb-lt : (a b : ℕ) → leb a b ≡ false → b < a
not_leb-lt a b h = ground arith

shrink-IsTruncated :
    (n m : ℕ) (s : List ℕ) → suc m < units s → IsTruncated s (suc m) (shrink n (suc m) s)
unfolding shrink
shrink-IsTruncated zero m s long = record {
  fits = omega arith;
  beginning = inr (long, (zero, refl));
}
shrink-IsTruncated (suc n) m s long = elim (Bool-cases (ltb (suc m) (units (cut_at (suc n) s)))) [
  | inl over ↦ rw over (shrink-IsTruncated n m s long)
  | inr under ↦ rw under (record {
    fits = not_ltb-le (suc m) (units (cut_at (suc n) s)) under;
    beginning = inr (long, (suc n, refl));
  })
]

-- For a positive bound a title has at most that many UTF-16 code units; it is the text itself
-- when that fits, and otherwise whole code points from its beginning with an ellipsis.
pub truncate-IsTruncated :
    (s : List ℕ) (bound : ℕ) → 0 < bound → IsTruncated s bound (truncate s bound)
unfolding truncate
truncate-IsTruncated s zero h = absurd (omega arith)
truncate-IsTruncated s (suc m) h = elim (Bool-cases (leb (units s) (suc m))) [
  | inl short ↦ rw short (record {
    fits = leb→le (units s) (suc m) short;
    beginning = inl (leb→le (units s) (suc m) short, refl);
  })
  | inr long ↦ rw long (shrink-IsTruncated _ m s (not_leb-lt (units s) (suc m) long))
]
