-- ===== src/ThreadName.antt =====
-- core/thread-name.ts: a title cut to the length that Discord takes. A text is the list of its code
-- points, and its length counts UTF-16 code units.
pub mod Truncated
mod Tests
use discord_copilot_sdk.Base.{
  ℕ, zero, suc, ◌+◌, ◌-◌, List, [], ◌∷◌, ◌++◌, ltb, leb, if◌then◌else◌, length, take,
}

abbrev pub thread_name_max : ℕ
thread_name_max = 100

-- A point above the basic plane is a pair of surrogates.
abbrev pub units : List ℕ → ℕ
units [] = 0
units (c ∷ s) = (if ltb 0xffff c then 2 else 1) + units s

-- `points.slice(0, take).join("") + "…"`
abbrev pub cut_at : ℕ → List ℕ → List ℕ
cut_at n points = take n points ++ 0x2026 ∷ []

-- The loop, with the number of points that are kept.
unfoldable pub shrink : ℕ → ℕ → List ℕ → List ℕ
shrink zero max points = cut_at zero points
shrink (suc n) max points =
    let shorter = shrink n max points in
    if ltb max (units (cut_at (suc n) points)) then shorter else cut_at (suc n) points

abbrev lesser : ℕ → ℕ → ℕ
lesser a b = if leb a b then a else b

-- For a bound of 0 the source slices to -1, which drops the last point.
unfoldable pub truncate : List ℕ → ℕ → List ℕ
truncate s zero = if leb (units s) 0 then s else cut_at (length s - 1) s
truncate s (suc m) = if leb (units s) (suc m) then s else shrink (lesser (length s) m) (suc m) s
