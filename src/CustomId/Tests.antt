-- ===== src/CustomId/Tests.antt =====
-- The theorems on ids at concrete nonces.
use discord_copilot_sdk.Base.{ℕ, [], ◌∷◌, Option, some, ◌≡◌, ◌↔◌, refl, arith, ◌≤◌}
use discord_copilot_sdk.Chunk.{Text}
use discord_copilot_sdk.CustomId.{
  perm, always, index, encode_permission_id, decode_permission_id, encode_plan_id, decode_plan_id,
  decode_parts, encode_parts, perm_text,
}
use discord_copilot_sdk.CustomId.Parts.{decode_parts-encode_parts}
use discord_copilot_sdk.CustomId.RoundTrip.{
  IsNonce, decode_permission_id_iff, decode_plan_id-encode_plan_id, max_safe_integer,
}

abbrev nonce : Text
nonce = b'n' ∷ b'1' ∷ []

nonce-IsNonce : IsNonce nonce
nonce-IsNonce = (omega arith, λ e. cc)

abbrev identity : ℕ → Option ℕ
identity n = some n

exact : (n : ℕ) → n ≤ max_safe_integer → identity n ≡ some n
exact n h = refl

decode_permission_id_iff_example :
    (decode_permission_id (encode_permission_id nonce always) ≡ some (nonce, always))
    ↔ ((encode_permission_id nonce always ≡ encode_permission_id nonce always) × IsNonce nonce)
decode_permission_id_iff_example =
    decode_permission_id_iff nonce (encode_permission_id nonce always) always

decode_plan_id-encode_plan_id_example :
    decode_plan_id identity (encode_plan_id nonce (index 3)) ≡ some (nonce, index 3)
decode_plan_id-encode_plan_id_example =
    decode_plan_id-encode_plan_id identity exact nonce (index 3) nonce-IsNonce (omega arith)

perm_id :
    decode_parts (encode_parts perm (perm_text always) nonce) perm ≡ some (perm_text always, nonce)
perm_id =
    decode_parts-encode_parts perm (perm_text always) nonce ((omega arith, λ e. cc), nonce-IsNonce)
