-- ===== src/Access/Laws.antt =====
-- What the gate lets through, stated on members of the sets.
use mathlib.Core.List.{Memᴰ}
use discord_copilot_sdk.Base.{
  Bool, true, false, ◌||◌, String, List, [], ◌∷◌, Option, none, some, ◌==◌, string_eq, ◌≡◌, refl,
  ◌↔◌, ◌⊎◌, inl, inr, arith, sym, ◌∙◌, ap, Bool-cases, beq_refl,
}
use discord_copilot_sdk.Access.{
  AuthContext, AuthPolicy, contains, holds_of, is_owner, is_authorized,
}

contains-Memᴰ : (a : String) (xs : List String) → contains a xs ≡ true → Memᴰ a xs
contains-Memᴰ a [] h = cc
contains-Memᴰ a (x ∷ xs) h = elim (Bool-cases (x == a)) [
  | inl same ↦ Memᴰ.head (sym ((string_eq.beq_iff x a).0 same))
  | inr other ↦ Memᴰ.tail (contains-Memᴰ a xs (rw other at h))
]

Memᴰ-contains : (a : String) (xs : List String) → Memᴰ a xs → contains a xs ≡ true
Memᴰ-contains a [] m = elim m [ ]
Memᴰ-contains a (x ∷ xs) (Memᴰ.head e) = ground (arith, string_eq.beq_iff x a, sym e)
Memᴰ-contains a (x ∷ xs) (Memᴰ.tail m) = ground (arith, Memᴰ-contains a xs m)

-- The actor is an allow-listed user in the configured guild.
abbrev pub ActsAsOwner : AuthContext → AuthPolicy → Type 0
ActsAsOwner ctx policy =
    Memᴰ ctx.user_id policy.allowed_user_ids × (ctx.guild_id ≡ some policy.guild_id)

-- The place is an enabled channel, or a thread directly under one.
abbrev pub IsInScope : AuthContext → AuthPolicy → Type 0
IsInScope ctx policy =
    Memᴰ ctx.channel_id policy.parent_channel_ids
    ⊎ ((p : String) × (ctx.parent_id ≡ some p) × Memᴰ p policy.parent_channel_ids)

holds_of-some :
    (o : Option String) (p : String → Bool)
    → holds_of o p ≡ true
    → (s : String) × (o ≡ some s) × (p s ≡ true)
holds_of-some none p h = cc
holds_of-some (some s) p h = (s, refl, h)

pub is_owner_sound :
    (ctx : AuthContext) (policy : AuthPolicy) → is_owner ctx policy ≡ true → ActsAsOwner ctx policy
unfolding is_owner
is_owner_sound ctx policy h = elim (Bool-cases (contains ctx.user_id policy.allowed_user_ids)) [
  | inr unknown ↦ absurd (let bad : false ≡ true = rw unknown at h in cc)
  | inl known ↦
      let (g, at_guild, same) =
        holds_of-some ctx.guild_id (λ g. g == policy.guild_id) (rw known at h) in
      (
        contains-Memᴰ ctx.user_id policy.allowed_user_ids known,
        at_guild ∙ ap some ((string_eq.beq_iff g policy.guild_id).0 same),
      )
]

is_owner_complete :
    (ctx : AuthContext) (policy : AuthPolicy) → ActsAsOwner ctx policy → is_owner ctx policy ≡ true
unfolding is_owner
is_owner_complete ctx policy (known, at_guild) =
    rw (Memᴰ-contains _ _ known, at_guild, beq_refl policy.guild_id) refl

IsInScope-sound :
    (ctx : AuthContext) (policy : AuthPolicy)
    → (contains ctx.channel_id policy.parent_channel_ids
        || holds_of ctx.parent_id (λ p. contains p policy.parent_channel_ids))
      ≡ true
    → IsInScope ctx policy
IsInScope-sound ctx policy h =
    elim (Bool-cases (contains ctx.channel_id policy.parent_channel_ids)) [
      | inl here ↦ inl (contains-Memᴰ _ _ here)
      | inr not_here ↦
          let (p, under, enabled) = holds_of-some ctx.parent_id _ (rw not_here at h) in
          inr (p, under, contains-Memᴰ p _ enabled)
    ]

or-right : (a : Bool) {b : Bool} → b ≡ true → (a || b) ≡ true
or-right true h = refl
or-right false h = h

IsInScope-complete :
    (ctx : AuthContext) (policy : AuthPolicy)
    → IsInScope ctx policy
    → (contains ctx.channel_id policy.parent_channel_ids
        || holds_of ctx.parent_id (λ p. contains p policy.parent_channel_ids))
      ≡ true
IsInScope-complete ctx policy (inl here) = rw (Memᴰ-contains _ _ here) refl
IsInScope-complete ctx policy (inr (p, under, enabled)) =
    or-right (contains ctx.channel_id policy.parent_channel_ids)
      (rw under (Memᴰ-contains p _ enabled))

-- The gate opens exactly for an allow-listed user, in the configured guild, in an enabled channel
-- or in a thread directly under one; in a direct message, where there is no guild, it stays shut.
pub is_authorized_iff :
    (ctx : AuthContext) (policy : AuthPolicy)
    → (is_authorized ctx policy ≡ true) ↔ (ActsAsOwner ctx policy × IsInScope ctx policy)
unfolding is_authorized
is_authorized_iff ctx policy = (
  λ h. elim (Bool-cases (is_owner ctx policy)) [
    | inr stranger ↦ absurd (let bad : false ≡ true = rw stranger at h in cc)
    | inl owner ↦ (is_owner_sound ctx policy owner, IsInScope-sound ctx policy (rw owner at h))
  ],
  λ h. rw (is_owner_complete ctx policy h.0) (IsInScope-complete ctx policy h.1),
)
