-- ===== src/ChannelCommand/Usable.antt =====
-- A channel that passes the inspection.
use discord_copilot_sdk.Base.{
  List, Bool, true, false, not, String, Option, none, some, ◌==◌, string_eq, if◌then◌else◌, ◌≡◌,
  refl, ap,
}
use discord_copilot_sdk.Access.{holds_of}
use discord_copilot_sdk.ChannelCommand.Target.{
  Permission, view_channel, Channel, Answer, threw, nothing, found, channel, gone, no_access,
  transient, is_obfuscated_channel, fetch_channel_safe, private_channel, foreign_guild, not_text,
  refuses, Inspection, inspected, inspected_permissions, inspect_channel_target,
}

-- The bot may see the channel.
abbrev pub IsVisible : Option (Option (Permission → Bool)) → Type 0
IsVisible none = ⊥
IsVisible (some none) = ⊥
IsVisible (some (some has)) = has view_channel ≡ true

-- A text channel of the guild that the bot sees.
pub record IsUsable (guild : String) (c : Channel) : Type 0 where
  pub shown : is_obfuscated_channel c ≡ false
  pub home : c.guild_id ≡ some guild
  pub of_text : c.is_guild_text ≡ true
  pub visible : IsVisible c.permissions_for

abbrev pub IsUsableAnswer : String → Answer → Type 0
IsUsableAnswer guild (found c) = IsUsable guild c
IsUsableAnswer guild _ = ⊥

seen_if :
    (has : Permission → Bool) (sees : Bool) (missing : List Permission)
    → has view_channel ≡ sees
    → (if sees then record { error = none; missing = missing } else refuses private_channel).error
      ≡ none
    → has view_channel ≡ true
seen_if has true missing s e = s
seen_if has false missing s e = cc

inspected_permissions-none :
    (available : Bool) (p : Option (Option (Permission → Bool)))
    → (inspected_permissions available p).error ≡ none
    → IsVisible p
inspected_permissions-none available none e = cc
inspected_permissions-none available (some none) e = cc
inspected_permissions-none available (some (some has)) e = seen_if has (has view_channel) _ refl e

holds_of-eq :
    (o : Option String) (guild : String) → holds_of o (λ g. g == guild) ≡ true → o ≡ some guild
holds_of-eq none guild e = cc
holds_of-eq (some g) guild e = ap some ((string_eq.beq_iff g guild).0 e)

-- The questions on a channel in their order.
all_pass :
    (hidden home of_text : Bool) (rest : Inspection)
    → (if hidden
        then refuses private_channel
        else if not home
        then refuses foreign_guild
        else if not of_text
        then refuses not_text
        else rest).error
      ≡ none
    → (hidden ≡ false) × (home ≡ true) × (of_text ≡ true) × (rest.error ≡ none)
all_pass true home of_text rest e = cc
all_pass false false of_text rest e = cc
all_pass false true false rest e = cc
all_pass false true true rest e = (refl, refl, refl, e)

inspected-channel :
    (guild : String) (available : Bool) (c : Channel)
    → (inspected guild available (channel c)).error ≡ none
    → IsUsable guild c
inspected-channel guild available c e =
    let (shown, home, of_text, visible) = all_pass (is_obfuscated_channel c) _ _ _ e in
    record {
      shown = shown;
      home = holds_of-eq c.guild_id guild home;
      of_text = of_text;
      visible = inspected_permissions-none available c.permissions_for visible;
    }

found_if :
    (guild : String) (available hidden : Bool) (c : Channel)
    → (inspected guild available (if hidden then no_access else channel c)).error ≡ none
    → IsUsable guild c
found_if guild available true c e = cc
found_if guild available false c e = inspected-channel guild available c e

threw_if :
    (guild : String) (available unknown barred : Bool)
    → (inspected guild available
        (if unknown then gone else if barred then no_access else transient)).error
      ≡ none
    → ⊥
threw_if guild available true barred e = cc
threw_if guild available false true e = cc
threw_if guild available false false e = cc

pub inspect_channel_target-none :
    (guild : String) (available : Bool) (answer : Answer)
    → (inspect_channel_target guild available answer).error ≡ none
    → IsUsableAnswer guild answer
unfolding inspect_channel_target fetch_channel_safe
inspect_channel_target-none guild available (threw code status) e = threw_if guild available _ _ e
inspect_channel_target-none guild available nothing e = cc
inspect_channel_target-none guild available (found c) e =
    found_if guild available (is_obfuscated_channel c) c e
