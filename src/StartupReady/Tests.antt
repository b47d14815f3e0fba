-- ===== src/StartupReady/Tests.antt =====
-- The theorems on the markers of a start at concrete files.
use discord_copilot_sdk.Base.{
  true, false, ◌&&◌, ◌||◌, not, [], ◌∷◌, none, ◌==◌, if◌then◌else◌, ◌≡◌, refl,
}
use discord_copilot_sdk.Chunk.{Text}
use discord_copilot_sdk.Dict.{get, delete}
use discord_copilot_sdk.StartupReady.{
  ready, marker, marker_eq, Directory, Removal, is_instance, remove_owned_marker,
  retract_startup_ready,
}
use discord_copilot_sdk.StartupReady.Laws.{
  is_requested, takes, throws, Spares, get-retract_startup_ready,
}

abbrev bot : Text
bot = b'b' ∷ b'o' ∷ b't' ∷ []

-- The process 7 has published.
abbrev published : Directory
published = (ready bot, marker (record { version = 1; pid = 7; instance_id = bot })) ∷ []

abbrev undisturbed : Removal
undisturbed = record { reads = true; between = λ d. d; removes = true; afterwards = λ d. d }

abbrev unremoved : Removal
unremoved = record undisturbed { removes = false }

spared : Spares (ready bot) undisturbed
spared = record { until = λ d. refl; since = λ d. refl }

bot_is_valid : is_instance bot ≡ true
unfolding is_instance
bot_is_valid = refl

removed : (retract_startup_ready none bot 7 undisturbed undisturbed published).1 ≡ []
unfolding retract_startup_ready remove_owned_marker is_instance get delete
removed = refl

stays : (retract_startup_ready none bot 7 unremoved undisturbed published).0 ≡ false
unfolding retract_startup_ready remove_owned_marker is_instance get delete
stays = refl

get-retract_startup_ready_example :
    get (ready bot) (retract_startup_ready none bot 7 undisturbed undisturbed published).1 ≡ (
      if (ready bot == ready bot && takes undisturbed bot 7 (get (ready bot) published))
        || (is_requested none bot (ready bot)
            && (not (throws undisturbed bot 7 (get (ready bot) published))
                && takes undisturbed bot 7 (get (ready bot) published)))
      then none
      else get (ready bot) published)
get-retract_startup_ready_example =
    get-retract_startup_ready none bot 7 undisturbed undisturbed published (ready bot) bot_is_valid
      refl spared spared
