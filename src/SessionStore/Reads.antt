-- ===== src/SessionStore/Reads.antt =====
-- What the records read as after a record is updated.
use discord_copilot_sdk.Base.{
  Bool, true, false, String, some, ◌==◌, if◌then◌else◌, string_eq, ◌≡◌, refl, ◌⊎◌, inl, inr,
  Bool-cases, Option-cases,
}
use discord_copilot_sdk.Dict.{get}
use discord_copilot_sdk.Dict.Laws.{get-set}
use discord_copilot_sdk.Disk.{Io, written}
use discord_copilot_sdk.SessionStore.Record.{SessionRecord}
use discord_copilot_sdk.SessionStore.State.{World, mutate}
use discord_copilot_sdk.SessionStore.Ops.{update_record}

-- The record of a thread was updated, and no other.
pub record IsUpdated (t : String) (f : SessionRecord → SessionRecord) (w : World)
    (done : Bool × World) : Type 0 where
  pub before : SessionRecord
  pub there : get t w.store.sessions ≡ some before
  pub says : done.0 ≡ true
  pub reads :
      (j : String)
      → get j done.1.store.sessions ≡ (if t == j then some (f before) else get j w.store.sessions)

pub update_record-cases :
    (io : Io) (t : String) (f : SessionRecord → SessionRecord) (w : World)
    → (update_record io t f w ≡ (false, w)) ⊎ IsUpdated t f w (update_record io t f w)
unfolding update_record mutate
update_record-cases io t f w = elim (Option-cases (get t w.store.sessions)) [
  | inl missing ↦ inl (rw (missing, update_record) refl)
  | inr (r, e) ↦ elim (Bool-cases (written io)) [
    | inr failed ↦ inl (rw (e, update_record) (rw failed refl))
    | inl ok ↦ inr (
        rw (e, update_record)
          (rw ok (record {
            before = r;
            there = e;
            says = refl;
            reads = λ j. get-set t j (f r) w.store.sessions;
          })))
  ]
]
