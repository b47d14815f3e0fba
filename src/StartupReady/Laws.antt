-- ===== src/StartupReady/Laws.antt =====
-- What a retraction does to every file.
use discord_copilot_sdk.Base.{
  ℕ, Bool, true, false, ◌&&◌, ◌||◌, not, Option, none, some, ◌==◌, nat_eq, if◌then◌else◌, ◌≡◌, refl,
  arith, Bool-cases, inl, inr, ap, ◌∙◌,
}
use discord_copilot_sdk.Chunk.{Text}
use discord_copilot_sdk.CustomId.{text_eq}
use discord_copilot_sdk.Dict.{get, delete}
use discord_copilot_sdk.Dict.Laws.{get-delete}
use discord_copilot_sdk.StartupReady.{
  Content, malformed, null, other, marker, Marker, ready, launch, marker_eq, Directory, is_token,
  is_instance, names, Removal, removed_content, remove_owned_marker, retract_token,
  retract_startup_ready,
}

-- A marker that a request names.
abbrev pub is_requested : Option Text → Text → Marker → Bool
is_requested none id m = false
is_requested (some token) id m = launch id token == m

abbrev pub is_valid : Option Text → Bool
is_valid none = true
is_valid (some token) = is_token token

-- What the process reads.
abbrev pub read_by : Removal → Option Content → Option Content
read_by a o = if a.reads then o else none

abbrev pub is_own : Text → ℕ → Option Content → Bool
is_own id pid (some (marker c)) = names id pid c
is_own id pid _ = false

-- The removal of a file with this content works, and throws.
abbrev pub takes : Removal → Text → ℕ → Option Content → Bool
takes a id pid o = a.removes && is_own id pid (read_by a o)

abbrev pub is_null : Option Content → Bool
is_null (some null) = true
is_null _ = false

abbrev pub throws : Removal → Text → ℕ → Option Content → Bool
throws a id pid o = is_null (read_by a o) || (is_own id pid (read_by a o) && not a.removes)

-- Others do not touch this file meanwhile.
pub record Spares (q : Marker) (a : Removal) : Type 0 where
  pub until : (d : Directory) → get q (a.between d) ≡ get q d
  pub since : (d : Directory) → get q (a.afterwards d) ≡ get q d

rm-get :
    (m q : Marker) (a : Removal) (d : Directory) (works : Bool)
    → Spares q a
    → get q (a.afterwards (if works then delete m (a.between d) else a.between d))
      ≡ (if m == q && works then none else get q d)
rm-get m q a d true s =
    s.since _
    ∙ get-delete m q (a.between d)
    ∙ ap (λ o. if m == q then none else o) (s.until d)
    ∙ ground arith
rm-get m q a d false s = s.since _ ∙ s.until d ∙ ground arith

content-get :
    (m q : Marker) (id : Text) (pid : ℕ) (a : Removal) (o : Option Content) (d : Directory)
    → Spares q a
    → get q (removed_content m id pid a o d).1
      ≡ (if m == q && (a.removes && is_own id pid o) then none else get q d)
content-get m q id pid a none d s = ground arith
content-get m q id pid a (some malformed) d s = ground arith
content-get m q id pid a (some null) d s = ground arith
content-get m q id pid a (some other) d s = ground arith
content-get m q id pid a (some (marker c)) d s = elim (Bool-cases (names id pid c)) [
  | inl own ↦ rw own (rm-get m q a d a.removes s ∙ ground arith)
  | inr foreign ↦ rw foreign (ground arith)
]

content-answer :
    (m : Marker) (id : Text) (pid : ℕ) (a : Removal) (o : Option Content) (d : Directory)
    → (removed_content m id pid a o d).0 ≡ not (is_null o || (is_own id pid o && not a.removes))
content-answer m id pid a none d = refl
content-answer m id pid a (some malformed) d = refl
content-answer m id pid a (some null) d = refl
content-answer m id pid a (some other) d = refl
content-answer m id pid a (some (marker c)) d = ground arith

get-remove_owned_marker :
    (m q : Marker) (id : Text) (pid : ℕ) (a : Removal) (d : Directory)
    → Spares q a
    → get q (remove_owned_marker m id pid a d).1
      ≡ (if m == q && takes a id pid (get q d) then none else get q d)
unfolding remove_owned_marker
get-remove_owned_marker m q id pid a d s =
    content-get m q id pid a (read_by a (get m d)) d s ∙ at_q (m == q) refl
  where
    at_q :
        (same : Bool)
        → (m == q) ≡ same
        → (if same && takes a id pid (get m d) then none else get q d)
          ≡ (if same && takes a id pid (get q d) then none else get q d)
    at_q false e = refl
    at_q true e =
        ap (λ k. if takes a id pid (get k d) then none else get q d) ((marker_eq.beq_iff m q).0 e)

-- After the first removal.
second-get :
    (request : Option Text) (q : Marker) (id : Text) (pid : ℕ) (b : Removal) (p : Bool × Directory)
    → is_valid request ≡ true
    → Spares q b
    → get q (retract_token request id pid b p).1 ≡ (
        if is_requested request id q && (p.0 && takes b id pid (get q p.1))
        then none
        else get q p.1)
second-get none q id pid b (true, d) v s = refl
second-get none q id pid b (false, d) v s = refl
second-get (some token) q id pid b (false, d) v s = ground arith
second-get (some token) q id pid b (true, d) v s =
    rw v (get-remove_owned_marker (launch id token) q id pid b d s)

remove_owned_marker-answer :
    (m : Marker) (id : Text) (pid : ℕ) (a : Removal) (d : Directory)
    → (remove_owned_marker m id pid a d).0 ≡ not (throws a id pid (get m d))
unfolding remove_owned_marker
remove_owned_marker-answer m id pid a d = content-answer m id pid a (read_by a (get m d)) d

taken_twice :
    (first requested : Bool) (o : Option Content) (again : Option Content → Bool)
    → (if requested && again (if first then none else o) then none else (if first then none else o))
      ≡ (if first || (requested && again o) then none else o)
taken_twice true requested o again = elim (Bool-cases (requested && again none)) [
  | inl again_too ↦ rw again_too refl
  | inr no_more ↦ rw no_more refl
]
taken_twice false requested o again = refl

-- What a retraction by a process with a valid instance id and launch token makes of a file that
-- others do not touch meanwhile, whatever they do to the other files between its calls of the file
-- system. The marker of its instance is removed exactly when it is read as the process's own and
-- its removal works; the marker of its launch exactly when, besides, the first removal has not
-- thrown, which it does when it reads null, or when the removal of its own marker fails. No other
-- file is removed.
pub get-retract_startup_ready :
    (request : Option Text) (id : Text) (pid : ℕ) (a b : Removal) (d : Directory) (q : Marker)
    → is_instance id ≡ true
    → is_valid request ≡ true
    → Spares q a
    → Spares q b
    → get q (retract_startup_ready request id pid a b d).1 ≡ (
        if (ready id == q && takes a id pid (get q d))
          || (is_requested request id q
              && (not (throws a id pid (get (ready id) d)) && takes b id pid (get q d)))
        then none
        else get q d)
unfolding retract_startup_ready
get-retract_startup_ready request id pid a b d q named valid s t =
    let p = remove_owned_marker (ready id) id pid a d in
    rw named (
      second-get request q id pid b p valid t
      ∙ ap (λ o. if is_requested request id q && (p.0 && takes b id pid o) then none else o)
          (get-remove_owned_marker (ready id) q id pid a d s)
      ∙ taken_twice (ready id == q && takes a id pid (get q d)) (is_requested request id q)
          (get q d) (λ o. p.0 && takes b id pid o)
      ∙ ap
          (λ ok.
            if (ready id == q && takes a id pid (get q d))
              || (is_requested request id q && (ok && takes b id pid (get q d)))
            then none
            else get q d)
          (remove_owned_marker-answer (ready id) id pid a d))
