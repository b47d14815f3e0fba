-- ===== src/RenderChunks/Tracked.antt =====
-- No message of a turn is forgotten.
use discord_copilot_sdk.Base.{
  refl, arith, ap, ◌&&◌, ◌||◌, ℕ, Bool, true, false, List, [], ◌∷◌, ◌++◌, Option, none, some,
  nat_eq, if◌then◌else◌, ◌≡◌, inl, inr, ◌⊎◌,
}
use mathlib.Core.List.{Memᴰ}
use discord_copilot_sdk.RenderChunks.{
  Code, no_code, number, other_code, is_unknown_message, is_no_code, is_not_found, Failure, Chunk,
  Event, edits, misses, posts, loses, discards, removes, Rendered, Ending, abandoned, stopped,
  noted, anchored, recorded, post, unedited, edited, fetched, popped, unremoved, trimmed_at,
  trimmed, render_chunks, is_message_gone,
}

-- One of the events is of this kind.
abbrev pub Occurs : (Event → Type 0) → List Event → Type 0
Occurs P [] = ⊥
Occurs P (e ∷ log) = P e ⊎ Occurs P log

-- A message was sent.
abbrev pub Posts : ℕ → Event → Type 0
Posts id (posts id' content) = id ≡ id'
Posts id _ = ⊥

-- The answer Unknown Message, or a status 404 without a code: the message is gone.
abbrev pub SaysGone : Failure → Type 0
SaysGone e = (e.code ≡ number 10008) ⊎ ((e.code ≡ no_code) × (e.status ≡ some 404))

is_unknown_message-eq : (c : Code) → is_unknown_message c ≡ true → c ≡ number 10008
is_unknown_message-eq no_code h = cc
is_unknown_message-eq (number n) h = ap number ((nat_eq.beq_iff n 10008).0 h)
is_unknown_message-eq other_code h = cc

is_no_code-eq : (c : Code) → is_no_code c ≡ true → c ≡ no_code
is_no_code-eq no_code h = refl
is_no_code-eq (number n) h = cc
is_no_code-eq other_code h = cc

is_not_found-eq : (o : Option ℕ) → is_not_found o ≡ true → o ≡ some 404
is_not_found-eq none h = cc
is_not_found-eq (some n) h = ap some ((nat_eq.beq_iff n 404).0 h)

one_or_both : (u n f : Bool) → (u || (n && f)) ≡ true → (u ≡ true) ⊎ ((n ≡ true) × (f ≡ true))
one_or_both true n f h = inl refl
one_or_both false n f h = inr (ground arith)

is_message_gone-SaysGone : (e : Failure) → is_message_gone e ≡ true → SaysGone e
unfolding is_message_gone
is_message_gone-SaysGone e h =
    elim (one_or_both (is_unknown_message e.code) (is_no_code e.code) (is_not_found e.status) h) [
      | inl unknown ↦ inl (is_unknown_message-eq e.code unknown)
      | inr (uncoded, not_found) ↦
          inr (is_no_code-eq e.code uncoded, is_not_found-eq e.status not_found)
    ]

-- A message is gone by the word of Discord, or was deleted, or its deletion was asked for, since
-- its turn is over.
abbrev pub Ends : ℕ → Event → Type 0
Ends id (loses id' e) = (id ≡ id') × SaysGone e
Ends id (removes id') = id ≡ id'
Ends id (discards id') = id ≡ id'
Ends id _ = ⊥

Occurs-left : (P : Event → Type 0) (s t : List Event) → Occurs P s → Occurs P (s ++ t)
Occurs-left P [] t o = elim o [ ]
Occurs-left P (e ∷ s) t (inl p) = inl p
Occurs-left P (e ∷ s) t (inr o) = inr (Occurs-left P s t o)

Occurs-right : (P : Event → Type 0) (s t : List Event) → Occurs P t → Occurs P (s ++ t)
Occurs-right P [] t o = o
Occurs-right P (e ∷ s) t o = inr (Occurs-right P s t o)

module _ (x : ℕ) where
  abbrev Known : List ℕ → Rendered → Type 0
  Known ids r = Memᴰ x ids ⊎ Occurs (Posts x) r.log

  abbrev Tracked : Rendered → Type 0
  Tracked r = Memᴰ x r.ids ⊎ Occurs (Ends x) r.log

  anchored-Tracked : (id : ℕ) (e : Event) (r : Rendered) → Tracked r → Tracked (anchored id e r)
  anchored-Tracked id e r (inl m) = inl (Memᴰ.tail m)
  anchored-Tracked id e r (inr o) = inr (inr o)

  noted-Tracked : (e : Event) (r : Rendered) → Tracked r → Tracked (noted e r)
  noted-Tracked e r (inl m) = inl m
  noted-Tracked e r (inr o) = inr (inr o)

  -- An event that is no sending, on a message that is known.
  reanchored :
      (id : ℕ) (e : Event) (ids : List ℕ) (r : Rendered)
      → (Posts x e → ⊥)
      → (Known ids r → Tracked r)
      → Known (id ∷ ids) (anchored id e r)
      → Tracked (anchored id e r)
  reanchored id e ids r quiet k (inl (Memᴰ.head same)) = inl (Memᴰ.head same)
  reanchored id e ids r quiet k (inl (Memᴰ.tail m)) = anchored-Tracked id e r (k (inl m))
  reanchored id e ids r quiet k (inr (inl p)) = absurd (quiet p)
  reanchored id e ids r quiet k (inr (inr o)) = anchored-Tracked id e r (k (inr o))

  stopped-Tracked :
      (ids : List ℕ) (e : Ending) → Known ids (stopped ids e) → Tracked (stopped ids e)
  stopped-Tracked ids e (inl m) = inl m
  stopped-Tracked ids e (inr o) = elim o [ ]

  recorded-Tracked :
      (c : Chunk) (id : ℕ) (ids old : List ℕ) (b : Bool) (next : Rendered)
      → (Memᴰ x ids → Memᴰ x old)
      → (Known ids next → Tracked next)
      → Known ids (recorded c id old b next)
      → Tracked (recorded c id old b next)
  recorded-Tracked c id ids old true next sub k (inl m) =
      anchored-Tracked id (posts id c.content) next (k (inl m))
  recorded-Tracked c id ids old true next sub k (inr (inl same)) = inl (Memᴰ.head same)
  recorded-Tracked c id ids old true next sub k (inr (inr o)) =
      anchored-Tracked id (posts id c.content) next (k (inr o))
  recorded-Tracked c id ids old false next sub k (inl m) = inl (sub m)
  recorded-Tracked c id ids old false next sub k (inr (inl same)) = inr (inr (inl same))
  recorded-Tracked c id ids old false next sub k (inr (inr (inl p))) = absurd p
  recorded-Tracked c id ids old false next sub k (inr (inr (inr p))) = absurd p

  post-Tracked :
      (c : Chunk) (ids old : List ℕ) (sent : Option ℕ) (next : Rendered)
      → (Memᴰ x ids → Memᴰ x old)
      → (Known ids next → Tracked next)
      → Known ids (post c old sent next)
      → Tracked (post c old sent next)
  post-Tracked c ids old none next sub k (inl m) = inl (sub m)
  post-Tracked c ids old none next sub k (inr o) = absurd o
  post-Tracked c ids old (some id) next sub k known =
      recorded-Tracked c id ids old c.current_sent next sub k known

  unedited-Tracked :
      (c : Chunk) (id : ℕ) (ids : List ℕ) (e : Failure) (b : Bool) (next : Rendered)
      → is_message_gone e ≡ b
      → (Known ids next → Tracked next)
      → Known (id ∷ ids) (unedited c id ids e b next)
      → Tracked (unedited c id ids e b next)
  unedited-Tracked c id ids e false next said k known =
      reanchored id (misses id c.content) ids next (λ p. p) k known
  unedited-Tracked c id ids e true next said k (inl (Memᴰ.head same)) =
      inr (inl (same, is_message_gone-SaysGone e said))
  unedited-Tracked c id ids e true next said k (inl (Memᴰ.tail m)) =
      noted-Tracked (loses id e) (post c (id ∷ ids) c.sent next)
        (post-Tracked c ids (id ∷ ids) c.sent next Memᴰ.tail k (inl m))
  unedited-Tracked c id ids e true next said k (inr (inl p)) = absurd p
  unedited-Tracked c id ids e true next said k (inr (inr o)) =
      noted-Tracked (loses id e) (post c (id ∷ ids) c.sent next)
        (post-Tracked c ids (id ∷ ids) c.sent next Memᴰ.tail k (inr o))

  edited-Tracked :
      (c : Chunk) (id : ℕ) (ids : List ℕ) (failure : Option Failure) (next : Rendered)
      → (Known ids next → Tracked next)
      → Known (id ∷ ids) (edited c id ids failure next)
      → Tracked (edited c id ids failure next)
  edited-Tracked c id ids none next k known =
      reanchored id (edits id c.content) ids next (λ p. p) k known
  edited-Tracked c id ids (some e) next k known =
      unedited-Tracked c id ids e (is_message_gone e) next refl k known

  if-Tracked :
      (b : Bool) (ids : List ℕ) (r : Rendered)
      → (Known ids r → Tracked r)
      → Known ids (if b then r else stopped ids abandoned)
      → Tracked (if b then r else stopped ids abandoned)
  if-Tracked true ids r k known = k known
  if-Tracked false ids r k known = stopped-Tracked ids abandoned known

  fetched-Tracked :
      (c : Chunk) (id : ℕ) (ids : List ℕ) (failure : Option Failure) (next : Rendered)
      → (Known ids next → Tracked next)
      → Known (id ∷ ids) (fetched c id ids failure next)
      → Tracked (fetched c id ids failure next)
  fetched-Tracked c id ids none next k known =
      if-Tracked c.current_fetched (id ∷ ids) _ (edited-Tracked c id ids c.edit next k) known
  fetched-Tracked c id ids (some e) next k known =
      unedited-Tracked c id ids e (is_message_gone e) next refl k known

  -- The loop that trims sends nothing.
  Occurs-Posts-snoc :
      (log : List Event) (e : Event)
      → (Posts x e → ⊥)
      → Occurs (Posts x) (log ++ (e ∷ []))
      → Occurs (Posts x) log
  Occurs-Posts-snoc [] e quiet (inl p) = absurd (quiet p)
  Occurs-Posts-snoc [] e quiet (inr o) = elim o [ ]
  Occurs-Posts-snoc (y ∷ log) e quiet (inl p) = inl p
  Occurs-Posts-snoc (y ∷ log) e quiet (inr o) = inr (Occurs-Posts-snoc log e quiet o)

  unremoved-quiet :
      (id : ℕ) (e : Failure) (b : Bool) (log : List Event)
      → Occurs (Posts x) (unremoved id e b log).log
      → Occurs (Posts x) log
  unremoved-quiet id e true log o = Occurs-Posts-snoc log (loses id e) (λ p. p) o
  unremoved-quiet id e false log o = o

  popped-quiet :
      (id : ℕ) (failure : Option Failure) (log : List Event)
      → Occurs (Posts x) (popped id failure log).log
      → Occurs (Posts x) log
  popped-quiet id none log o = Occurs-Posts-snoc log (removes id) (λ p. p) o
  popped-quiet id (some e) log o = unremoved-quiet id e (is_message_gone e) log o

  -- The last id is deleted, gone, or kept.
  unremoved-Tracked :
      (id : ℕ) (e : Failure) (b : Bool) (log : List Event)
      → is_message_gone e ≡ b
      → (x ≡ id) ⊎ Occurs (Ends x) log
      → Tracked (unremoved id e b log)
  unremoved-Tracked id e true log said (inl same) =
      inr (Occurs-right (Ends x) log _ (inl (same, is_message_gone-SaysGone e said)))
  unremoved-Tracked id e true log said (inr o) = inr (Occurs-left (Ends x) log _ o)
  unremoved-Tracked id e false log said (inl same) = inl (Memᴰ.head same)
  unremoved-Tracked id e false log said (inr o) = inr o

  popped-Tracked :
      (id : ℕ) (failure : Option Failure) (log : List Event)
      → (x ≡ id) ⊎ Occurs (Ends x) log
      → Tracked (popped id failure log)
  popped-Tracked id none log (inl same) = inr (Occurs-right (Ends x) log _ (inl same))
  popped-Tracked id none log (inr o) = inr (Occurs-left (Ends x) log _ o)
  popped-Tracked id (some e) log m = unremoved-Tracked id e (is_message_gone e) log refl m

  trimmed_at-quiet :
      (id : ℕ) (failure : Option Failure) (ids : List ℕ) (log : List Event)
      → Occurs (Posts x) (trimmed_at id failure ids log).log
      → Occurs (Posts x) log
  trimmed_at-quiet id failure [] log o = popped-quiet id failure log o
  trimmed_at-quiet id failure (later ∷ ids) log o = o

  trimmed_at-Tracked :
      (id : ℕ) (failure : Option Failure) (ids : List ℕ) (log : List Event)
      → (x ≡ id) ⊎ (Memᴰ x ids ⊎ Occurs (Ends x) log)
      → Tracked (trimmed_at id failure ids log)
  trimmed_at-Tracked id failure [] log (inl same) = popped-Tracked id failure log (inl same)
  trimmed_at-Tracked id failure [] log (inr (inl m)) = elim m [ ]
  trimmed_at-Tracked id failure [] log (inr (inr o)) = popped-Tracked id failure log (inr o)
  trimmed_at-Tracked id failure (later ∷ ids) log (inl same) = inl (Memᴰ.head same)
  trimmed_at-Tracked id failure (later ∷ ids) log (inr (inl m)) = inl (Memᴰ.tail m)
  trimmed_at-Tracked id failure (later ∷ ids) log (inr (inr o)) = inr o

  module _ (remove : ℕ → Option Failure) where
    trimmed-quiet : (ids : List ℕ) → Occurs (Posts x) (trimmed remove ids).log → ⊥
    trimmed-quiet [] o = elim o [ ]
    trimmed-quiet (id ∷ ids) o =
        trimmed-quiet ids (trimmed_at-quiet id (remove id) _ (trimmed remove ids).log o)

    trimmed-Tracked : (ids : List ℕ) → Memᴰ x ids → Tracked (trimmed remove ids)
    trimmed-Tracked [] m = elim m [ ]
    trimmed-Tracked (id ∷ ids) (Memᴰ.head same) =
        trimmed_at-Tracked id (remove id) (trimmed remove ids).ids (trimmed remove ids).log
          (inl same)
    trimmed-Tracked (id ∷ ids) (Memᴰ.tail m) =
        trimmed_at-Tracked id (remove id) (trimmed remove ids).ids (trimmed remove ids).log
          (inr (trimmed-Tracked ids m))

    -- Each message that an anchor named, or that was sent, is named by an anchor in the end, but
    -- for one that Discord says is gone, with code 10008 or with status 404 and no code, that was
    -- deleted, or that was sent for a turn that is over, whose deletion was asked for.
    pub render_chunks-Tracked :
        (cs : List Chunk) (ids : List ℕ)
        → Memᴰ x ids ⊎ Occurs (Posts x) (render_chunks remove cs ids).log
        → Memᴰ x (render_chunks remove cs ids).ids
          ⊎ Occurs (Ends x) (render_chunks remove cs ids).log
    unfolding render_chunks
    render_chunks-Tracked [] ids (inl m) = trimmed-Tracked ids m
    render_chunks-Tracked [] ids (inr o) = absurd (trimmed-quiet ids o)
    render_chunks-Tracked (c ∷ cs) [] known =
        if-Tracked c.current [] _
          (post-Tracked c [] [] c.sent (render_chunks remove cs []) (λ m. m)
            (render_chunks-Tracked cs []))
          known
    render_chunks-Tracked (c ∷ cs) (id ∷ ids) known =
        if-Tracked c.current (id ∷ ids) _
          (fetched-Tracked c id ids c.fetch (render_chunks remove cs ids)
            (render_chunks-Tracked cs ids))
          known
