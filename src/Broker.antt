-- ===== src/Broker.antt =====
-- core/broker.ts: the class `PendingInteractionBroker`. A promise is named by its nonce; what has
-- been delivered to the promises is kept as a log. The random nonces and the clock are arguments.
pub mod Once
use discord_copilot_sdk.Base.{
  ℕ, ◌+◌, Bool, true, false, String, List, [], ◌∷◌, Option, none, some, ◌==◌, ◌&&◌, not, string_eq,
  nat_eq, if◌then◌else◌, length,
}
use discord_copilot_sdk.Dict.{Dict, get, set, delete, values}

pub record PendingView : Type 0 where
  pub nonce : String
  pub session_key : String
  pub generation : ℕ
  pub kind : String
  pub created_at : ℕ
  pub expires_at : ℕ

-- `R` is the type of the results; `on_default` gives the safe one.
module _ (R : Type 0) where
  pub record Entry : Type 0 where
    pub view : PendingView
    pub settled : Bool
    pub on_default : R

  pub record RegisterOpts : Type 0 where
    pub session_key : String
    pub generation : ℕ
    pub kind : String
    pub timeout_ms : ℕ
    pub on_default : R

  pub record Broker : Type 0 where
    pub entries : Dict String Entry
    -- The calls of `resolve`, newest first.
    pub resolved : List (String × R)

abbrev pub idle : {R : Type 0} → Broker R
idle = record { entries = []; resolved = [] }

module _ {R : Type 0} where
  abbrev pub entry_of : String → ℕ → RegisterOpts R → Entry R
  entry_of nonce now opts = record {
    view = record {
      nonce = nonce;
      session_key = opts.session_key;
      generation = opts.generation;
      kind = opts.kind;
      created_at = now;
      expires_at = now + opts.timeout_ms;
    };
    settled = false;
    on_default = opts.on_default;
  }

  unfoldable pub register : String → ℕ → RegisterOpts R → Broker R → Broker R
  register nonce now opts b = record b { entries = set nonce (entry_of nonce now opts) b.entries }

  -- The entry of a nonce that is pending: `const e = …; if (!e || e.settled) …`
  unfoldable pub pending : String → Broker R → Option (Entry R)
  pending nonce b = elim (get nonce b.entries) [
    | none ↦ none
    | some e ↦ if e.settled then none else some e
  ]

  unfoldable pub finalize : Entry R → R → Broker R → Broker R
  finalize e result b = record {
    entries = delete e.view.nonce b.entries;
    resolved = (e.view.nonce, result) ∷ b.resolved;
  }

  -- `expectGeneration !== undefined && e.generation !== expectGeneration`
  abbrev pub is_outdated : Option ℕ → Entry R → Bool
  is_outdated none e = false
  is_outdated (some g) e = not (e.view.generation == g)

  unfoldable pub settle : String → R → Option ℕ → Broker R → Bool × Broker R
  settle nonce result expect b = elim (pending nonce b) [
    | none ↦ (false, b)
    | some e ↦ if is_outdated expect e then (false, b) else (true, finalize e result b)
  ]

  unfoldable pub view_of : String → Broker R → Option PendingView
  view_of nonce b = elim (pending nonce b) [ none ↦ none | some e ↦ some e.view ]

  -- The loop of `abort` over a copy of the entries, with the count so far.
  unfoldable pub abort_each : (PendingView → Bool) → List (Entry R) → ℕ × Broker R → ℕ × Broker R
  abort_each filter [] acc = acc
  abort_each filter (e ∷ es) (n, b) =
      abort_each filter es
        (if not e.settled && filter e.view then (n + 1, finalize e e.on_default b) else (n, b))

  unfoldable pub abort : (PendingView → Bool) → Broker R → ℕ × Broker R
  abort filter b = abort_each filter (values b.entries) (0, b)

  unfoldable pub abort_session : String → Broker R → ℕ × Broker R
  abort_session session_key b = abort (λ v. v.session_key == session_key) b

  abbrev pub size : Broker R → ℕ
  size b = length b.entries

  -- The timer of a nonce.
  unfoldable pub fire : String → Broker R → Broker R
  fire nonce b = elim (pending nonce b) [ none ↦ b | some e ↦ finalize e e.on_default b ]
