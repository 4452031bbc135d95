-- ===== src/Llmp/Manager.antt =====
-- nn_fuzz/src/llmp/extention.rs: `NNEventManager` and `RestartingNnEventManager`.
use nn_fuzz.Base.{ℕ, ◌+◌, ◌⊎◌, inl, inr, List, [], ◌∷◌, ◌++◌, none, some}
use nn_fuzz.Base.Bits.{bit_or}
use nn_fuzz.Base.Text.{Bytes}
use nn_fuzz.Base.Outcome.{Outcome, ok, err, panic}
use nn_fuzz.Base.Action.{Action, ◌>>=◌}
use nn_fuzz.External.{Codec, Gzip, Libafl, LibaflError, serialize, try}
use nn_fuzz.Messages.{Event}
use nn_fuzz.Llmp.{Flags, llmp_tag_event_to_both, compress_threshold}

-- The calls of `LlmpClient` that send.
pub data Send : Type 0 where
  send_buf_with_flags : (tag flags : ℕ) (buf : Bytes) → Send
  send_buf : (tag : ℕ) (buf : Bytes) → Send

-- An LLMP client: what it has sent, and what it will answer to the coming sends, at the end of
-- `replies` sends succeed; how often it has waited until its pages can go, and the names under which
-- it has put itself into the environment.
pub record LlmpClient (L : Libafl) : Type 0 where
  pub id : ℕ
  pub sent : List Send
  pub replies : List (LibaflError ⊎ Unit {0})
  pub description : LibaflError ⊎ L.Description
  pub waits : ℕ
  pub exported : List Bytes

-- `compressor` is the compressor's threshold.
pub record NnEventManager (L : Libafl) : Type 0 where
  pub llmp : LlmpClient L
  pub compressor : ℕ
  pub configuration : L.EventConfig

-- The constructors of `LlmpClient`, by what they attach to.
pub data Attach (L : Libafl) : Type 0 where
  create_attach_to_tcp : (port : ℕ) → Attach L
  on_existing_from_env : (env_name : Bytes) → Attach L
  existing_client : L.Description → Attach L

module _ {L : Libafl} where
  abbrev pub managing : LlmpClient L → L.EventConfig → NnEventManager L
  managing llmp configuration = record {
    llmp = llmp;
    compressor = compress_threshold;
    configuration = configuration;
  }

  -- `NNEventManager::new_on_port`, `existing_client_from_env` and `existing_client_from_description`;
  -- `attach` is what the client's constructors answer.
  module _ (attach : Attach L → LibaflError ⊎ LlmpClient L) where
    abbrev attached : Attach L → L.EventConfig → Outcome LibaflError (NnEventManager L)
    attached what configuration = elim (attach what) [
      | inl e ↦ err e
      | inr llmp ↦ ok (managing llmp configuration)
    ]

    unfoldable pub new_on_port : ℕ → L.EventConfig → Outcome LibaflError (NnEventManager L)
    new_on_port port = attached (create_attach_to_tcp port)

    unfoldable pub existing_client_from_env :
        Bytes → L.EventConfig → Outcome LibaflError (NnEventManager L)
    existing_client_from_env env_name = attached (on_existing_from_env env_name)

    unfoldable pub existing_client_from_description :
        L.Description → L.EventConfig → Outcome LibaflError (NnEventManager L)
    existing_client_from_description description = attached (existing_client description)

  abbrev pub send : Send → Action (NnEventManager L) LibaflError (Unit {0})
  send m b = elim b.llmp.replies [
    | [] ↦ (ok tt, record b { llmp = record (b.llmp) { sent = b.llmp.sent ++ m ∷ [] } })
    | inr _ ∷ more ↦ (
      ok tt,
      record b { llmp = record (b.llmp) { sent = b.llmp.sent ++ m ∷ []; replies = more } },
    )
    | inl e ∷ more ↦ (err e, record b { llmp = record (b.llmp) { replies = more } })
  ]

  module _ (f : Flags) (events : Codec (Event L)) (g : Gzip) where
    -- `EventFirer::fire`
    unfoldable pub fire : Event L → Action (NnEventManager L) LibaflError (Unit {0})
    fire event = do
      serialized ← try serialize (events.to_allocvec event)
      compressed ← (λ m. try (λ e. e) (g.compress m.compressor serialized) m)
      elim compressed [
        | some comp_buf ↦ send (
            send_buf_with_flags llmp_tag_event_to_both (bit_or f.initialized f.compressed) comp_buf)
        | none ↦ send (send_buf llmp_tag_event_to_both serialized)
      ]

  -- `EventProcessor::process` is `todo!()`.
  unfoldable pub process : Action (NnEventManager L) LibaflError ℕ
  process m = (panic, m)

  -- `HasEventManagerId::mgr_id`
  unfoldable pub mgr_id : NnEventManager L → ℕ
  mgr_id m = m.llmp.id

  -- `EventRestarter::await_restart_safe`, which is also all that `drop` does.
  unfoldable pub await_restart_safe : Action (NnEventManager L) LibaflError (Unit {0})
  await_restart_safe m = (ok tt, record m { llmp = record (m.llmp) { waits = m.llmp.waits + 1 } })

  unfoldable pub describe : Action (NnEventManager L) LibaflError L.Description
  describe m = try (λ e. e) m.llmp.description m

  -- `to_env`, with what writing to the environment answers.
  unfoldable pub to_env :
      LibaflError ⊎ Unit {0} → Bytes → Action (NnEventManager L) LibaflError (Unit {0})
  to_env (inl _) env_name m = (panic, m)
  to_env (inr _) env_name m =
      (ok tt, record m { llmp = record (m.llmp) { exported = m.llmp.exported ++ env_name ∷ [] } })
