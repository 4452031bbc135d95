-- ===== src/Llmp/Broker.antt =====
-- nn_fuzz/src/llmp/extention.rs: `LlmpNnEventBroker`, its hook for each message, and the statistics
-- that it keeps of the events.
pub mod Laws
use nn_fuzz.Base.{ℕ, ◌==◌, ◌⊎◌, inl, inr, List, [], ◌∷◌, ◌++◌, if◌then◌else◌}
use nn_fuzz.Base.Bits.{bit_and}
use nn_fuzz.Base.Text.{Bytes, codes}
use nn_fuzz.Base.Outcome.{ok, err}
use nn_fuzz.Base.Action.{Action, ◌>>=◌, pure}
use nn_fuzz.External.{Codec, Gzip, Libafl, LibaflError, serialize, try}
use nn_fuzz.Messages.{Event, new_testcase, update_exec_stats, objective, log, custom_buf}
use nn_fuzz.Llmp.{Flags, llmp_tag_event_to_both}

pub data BrokerEventResult : Type 0 where
  forward handled : BrokerEventResult

pub data LlmpMsgHookResult : Type 0 where
  forward_to_clients handled : LlmpMsgHookResult

-- The calls of the monitor, a trait object, and of the statistics of a client that it lends.
pub data MonitorCall (L : Libafl) : Type 0 where
  client_stats_mut_for : (client_id : ℕ) → MonitorCall L
  update_corpus_size : (client_id corpus_size : ℕ) → MonitorCall L
  update_executions : (client_id executions time : ℕ) → MonitorCall L
  update_user_stats : (client_id : ℕ) (name : Bytes) (value : L.UserStats) → MonitorCall L
  update_objective_size : (client_id objective_size : ℕ) → MonitorCall L
  display : (event_msg : Bytes) (sender_id : ℕ) → MonitorCall L
  println : (severity_level : L.LogSeverity) (message : Bytes) → MonitorCall L

abbrev pub Monitored : Libafl → Type 0 → Type 0
Monitored L = Action (List (MonitorCall L)) LibaflError

abbrev pub hook_result : BrokerEventResult → LlmpMsgHookResult
hook_result forward = forward_to_clients
hook_result BrokerEventResult.handled = LlmpMsgHookResult.handled

module _ {L : Libafl} where
  -- What a handler does with the monitor before it returns.
  abbrev calling {ℓ} :
      {A : Type ℓ} → List (MonitorCall L) → A → Action (List (MonitorCall L)) LibaflError A
  calling calls a trace = (ok a, trace ++ calls)

  unfoldable pub handle_in_broker : ℕ → Event L → Monitored L BrokerEventResult
  handle_in_broker client_id (new_testcase _ _ _ corpus_size _ time executions) =
      calling
        (client_stats_mut_for client_id
          ∷ update_corpus_size client_id corpus_size
          ∷ update_executions client_id executions time
          ∷ display (codes "Testcase") client_id
          ∷ [])
        forward
  handle_in_broker client_id (update_exec_stats time executions) =
      calling
        (client_stats_mut_for client_id
          ∷ update_executions client_id executions time
          ∷ display (codes "Stats") client_id
          ∷ [])
        BrokerEventResult.handled
  handle_in_broker client_id (Event.update_user_stats name value) =
      calling
        (client_stats_mut_for client_id
          ∷ update_user_stats client_id name value
          ∷ display (codes "Stats") client_id
          ∷ [])
        BrokerEventResult.handled
  handle_in_broker client_id (objective objective_size) =
      calling
        (client_stats_mut_for client_id
          ∷ update_objective_size client_id objective_size
          ∷ display (codes "Objective") client_id
          ∷ [])
        BrokerEventResult.handled
  handle_in_broker client_id (log severity_level message) =
      calling (println severity_level message ∷ []) BrokerEventResult.handled
  handle_in_broker client_id (custom_buf _) = calling [] forward

  module _ (f : Flags) (events : Codec (Event L)) (g : Gzip) where
    -- The closure that `broker_loop` hands to `loop_forever`.
    unfoldable pub hook : ℕ → ℕ → ℕ → Bytes → Monitored L LlmpMsgHookResult
    hook client_id tag flags msg =
        if tag == llmp_tag_event_to_both
        then (do
          event_bytes ←
              if bit_and flags f.compressed == f.compressed
              then try (λ e. e) (g.decompress msg)
              else pure msg
          event ← try serialize (events.from_bytes event_bytes)
          result ← handle_in_broker client_id event
          pure (hook_result result))
        else pure forward_to_clients
