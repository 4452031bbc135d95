-- ===== src/Llmp/Broker/Laws.antt =====
-- What the broker does with the messages that pass it.
use nn_fuzz.Base.{
  ℕ, ◌≡◌, ◌≢◌, ◌↔◌, refl, inl, inr, List, [], ◌∷◌, ◌++◌, append-nil, none, some, arith, ⊎-cases,
}
use nn_fuzz.Base.Bits.{bit_or}
use nn_fuzz.Base.Text.{Bytes, codes}
use nn_fuzz.Payload.{Holds, plain, compressed}
use nn_fuzz.Base.Outcome.{ok}
use nn_fuzz.External.{Codec, IsCodec, Gzip, IsGzip, Libafl}
use nn_fuzz.Messages.{Event, new_testcase, update_exec_stats, objective, log, custom_buf}
use nn_fuzz.Llmp.{Flags, IsFlags, llmp_tag_event_to_both}
use nn_fuzz.Llmp.Manager.{NnEventManager, Send, send_buf_with_flags, send_buf, fire}
use nn_fuzz.Llmp.Broker.{
  MonitorCall, client_stats_mut_for, update_corpus_size, update_executions, update_user_stats,
  update_objective_size, display, println, forward_to_clients, BrokerEventResult, forward,
  hook_result, handle_in_broker, hook,
}

-- The flags with which a send arrives, and its tag and buffer.
abbrev pub flags_of : Flags → Send → ℕ
flags_of f (send_buf_with_flags _ flags _) = flags
flags_of f (send_buf _ _) = f.of_send_buf

abbrev pub tag_of : Send → ℕ
tag_of (send_buf_with_flags tag _ _) = tag
tag_of (send_buf tag _) = tag

abbrev pub buf_of : Send → Bytes
buf_of (send_buf_with_flags _ _ buf) = buf
buf_of (send_buf _ buf) = buf

-- What the monitor is told of an event: the numbers that the event carries are those of the client that
-- sent it, a text says what happened, and a log line is printed.
abbrev pub account : {L : Libafl} → ℕ → Event L → List (MonitorCall L)
account c (new_testcase _ _ _ corpus_size _ time executions) =
    client_stats_mut_for c
    ∷ update_corpus_size c corpus_size
    ∷ update_executions c executions time
    ∷ display (codes "Testcase") c
    ∷ []
account c (update_exec_stats time executions) =
    client_stats_mut_for c ∷ update_executions c executions time ∷ display (codes "Stats") c ∷ []
account c (Event.update_user_stats name value) =
    client_stats_mut_for c ∷ update_user_stats c name value ∷ display (codes "Stats") c ∷ []
account c (objective objective_size) =
    client_stats_mut_for c
    ∷ update_objective_size c objective_size
    ∷ display (codes "Objective") c
    ∷ []
account c (log severity_level message) = println severity_level message ∷ []
account c (custom_buf _) = []

-- The events that go on to the other fuzzers and to the networks.
abbrev pub IsShared : {L : Libafl} → Event L → Type 0
IsShared (new_testcase _ _ _ _ _ _ _) = Unit
IsShared (custom_buf _) = Unit
IsShared _ = ⊥

module _ {L : Libafl} where
  -- The handler never fails. It forwards exactly test cases and custom buffers, and behind what was done
  -- before the monitor is told what there is to tell of the event.
  pub handle_in_broker_lem :
      (client_id : ℕ) (event : Event L) (trace : List (MonitorCall L))
      → (result : BrokerEventResult) × (handle_in_broker client_id event trace
          ≡ (ok result, trace ++ account client_id event))
        × ((result ≡ forward) ↔ IsShared event)
  unfolding handle_in_broker
  handle_in_broker_lem client_id (new_testcase _ _ _ _ _ _ _) trace = (forward, refl, ground arith)
  handle_in_broker_lem client_id (update_exec_stats _ _) trace =
      (BrokerEventResult.handled, refl, ground arith)
  handle_in_broker_lem client_id (Event.update_user_stats _ _) trace =
      (BrokerEventResult.handled, refl, ground arith)
  handle_in_broker_lem client_id (objective _) trace =
      (BrokerEventResult.handled, refl, ground arith)
  handle_in_broker_lem client_id (log _ _) trace = (BrokerEventResult.handled, refl, ground arith)
  handle_in_broker_lem client_id (custom_buf _) trace =
      (forward, ground (arith, append-nil trace), ground arith)

  module _ (f : Flags) (events : Codec (Event L)) (g : Gzip) where
    -- A message with another tag is forwarded unread.
    pub hook_other_tag :
        (client_id tag flags : ℕ) (msg : Bytes) (trace : List (MonitorCall L))
        → tag ≢ llmp_tag_event_to_both
        → hook f events g client_id tag flags msg trace ≡ (ok forward_to_clients, trace)
    unfolding hook
    hook_other_tag client_id tag flags msg trace h = ground arith

    -- A message with the broker's tag that holds an event is handled as that event.
    hook-Holds :
        IsCodec events
        → IsGzip g
        → (event : Event L) (client_id flags : ℕ) (msg : Bytes)
          (trace trace' : List (MonitorCall L)) (result : BrokerEventResult)
        → Holds events g f.compressed event flags msg
        → handle_in_broker client_id event trace ≡ (ok result, trace')
        → hook f events g client_id llmp_tag_event_to_both flags msg trace
          ≡ (ok (hook_result result), trace')
    hook-Holds lawful gzip event client_id flags msg trace trace' result (plain ser bit) handling =
        unfold hook in ground (arith, lawful.from_bytes-to_allocvec event msg ser)
    hook-Holds lawful gzip event client_id flags msg trace trace' result
          (compressed t s ser comp bit) handling =
        unfold hook in
        ground
          (arith, gzip.decompress-compress t s msg comp, lawful.from_bytes-to_allocvec event s ser)

    pub fire-Holds :
        IsFlags f
        → (event : Event L) (m m' : NnEventManager L) → fire f events g event m ≡ (ok tt, m')
        → (s : Send) × (m'.llmp.sent ≡ m.llmp.sent ++ s ∷ [])
          × (tag_of s ≡ llmp_tag_event_to_both)
          × Holds events g f.compressed event (flags_of f s) (buf_of s)
    unfolding fire
    fire-Holds flags event m m' h = elim (⊎-cases (events.to_allocvec event)) [
      | inl (_, e) ↦ absurd (ground (arith, e))
      | inr (ser, e) ↦ elim (⊎-cases (g.compress m.compressor ser)) [
        | inl (x, ce) ↦ absurd (ground (arith, e, ce))
        | inr (none, ce) ↦
            (send_buf llmp_tag_event_to_both ser, ground (arith, e, ce), refl, plain e flags.absent)
        | inr (some z, ce) ↦ (
          send_buf_with_flags llmp_tag_event_to_both (bit_or f.initialized f.compressed) z,
          ground (arith, e, ce),
          refl,
          compressed m.compressor ser e ce flags.added,
        )
      ]
    ]

    -- With a codec, a compressor and flags that keep their laws, what a manager fires the broker
    -- reads back: a successful `fire` sends one message, and the hook does with it what the
    -- handler does with the event, whether or not it was compressed.
    hook-fire :
        IsFlags f
        → IsCodec events
        → IsGzip g
        → (event : Event L) (m m' : NnEventManager L) (client_id : ℕ)
          (trace trace' : List (MonitorCall L)) (result : BrokerEventResult)
        → fire f events g event m ≡ (ok tt, m')
        → handle_in_broker client_id event trace ≡ (ok result, trace')
        → (s : Send) × (m'.llmp.sent ≡ m.llmp.sent ++ s ∷ [])
          × (hook f events g client_id (tag_of s) (flags_of f s) (buf_of s) trace
              ≡ (ok (hook_result result), trace'))
    hook-fire flags lawful gzip event m m' client_id trace trace' result fired handling =
        let (s, sent, tag, holds) = fire-Holds flags event m m' fired in
        (
          s,
          sent,
          rw tag (
              hook-Holds lawful gzip event client_id (flags_of f s) (buf_of s) trace trace' result
                holds handling),
        )
