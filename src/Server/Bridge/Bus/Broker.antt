-- ===== src/Server/Bridge/Bus/Broker.antt =====
-- The broker between the clients: what it forwards of what it takes, and of whom its calls of the
-- monitor are. The hook is that of nn_fuzz/src/llmp/extention.rs.
use nn_fuzz.Base.{
  ℕ, ◌==◌, ◌≡◌, ◌≢◌, refl, sym, ap, ◌∙◌, inl, inr, ⊎-cases, ◌↔◌, List, [], ◌∷◌, ◌++◌, append_assoc,
  append-nil, Bool-cases, Bool, true, false, arith, ==_iff,
}
use mathlib.Core.Path.{subst}
use nn_fuzz.Base.Bits.{bit_and}
use nn_fuzz.Base.Text.{Bytes}
use nn_fuzz.Base.Outcome.{ok}
use nn_fuzz.External.{Codec, Gzip, Libafl}
use nn_fuzz.Messages.{TcpRemoteNewMessage, Event}
use nn_fuzz.Llmp.{Flags, llmp_tag_event_to_both}
use nn_fuzz.Llmp.Broker.{
  MonitorCall, LlmpMsgHookResult, forward_to_clients, BrokerEventResult, forward, hook_result,
  handle_in_broker, hook,
}
use nn_fuzz.Llmp.Broker.Laws.{account, IsShared, handle_in_broker_lem, hook_other_tag}
use nn_fuzz.Server.Bridge.Bus.{
  Bus, broadcast, passed, Step, sends, arrives, forwards, receives, brokers, Reach, here, next,
  IsFresh,
}

module _ {L : Libafl} (f : Flags) (events : Codec (Event L)) (g : Gzip) where
  -- A message with the broker's tag whose payload is an event, packed if its flags say so.
  pub data IsEvent (m : TcpRemoteNewMessage) (e : Event L) : Type 0 where
    plain :
        m.tag ≡ llmp_tag_event_to_both
        → (bit_and m.flags f.compressed == f.compressed) ≡ false
        → events.from_bytes m.payload ≡ inr e
        → IsEvent m e
    packed :
        (bs : Bytes)
        → m.tag ≡ llmp_tag_event_to_both
        → (bit_and m.flags f.compressed == f.compressed) ≡ true
        → g.decompress m.payload ≡ inr bs
        → events.from_bytes bs ≡ inr e
        → IsEvent m e

  -- The messages that are taken, those of them that are forwarded, and the calls of the monitor: a
  -- message with another tag is forwarded unread, and one with the broker's tag is an event, which is
  -- told to the monitor on its sender's account and forwarded if it is for all.
  pub data Brokered
      : List TcpRemoteNewMessage → List TcpRemoteNewMessage → List (MonitorCall L) → Type 0 where
    nothing : Brokered [] [] []
    unread :
        (m : TcpRemoteNewMessage) {xs ys : List TcpRemoteNewMessage} {cs : List (MonitorCall L)}
        → m.tag ≢ llmp_tag_event_to_both
        → Brokered xs ys cs
        → Brokered (m ∷ xs) (m ∷ ys) cs
    shared :
        (m : TcpRemoteNewMessage) (e : Event L) {xs ys : List TcpRemoteNewMessage}
        {cs : List (MonitorCall L)} (all : List (MonitorCall L))
        → IsEvent m e
        → IsShared e
        → all ≡ account m.client_id e ++ cs
        → Brokered xs ys cs
        → Brokered (m ∷ xs) (m ∷ ys) all
    kept :
        (m : TcpRemoteNewMessage) (e : Event L) {xs ys : List TcpRemoteNewMessage}
        {cs : List (MonitorCall L)} (all : List (MonitorCall L))
        → IsEvent m e
        → ¬ IsShared e
        → all ≡ account m.client_id e ++ cs
        → Brokered xs ys cs
        → Brokered (m ∷ xs) ys all

  Brokered-append :
      {xs ys us vs : List TcpRemoteNewMessage} {cs ds : List (MonitorCall L)}
      → Brokered xs ys cs
      → Brokered us vs ds
      → Brokered (xs ++ us) (ys ++ vs) (cs ++ ds)
  Brokered-append nothing q = q
  Brokered-append (unread m other b) q = unread m other (Brokered-append b q)
  Brokered-append {ds = ds} (shared m e {cs = cs} all event is same b) q =
      shared m e (all ++ ds) event is
        (ap (λ l. l ++ ds) same ∙ append_assoc (account m.client_id e) cs ds) (Brokered-append b q)
  Brokered-append {ds = ds} (kept m e {cs = cs} all event own same b) q =
      kept m e (all ++ ds) event own
        (ap (λ l. l ++ ds) same ∙ append_assoc (account m.client_id e) cs ds) (Brokered-append b q)

  -- An event that the hook has read goes the way of its kind.
  of_event :
      (m : TcpRemoteNewMessage) (e : Event L) (result : BrokerEventResult)
      → IsEvent m e
      → (result ≡ forward) ↔ IsShared e
      → Brokered (m ∷ []) (passed (hook_result result) m) (account m.client_id e)
  of_event m e forward event is =
      shared m e (account m.client_id e) event (is.0 refl)
        (sym (append-nil (account m.client_id e))) nothing
  of_event m e BrokerEventResult.handled event is =
      kept m e (account m.client_id e) event
        (λ s. let clash : BrokerEventResult.handled ≡ forward = is.1 s in cc)
        (sym (append-nil (account m.client_id e))) nothing

  hook-read :
      (m : TcpRemoteNewMessage) (e : Event L) (trace trace' : List (MonitorCall L))
      (result : BrokerEventResult)
      → IsEvent m e
      → handle_in_broker m.client_id e trace ≡ (ok result, trace')
      → hook f events g m.client_id m.tag m.flags m.payload trace
        ≡ (ok (hook_result result), trace')
  unfolding hook
  hook-read m e trace trace' result (plain tag bit read) handling = ground (arith, tag)
  hook-read m e trace trace' result (packed bs tag bit unpacked read) handling = ground (arith, tag)

  hook-event :
      (m : TcpRemoteNewMessage) (e : Event L) (trace trace' : List (MonitorCall L))
      (result : LlmpMsgHookResult)
      → IsEvent m e
      → hook f events g m.client_id m.tag m.flags m.payload trace ≡ (ok result, trace')
      → (calls : List (MonitorCall L)) × (trace' ≡ trace ++ calls)
        × Brokered (m ∷ []) (passed result m) calls
  hook-event m e trace trace' result event h =
      let (r, ran, is) = handle_in_broker_lem m.client_id e trace in
      let calls = account m.client_id e in
      let ended = hook-read m e trace (trace ++ calls) r event ran in
      let same : hook_result r ≡ result = cc in
      (calls, cc, subst (λ x. Brokered (m ∷ []) (passed x m) calls) same (of_event m e r event is))

  hook-Brokered :
      (m : TcpRemoteNewMessage) (trace trace' : List (MonitorCall L)) (result : LlmpMsgHookResult)
      → hook f events g m.client_id m.tag m.flags m.payload trace ≡ (ok result, trace')
      → (calls : List (MonitorCall L)) × (trace' ≡ trace ++ calls)
        × Brokered (m ∷ []) (passed result m) calls
  hook-Brokered m trace trace' result h = elim (Bool-cases (m.tag == llmp_tag_event_to_both)) [
    | inl tag ↦
        let is : m.tag ≡ llmp_tag_event_to_both = (==_iff m.tag llmp_tag_event_to_both).0 tag in
        elim (Bool-cases (bit_and m.flags f.compressed == f.compressed)) [
          | inr bit ↦ elim (⊎-cases (events.from_bytes m.payload)) [
            | inl (x, e) ↦ absurd (unfold hook in ground (arith, e))
            | inr (event, e) ↦ hook-event m event trace trace' result (plain is bit e) h
          ]
          | inl bit ↦ elim (⊎-cases (g.decompress m.payload)) [
            | inl (x, e) ↦ absurd (unfold hook in ground (arith, e))
            | inr (bs, d) ↦ elim (⊎-cases (events.from_bytes bs)) [
              | inl (x, e) ↦ absurd (unfold hook in ground (arith, d, e))
              | inr (event, e) ↦ hook-event m event trace trace' result (packed bs is bit d e) h
            ]
          ]
        ]
    | inr tag ↦
        let other : m.tag ≢ llmp_tag_event_to_both = λ is. ground (arith, is, tag) in
        let ended = hook_other_tag f events g m.client_id m.tag m.flags m.payload trace other in
        let same : forward_to_clients ≡ result = cc in
        (
          [],
          let kept : trace' ≡ trace = cc in kept ∙ sym (append-nil trace),
          subst (λ x. Brokered (m ∷ []) (passed x m) []) same (unread m other nothing),
        )
  ]

  module _ (messages : Codec TcpRemoteNewMessage) (running : ℕ → Bool) where
    -- What the broker has done since the monitor had had `start`.
    abbrev Works : List (MonitorCall L) → Bus L → Type 0
    Works start s =
        (calls : List (MonitorCall L)) × (s.monitored ≡ start ++ calls)
        × Brokered s.seen s.log calls

    step-Works :
        (start : List (MonitorCall L)) {s t : Bus L}
        → Step messages f events g running s t
        → Works start s
        → Works start t
    step-Works start (sends _ _ _) w = w
    step-Works start (arrives _ _ _) w = w
    step-Works start (forwards _ _ _ _) w = w
    step-Works start (receives _ _ _ _ _ _) w = w
    step-Works start {s} (brokers id m rest result now waits handles) (calls, e, w) =
        let (more, grown, b) = hook-Brokered (broadcast id m) s.monitored now result handles in
        (
          calls ++ more,
          grown ∙ ap (λ l. l ++ more) e ∙ append_assoc start calls more,
          Brokered-append w b,
        )

    Reach-Works :
        (start : List (MonitorCall L)) {s t : Bus L}
        → Works start s
        → Reach messages f events g running s t
        → Works start t
    Reach-Works start w here = w
    Reach-Works start w (next r st) = step-Works start st (Reach-Works start w r)

    -- From a fresh start, in every interleaving: LLMP's log is what the broker has forwarded of the
    -- messages that it has taken, in their order: all with another tag than the broker's, unread, and
    -- of the events exactly test cases and custom buffers; and the calls of the monitor are, in that
    -- order, exactly the accounts of the events that were taken: of each, the numbers that it carries
    -- as those of its sender, and what happened, or its log line, and nothing of a custom buffer.
    pub broker_keeps_account :
        (s t : Bus L)
        → IsFresh s
        → Reach messages f events g running s t
        → (calls : List (MonitorCall L)) × (t.monitored ≡ s.monitored ++ calls)
          × Brokered t.seen t.log calls
    broker_keeps_account s t fresh reach =
        Reach-Works s.monitored
          ([], sym (append-nil s.monitored), rw (fresh.none_seen, fresh.no_log) nothing) reach
