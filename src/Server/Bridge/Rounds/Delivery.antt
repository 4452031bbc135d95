-- ===== src/Server/Bridge/Rounds/Delivery.antt =====
-- What a network sends and LLMP is handed, by the number of rounds.
use nn_fuzz.Base.{
  ℕ, ◌<◌, ◌==◌, ◌≡◌, refl, ap, ◌∙◌, inl, inr, List, [], ◌∷◌, ◌++◌, append_assoc, append-nil, none,
  some, true, length, map, arith, All,
}
use nn_fuzz.Base.Text.{Bytes}
use nn_fuzz.Base.Outcome.{ok}
use nn_fuzz.Base.Action.{>>=-ok}
use nn_fuzz.Std.Net.{IoError, Arrival, Socket, fault, arrivals, u32_mod}
use nn_fuzz.External.{Codec, IsCodec}
use nn_fuzz.Messages.{TcpRemoteNewMessage}
use nn_fuzz.Server.Bridge.{
  Received, Bridge, LlmpSend, forward, forward_all, receive_one, round, rounds,
}
use nn_fuzz.Server.Bridge.Relay.{receive_one-frame, receive_one_fault}
use nn_fuzz.Server.Bridge.Rounds.{marked}
use nn_fuzz.Wire.{frame}

-- What comes from a network: a message, or a pause that lasts until a read fails.
pub data Signal : Type 0 where
  sent : TcpRemoteNewMessage → Signal
  pause : IoError → Signal

abbrev pub messages_sent : List Signal → List TcpRemoteNewMessage
messages_sent [] = []
messages_sent (sent m ∷ more) = m ∷ messages_sent more
messages_sent (pause _ ∷ more) = messages_sent more

joined :
    (s : Signal) (items : List Signal) (out : List LlmpSend)
    → (out ++ map marked (messages_sent (s ∷ []))) ++ map marked (messages_sent items)
      ≡ out ++ map marked (messages_sent (s ∷ items))
joined (sent m) items out = append_assoc out (marked m ∷ []) (map marked (messages_sent items))
joined (pause e) items out = rw (append-nil out) refl

-- An answer of LLMP that gives the bridge nothing to forward: nothing new, or its own message.
abbrev pub IsQuiet : ℕ → Received → Type 0
IsQuiet id (inl _) = ⊥
IsQuiet id (inr none) = Unit
IsQuiet id (inr (some m)) = (m.client_id == id) ≡ true

module _ (messages : Codec TcpRemoteNewMessage) where
  -- The signals arrive whole, one behind the other, with `rest` behind them.
  abbrev pub Carries : List Signal → List Arrival → List Arrival → Type 0
  Carries [] incoming rest = incoming ≡ rest
  Carries (sent m ∷ more) incoming rest =
      (bs : Bytes) × (next : List Arrival) × (messages.to_allocvec m ≡ inr bs)
      × (length bs < u32_mod)
      × (incoming ≡ arrivals (frame bs) ++ next)
      × Carries more next rest
  Carries (pause e ∷ more) incoming rest =
      (next : List Arrival) × (incoming ≡ fault e ∷ next) × Carries more next rest

  module _ (id : ℕ) where
    forward-IsQuiet :
        (q : List Received) (s : Socket)
        → All (IsQuiet id) q
        → (q' : List Received) × (forward messages id q s ≡ (ok tt, q', s)) × All (IsQuiet id) q'
    unfolding forward
    forward-IsQuiet [] s h = ([], refl, tt)
    forward-IsQuiet (inl e ∷ more) s h = absurd h.0
    forward-IsQuiet (inr none ∷ more) s h = (more, refl, h.1)
    forward-IsQuiet (inr (some m) ∷ more) s h =
        let (q', run, quiet) = forward-IsQuiet more s h.1 in (q', ground (arith, run, h.0), quiet)

    -- The bridge behind one signal.
    abbrev pub behind : Bridge → List Received → List Arrival → List TcpRemoteNewMessage → Bridge
    behind b q rest ms = record b {
      stream = record (b.stream) { incoming = rest };
      inbox = q;
      outbox = b.outbox ++ map marked ms;
    }

    round_delivers :
        (b : Bridge) (next : List Arrival) (ms : List TcpRemoteNewMessage)
        → All (IsQuiet id) b.inbox
        → ((q : List Received)
            → receive_one messages id (record b { inbox = q }) ≡ (ok tt, behind b q next ms))
        → (q : List Received) × (round messages id b ≡ (ok tt, behind b q next ms))
          × All (IsQuiet id) q
    unfolding round
    round_delivers b next ms quiet receives =
        let (q, run, quiet') = forward-IsQuiet b.inbox b.stream quiet in
        (
          q,
          >>=-ok (forward_all messages id) (λ _. receive_one messages id) b (record b { inbox = q })
                tt (ground (arith, run))
              ∙ receives q,
          quiet',
        )

    signal_delivers :
        IsCodec messages
        → (s : Signal) (items : List Signal) (b : Bridge) (rest : List Arrival)
        → All (IsQuiet id) b.inbox
        → b.replies ≡ []
        → Carries (s ∷ items) b.stream.incoming rest
        → (q : List Received) × (next : List Arrival) × (round messages id b
            ≡ (ok tt, behind b q next (messages_sent (s ∷ []))))
          × All (IsQuiet id) q
          × Carries items next rest
    signal_delivers lawful (sent m) items b rest quiet takes (bs, next, ser, fits, arrived, more) =
        let (q, run, quiet') = round_delivers b next (m ∷ []) quiet (λ q.
          receive_one-frame messages id lawful m bs next (record b { inbox = q }) ser fits arrived
            takes) in
        (q, next, run, quiet', more)
    signal_delivers lawful (pause e) items b rest quiet takes (next, arrived, more) =
        let (q, run, quiet') = round_delivers b next [] quiet (λ q.
          receive_one_fault messages id [] e next (record b { inbox = q }) (omega arith) arrived
          ∙ rw (append-nil b.outbox) refl) in
        (q, next, run, quiet', more)

    -- With a codec that keeps its law: if a network sends messages of less than 2 to the 32 bytes with
    -- pauses between them, while LLMP has nothing for it and takes what it is sent, then after as many
    -- rounds as there are messages and pauses the bridge has not panicked and has handed LLMP all the
    -- messages, marked and in their order; what follows them is left.
    pub rounds_deliver :
        IsCodec messages
        → (items : List Signal) (b : Bridge) (rest : List Arrival) → All (IsQuiet id) b.inbox
        → b.replies ≡ []
        → Carries items b.stream.incoming rest
        → (q : List Received) × (rounds messages id (length items) b
            ≡ (ok tt, behind b q rest (messages_sent items)))
    unfolding rounds
    rounds_deliver lawful [] b rest quiet takes e = (b.inbox, rw (← e, append-nil b.outbox) refl)
    rounds_deliver lawful (s ∷ items) b rest quiet takes carried =
        let (q, next, run, quiet', more) =
          signal_delivers lawful s items b rest quiet takes carried in
        let c = behind b q next (messages_sent (s ∷ [])) in
        let (q', runs) = rounds_deliver lawful items c rest quiet' takes more in
        (
          q',
          >>=-ok (round messages id) (λ _. rounds messages id (length items)) b c tt run
              ∙ runs
              ∙ ap
                  (λ o. (
                    ok tt,
                    record b {
                      stream = record (b.stream) { incoming = rest };
                      inbox = q';
                      outbox = o;
                    },
                  ))
                  (joined s items b.outbox),
        )
