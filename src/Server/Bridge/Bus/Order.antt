-- ===== src/Server/Bridge/Bus/Order.antt =====
-- What each network is told of, against the broker's log, in every interleaving.
use nn_fuzz.Base.{
  ℕ, ◌≡◌, refl, sym, ap, ◌∙◌, inr, List, [], ◌∷◌, ◌++◌, append_assoc, some, Bool, true, map, All,
  All-append,
}
use nn_fuzz.Std.Net.{Arrival}
use nn_fuzz.External.{Codec}
use nn_fuzz.Messages.{TcpRemoteNewMessage}
use nn_fuzz.Server.Bridge.{Bridge}
use nn_fuzz.Server.Bridge.Forward.{foreign, Frames}
use nn_fuzz.Server.Bridge.Rounds.{messages_of, Relayed, forward_all-Relayed, receive_one-Relayed}
use nn_fuzz.Server.Bridge.Rounds.Refinement.{
  messages_of-append, foreign-append, Frames-append, Heard-IsByte,
}
use nn_fuzz.External.{Gzip, Libafl}
use nn_fuzz.Messages.{Event}
use nn_fuzz.Llmp.{Flags}
use nn_fuzz.Server.Bridge.Bus.{
  brokers, passed, Bus, broadcast, sent_by, Step, sends, arrives, forwards, receives, Reach, here,
  next, hearing, IsFresh,
}
use nn_fuzz.Wire.{IsByte}
use nn_fuzz.Server.Bridge.Bus.Own.{updated, fresh-AllOwn, Reach-AllOwn}

messages_of-delivered :
    (ms : List TcpRemoteNewMessage) → messages_of (map (λ m. inr (some m)) ms) ≡ ms
messages_of-delivered [] = refl
messages_of-delivered (m ∷ ms) = rw (messages_of-delivered ms)

module _ (messages : Codec TcpRemoteNewMessage) where
  -- What holds of the bridge of one client, against the log.
  pub record IsFaithful (log : List TcpRemoteNewMessage) (id : ℕ) (b : Bridge) : Type 0 where
    pub taken : List TcpRemoteNewMessage
    pub waiting : log ≡ taken ++ messages_of b.inbox
    pub told : Frames messages (foreign id taken) b.stream.written
    pub bytes : All IsByte b.stream.incoming

  delivered-IsFaithful :
      (log ms : List TcpRemoteNewMessage) (id : ℕ) (b : Bridge)
      → IsFaithful log id b
      → IsFaithful (log ++ ms) id (record b { inbox = b.inbox ++ map (λ m. inr (some m)) ms })
  delivered-IsFaithful log ms id b f = record {
    taken = f.taken;
    waiting =
        ap (λ l. l ++ ms) f.waiting
        ∙ append_assoc f.taken (messages_of b.inbox) ms
        ∙ ap (λ l. f.taken ++ (messages_of b.inbox ++ l)) (sym (messages_of-delivered ms))
        ∙ ap (λ l. f.taken ++ l) (sym (messages_of-append b.inbox (map (λ m. inr (some m)) ms)));
    told = f.told;
    bytes = f.bytes;
  }

  -- A half of a round.
  Relayed-IsFaithful :
      (log : List TcpRemoteNewMessage) (id : ℕ) (b b' : Bridge)
      → Relayed messages id b b'
      → IsFaithful log id b
      → IsFaithful log id b'
  Relayed-IsFaithful log id b b' r f = record {
    taken = f.taken ++ messages_of r.taken;
    waiting =
        f.waiting
        ∙ ap (λ q. f.taken ++ messages_of q) r.takes
        ∙ ap (λ l. f.taken ++ l) (messages_of-append r.taken b'.inbox)
        ∙ sym (append_assoc f.taken (messages_of r.taken) (messages_of b'.inbox));
    told =
        rw (r.writes, foreign-append id f.taken (messages_of r.taken))
          (Frames-append messages (foreign id f.taken) (foreign id (messages_of r.taken))
            b.stream.written r.written f.told r.frames);
    bytes = Heard-IsByte messages b.stream.incoming b'.stream.incoming r.heard r.hears f.bytes;
  }

  arrived-IsFaithful :
      (log : List TcpRemoteNewMessage) (id : ℕ) (b : Bridge) (more : List Arrival)
      → IsFaithful log id b
      → All IsByte more
      → IsFaithful log id (hearing more b)
  arrived-IsFaithful log id b more f all = record {
    taken = f.taken;
    waiting = f.waiting;
    told = f.told;
    bytes = All-append IsByte b.stream.incoming more f.bytes all;
  }

  module _ {L : Libafl} (f : Flags) (events : Codec (Event L)) (g : Gzip) (running : ℕ → Bool) where
    abbrev pub AllFaithful : Bus L → Type 0
    AllFaithful s = (id : ℕ) → IsFaithful s.log id (s.bridge id)

    step-AllFaithful :
        {s t : Bus L} → Step messages f events g running s t → AllFaithful s → AllFaithful t
    step-AllFaithful (sends id m other) all = all
    step-AllFaithful {s} (arrives id more bytes) all =
        updated (IsFaithful s.log) s.bridge id (hearing more (s.bridge id))
          (arrived-IsFaithful s.log id (s.bridge id) more (all id) bytes) (λ i _. all i)
    step-AllFaithful {s} (forwards id b runs run) all =
        updated (IsFaithful s.log) s.bridge id b
          (Relayed-IsFaithful s.log id (s.bridge id) b
            (forward_all-Relayed messages id (s.bridge id) b run) (all id))
          (λ i _. all i)
    step-AllFaithful {s} (receives id b new runs run grown) all =
        updated (IsFaithful s.log) s.bridge id b
          (Relayed-IsFaithful s.log id (s.bridge id) b
            (receive_one-Relayed messages id (s.bridge id) b (all id).bytes run) (all id))
          (λ i _. all i)
    step-AllFaithful {s} (brokers id m rest result calls waits handles) all =
        λ i. delivered-IsFaithful s.log (passed result (broadcast id m)) i (s.bridge i) (all i)

    fresh-AllFaithful : (s : Bus L) → IsFresh s → AllFaithful s
    fresh-AllFaithful s f id = record {
      taken = [];
      waiting = rw (f.no_log, f.no_inbox id) refl;
      told = f.unwritten id;
      bytes = f.bytes id;
    }

    Reach-AllFaithful :
        {s t : Bus L} → AllFaithful s → Reach messages f events g running s t → AllFaithful t
    Reach-AllFaithful all here = all
    Reach-AllFaithful all (next r st) = step-AllFaithful st (Reach-AllFaithful all r)

    -- From a fresh start, in every interleaving of the two halves of the bridges' rounds with each
    -- other, with the broker, with messages of other clients and with arrivals from the networks: of
    -- each bridge, LLMP's log is a first part and what waits in the bridge's inbox; exactly the foreign
    -- messages of that first part have been written to the bridge's network, as frames and in the
    -- log's order; and what the bridge handed to LLMP is, in its order, what the broker has taken of it
    -- and what still waits for the broker.
    pub bridges_keep_order :
        (s t : Bus L) (id : ℕ)
        → IsFresh s
        → Reach messages f events g running s t
        → running id ≡ true
        → (taken : List TcpRemoteNewMessage) × (t.log ≡ taken ++ messages_of (t.bridge id).inbox)
          × Frames messages (foreign id taken) (t.bridge id).stream.written
          × (map (broadcast id) (t.bridge id).outbox
              ≡ sent_by id t.seen ++ map (broadcast id) (t.pending id))
    bridges_keep_order s t id fresh reach runs =
        let faithful = Reach-AllFaithful (fresh-AllFaithful s fresh) reach id in
        (
          faithful.taken,
          faithful.waiting,
          faithful.told,
          Reach-AllOwn messages f events g running
              (fresh-AllOwn messages f events g running s fresh) reach id runs,
        )
