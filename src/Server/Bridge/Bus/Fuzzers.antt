-- ===== src/Server/Bridge/Bus/Fuzzers.antt =====
-- From what a fuzzer fires to what a network reads, in any interleaving: a client that is no bridge, with
-- the event manager of nn_fuzz/src/llmp/extention.rs, at one end.
use nn_fuzz.Base.{
  ==_refl, ℕ, ◌==◌, ◌≡◌, refl, sym, ap, ◌∙◌, List, [], ◌∷◌, ◌++◌, map, Bool, true, false, length,
}
use mathlib.Core.Path.{subst}
use nn_fuzz.Base.Text.{Bytes}
use nn_fuzz.Base.Outcome.{ok}
use nn_fuzz.Std.Net.{IoError, Arrival, Socket, arrivals}
use nn_fuzz.External.{Codec, IsCodec, Gzip, IsGzip, Libafl}
use nn_fuzz.Messages.{TcpRemoteNewMessage, Event}
use nn_fuzz.Llmp.{Flags, IsFlags}
use nn_fuzz.Llmp.Manager.{NnEventManager, Send, fire}
use nn_fuzz.Server.Bridge.{LlmpSend}
use nn_fuzz.Server.Bridge.Forward.{receive_many, receive_many-Frames}
use nn_fuzz.Server.Bridge.Rounds.{messages_of}
use nn_fuzz.Server.Bridge.Rounds.Refinement.{map-append}
use nn_fuzz.Server.Bridge.Bus.{
  Bus, broadcast, sent_by, submit, Step, sends, arrives, forwards, receives, brokers, Reach, here,
  next, IsFresh,
}
use nn_fuzz.Server.Bridge.Bus.Own.{
  IsOwn, IsOwn-submitted, IsOwn-taken, IsOwn-other, updated, differs,
}
use nn_fuzz.Server.Bridge.Bus.Fifo.{seen_reaches}
use nn_fuzz.Server.Bridge.Bus.Events.{
  as_sent, Matches, Matches-append, Matches-split, Spreads, Thins-Spreads, fire-IsEvent,
}

module _ {L : Libafl} (f : Flags) (events : Codec (Event L)) (g : Gzip)
    (messages : Codec TcpRemoteNewMessage) (running : ℕ → Bool) where
  -- A step that is no message of this client.
  abbrev pub IsSilent : ℕ → {s t : Bus L} → Step messages f events g running s t → Type 0
  IsSilent c (sends other _ _) = (other == c) ≡ false
  IsSilent c (arrives _ _ _) = Unit
  IsSilent c (forwards _ _ _ _) = Unit
  IsSilent c (receives _ _ _ _ _ _) = Unit
  IsSilent c (brokers _ _ _ _ _ _ _) = Unit

  -- A run in which a client that is no bridge sends what its event manager fires: the events.
  pub data Fires (c : ℕ) (s : Bus L) : Bus L → List (Event L) → Type 0 where
    begins : Fires c s s []
    moves :
        {t u : Bus L} {es : List (Event L)}
        → Fires c s t es
        → (st : Step messages f events g running t u) → IsSilent c st
        → Fires c s u es
    fires :
        {t : Bus L} {es es' : List (Event L)} (e : Event L) (m m' : NnEventManager L) (send : Send)
        → Fires c s t es
        → fire f events g e m ≡ (ok tt, m')
        → m'.llmp.sent ≡ m.llmp.sent ++ send ∷ []
        → es' ≡ es ++ e ∷ []
        → Fires c s (submit c (as_sent f send ∷ []) t) es'

  pub Fires-Reach :
      {c : ℕ} {s t : Bus L} {es : List (Event L)}
      → running c ≡ false
      → Fires c s t es
      → Reach messages f events g running s t
  Fires-Reach idle begins = here
  Fires-Reach idle (moves fd st _) = next (Fires-Reach idle fd) st
  Fires-Reach {c} idle (fires e m m' send fd _ _ _) =
      next (Fires-Reach idle fd) (sends c (as_sent f send) idle)

  -- A silent step takes nothing from what the client has sent.
  step-IsOwn :
      (c : ℕ) (out : List LlmpSend)
      → running c ≡ false
      → {s t : Bus L} (st : Step messages f events g running s t) → IsSilent c st
      → IsOwn c out s.seen (s.pending c)
      → IsOwn c out t.seen (t.pending c)
  step-IsOwn c out idle (sends i m other) silent own = rw silent own
  step-IsOwn c out idle (arrives i more bytes) silent own = own
  step-IsOwn c out idle (forwards i b runs run) silent own = own
  step-IsOwn c out idle (receives i b new runs run grown) silent own =
      rw (differs running i c runs idle) own
  step-IsOwn c out idle {s} (brokers i m rest result calls waits handles) silent own =
      updated (λ j p. j ≡ c → IsOwn c out (s.seen ++ broadcast i m ∷ []) p) s.pending i rest
        (λ e.
          subst (λ j. IsOwn c out (s.seen ++ broadcast j m ∷ []) rest) (sym e)
            (IsOwn-taken c out s.seen m rest
              (subst (IsOwn c out s.seen) (ap (s.pending) (sym e) ∙ waits) own)))
        (λ j other e.
          subst (λ k. IsOwn c out (s.seen ++ broadcast i m ∷ []) (s.pending k)) (sym e)
            (IsOwn-other c i out s.seen m (s.pending c) (subst (λ k. (i == k) ≡ false) e other)
              own))
        c refl

  -- What has become of the events so far.
  record IsFiring (c : ℕ) (es : List (Event L)) (s : Bus L) : Type 0 where
    out : List LlmpSend
    own : IsOwn c out s.seen (s.pending c)
    events_of : Matches f events g (map (broadcast c) out) es

  Fires-IsFiring :
      IsFlags f
      → IsCodec events
      → IsGzip g
      → (c : ℕ) {s t : Bus L} {es : List (Event L)} → IsFresh s
      → running c ≡ false
      → Fires c s t es
      → IsFiring c es t
  Fires-IsFiring flags lawful gzip c {s} fresh idle begins = record {
    out = [];
    own = rw (fresh.none_seen, fresh.none_pending c) refl;
    events_of = tt;
  }
  Fires-IsFiring flags lawful gzip c fresh idle (moves fd st silent) =
      let before = Fires-IsFiring flags lawful gzip c fresh idle fd in
      record {
        out = before.out;
        own = step-IsOwn c before.out idle st silent before.own;
        events_of = before.events_of;
      }
  Fires-IsFiring flags lawful gzip c fresh idle (fires {t} {es} e m m' send fd fired sent same) =
      let before = Fires-IsFiring flags lawful gzip c fresh idle fd in
      let more = as_sent f send ∷ [] in
      record {
        out = before.out ++ more;
        own = rw (==_refl c) (IsOwn-submitted c before.out t.seen (t.pending c) more before.own);
        events_of =
            rw (same, map-append (broadcast c) before.out more)
              (Matches-append f events g (map (broadcast c) before.out) (map (broadcast c) more) es
                (e ∷ []) before.events_of
                (fire-IsEvent f events g flags lawful gzip c e m m' send fired sent, tt));
      }

  -- With codecs, a compressor and flags that keep their laws, from a fresh start, in every interleaving:
  -- if a client that is no bridge sends what its event manager fires, and a bridge's network gets the
  -- bytes that are written to it, then the network reads them to their end as messages, one after the
  -- other; and of the events that were fired, in their order, a first part is taken by the broker and
  -- the rest waits for it as messages of these events, while of the part that is taken the test cases
  -- and custom buffers, and no other events, are exactly what the network reads of this client and
  -- what of it waits in the inbox of its bridge.
  pub network_reads_fuzzer :
      IsFlags f
      → IsCodec events
      → IsGzip g
      → IsCodec messages
      → (io_text : IoError → Bytes) (s t : Bus L) (from to : ℕ) (es : List (Event L)) → IsFresh s
      → Fires from s t es
      → running from ≡ false
      → running to ≡ true
      → (r : Socket) (rest : List Arrival)
      → r.incoming ≡ arrivals (t.bridge to).stream.written ++ rest
      → (taken waiting : List (Event L)) × (told : List TcpRemoteNewMessage) × (receive_many
            messages io_text
            (length told)
            r
          ≡ (ok told, record r { incoming = rest }))
        × (es ≡ taken ++ waiting)
        × Matches f events g (map (broadcast from) (t.pending from)) waiting
        × Spreads f events g taken
            (sent_by from told ++ sent_by from (messages_of (t.bridge to).inbox))
  network_reads_fuzzer flags lawful gzip framed io_text s t from to es fresh fd idle runs r rest
        arrived =
      let firing = Fires-IsFiring flags lawful gzip from fresh idle fd in
      let (taken, waiting, same, first, last) =
        Matches-split f events g (sent_by from t.seen) (map (broadcast from) (t.pending from)) es
          (subst (λ ms. Matches f events g ms es) firing.own firing.events_of) in
      let other : (from == to) ≡ false = differs running from to idle runs in
      let (told, frames, thins) =
        seen_reaches f events g messages running s t from to fresh (Fires-Reach idle fd) runs
          other in
      (
        taken,
        waiting,
        told,
        receive_many-Frames messages framed io_text told (t.bridge to).stream.written rest r frames
            arrived,
        same,
        last,
        Thins-Spreads f events g thins taken first,
      )
