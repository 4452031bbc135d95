-- ===== src/Server/Bridge/Bus/Fifo.antt =====
-- From the bridge of one network to that of another, through LLMP and its broker, in any interleaving:
-- which messages arrive, and in which order.
use nn_fuzz.Base.{
  ℕ, ◌==◌, ◌≡◌, ◌≢◌, refl, sym, ap, ◌∙◌, ◌⊎◌, inl, inr, List, [], ◌∷◌, ◌++◌, map, Bool, Bool-cases,
  true, false, arith,
}
use mathlib.Core.Path.{subst}
use nn_fuzz.External.{Codec, Gzip, Libafl}
use nn_fuzz.Messages.{TcpRemoteNewMessage, Event}
use nn_fuzz.Llmp.{Flags, llmp_tag_event_to_both}
use nn_fuzz.Llmp.Broker.{MonitorCall}
use nn_fuzz.Llmp.Broker.Laws.{IsShared}
use nn_fuzz.Server.Bridge.Forward.{foreign, Frames}
use nn_fuzz.Server.Bridge.Rounds.{messages_of}
use nn_fuzz.Server.Bridge.Bus.{Bus, broadcast, sent_by, Reach, IsFresh}
use nn_fuzz.Server.Bridge.Bus.Own.{sent_by-append}
use nn_fuzz.Server.Bridge.Bus.Order.{bridges_keep_order}
use nn_fuzz.Server.Bridge.Bus.Broker.{
  IsEvent, Brokered, nothing, unread, shared, kept, broker_keeps_account,
}

-- What comes from others is all that comes from one of them.
sent_by-foreign :
    (from to : ℕ) (ms : List TcpRemoteNewMessage)
    → (from == to) ≡ false
    → sent_by from (foreign to ms) ≡ sent_by from ms
sent_by-foreign from to [] e = refl
sent_by-foreign from to (m ∷ ms) e = ground (arith, e, sent_by-foreign from to ms e)

module _ {L : Libafl} (f : Flags) (events : Codec (Event L)) (g : Gzip) where
  -- A message that the broker does not read, or an event for all.
  abbrev pub IsOpen : TcpRemoteNewMessage → Type 0
  IsOpen m =
      (m.tag ≢ llmp_tag_event_to_both) ⊎ ((e : Event L) × IsEvent f events g m e × IsShared e)

  -- The second list is the first without the events that are not for all.
  pub data Thins : List TcpRemoteNewMessage → List TcpRemoteNewMessage → Type 0 where
    done : Thins [] []
    passes :
        (m : TcpRemoteNewMessage) {xs ys : List TcpRemoteNewMessage}
        → IsOpen m
        → Thins xs ys
        → Thins (m ∷ xs) (m ∷ ys)
    stops :
        (m : TcpRemoteNewMessage) (e : Event L) {xs ys : List TcpRemoteNewMessage}
        → IsEvent f events g m e
        → ¬ IsShared e
        → Thins xs ys
        → Thins (m ∷ xs) ys

  passes_of :
      (c : ℕ) (m : TcpRemoteNewMessage) (xs ys : List TcpRemoteNewMessage)
      → IsOpen m
      → Thins (sent_by c xs) (sent_by c ys)
      → Thins (sent_by c (m ∷ xs)) (sent_by c (m ∷ ys))
  passes_of c m xs ys is_open t = elim (Bool-cases (m.client_id == c)) [
    | inl e ↦ rw e (passes m is_open t)
    | inr e ↦ rw e t
  ]

  stops_of :
      (c : ℕ) (m : TcpRemoteNewMessage) (e : Event L) (xs ys : List TcpRemoteNewMessage)
      → IsEvent f events g m e
      → ¬ IsShared e
      → Thins (sent_by c xs) (sent_by c ys)
      → Thins (sent_by c (m ∷ xs)) (sent_by c ys)
  stops_of c m e xs ys event own t = elim (Bool-cases (m.client_id == c)) [
    | inl is ↦ rw is (stops m e event own t)
    | inr is ↦ rw is t
  ]

  -- Of the messages of one client.
  Brokered-Thins :
      (c : ℕ) {xs ys : List TcpRemoteNewMessage} {calls : List (MonitorCall L)}
      → Brokered f events g xs ys calls
      → Thins (sent_by c xs) (sent_by c ys)
  Brokered-Thins c nothing = done
  Brokered-Thins c (unread m {xs} {ys} other b) =
      passes_of c m xs ys (inl other) (Brokered-Thins c b)
  Brokered-Thins c (shared m e {xs} {ys} all event is same b) =
      passes_of c m xs ys (inr (e, event, is)) (Brokered-Thins c b)
  Brokered-Thins c (kept m e {xs} {ys} all event own same b) =
      stops_of c m e xs ys event own (Brokered-Thins c b)

  module _ (messages : Codec TcpRemoteNewMessage) (running : ℕ → Bool) where
    -- What the broker has taken of a client, against what a bridge of another one has told its network.
    pub seen_reaches :
        (s t : Bus L) (from to : ℕ)
        → IsFresh s
        → Reach messages f events g running s t
        → running to ≡ true
        → (from == to) ≡ false
        → (told : List TcpRemoteNewMessage) × Frames messages told (t.bridge to).stream.written
          × Thins
              (sent_by from t.seen)
              (sent_by from told ++ sent_by from (messages_of (t.bridge to).inbox))
    seen_reaches s t from to fresh reach runs other =
        let (taken, waiting, told, _) =
          bridges_keep_order messages f events g running s t to fresh reach runs in
        let (calls, _, b) = broker_keeps_account f events g messages running s t fresh reach in
        (
          foreign to taken,
          told,
          subst (Thins (sent_by from t.seen))
              (ap (sent_by from) waiting
                ∙ sent_by-append from taken (messages_of (t.bridge to).inbox)
                ∙ ap (λ l. l ++ sent_by from (messages_of (t.bridge to).inbox))
                    (sym (sent_by-foreign from to taken other)))
              (Brokered-Thins from b),
        )

    -- From a fresh start, in every interleaving, for the bridges of two clients: what one of them has
    -- handed to LLMP is, in its order, what the broker has taken of it and what waits for the broker;
    -- and what the broker has taken of it, without the events that are not for all, is exactly what
    -- the other's network has been told of it, as frames among those of other clients, and what waits
    -- in the other's inbox.
    pub networks_in_order :
        (s t : Bus L) (from to : ℕ)
        → IsFresh s
        → Reach messages f events g running s t
        → running from ≡ true
        → running to ≡ true
        → (from == to) ≡ false
        → (handed told : List TcpRemoteNewMessage) × (map (broadcast from) (t.bridge from).outbox
            ≡ handed ++ map (broadcast from) (t.pending from))
          × Frames messages told (t.bridge to).stream.written
          × Thins handed (sent_by from told ++ sent_by from (messages_of (t.bridge to).inbox))
    networks_in_order s t from to fresh reach runs runs' other =
        let (_, _, _, own) =
          bridges_keep_order messages f events g running s t from fresh reach runs in
        let (told, frames, thins) = seen_reaches s t from to fresh reach runs' other in
        (sent_by from t.seen, told, own, frames, thins)
