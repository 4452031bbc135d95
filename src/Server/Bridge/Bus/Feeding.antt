-- ===== src/Server/Bridge/Bus/Feeding.antt =====
-- Runs in which a network sends whole messages, with pauses between them, while everything else goes on.
use nn_fuzz.Base.{ℕ, ◌==◌, ◌≡◌, refl, sym, List, [], ◌++◌, Bool, false, arith, All}
use mathlib.Core.Path.{subst}
use nn_fuzz.Std.Net.{Arrival}
use nn_fuzz.External.{Codec, IsCodec, Gzip, Libafl}
use nn_fuzz.Messages.{TcpRemoteNewMessage, Event}
use nn_fuzz.Llmp.{Flags}
use nn_fuzz.Server.Bridge.Rounds.Delivery.{Signal, messages_sent, Carries}
use nn_fuzz.Server.Bridge.Bus.{
  Bus, arrive, hearing, Step, sends, arrives, forwards, receives, brokers, Reach, here, next,
  IsFresh,
}
use nn_fuzz.Server.Bridge.Bus.Own.{updated}
use nn_fuzz.Wire.{IsByte}
use nn_fuzz.Server.Bridge.Bus.Hearing.{IsFed, forward_all-IsFed, receive_one-IsFed, hearing-IsFed}

module _ (messages : Codec TcpRemoteNewMessage) {L : Libafl} (f : Flags) (events : Codec (Event L))
    (g : Gzip) (running : ℕ → Bool) where
  -- A step that is no arrival from this client's network.
  abbrev pub IsElsewhere : ℕ → {s t : Bus L} → Step messages f events g running s t → Type 0
  IsElsewhere id (sends _ _ _) = Unit
  IsElsewhere id (arrives other _ _) = (other == id) ≡ false
  IsElsewhere id (forwards _ _ _ _) = Unit
  IsElsewhere id (receives _ _ _ _ _ _) = Unit
  IsElsewhere id (brokers _ _ _ _ _ _ _) = Unit

  -- A run in which the network of one client sends whole messages, with pauses between them: what it
  -- has sent.
  pub data Feeds (id : ℕ) (s : Bus L) : Bus L → List TcpRemoteNewMessage → Type 0 where
    begins :
        {ms : List TcpRemoteNewMessage} (items : List Signal)
        → Carries messages items (s.bridge id).stream.incoming []
        → ms ≡ messages_sent items
        → Feeds id s s ms
    moves :
        {t u : Bus L} {ms : List TcpRemoteNewMessage}
        → Feeds id s t ms
        → (st : Step messages f events g running t u) → IsElsewhere id st
        → Feeds id s u ms
    hears :
        {t : Bus L} {ms ms' : List TcpRemoteNewMessage} (items : List Signal) (more : List Arrival)
        → Feeds id s t ms
        → All IsByte more
        → Carries messages items more []
        → ms' ≡ ms ++ messages_sent items
        → Feeds id s (arrive id more t) ms'

  pub Feeds-Reach :
      {id : ℕ} {s t : Bus L} {ms : List TcpRemoteNewMessage}
      → Feeds id s t ms
      → Reach messages f events g running s t
  Feeds-Reach (begins items c e) = here
  Feeds-Reach (moves fd st _) = next (Feeds-Reach fd) st
  Feeds-Reach {id} (hears items more fd bytes c e) = next (Feeds-Reach fd) (arrives id more bytes)

  AllFed : ℕ → List TcpRemoteNewMessage → Bus L → Type 0
  AllFed id ms s = (i : ℕ) → i ≡ id → IsFed messages ms (s.bridge i)

  step-AllFed :
      IsCodec messages
      → (id : ℕ) (ms : List TcpRemoteNewMessage) {s t : Bus L}
        (st : Step messages f events g running s t)
      → IsElsewhere id st
      → AllFed id ms s
      → AllFed id ms t
  unfolding AllFed
  step-AllFed lawful id ms (sends _ m stops) _ all = all
  step-AllFed lawful id ms {s} (arrives j more bytes) other all =
      updated (λ i b. i ≡ id → IsFed messages ms b) s.bridge j (hearing more (s.bridge j))
        (λ e. absurd (ground (arith, other, e))) (λ i _. all i)
  step-AllFed lawful id ms {s} (forwards j b runs run) _ all =
      updated (λ i b. i ≡ id → IsFed messages ms b) s.bridge j b
        (λ e. forward_all-IsFed messages j ms (s.bridge j) b run (all j e)) (λ i _. all i)
  step-AllFed lawful id ms {s} (receives j b new runs run grown) _ all =
      updated (λ i b. i ≡ id → IsFed messages ms b) s.bridge j b
        (λ e. receive_one-IsFed messages lawful j ms (s.bridge j) b run (all j e)) (λ i _. all i)
  step-AllFed lawful id ms {s} (brokers j m rest result calls waits handles) _ all = λ i e.
      let fed = all i e in
      record {
        heard = fed.heard;
        items = fed.items;
        whole = fed.whole;
        coming = fed.coming;
        handed = fed.handed;
      }

  -- Whatever else goes on.
  pub Feeds-IsFed :
      IsCodec messages
      → (id : ℕ) {s t : Bus L} {ms : List TcpRemoteNewMessage} → IsFresh s
      → Feeds id s t ms
      → IsFed messages ms (t.bridge id)
  unfolding AllFed
  Feeds-IsFed lawful id {s} fresh (begins items c e) = record {
    heard = [];
    items = items;
    whole = e;
    coming = c;
    handed = fresh.no_outbox id;
  }
  Feeds-IsFed lawful id {s} fresh (moves {t} {u} {ms} fd st other) =
      let fed = Feeds-IsFed lawful id fresh fd in
      step-AllFed lawful id ms st other
        (λ i e. subst (λ j. IsFed messages ms (t.bridge j)) (sym e) fed) id refl
  Feeds-IsFed lawful id fresh (hears {t} {ms} {ms'} items more fd bytes c e) =
      let fed = Feeds-IsFed lawful id fresh fd in
      updated (λ i b. i ≡ id → IsFed messages ms' b) t.bridge id (hearing more (t.bridge id))
        (λ _. hearing-IsFed messages ms ms' items more (t.bridge id) c e fed)
        (λ i other same. absurd (ground (arith, other, same))) id refl
