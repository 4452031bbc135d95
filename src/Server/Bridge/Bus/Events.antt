-- ===== src/Server/Bridge/Bus/Events.antt =====
-- Events and the messages that carry them: what of a fuzzer's events is for all.
use nn_fuzz.Base.{append_cancel, ℕ, ◌≡◌, refl, sym, ap, ◌∙◌, inl, inr, List, [], ◌∷◌, ◌++◌}
use mathlib.Core.Path.{subst}
use nn_fuzz.Base.Outcome.{ok}
use nn_fuzz.External.{Codec, IsCodec, Gzip, IsGzip, Libafl}
use nn_fuzz.Payload.{Holds, compressed}
use nn_fuzz.Messages.{TcpRemoteNewMessage, Event}
use nn_fuzz.Llmp.{Flags, IsFlags, llmp_tag_event_to_both}
use nn_fuzz.Llmp.Manager.{NnEventManager, Send, fire}
use nn_fuzz.Llmp.Broker.Laws.{flags_of, tag_of, buf_of, IsShared, fire-Holds}
use nn_fuzz.Server.Bridge.{LlmpSend}
use nn_fuzz.Server.Bridge.Bus.{broadcast}
use nn_fuzz.Server.Bridge.Bus.Broker.{IsEvent, plain, packed}
use nn_fuzz.Server.Bridge.Bus.Fifo.{Thins, done, passes, stops}

-- A manager's send as LLMP gets it.
abbrev pub as_sent : Flags → Send → LlmpSend
as_sent f s = record { tag = tag_of s; flags = flags_of f s; payload = buf_of s }

module _ {L : Libafl} (f : Flags) (events : Codec (Event L)) (g : Gzip) where
  -- Each message is the event that stands at its place.
  abbrev pub Matches : List TcpRemoteNewMessage → List (Event L) → Type 0
  Matches [] [] = Unit
  Matches [] (_ ∷ _) = ⊥
  Matches (_ ∷ _) [] = ⊥
  Matches (m ∷ ms) (e ∷ es) = IsEvent f events g m e × Matches ms es

  pub Matches-append :
      (ms ns : List TcpRemoteNewMessage) (es ds : List (Event L))
      → Matches ms es
      → Matches ns ds
      → Matches (ms ++ ns) (es ++ ds)
  Matches-append [] ns [] ds h k = k
  Matches-append [] ns (e ∷ es) ds h k = absurd h
  Matches-append (m ∷ ms) ns [] ds h k = absurd h
  Matches-append (m ∷ ms) ns (e ∷ es) ds (is, h) k = (is, Matches-append ms ns es ds h k)

  pub Matches-split :
      (ms ns : List TcpRemoteNewMessage) (es : List (Event L))
      → Matches (ms ++ ns) es
      → (before behind : List (Event L)) × (es ≡ before ++ behind)
        × Matches ms before
        × Matches ns behind
  Matches-split [] ns es h = ([], es, refl, tt, h)
  Matches-split (m ∷ ms) ns [] h = absurd h
  Matches-split (m ∷ ms) ns (e ∷ es) (is, h) =
      let (before, behind, same, first, last) = Matches-split ms ns es h in
      (e ∷ before, behind, ap (λ l. e ∷ l) same, (is, first), last)

  -- The messages are the events for all, in their order.
  pub data Spreads : List (Event L) → List TcpRemoteNewMessage → Type 0 where
    nothing : Spreads [] []
    spreads :
        (e : Event L) (m : TcpRemoteNewMessage) {es : List (Event L)}
        {ms : List TcpRemoteNewMessage}
        → IsEvent f events g m e
        → IsShared e
        → Spreads es ms
        → Spreads (e ∷ es) (m ∷ ms)
    stays :
        (e : Event L) {es : List (Event L)} {ms : List TcpRemoteNewMessage}
        → ¬ IsShared e
        → Spreads es ms
        → Spreads (e ∷ es) ms

  IsEvent-tag :
      (m : TcpRemoteNewMessage) (e : Event L)
      → IsEvent f events g m e
      → m.tag ≡ llmp_tag_event_to_both
  IsEvent-tag m e (plain tag bit read) = tag
  IsEvent-tag m e (packed bs tag bit unpacked read) = tag

  -- A message is one event.
  IsEvent-same :
      (m : TcpRemoteNewMessage) (e d : Event L)
      → IsEvent f events g m e
      → IsEvent f events g m d
      → e ≡ d
  IsEvent-same m e d (plain tag bit read) (plain tag' bit' read') = cc
  IsEvent-same m e d (plain tag bit read) (packed bs tag' bit' unpacked read') = absurd cc
  IsEvent-same m e d (packed bs tag bit unpacked read) (plain tag' bit' read') = absurd cc
  IsEvent-same m e d (packed bs tag bit unpacked read) (packed bs' tag' bit' unpacked' read') = cc

  pub Thins-Spreads :
      {xs ys : List TcpRemoteNewMessage}
      → Thins f events g xs ys
      → (es : List (Event L)) → Matches xs es
      → Spreads es ys
  Thins-Spreads done [] h = nothing
  Thins-Spreads done (e ∷ es) h = absurd h
  Thins-Spreads (passes m is_open t) [] h = absurd h
  Thins-Spreads (passes m (inl other) t) (e ∷ es) (is, h) = absurd (other (IsEvent-tag m e is))
  Thins-Spreads (passes m (inr (d, event, is_shared)) t) (e ∷ es) (is, h) =
      spreads e m is (subst IsShared (IsEvent-same m d e event is) is_shared) (Thins-Spreads t es h)
  Thins-Spreads (stops m d event own t) [] h = absurd h
  Thins-Spreads (stops m d event own t) (e ∷ es) (is, h) =
      stays e (subst (λ x. ¬ IsShared x) (IsEvent-same m d e event is) own) (Thins-Spreads t es h)

  Holds-IsEvent :
      IsCodec events
      → IsGzip g
      → (m : TcpRemoteNewMessage) (e : Event L) → m.tag ≡ llmp_tag_event_to_both
      → Holds events g f.compressed e m.flags m.payload
      → IsEvent f events g m e
  Holds-IsEvent lawful gzip m e tag (Holds.plain ser bit) =
      plain tag bit (lawful.from_bytes-to_allocvec e m.payload ser)
  Holds-IsEvent lawful gzip m e tag (compressed t s ser comp bit) =
      packed s tag bit (gzip.decompress-compress t s m.payload comp)
        (lawful.from_bytes-to_allocvec e s ser)

  -- What a manager fires is a message that is this event.
  pub fire-IsEvent :
      IsFlags f
      → IsCodec events
      → IsGzip g
      → (c : ℕ) (e : Event L) (m m' : NnEventManager L) (send : Send)
      → fire f events g e m ≡ (ok tt, m')
      → m'.llmp.sent ≡ m.llmp.sent ++ send ∷ []
      → IsEvent f events g (broadcast c (as_sent f send)) e
  fire-IsEvent flags lawful gzip c e m m' send fired sent =
      let (sent', behind, tag, holds) = fire-Holds f events g flags e m m' fired in
      let one = append_cancel m.llmp.sent (sent' ∷ []) (send ∷ []) (sym behind ∙ sent) in
      let is : sent' ≡ send = cc in
      Holds-IsEvent lawful gzip (broadcast c (as_sent f send)) e
        (subst (λ x. tag_of x ≡ llmp_tag_event_to_both) is tag)
        (subst (λ x. Holds events g f.compressed e (flags_of f x) (buf_of x)) is holds)
