-- ===== src/Server/Bridge/Rounds/Refinement.antt =====
-- Runs of the bridge that do not panic, against the abstract relay.
use nn_fuzz.Base.{
  ℕ, zero, suc, ◌≡◌, refl, sym, ap, ◌∙◌, inl, inr, List, [], ◌∷◌, ◌++◌, append_assoc, append-nil,
  none, some, map, arith, All,
}
use mathlib.Core.Path.{subst}
use nn_fuzz.Base.Text.{Bytes}
use nn_fuzz.Base.Outcome.{ok}
use nn_fuzz.Base.Action.{>>=-eq-ok}
use nn_fuzz.Std.Net.{Arrival, fault, arrivals}
use nn_fuzz.External.{Codec}
use nn_fuzz.Messages.{TcpRemoteNewMessage}
use nn_fuzz.Server.Bridge.{Received, Bridge, forward_all, receive_one, round, rounds}
use nn_fuzz.Server.Bridge.Forward.{foreign, Frames}
use nn_fuzz.Server.Bridge.Rounds.{
  messages_of, marked, Heard, nothing, message, cut_off, closed, Relayed, forward_all-Relayed,
  receive_one-Relayed,
}
use nn_fuzz.Wire.{frame, IsByte}

pub messages_of-append :
    (xs ys : List Received) → messages_of (xs ++ ys) ≡ messages_of xs ++ messages_of ys
messages_of-append [] ys = refl
messages_of-append (inl e ∷ xs) ys = messages_of-append xs ys
messages_of-append (inr none ∷ xs) ys = messages_of-append xs ys
messages_of-append (inr (some m) ∷ xs) ys = rw (messages_of-append xs ys)

pub foreign-append :
    (id : ℕ) (xs ys : List TcpRemoteNewMessage)
    → foreign id (xs ++ ys) ≡ foreign id xs ++ foreign id ys
foreign-append id [] ys = refl
foreign-append id (m ∷ xs) ys = ground (arith, foreign-append id xs ys)

pub map-append {ℓ κ} :
    {A : Type ℓ} {B : Type κ} (f : A → B) (xs ys : List A) → map f (xs ++ ys) ≡ map f xs ++ map f ys
map-append f [] ys = refl
map-append f (x ∷ xs) ys = rw (map-append f xs ys)

All-behind : (xs : Bytes) (ys : List Arrival) → All IsByte (arrivals xs ++ ys) → All IsByte ys
All-behind [] ys h = h
All-behind (x ∷ xs) ys h = All-behind xs ys h.1

module _ (messages : Codec TcpRemoteNewMessage) where
  pub Frames-append :
      (xs ys : List TcpRemoteNewMessage) (out out' : Bytes)
      → Frames messages xs out
      → Frames messages ys out'
      → Frames messages (xs ++ ys) (out ++ out')
  Frames-append [] ys out out' e h = rw e h
  Frames-append (x ∷ xs) ys out out' (bs, rest, ser, fits, e, fr) h = (
    bs,
    rest ++ out',
    ser,
    fits,
    ap (λ q. q ++ out') e ∙ append_assoc (frame bs) rest out',
    Frames-append xs ys rest out' fr h,
  )

  Heard-append :
      (s t u : List Arrival) (xs ys : List TcpRemoteNewMessage)
      → Heard messages s xs t
      → Heard messages t ys u
      → Heard messages s (xs ++ ys) u
  Heard-append s t u xs ys (nothing _) k = k
  Heard-append s t u xs ys (message bs m ms rest _ d h) k =
      message bs m (ms ++ ys) rest u d (Heard-append rest t u ms ys h k)
  Heard-append s t u xs ys (cut_off head e _ rest _ short h) k =
      cut_off head e (xs ++ ys) rest u short (Heard-append rest t u xs ys h k)
  Heard-append s t u xs ys (closed head _ _ short h) k =
      closed head (xs ++ ys) u short (Heard-append [] t u xs ys h k)

  pub Heard-IsByte :
      (s t : List Arrival) (xs : List TcpRemoteNewMessage)
      → Heard messages s xs t
      → All IsByte s
      → All IsByte t
  Heard-IsByte s t xs (nothing _) all = all
  Heard-IsByte s t xs (message bs m ms rest _ d h) all =
      Heard-IsByte rest t ms h (All-behind (frame bs) rest all)
  Heard-IsByte s t xs (cut_off head e _ rest _ short h) all =
      Heard-IsByte rest t xs h (All-behind head (fault e ∷ rest) all).1
  Heard-IsByte s t xs (closed head _ _ short h) all = Heard-IsByte [] t xs h tt

  module _ (id : ℕ) where
    Relayed-refl : (b : Bridge) → Relayed messages id b b
    Relayed-refl b = record {
      taken = [];
      written = [];
      heard = [];
      takes = refl;
      writes = sym (append-nil b.stream.written);
      frames = refl;
      hears = nothing b.stream.incoming;
      hands = sym (append-nil b.outbox);
    }

    Relayed-trans :
        (b c d : Bridge)
        → Relayed messages id b c
        → Relayed messages id c d
        → Relayed messages id b d
    Relayed-trans b c d r s = record {
      taken = r.taken ++ s.taken;
      written = r.written ++ s.written;
      heard = r.heard ++ s.heard;
      takes = r.takes ∙ ap (λ q. r.taken ++ q) s.takes ∙ sym (append_assoc r.taken s.taken d.inbox);
      writes =
          s.writes
          ∙ ap (λ q. q ++ s.written) r.writes
          ∙ append_assoc b.stream.written r.written s.written;
      frames = rw (messages_of-append r.taken s.taken) (
          rw (foreign-append id (messages_of r.taken) (messages_of s.taken)) (
            Frames-append (foreign id (messages_of r.taken)) (foreign id (messages_of s.taken))
              r.written s.written r.frames s.frames));
      hears =
          Heard-append b.stream.incoming c.stream.incoming d.stream.incoming r.heard s.heard r.hears
            s.hears;
      hands =
          s.hands
          ∙ ap (λ q. q ++ map marked s.heard) r.hands
          ∙ append_assoc b.outbox (map marked r.heard) (map marked s.heard)
          ∙ ap (λ q. b.outbox ++ q) (sym (map-append marked r.heard s.heard));
    }

    round-Relayed :
        (b d : Bridge)
        → All IsByte b.stream.incoming
        → round messages id b ≡ (ok tt, d)
        → Relayed messages id b d
    unfolding round
    round-Relayed b d all h =
        let (_, c, first, second) =
          >>=-eq-ok (forward_all messages id) (λ _. receive_one messages id) b h in
        let r = forward_all-Relayed messages id b c first in
        Relayed-trans b c d r (
          receive_one-Relayed messages id c d
            (Heard-IsByte b.stream.incoming c.stream.incoming r.heard r.hears all) second)

    -- The bridge refines the abstract relay: whatever LLMP answers and whatever arrives, as long as
    -- bytes are below 256, after any number of rounds without a panic a first part of LLMP's answers is
    -- taken, exactly the foreign messages of it are written, as frames and in their order, and LLMP is
    -- handed, marked and in their order, exactly the messages whose whole frames were heard, between
    -- which nothing is lost but parts of a length before a fault or the end of the stream.
    pub rounds-Relayed :
        (n : ℕ) (b d : Bridge)
        → All IsByte b.stream.incoming
        → rounds messages id n b ≡ (ok tt, d)
        → Relayed messages id b d
    unfolding rounds
    rounds-Relayed zero b d all h = subst (Relayed messages id b) (ap (λ r. r.1) h) (Relayed-refl b)
    rounds-Relayed (suc n) b d all h =
        let (_, c, first, second) = >>=-eq-ok (round messages id) (λ _. rounds messages id n) b h in
        let r = round-Relayed b c all first in
        Relayed-trans b c d r (
          rounds-Relayed n c d
            (Heard-IsByte b.stream.incoming c.stream.incoming r.heard r.hears all) second)
