-- ===== src/Server/Bridge/Bus/Own.antt =====
-- What the bridges hand to LLMP, against what the broker takes, in every interleaving.
use nn_fuzz.Base.{
  not, ℕ, ◌==◌, ◌≡◌, refl, sym, ap, ◌∙◌, inl, inr, List, [], ◌∷◌, ◌++◌, append_assoc, append-nil,
  Bool, true, false, arith, map, Bool-cases, ==_iff, ==_refl,
}
use mathlib.Core.Path.{subst}
use nn_fuzz.External.{Codec}
use nn_fuzz.Messages.{TcpRemoteNewMessage}
use nn_fuzz.Server.Bridge.{LlmpSend}
use nn_fuzz.Server.Bridge.Rounds.{forward_all_inv}
use nn_fuzz.Server.Bridge.Rounds.Refinement.{map-append}
use nn_fuzz.External.{Gzip, Libafl}
use nn_fuzz.Messages.{Event}
use nn_fuzz.Llmp.{Flags}
use nn_fuzz.Server.Bridge.Bus.{
  brokers, Bus, update, broadcast, sent_by, Step, sends, arrives, forwards, receives, Reach, here,
  next, hearing, IsFresh,
}

pub sent_by-append :
    (id : ℕ) (xs ys : List TcpRemoteNewMessage)
    → sent_by id (xs ++ ys) ≡ sent_by id xs ++ sent_by id ys
sent_by-append id [] ys = refl
sent_by-append id (m ∷ xs) ys = ground (arith, sent_by-append id xs ys)

-- What holds of the new bridge and of the others holds of all.
pub updated :
    {A : Type 0} (P : ℕ → A → Type 0) (bridge : ℕ → A) (id : ℕ) (b : A)
    → P id b
    → ((i : ℕ) → (id == i) ≡ false → P i (bridge i))
    → (i : ℕ) → P i (update bridge id b i)
updated P bridge id b own others i = elim (Bool-cases (id == i)) [
  | inl e ↦ subst (λ j. P j (update bridge id b j)) ((==_iff id i).0 e) (rw (==_refl id) own)
  | inr e ↦ rw e (others i e)
]

updated_both :
    {A B : Type 0} (P : ℕ → A → B → Type 0) (xs : ℕ → A) (ys : ℕ → B) (id : ℕ) (a : A) (b : B)
    → P id a b
    → ((i : ℕ) → (id == i) ≡ false → P i (xs i) (ys i))
    → (i : ℕ) → P i (update xs id a i) (update ys id b i)
updated_both P xs ys id a b own others i = elim (Bool-cases (id == i)) [
  | inl e ↦
      subst (λ j. P j (update xs id a j) (update ys id b j)) ((==_iff id i).0 e)
        (rw (==_refl id) own)
  | inr e ↦ rw e (others i e)
]

-- A client that is a bridge and one that is none.
pub differs :
    (running : ℕ → Bool) (i c : ℕ) {b : Bool} → running i ≡ b → running c ≡ not b → (i == c) ≡ false
differs running i c {b} is other = elim (Bool-cases (i == c)) [
  | inl e ↦
      let same : i ≡ c = (==_iff i c).0 e in
      absurd (ground (arith, sym is ∙ ap running same ∙ other))
  | inr e ↦ e
]

-- What a client has handed to LLMP, against what the broker has taken and what waits for it.
abbrev pub IsOwn : ℕ → List LlmpSend → List TcpRemoteNewMessage → List LlmpSend → Type 0
IsOwn id out seen pending = map (broadcast id) out ≡ sent_by id seen ++ map (broadcast id) pending

pub IsOwn-submitted :
    (id : ℕ) (out : List LlmpSend) (seen : List TcpRemoteNewMessage) (pending new : List LlmpSend)
    → IsOwn id out seen pending
    → IsOwn id (out ++ new) seen (pending ++ new)
IsOwn-submitted id out seen pending new h =
    map-append (broadcast id) out new
    ∙ ap (λ l. l ++ map (broadcast id) new) h
    ∙ append_assoc (sent_by id seen) (map (broadcast id) pending) (map (broadcast id) new)
    ∙ ap (λ l. sent_by id seen ++ l) (sym (map-append (broadcast id) pending new))

pub IsOwn-taken :
    (id : ℕ) (out : List LlmpSend) (seen : List TcpRemoteNewMessage) (m : LlmpSend)
    (rest : List LlmpSend)
    → IsOwn id out seen (m ∷ rest)
    → IsOwn id out (seen ++ broadcast id m ∷ []) rest
IsOwn-taken id out seen m rest h =
    h
    ∙ sym (append_assoc (sent_by id seen) (broadcast id m ∷ []) (map (broadcast id) rest))
    ∙ ap (λ l. l ++ map (broadcast id) rest)
        (sym (sent_by-append id seen (broadcast id m ∷ []) ∙ rw (==_refl id) refl))

pub IsOwn-other :
    (id other : ℕ) (out : List LlmpSend) (seen : List TcpRemoteNewMessage) (m : LlmpSend)
    (pending : List LlmpSend)
    → (other == id) ≡ false
    → IsOwn id out seen pending
    → IsOwn id out (seen ++ broadcast other m ∷ []) pending
IsOwn-other id other out seen m pending e h =
    h
    ∙ ap (λ l. l ++ map (broadcast id) pending)
        (sym (
          sent_by-append id seen (broadcast other m ∷ [])
          ∙ rw (e, append-nil (sent_by id seen)) refl))

module _ (messages : Codec TcpRemoteNewMessage) where
  module _ {L : Libafl} (f : Flags) (events : Codec (Event L)) (g : Gzip) (running : ℕ → Bool) where
    -- What the bridges have handed to LLMP the broker has taken, in its order, or not yet.
    abbrev pub AllOwn : Bus L → Type 0
    AllOwn s = (id : ℕ) → running id ≡ true → IsOwn id (s.bridge id).outbox s.seen (s.pending id)

    step-AllOwn : {s t : Bus L} → Step messages f events g running s t → AllOwn s → AllOwn t
    step-AllOwn {s} (sends id m stops) all =
        λ i runs. rw (differs running id i stops runs) (all i runs)
    step-AllOwn {s} (arrives id more bytes) all =
        updated (λ i b. running i ≡ true → IsOwn i b.outbox s.seen (s.pending i)) s.bridge id
          (hearing more (s.bridge id)) (all id) (λ i _. all i)
    step-AllOwn {s} (forwards id b runs run) all =
        updated (λ i b. running i ≡ true → IsOwn i b.outbox s.seen (s.pending i)) s.bridge id b
          (rw (forward_all_inv messages id (s.bridge id) b run).1 (all id)) (λ i _. all i)
    step-AllOwn {s} (receives id b new runs run grown) all =
        updated_both (λ i b p. running i ≡ true → IsOwn i b.outbox s.seen p) s.bridge s.pending id b
          (s.pending id ++ new)
          (λ r.
            rw grown (IsOwn-submitted id (s.bridge id).outbox s.seen (s.pending id) new (all id r)))
          (λ i _. all i)
    step-AllOwn {s} (brokers id m rest result calls waits handles) all =
        updated
          (λ i p. running i ≡ true → IsOwn i (s.bridge i).outbox (s.seen ++ broadcast id m ∷ []) p)
          s.pending id rest
          (λ r.
            IsOwn-taken id (s.bridge id).outbox s.seen m rest
              (subst (IsOwn id (s.bridge id).outbox s.seen) waits (all id r)))
          (λ i other r. IsOwn-other i id (s.bridge i).outbox s.seen m (s.pending i) other (all i r))

    pub fresh-AllOwn : (s : Bus L) → IsFresh s → AllOwn s
    fresh-AllOwn s f id _ = rw (f.no_outbox id, f.none_seen, f.none_pending id) refl

    pub Reach-AllOwn : {s t : Bus L} → AllOwn s → Reach messages f events g running s t → AllOwn t
    Reach-AllOwn all here = all
    Reach-AllOwn all (next r st) = step-AllOwn st (Reach-AllOwn all r)
