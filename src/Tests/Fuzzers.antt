-- ===== src/Tests/Fuzzers.antt =====
-- A run with a fuzzer, client 3, and the bridge of a network, client 8.
use nn_fuzz.Base.{ℕ, ◌==◌, ◌≡◌, refl, List, [], ◌∷◌, ◌++◌, Bool, map, length}
use nn_fuzz.Base.Outcome.{ok}
use nn_fuzz.Std.Net.{arrivals, write_all, to_be_bytes}
use nn_fuzz.Messages.{TcpRemoteNewMessage, Event}
use nn_fuzz.Server.Frame as Frame
use nn_fuzz.Server.Bridge.{Bridge, forward}
use nn_fuzz.Server.Bridge.Forward.{receive_many}
use nn_fuzz.Server.Bridge.Rounds.{messages_of}
use nn_fuzz.Server.Bridge.Bus.{
  Bus, broadcast, submit, set_bridge, take_first, sent_by, forwards, brokers, IsFresh,
}
use nn_fuzz.Server.Bridge.Bus.Broker.{Brokered, broker_keeps_account}
use nn_fuzz.Server.Bridge.Bus.Events.{as_sent, Matches, Spreads}
use nn_fuzz.Server.Bridge.Bus.Fuzzers.{
  Fires, Fires-Reach, begins, moves, fires, network_reads_fuzzer,
}
use nn_fuzz.Llmp.Manager.{fire}
use nn_fuzz.Llmp.Broker.{
  MonitorCall, forward_to_clients, client_stats_mut_for, update_corpus_size, update_executions,
  display, handle_in_broker, hook,
}
use nn_fuzz.Base.Text.{codes}
use nn_fuzz.Tests.Bridges.{flags, flags-IsFlags, testcase, manager, sent, event_frame}
use nn_fuzz.Tests.Sample.{
  text, messages, messages-IsCodec, bytes, events, events-IsCodec, gzip, gzip-IsGzip, socket,
}

abbrev running : ℕ → Bool
running id = id == 8

abbrev bridge : Bridge
bridge = record { stream = socket []; inbox = []; replies = []; outbox = [] }

abbrev fresh : Bus bytes
fresh = record { bridge = λ _. bridge; pending = λ _. []; seen = []; log = []; monitored = [] }

fresh-IsFresh : IsFresh fresh
fresh-IsFresh = record {
  no_log = refl;
  none_seen = refl;
  none_pending = λ id. refl;
  no_inbox = λ id. refl;
  no_outbox = λ id. refl;
  unwritten = λ id. refl;
  bytes = λ id. tt;
}

abbrev told_of : List (MonitorCall bytes)
told_of =
    client_stats_mut_for 3
    ∷ update_corpus_size 3 4
    ∷ update_executions 3 20 10
    ∷ display (codes "Testcase") 3
    ∷ []

-- The test case is fired and taken by the broker, and the bridge forwards it.
abbrev taken_bus : Bus bytes
taken_bus =
    take_first 3 (as_sent flags sent) [] forward_to_clients told_of
      (submit 3 (as_sent flags sent ∷ []) fresh)

abbrev told : Bridge
told = record {
  stream = record { incoming = []; written = event_frame; capacity = 988 };
  inbox = [];
  replies = [];
  outbox = [];
}

abbrev told_bus : Bus bytes
told_bus = set_bridge 8 told taken_bus

-- It is fired again and waits.
abbrev last : Bus bytes
last = submit 3 (as_sent flags sent ∷ []) told_bus

fired : Fires flags events gzip messages running 3 fresh last (testcase ∷ testcase ∷ [])
unfolding fire hook handle_in_broker forward Frame.send_tcp_msg write_all to_be_bytes
fired =
    fires testcase (manager []) (manager (sent ∷ [])) sent
      (moves
        (moves (fires testcase (manager []) (manager (sent ∷ [])) sent begins refl refl refl)
          (brokers 3 (as_sent flags sent) [] forward_to_clients told_of refl refl) tt)
        (forwards 8 told refl refl) tt)
      refl refl refl

network_reads_fuzzer_example :
    (taken waiting : List (Event bytes)) × (read : List TcpRemoteNewMessage) × (receive_many
        messages text
        (length read)
        (socket (arrivals event_frame))
      ≡ (ok read, socket []))
    × (testcase ∷ testcase ∷ [] ≡ taken ++ waiting)
    × Matches flags events gzip (map (broadcast 3) (last.pending 3)) waiting
    × Spreads flags events gzip taken
        (sent_by 3 read ++ sent_by 3 (messages_of (last.bridge 8).inbox))
network_reads_fuzzer_example =
    network_reads_fuzzer flags events gzip messages running flags-IsFlags events-IsCodec gzip-IsGzip
      messages-IsCodec text fresh last 3 8 (testcase ∷ testcase ∷ []) fresh-IsFresh fired refl refl
      (socket (arrivals event_frame)) [] refl

broker_keeps_account_example :
    (calls : List (MonitorCall bytes)) × (last.monitored ≡ fresh.monitored ++ calls)
    × Brokered flags events gzip last.seen last.log calls
broker_keeps_account_example =
    broker_keeps_account flags events gzip messages running fresh last fresh-IsFresh
      (Fires-Reach flags events gzip messages running refl fired)
