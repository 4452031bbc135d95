-- ===== src/Connector/Events.antt =====
-- nn_connector/src/connector.rs: `generate_event` and `recv_event`, and the client's methods.
pub mod RoundTrip
use nn_fuzz.Base.{ℕ, ◌==◌, [], ◌∷◌, ◌⊎◌, inl, inr, Option, none, some, List, if◌then◌else◌}
use nn_fuzz.Base.Bits.{bit_and, bit_or}
use nn_fuzz.Base.Text.{Bytes, codes}
use nn_fuzz.Base.Outcome.{Outcome, ok, err, panic, ◌>>=◌}
use nn_fuzz.Std.Net.{IoError}
use nn_fuzz.External.{Codec, Gzip, Libafl, LibaflError}
use nn_fuzz.Messages.{
  TcpRemoteNewMessage, Event, new_testcase, llmp_flag_initialized, llmp_flag_compressed,
  compress_threshold, try_from,
}
use nn_fuzz.Connector.Error.{Error, serialize_error, not_available, from_postcard, from_libafl}
use nn_fuzz.Connector.Frame as Frame
use nn_fuzz.Connector.Frame.{Io}

-- `?` on a call of the codec, and on one of LibAFL.
abbrev pub postcard : {A : Type 0} → Bytes ⊎ A → Outcome Error A
postcard (inl e) = err (from_postcard e)
postcard (inr a) = ok a

abbrev pub libafl : {A : Type 0} → LibaflError ⊎ A → Outcome Error A
libafl (inl e) = from_libafl e
libafl (inr a) = ok a

-- `unwrap_or_default`
abbrev pub unwrap_or_default : Option Bytes → Bytes
unwrap_or_default none = []
unwrap_or_default (some b) = b

module _ (L : Libafl) (events : Codec (Event L)) (g : Gzip) where
  -- `Event::NewTestcase` as the client makes it: of an input alone.
  abbrev pub testcase_of : Bytes → Event L
  testcase_of buf = new_testcase (L.from_buf buf) none L.exit_ok 0 L.always_unique 1 0

  unfoldable pub generate_event : ℕ → Bytes → Outcome Error TcpRemoteNewMessage
  unfolding from_libafl
  generate_event client_id buf = do
    serialized ← postcard (events.to_allocvec (testcase_of buf))
    let flags = llmp_flag_initialized
    compressed ← libafl (g.compress compress_threshold serialized)
    elim compressed [
      | some comp_buf ↦ ok (record {
        client_id = client_id;
        tag = 0;
        flags = bit_or flags llmp_flag_compressed;
        payload = comp_buf;
      })
      | none ↦ ok (record { client_id = client_id; tag = 0; flags = flags; payload = serialized })
    ]

  -- The event in a message that was received.
  unfoldable pub decode_event : TcpRemoteNewMessage → Outcome Error (Event L)
  unfolding from_libafl
  decode_event msg = do
    event_bytes ←
        if bit_and msg.flags llmp_flag_compressed == llmp_flag_compressed
        then libafl (g.decompress msg.payload)
        else ok msg.payload
    elim (events.from_bytes event_bytes) [
      | inl _ ↦ err (serialize_error (codes "not Event<BytesInput> message"))
      | inr e ↦ ok e
    ]

  module _ (io_text : IoError → Bytes) (messages : Codec TcpRemoteNewMessage) where
    -- Any error of the receive is reported as `NotAvailable`.
    unfoldable pub recv_event : Io (Event L)
    recv_event s =
        let (r, s') = Frame.recv_tcp_msg io_text s in
        (
          elim r [
            | ok buf ↦ (postcard (try_from messages buf) >>= decode_event)
            | err _ ↦ err not_available
            | panic ↦ panic
          ],
          s',
        )

    -- `FuzzConnector::send_input`
    unfoldable pub send_input : ℕ → Bytes → Io (Unit {0})
    send_input client_id input s = elim (generate_event client_id input) [
      | ok testcase ↦ Frame.send_tcp_msg io_text messages testcase s
      | err e ↦ (err e, s)
      | panic ↦ (panic, s)
    ]

    -- The map that `recv_testcase` returns, as the list of its entries.
    unfoldable pub testcase_map : Event L → List (Bytes × Bytes)
    testcase_map (new_testcase input observers_buf _ _ _ _ _) =
        (codes "input", L.input_bytes input)
        ∷ (codes "observers", unwrap_or_default observers_buf)
        ∷ []
    testcase_map _ = (codes "input", []) ∷ []

    -- `FuzzConnector::recv_testcase`
    unfoldable pub recv_testcase : Io (List (Bytes × Bytes))
    recv_testcase s =
        let (r, s') = recv_event s in
        (elim r [ ok e ↦ ok (testcase_map e) | err x ↦ err x | panic ↦ panic ], s')
