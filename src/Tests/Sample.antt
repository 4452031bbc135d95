-- ===== src/Tests/Sample.antt =====
-- Instances of the third-party parameters that keep their laws.
use nn_fuzz.Base.{
  ℕ, zero, suc, ◌≡◌, refl, ap, ◌⊎◌, inl, inr, List, [], ◌∷◌, Option, none, some, leb, Bool, true,
  false, length, if◌then◌else◌,
}
use mathlib.Core.Sum.{inr-injective}
use nn_fuzz.Base.Text.{Bytes}
use nn_fuzz.Std.Net.{IoError, Socket, Arrival}
use nn_fuzz.External.{LibaflError, Codec, IsCodec, Gzip, IsGzip, Libafl}
use nn_fuzz.Messages.{
  TcpRemoteNewMessage, TcpResponce, remote_fuzzer_hello, remote_nn_accepted, TcpRequest,
  remote_nn_hello, local_hello, Event, new_testcase, update_exec_stats,
}

-- A decoder that undoes an encoder.
undone :
    {T : Type 0} (decode : Bytes → Bytes ⊎ T) (v : T) (enc bs : Bytes)
    → decode enc ≡ inr v
    → Path (Bytes ⊎ Bytes) (inr enc) (inr bs)
    → decode bs ≡ inr v
undone decode v enc bs h e = rw (← inr-injective enc bs e) h

abbrev pub text : IoError → Bytes
text e = []

-- The messages: three numbers and the payload.
abbrev decode_message : Bytes → Bytes ⊎ TcpRemoteNewMessage
decode_message (c ∷ t ∷ f ∷ p) = inr (record { client_id = c; tag = t; flags = f; payload = p })
decode_message _ = inl []

abbrev pub messages : Codec TcpRemoteNewMessage
messages = record {
  to_allocvec = λ m. inr (m.client_id ∷ m.tag ∷ m.flags ∷ m.payload);
  from_bytes = decode_message;
}

pub messages-IsCodec : IsCodec messages
messages-IsCodec = record { from_bytes-to_allocvec = λ v bs e. undone decode_message v _ bs refl e }

abbrev encode_responce : TcpResponce → Bytes
encode_responce (remote_fuzzer_hello d) = 0 ∷ d.ec_size ∷ d.instances ∷ d.fuzz_target
encode_responce (remote_nn_accepted id) = 1 ∷ id ∷ []
encode_responce (TcpResponce.error what) = 2 ∷ what

abbrev decode_responce : Bytes → Bytes ⊎ TcpResponce
decode_responce (zero ∷ e ∷ i ∷ t) =
    inr (remote_fuzzer_hello (record { ec_size = e; instances = i; fuzz_target = t }))
decode_responce (suc zero ∷ id ∷ []) = inr (remote_nn_accepted id)
decode_responce (suc (suc _) ∷ what) = inr (TcpResponce.error what)
decode_responce _ = inl []

abbrev pub responces : Codec TcpResponce
responces = record { to_allocvec = λ r. inr (encode_responce r); from_bytes = decode_responce }

decode-encode_responce : (r : TcpResponce) → decode_responce (encode_responce r) ≡ inr r
decode-encode_responce (remote_fuzzer_hello d) = refl
decode-encode_responce (remote_nn_accepted id) = refl
decode-encode_responce (TcpResponce.error what) = refl

pub responces-IsCodec : IsCodec responces
responces-IsCodec = record {
  from_bytes-to_allocvec = λ v bs e. undone decode_responce v _ bs (decode-encode_responce v) e;
}

-- A name is marked byte by byte, so that the version can follow it.
abbrev encode_hello : Bytes → Bytes → Bytes
encode_hello [] version = 0 ∷ version
encode_hello (c ∷ name) version = 1 ∷ c ∷ encode_hello name version

abbrev named : ℕ → Bytes ⊎ TcpRequest → Bytes ⊎ TcpRequest
named c (inr (remote_nn_hello name version)) = inr (remote_nn_hello (c ∷ name) version)
named c other = other

abbrev decode_request : Bytes → Bytes ⊎ TcpRequest
decode_request (zero ∷ version) = inr (remote_nn_hello [] version)
decode_request (suc zero ∷ c ∷ more) = named c (decode_request more)
decode_request (suc (suc _) ∷ id ∷ []) = inr (local_hello id)
decode_request _ = inl []

abbrev encode_request : TcpRequest → Bytes
encode_request (remote_nn_hello name version) = encode_hello name version
encode_request (local_hello id) = 2 ∷ id ∷ []

abbrev pub requests : Codec TcpRequest
requests = record { to_allocvec = λ r. inr (encode_request r); from_bytes = decode_request }

decode-encode_hello :
    (name version : Bytes)
    → decode_request (encode_hello name version) ≡ inr (remote_nn_hello name version)
decode-encode_hello [] version = refl
decode-encode_hello (c ∷ name) version = ap (named c) (decode-encode_hello name version)

decode-encode_request : (r : TcpRequest) → decode_request (encode_request r) ≡ inr r
decode-encode_request (remote_nn_hello name version) = decode-encode_hello name version
decode-encode_request (local_hello id) = refl

pub requests-IsCodec : IsCodec requests
requests-IsCodec = record {
  from_bytes-to_allocvec = λ v bs e. undone decode_request v _ bs (decode-encode_request v) e;
}

-- Inputs are bytes, and every configuration is always unique.
abbrev pub bytes : Libafl
bytes = record {
  Input = Bytes;
  ExitKind = Unit;
  EventConfig = Unit;
  UserStats = ℕ;
  LogSeverity = ℕ;
  CustomBuf = Bytes;
  Description = ℕ;
  exit_ok = tt;
  always_unique = tt;
  is_always_unique = λ c. true;
  number = λ n. n;
  from_buf = λ b. b;
  input_bytes = λ b. b;
}

-- Two kinds of events are serialized.
abbrev write_event : Event bytes → Bytes ⊎ Bytes
write_event (new_testcase input none exit_kind size config time executions) =
    inr (0 ∷ size ∷ time ∷ executions ∷ input)
write_event (update_exec_stats time executions) = inr (1 ∷ time ∷ executions ∷ [])
write_event _ = inl []

abbrev read_event : Bytes → Bytes ⊎ Event bytes
read_event (zero ∷ size ∷ time ∷ executions ∷ input) =
    inr (new_testcase input none tt size tt time executions)
read_event (suc _ ∷ time ∷ executions ∷ []) = inr (update_exec_stats time executions)
read_event _ = inl []

abbrev pub events : Codec (Event bytes)
events = record { to_allocvec = write_event; from_bytes = read_event }

event_undone : (v : Event bytes) (bs : Bytes) → write_event v ≡ inr bs → read_event bs ≡ inr v
event_undone (new_testcase input none exit_kind size config time executions) bs e =
    undone read_event _ _ bs refl e
event_undone (new_testcase input (some b) exit_kind size config time executions) bs e = cc
event_undone (update_exec_stats time executions) bs e = undone read_event _ _ bs refl e
event_undone (Event.update_user_stats name value) bs e = cc
event_undone (Event.objective size) bs e = cc
event_undone (Event.log severity message) bs e = cc
event_undone (Event.custom_buf b) bs e = cc

pub events-IsCodec : IsCodec events
events-IsCodec = record { from_bytes-to_allocvec = event_undone }

-- A compressor that puts a byte in front.
abbrev unpack : Bytes → LibaflError ⊎ Bytes
unpack (_ ∷ bs) = inr bs
unpack [] = inl (LibaflError.compression [])

abbrev pub gzip : Gzip
gzip = record {
  compress = λ t bs. inr (if leb t (length bs) then some (31 ∷ bs) else none);
  decompress = unpack;
}

same_pack : (x z : Bytes) → Path (LibaflError ⊎ Option Bytes) (inr (some x)) (inr (some z)) → x ≡ z
same_pack x z e = cc

packed :
    (b : Bool) (bs z : Bytes)
    → Path (LibaflError ⊎ Option Bytes) (inr (if b then some (31 ∷ bs) else none)) (inr (some z))
    → unpack z ≡ inr bs
packed true bs z e = rw (← same_pack (31 ∷ bs) z e)
packed false bs z e = cc

pub gzip-IsGzip : IsGzip gzip
gzip-IsGzip = record { decompress-compress = λ t bs z e. packed (leb t (length bs)) bs z e }

abbrev pub socket : List Arrival → Socket
socket incoming = record { incoming = incoming; written = []; capacity = 1000 }
