-- ===== src/Broker/Serve.antt =====
-- `serve` of crates/broker/src/main.rs: the handshake, and the loop over the requests.
pub mod Reading
pub mod Ends
pub mod Conversation
use wincred_libsecret_wsl_pl.Prelude.{
  ℕ, zero, suc, false, true, Bool, Option, none, some, [], ◌∷◌, codes, ◌==◌, if◌then◌else◌, Result,
  ok, err,
}
use wincred_libsecret_wsl_pl.Prelude.Results.{◌>>=◌, ◌>>◌}
use wincred_libsecret_wsl_pl.Protocol.Errors.{
  ErrorCode, BrokerError, broker_error, ProtocolError, io, unexpected_eof, other,
}
use wincred_libsecret_wsl_pl.Protocol.Message.{
  Capability, CapabilitySet, collect_set, Hello, HelloAck, Envelope, current, current_versions,
  validate_version, negotiate, Request, Response, ResponseBody,
}
use wincred_libsecret_wsl_pl.Protocol.Frame.{Codec, AsyncRead, AsyncWrite, read_frame, write_frame}
use wincred_libsecret_wsl_pl.Broker.Backend.{VaultBackend}
use wincred_libsecret_wsl_pl.Broker.Metadata.{Deps}
use wincred_libsecret_wsl_pl.Broker.Service.{execute}

-- The codecs of the messages on the wire.
pub record Wire : Type 0 where
  pub hellos : Codec (Envelope Hello)
  pub acknowledgements : Codec (Envelope HelloAck)
  pub requests : Codec (Envelope Request)
  pub responses : Codec (Envelope Response)

abbrev pub broker_capabilities : CapabilitySet
broker_capabilities = collect_set (
    Capability.binary_secrets ∷ Capability.collections ∷ Capability.aliases
    ∷ Capability.generation_commits ∷ Capability.reconciliation ∷ Capability.atomic_item_mutations
    ∷ [])

-- The streams and the store of a running broker.
pub record Server (R W S : Type 0) : Type 0 where
  pub reader : R
  pub writer : W
  pub store : S

-- `Err(Io(error)) if error.kind() == UnexpectedEof`
abbrev pub is_eof : ProtocolError → Bool
is_eof (io e) = elim e.kind [ unexpected_eof ↦ true | other ↦ false ]
is_eof _ = false

module _ (d : Deps) {S : Type 0} (b : VaultBackend S) (w : Wire) {R W : Type 0}
    (reads : AsyncRead R) (writes : AsyncWrite W) where
  abbrev pub negotiated : Envelope Hello → Result ProtocolError HelloAck
  negotiated hello =
      validate_version hello >> negotiate hello.payload current_versions broker_capabilities

  -- Sends the acknowledgement, if there is one.
  abbrev pub greet :
      Result ProtocolError HelloAck → Server R W S → Result ProtocolError HelloAck × Server R W S
  greet (err e) s = (err e, s)
  greet (ok acknowledgement) s =
      let (outcome, writer) =
        write_frame w.acknowledgements writes (current acknowledgement) s.writer in
      (outcome >> ok acknowledgement, record s { writer = writer })

  -- From the hello to the acknowledgement.
  unfoldable pub handshake : Server R W S → Result ProtocolError HelloAck × Server R W S
  handshake s =
      let (hello, reader) = read_frame w.hellos reads s.reader in
      greet (hello >>= negotiated) (record s { reader = reader })

  -- The outcome of a request: `none` where the lock of the store is never free.
  unfoldable pub answer :
      HelloAck → Envelope Request → S → Option (Result BrokerError ResponseBody × S)
  answer acknowledgement envelope store =
      if envelope.version == acknowledgement.version
      then execute d b envelope.payload.operation store
      else some (
        err (
            broker_error ErrorCode.unsupported_version
              (codes "request protocol version was not negotiated")),
        store,
      )

  -- What one round of the loop comes to: another round, a return, or a wait for the lock.
  pub data Round : Type 0 where
    again : Server R W S → Round
    returned : Result ProtocolError (Unit {0}) → Server R W S → Round
    waits : Server R W S → Round

  abbrev pub sent : Result ProtocolError (Unit {0}) → Server R W S → Round
  sent (err e) s = returned (err e) s
  sent (ok _) s = again s

  -- From the outcome of a request on.
  unfoldable pub reply :
      Envelope Request → Option (Result BrokerError ResponseBody × S) → Server R W S → Round
  reply envelope none s = waits s
  reply envelope (some (result, store)) s =
      let response : Response = record {
        request_id = envelope.payload.request_id;
        result = result;
      } in
      let (outcome, writer) = write_frame w.responses writes (current response) s.writer in
      sent outcome (record s { writer = writer; store = store })

  unfoldable pub taken : HelloAck → Result ProtocolError (Envelope Request) → Server R W S → Round
  unfolding reply
  taken acknowledgement (err e) s = returned (if is_eof e then ok tt else err e) s
  taken acknowledgement (ok envelope) s = reply envelope (answer acknowledgement envelope s.store) s

  unfoldable pub round : HelloAck → Server R W S → Round
  unfolding taken
  round acknowledgement s =
      let (request, reader) = read_frame w.requests reads s.reader in
      taken acknowledgement request (record s { reader = reader })

  pub data Ended : Type 0 where
    with_result : Result ProtocolError (Unit {0}) → Server R W S → Ended
    for_lock : Server R W S → Ended

  abbrev pub go_on : (Server R W S → Option Ended) → Round → Option Ended
  go_on rest (again s) = rest s
  go_on rest (returned result s) = some (with_result result s)
  go_on rest (waits s) = some (for_lock s)

  -- The loop, with a bound on its rounds: `none` where it has not ended within them.
  unfoldable pub rounds : ℕ → HelloAck → Server R W S → Option Ended
  rounds zero acknowledgement s = none
  rounds (suc n) acknowledgement s = go_on (rounds n acknowledgement) (round acknowledgement s)

  -- The whole of `serve`.
  unfoldable pub serve : ℕ → Server R W S → Option Ended
  unfolding handshake rounds
  serve n s =
      let (acknowledgement, next) = handshake s in
      elim acknowledgement [
        | err e ↦ some (with_result (err e) next)
        | ok version ↦ rounds n version next
      ]
