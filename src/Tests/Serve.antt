-- ===== src/Tests/Serve.antt =====
-- The broker's loop on a stream with one ping, over a codec for pings.
use wincred_libsecret_wsl_pl.Prelude.{
  ◌≡◌, refl, ℕ, ◌<◌, Option, none, some, List, [], ◌∷◌, ◌++◌, map, length, Text, codes, Result, ok,
  err, arith,
}
use wincred_libsecret_wsl_pl.Protocol.Errors.{BrokerError, ProtocolError}
use wincred_libsecret_wsl_pl.Protocol.Message.{
  current, current_versions, Hello, HelloAck, Envelope, Request, Response, ResponseBody, Operation,
}
use wincred_libsecret_wsl_pl.Protocol.Frame.{Bytes, Codec, IsLawful, memory_reader, memory_writer}
use wincred_libsecret_wsl_pl.Broker.Memory.{new_memory}
use wincred_libsecret_wsl_pl.Broker.Samples.{deps}
use wincred_libsecret_wsl_pl.Broker.Serve.{Wire, Server, serve, rounds, with_result}
use wincred_libsecret_wsl_pl.Broker.Serve.Ends.{serve-returns}
use wincred_libsecret_wsl_pl.Protocol.Frame.Sequence.{send_all, receive_all}
use wincred_libsecret_wsl_pl.Broker.Serve.Conversation.{respond, rounds-conversation}
use wincred_libsecret_wsl_pl.Tests.{memory}
use wincred_libsecret_wsl_pl.Tests.Mutexes.{
  System, windows_with_mutexes, windows_with_mutexes-IsMutexes, nothing_held,
}
use wincred_libsecret_wsl_pl.Broker.WinCred.{WinState, wincred_backend}
use wincred_libsecret_wsl_pl.Broker.WinCred.Held.{Free, execute-answers}

abbrev write_ping : ℕ → ℕ → Operation → Result Text Bytes
write_ping version id Operation.ping = ok (version ∷ id ∷ [])
write_ping version id _ = err (codes "only pings")

abbrev read_ping : Bytes → Result Text (Envelope Request × Bytes)
read_ping (version ∷ id ∷ rest) = ok (
  record { version = version; payload = record { request_id = id; operation = Operation.ping } },
  rest,
)
read_ping _ = err (codes "short")

abbrev pings : Codec (Envelope Request)
pings = record {
  into_writer = λ e. write_ping e.version e.payload.request_id e.payload.operation;
  from_reader = read_ping;
}

pings-IsLawful : IsLawful pings
pings-IsLawful = record {
  from_reader-into_writer =
      λ t b rest h. written t.version t.payload.request_id t.payload.operation b rest h;
}
  where
    written :
        (version id : ℕ) (operation : Operation) (b rest : Bytes)
        → write_ping version id operation ≡ ok b
        → read_ping (b ++ rest)
          ≡ ok (
            record {
              version = version;
              payload = record { request_id = id; operation = operation };
            },
            rest,
          )
    written version id Operation.ping b rest h = ground (arith, h)
    written version id _ b rest h = absurd (cc h)

abbrev write_pong : ℕ → ℕ → Result BrokerError ResponseBody → Result Text Bytes
write_pong version id (ok ResponseBody.pong) = ok (version ∷ id ∷ [])
write_pong version id _ = err (codes "only pongs")

abbrev read_pong : Bytes → Result Text (Envelope Response × Bytes)
read_pong (version ∷ id ∷ rest) = ok (
  record { version = version; payload = record { request_id = id; result = ok ResponseBody.pong } },
  rest,
)
read_pong _ = err (codes "short")

abbrev pongs : Codec (Envelope Response)
pongs = record {
  into_writer = λ e. write_pong e.version e.payload.request_id e.payload.result;
  from_reader = read_pong;
}

pongs-IsLawful : IsLawful pongs
pongs-IsLawful = record {
  from_reader-into_writer =
      λ t b rest h. written t.version t.payload.request_id t.payload.result b rest h;
}
  where
    written :
        (version id : ℕ) (result : Result BrokerError ResponseBody) (b rest : Bytes)
        → write_pong version id result ≡ ok b
        → read_pong (b ++ rest)
          ≡ ok (
            record { version = version; payload = record { request_id = id; result = result } },
            rest,
          )
    written version id (ok ResponseBody.pong) b rest h = ground (arith, h)
    written version id (ok _) b rest h = absurd (cc h)
    written version id (err _) b rest h = absurd (cc h)

-- Any byte is a hello of the current version.
abbrev read_hello : Bytes → Result Text (Envelope Hello × Bytes)
read_hello (b ∷ rest) =
    ok (current (record { versions = current_versions; capabilities = [] }), rest)
read_hello [] = err (codes "short")

abbrev hellos : Codec (Envelope Hello)
hellos = record { into_writer = λ e. ok (9 ∷ []); from_reader = read_hello }

abbrev acknowledgements : Codec (Envelope HelloAck)
acknowledgements = record { into_writer = λ e. ok (8 ∷ []); from_reader = λ bytes. err [] }

abbrev wire : Wire
wire = record {
  hellos = hellos;
  acknowledgements = acknowledgements;
  requests = pings;
  responses = pongs;
}

abbrev agreed : HelloAck
agreed = record { version = 1; capabilities = [] }

abbrev ping : Envelope Request
ping = current (record { request_id = 4; operation = Operation.ping })

abbrev pong : Response
pong = record { request_id = 4; result = ok ResponseBody.pong }

abbrev ping_frame : Bytes
ping_frame = 0 ∷ 0 ∷ 0 ∷ 2 ∷ 1 ∷ 4 ∷ []

ping_sent : send_all pings (ping ∷ []) [] ≡ ok ping_frame
unfolding wincred_libsecret_wsl_pl.Protocol.Frame.write_frame
ping_sent = refl

ping_answered :
    respond deps memory wire agreed (ping ∷ []) new_memory ≡ some (pong ∷ [], new_memory)
unfolding wincred_libsecret_wsl_pl.Broker.Serve.answer
    wincred_libsecret_wsl_pl.Broker.Service.execute wincred_libsecret_wsl_pl.Broker.Service.locked
    wincred_libsecret_wsl_pl.Broker.Service.dispatch wincred_libsecret_wsl_pl.Prelude.Exec.pure
ping_answered = refl

pong_sent : send_all pongs (map current (pong ∷ [])) [] ≡ ok ping_frame
unfolding wincred_libsecret_wsl_pl.Protocol.Frame.write_frame
pong_sent = refl

rounds-conversation_example :
    (rounds deps memory wire memory_reader memory_writer 2 agreed
        (record { reader = ping_frame; writer = []; store = new_memory })
      ≡ some
          (with_result (ok tt) (record { reader = []; writer = ping_frame; store = new_memory })))
    × ((received : Bytes) × (ping_frame ≡ [] ++ received)
        × (receive_all pongs 1 received ≡ ok (map current (pong ∷ []), [])))
    × (map (λ (r : Response). r.request_id) (pong ∷ [])
        ≡ map (λ (e : Envelope Request). e.payload.request_id) (ping ∷ []))
rounds-conversation_example =
    rounds-conversation deps memory wire pings-IsLawful pongs-IsLawful agreed (ping ∷ []) ping_frame
      [] ping_frame new_memory new_memory (pong ∷ []) ping_sent ping_answered pong_sent

abbrev session : Bytes
session = 0 ∷ 0 ∷ 0 ∷ 1 ∷ 9 ∷ ping_frame

abbrev connected : Server Bytes Bytes (WinState System)
connected = record { reader = session; writer = []; store = nothing_held }

serve-returns_example :
    (result : Result ProtocolError (Unit {0})) × (last : Server Bytes Bytes (WinState System))
    × (serve deps
          (wincred_backend deps.crates windows_with_mutexes)
          wire
          memory_reader
          memory_writer
          12
          connected
        ≡ some (with_result result last))
    × Free deps windows_with_mutexes windows_with_mutexes-IsMutexes last.store
serve-returns_example =
    serve-returns deps (wincred_backend deps.crates windows_with_mutexes) wire memory_writer
      (Free deps windows_with_mutexes windows_with_mutexes-IsMutexes)
      (execute-answers deps windows_with_mutexes windows_with_mutexes-IsMutexes) 12 connected
      (omega arith) (refl, refl)
