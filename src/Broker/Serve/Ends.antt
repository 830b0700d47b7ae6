-- ===== src/Broker/Serve/Ends.antt =====
-- `serve` of crates/broker/src/main.rs on a stream in memory returns, where the operations do.
use wincred_libsecret_wsl_pl.Prelude.{
  Bool-cases, subst, ◌≡◌, refl, sym, ap, inl, inr, ℕ, zero, suc, ◌<◌, Option, none, some, [],
  Result, ok, err, length, arith, codes, ◌==◌,
}
use wincred_libsecret_wsl_pl.Prelude.Results
use wincred_libsecret_wsl_pl.Prelude.Results.{Result-cases, bind-eq_ok}
use wincred_libsecret_wsl_pl.Protocol.Message.{
  current, Hello, HelloAck, Envelope, Request, Operation, ResponseBody,
}
use wincred_libsecret_wsl_pl.Protocol.Frame.{
  write_frame, Bytes, AsyncWrite, read_frame, memory_reader,
}
use wincred_libsecret_wsl_pl.Protocol.Errors.{BrokerError, ErrorCode, broker_error, ProtocolError}
use wincred_libsecret_wsl_pl.Broker.Backend.{VaultBackend}
use wincred_libsecret_wsl_pl.Broker.Metadata.{Deps}
use wincred_libsecret_wsl_pl.Broker.Service.{execute}
use wincred_libsecret_wsl_pl.Broker.Serve.{
  Wire, Server, Round, again, returned, waits, go_on, with_result, negotiated, greet, sent, reply,
  taken, handshake, answer, round, rounds, serve,
}
use wincred_libsecret_wsl_pl.Broker.Serve.Reading.{read_frame_shorter}

module _ (d : Deps) {S : Type 0} (b : VaultBackend S) (w : Wire) {W : Type 0}
    (writes : AsyncWrite W) where
  reply-reader :
      (envelope : Envelope Request) (o : Option (Result BrokerError ResponseBody × S))
      (s next : Server Bytes W S)
      → reply d b w memory_reader writes envelope o s ≡ again next
      → next.reader ≡ s.reader
  unfolding reply
  reply-reader envelope none s next h = absurd (cc h)
  reply-reader envelope (some (result, store)) s next h =
      sent-reader (write_frame w.responses writes _ s.writer).0 _ next h
    where
      reader_of : Round d b w memory_reader writes → Bytes
      reader_of (again s) = s.reader
      reader_of _ = []

      sent-reader :
          (r : Result ProtocolError (Unit {0})) (x next : Server Bytes W S)
          → sent d b w memory_reader writes r x ≡ again next
          → next.reader ≡ x.reader
      sent-reader (err e) x next h = absurd (cc h)
      sent-reader (ok _) x next h = ap reader_of (sym h)

  taken-reader :
      (acknowledgement : HelloAck) (r : Result ProtocolError (Envelope Request))
      (s next : Server Bytes W S)
      → taken d b w memory_reader writes acknowledgement r s ≡ again next
      → (envelope : Envelope Request) × (r ≡ ok envelope) × (next.reader ≡ s.reader)
  unfolding taken
  taken-reader acknowledgement (err e) s next h = absurd (cc h)
  taken-reader acknowledgement (ok envelope) s next h = (
    envelope,
    refl,
    reply-reader envelope (answer d b w memory_reader writes acknowledgement envelope s.store) s
        next h,
  )

  again_shorter :
      (acknowledgement : HelloAck) (s next : Server Bytes W S)
      → round d b w memory_reader writes acknowledgement s ≡ again next
      → length next.reader < length s.reader
  unfolding round
  again_shorter acknowledgement s next h =
      let (envelope, e, same) =
        taken-reader acknowledgement (read_frame w.requests memory_reader s.reader).0
          (record s { reader = (read_frame w.requests memory_reader s.reader).1 }) next h in
      omega (arith, read_frame_shorter w.requests s.reader envelope e, ap length same)

  greet-reader :
      (r : Result ProtocolError HelloAck) (s : Server Bytes W S) (acknowledgement : HelloAck)
      → (greet d b w memory_reader writes r s).0 ≡ ok acknowledgement
      → (r ≡ ok acknowledgement) × ((greet d b w memory_reader writes r s).1.reader ≡ s.reader)
  greet-reader (err e) s acknowledgement h = absurd (cc h)
  greet-reader (ok x) s acknowledgement h =
      let (unit, sent, same) =
        bind-eq_ok (write_frame w.acknowledgements writes (current x) s.writer).0 (λ _. ok x) h in
      (same, refl)

  handshake_shorter :
      (s : Server Bytes W S) (acknowledgement : HelloAck)
      → (handshake d b w memory_reader writes s).0 ≡ ok acknowledgement
      → length (handshake d b w memory_reader writes s).1.reader < length s.reader
  unfolding handshake
  handshake_shorter s acknowledgement h =
      let read = read_frame w.hellos memory_reader s.reader in
      let (agreed, same) =
        greet-reader (Results.◌>>=◌ read.0 (negotiated d b w memory_reader writes))
          (record s { reader = read.1 }) acknowledgement h in
      let (hello, e, _) = bind-eq_ok read.0 (negotiated d b w memory_reader writes) agreed in
      omega (arith, read_frame_shorter w.hellos s.reader hello e, ap length same)

  handshake-store :
      (s : Server Bytes W S) → (handshake d b w memory_reader writes s).1.store ≡ s.store
  unfolding handshake
  handshake-store s = greet-store (Results.◌>>=◌ read.0 (negotiated d b w memory_reader writes)) _
    where
      read : Result ProtocolError (Envelope Hello) × Bytes
      read = read_frame w.hellos memory_reader s.reader

      greet-store :
          (r : Result ProtocolError HelloAck) (x : Server Bytes W S)
          → (greet d b w memory_reader writes r x).1.store ≡ x.store
      greet-store (err e) x = refl
      greet-store (ok a) x = refl

  module _ (free : S → Type 0)
      (answers : (operation : Operation) (store : S)
        → free store
        → (r : Result BrokerError ResponseBody) × (next : S) × (execute d b operation store
            ≡ some (r, next))
          × free next) where
    -- A round that does not wait for the lock, and leaves it free.
    abbrev Free : Round d b w memory_reader writes → Type 0
    Free (again s) = free s.store
    Free (returned result s) = free s.store
    Free (waits s) = ⊥

    answer-free :
        (acknowledgement : HelloAck) (envelope : Envelope Request) (store : S)
        → free store
        → (r : Result BrokerError ResponseBody) × (next : S) × (answer d b w memory_reader writes
              acknowledgement envelope store
            ≡ some (r, next))
          × free next
    unfolding answer
    answer-free acknowledgement envelope store f =
        elim (Bool-cases (envelope.version == acknowledgement.version)) [
          | inl same ↦
              let (r, next, e, g) = answers envelope.payload.operation store f in
              (r, next, rw same e, g)
          | inr differs ↦ (
            err (
                broker_error ErrorCode.unsupported_version
                  (codes "request protocol version was not negotiated")),
            store,
            rw differs refl,
            f,
          )
        ]

    reply-Free :
        (envelope : Envelope Request) (r : Result BrokerError ResponseBody) (next : S)
        (s : Server Bytes W S)
        → free next
        → Free (reply d b w memory_reader writes envelope (some (r, next)) s)
    unfolding reply
    reply-Free envelope r next s f = sent-Free (write_frame w.responses writes _ s.writer).0 _ f
      where
        sent-Free :
            (outcome : Result ProtocolError (Unit {0})) (x : Server Bytes W S)
            → free x.store
            → Free (sent d b w memory_reader writes outcome x)
        sent-Free (err e) x g = g
        sent-Free (ok _) x g = g

    taken-Free :
        (acknowledgement : HelloAck) (r : Result ProtocolError (Envelope Request))
        (s : Server Bytes W S)
        → free s.store
        → Free (taken d b w memory_reader writes acknowledgement r s)
    unfolding taken
    taken-Free acknowledgement (err e) s f = f
    taken-Free acknowledgement (ok envelope) s f =
        let (r, next, e, g) = answer-free acknowledgement envelope s.store f in
        rw e (reply-Free envelope r next s g)

    round-Free :
        (acknowledgement : HelloAck) (s : Server Bytes W S)
        → free s.store
        → Free (round d b w memory_reader writes acknowledgement s)
    unfolding round
    round-Free acknowledgement s f = taken-Free acknowledgement _ _ f

    -- One round more than the stream has bytes is enough.
    rounds_return :
        (n : ℕ) (acknowledgement : HelloAck) (s : Server Bytes W S)
        → length s.reader < n
        → free s.store
        → (result : Result ProtocolError (Unit {0})) × (last : Server Bytes W S) × (rounds d b w
              memory_reader writes n acknowledgement s
            ≡ some (with_result result last))
          × free last.store
    unfolding rounds
    rounds_return zero acknowledgement s h f = absurd (omega arith)
    rounds_return (suc n) acknowledgement s h f =
        next_round (round d b w memory_reader writes acknowledgement s) refl
          (round-Free acknowledgement s f)
          (λ next shorter g. rounds_return n acknowledgement next (omega (arith, shorter, h)) g)
      where
        next_round :
            (r : Round d b w memory_reader writes)
            → round d b w memory_reader writes acknowledgement s ≡ r
            → Free r
            → ((next : Server Bytes W S)
                → length next.reader < length s.reader
                → free next.store
                → (result : Result ProtocolError (Unit {0})) × (last : Server Bytes W S) × (rounds d
                      b w memory_reader writes n acknowledgement next
                    ≡ some (with_result result last))
                  × free last.store)
            → (result : Result ProtocolError (Unit {0})) × (last : Server Bytes W S) × (go_on d b w
                  memory_reader writes
                  (rounds d b w memory_reader writes n acknowledgement)
                  r
                ≡ some (with_result result last))
              × free last.store
        next_round (again next) e g rest = rest next (again_shorter acknowledgement s next e) g
        next_round (returned result next) e g rest = (result, next, refl, g)
        next_round (waits next) e g rest = absurd g

  -- Where every operation returns from a store that is free and leaves it free, `serve` returns
  -- from a free store with an input in memory that is shorter than the bound on the rounds,
  -- without a wait for ever, and leaves the store free.
  pub serve-returns :
      (free : S → Type 0)
      → ((operation : Operation) (store : S)
          → free store
          → (r : Result BrokerError ResponseBody) × (next : S) × (execute d b operation store
              ≡ some (r, next))
            × free next)
      → (n : ℕ) (s : Server Bytes W S) → length s.reader < n
      → free s.store
      → (result : Result ProtocolError (Unit {0})) × (last : Server Bytes W S) × (serve d b w
            memory_reader writes n s
          ≡ some (with_result result last))
        × free last.store
  unfolding serve
  serve-returns free answers n s h f = after (handshake d b w memory_reader writes s).0 refl
    where
      greeted : free (handshake d b w memory_reader writes s).1.store
      greeted = subst free (sym (handshake-store s)) f

      after :
          (r : Result ProtocolError HelloAck)
          → (handshake d b w memory_reader writes s).0 ≡ r
          → (result : Result ProtocolError (Unit {0})) × (last : Server Bytes W S) × (elim r [
            | err e ↦ some (with_result (err e) (handshake d b w memory_reader writes s).1)
            | ok version ↦
                rounds d b w memory_reader writes n version
                  (handshake d b w memory_reader writes s).1
          ]
              ≡ some (with_result result last))
            × free last.store
      after (err x) e = (err x, (handshake d b w memory_reader writes s).1, refl, greeted)
      after (ok version) e =
          rounds_return free answers n version (handshake d b w memory_reader writes s).1
            (omega (arith, handshake_shorter s version e, h)) greeted
