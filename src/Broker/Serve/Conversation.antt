-- ===== src/Broker/Serve/Conversation.antt =====
-- What a client of `serve` in crates/broker/src/main.rs reads back.
use wincred_libsecret_wsl_pl.Prelude.{
  ◌≡◌, refl, subst, sym, ◌∙◌, ap, suc, Option, none, some, List, [], ◌∷◌, ◌++◌, map, Result, ok,
  length, chain-eq_some, some_injective,
}
use wincred_libsecret_wsl_pl.Prelude.Results.{ok_injective}
use wincred_libsecret_wsl_pl.Protocol.Errors.{BrokerError}
use wincred_libsecret_wsl_pl.Protocol.Message.{
  current, HelloAck, Envelope, Request, Response, ResponseBody,
}
use wincred_libsecret_wsl_pl.Protocol.Frame.{
  Bytes, IsLawful, read_frame, write_frame, memory_reader, memory_writer, take_exact,
}
use wincred_libsecret_wsl_pl.Protocol.Frame.Sequence.{
  sent_first, send_all, receive_all, Framed, nothing, frame, send_all-Framed, receive_all-Framed,
}
use wincred_libsecret_wsl_pl.Broker.Backend.{VaultBackend}
use wincred_libsecret_wsl_pl.Broker.Metadata.{Deps}
use wincred_libsecret_wsl_pl.Broker.Serve.{
  Wire, Server, again, returned, go_on, with_result, sent, reply, taken, answer, round, rounds,
}
use wincred_libsecret_wsl_pl.Broker.Serve.Reading.{read_frame-eof}

module _ (d : Deps) {S : Type 0} (b : VaultBackend S) (w : Wire) where
  abbrev memory_answer :
      HelloAck → Envelope Request → S → Option (Result BrokerError ResponseBody × S)
  memory_answer = answer d b w memory_reader memory_writer

  -- The responses to a list of requests, each in the store that the one before it leaves; `none` where
  -- the lock of the store is not free.
  abbrev pub respond : HelloAck → List (Envelope Request) → S → Option (List Response × S)
  respond acknowledgement [] store = some ([], store)
  respond acknowledgement (e ∷ es) store = elim (memory_answer acknowledgement e store) [
    | none ↦ none
    | some (result, next) ↦ elim (respond acknowledgement es next) [
      | none ↦ none
      | some (rs, last) ↦
          some (record { request_id = e.payload.request_id; result = result } ∷ rs, last)
    ]
  ]

  round_replies :
      (acknowledgement : HelloAck) (s : Server Bytes Bytes S) (e : Envelope Request) (rest : Bytes)
      (result : Result BrokerError ResponseBody) (next : S) (f : Bytes)
      → read_frame w.requests memory_reader s.reader ≡ (ok e, rest)
      → memory_answer acknowledgement e s.store ≡ some (result, next)
      → write_frame w.responses memory_writer
          (current (record { request_id = e.payload.request_id; result = result }))
          s.writer
        ≡ (ok tt, s.writer ++ f)
      → round d b w memory_reader memory_writer acknowledgement s
        ≡ again (record { reader = rest; writer = s.writer ++ f; store = next })
  unfolding round taken reply
  round_replies acknowledgement s e rest result next f r a o =
      ap
        (λ x.
          taken d b w memory_reader memory_writer acknowledgement x.0 (record s { reader = x.1 }))
        r
      ∙ ap (λ x. reply d b w memory_reader memory_writer e x (record s { reader = rest })) a
      ∙ ap
          (λ x.
            sent d b w memory_reader memory_writer x.0
              (record { reader = rest; writer = x.1; store = next }))
          o

  round_eof :
      (acknowledgement : HelloAck) (s : Server Bytes Bytes S)
      → s.reader ≡ []
      → round d b w memory_reader memory_writer acknowledgement s ≡ returned (ok tt) s
  unfolding round taken take_exact
  round_eof acknowledgement s e =
      let drained =
        ap (read_frame w.requests memory_reader) e ∙ read_frame-eof w.requests [] refl in
      ap
        (λ x.
          taken d b w memory_reader memory_writer acknowledgement x.0 (record s { reader = x.1 }))
        drained
      ∙ ap (λ x. returned (ok tt) (record s { reader = x })) (sym e)

  respond-cons :
      (acknowledgement : HelloAck) (e : Envelope Request) (es : List (Envelope Request))
      (store last : S) (rs : List Response)
      → respond acknowledgement (e ∷ es) store ≡ some (rs, last)
      → (result : Result BrokerError ResponseBody) × (next : S) × (others : List Response)
        × (memory_answer acknowledgement e store ≡ some (result, next))
        × (respond acknowledgement es next ≡ some (others, last))
        × (record { request_id = e.payload.request_id; result = result } ∷ others ≡ rs)
  respond-cons acknowledgement e es store last rs h =
      let ((result, next), a, more) =
        chain-eq_some (memory_answer acknowledgement e store) _ (rs, last) h in
      let ((others, end), o, same) =
        chain-eq_some (respond acknowledgement es next) _ (rs, last) more in
      let both = some_injective same in
      (
        result,
        next,
        others,
        a,
        o ∙ ap (λ x. some (others, x)) (ap (λ x. x.1) both),
        ap (λ x. x.0) both,
      )

  respond-ids :
      (acknowledgement : HelloAck) (es : List (Envelope Request)) (store last : S)
      (rs : List Response)
      → respond acknowledgement es store ≡ some (rs, last)
      → map (λ (r : Response). r.request_id) rs
        ≡ map (λ (e : Envelope Request). e.payload.request_id) es
  respond-ids acknowledgement [] store last rs h =
      ap (λ (x : List Response × S). map (λ (r : Response). r.request_id) x.0)
        (sym (some_injective h))
  respond-ids acknowledgement (e ∷ es) store last rs h =
      let (result, next, others, a, more, same) =
        respond-cons acknowledgement e es store last rs h in
      ap (λ l. map (λ (r : Response). r.request_id) l) (sym same)
      ∙ ap (λ l. e.payload.request_id ∷ l) (respond-ids acknowledgement es next last others more)

  -- The loop on the frames of a list of requests.
  rounds-Framed :
      IsLawful w.responses
      → (acknowledgement : HelloAck) (es : List (Envelope Request)) (input before out : Bytes)
        (store last : S) (rs : List Response)
      → Framed w.requests es input
      → respond acknowledgement es store ≡ some (rs, last)
      → send_all w.responses (map current rs) before ≡ ok out
      → rounds d b w memory_reader memory_writer
          (suc (length es))
          acknowledgement
          (record { reader = input; writer = before; store = store })
        ≡ some (with_result (ok tt) (record { reader = []; writer = out; store = last }))
  unfolding rounds
  rounds-Framed law acknowledgement _ _ before out store last rs nothing h o =
      let both = some_injective h in
      let written : before ≡ out = ok_injective (
        subst (λ l. send_all w.responses (map current l) before ≡ ok out) (sym (ap (λ x. x.0) both))
          o) in
      ap (go_on d b w memory_reader memory_writer _)
        (round_eof acknowledgement (record { reader = []; writer = before; store = store }) refl)
      ∙ λ i.
          some
            (with_result (ok tt) (record { reader = []; writer = written i; store = (both i).1 }))
  rounds-Framed law acknowledgement _ _ before out store last rs
        (frame e es f rest input r framed p) h o =
      let (result, next, others, a, more, same) =
        respond-cons acknowledgement e es store last rs h in
      let response : Response = record { request_id = e.payload.request_id; result = result } in
      let (f', sent', _, left) =
        sent_first w.responses law (current response) (map current others) before out
          (subst (λ l. send_all w.responses (map current l) before ≡ ok out) (sym same) o) in
      ap
        (go_on d b w memory_reader memory_writer
          (rounds d b w memory_reader memory_writer (suc (length es)) acknowledgement))
        (round_replies acknowledgement (record { reader = input; writer = before; store = store }) e
          rest result next f' (ap (read_frame w.requests memory_reader) p ∙ r rest) a sent')
      ∙ rounds-Framed law acknowledgement es rest (before ++ f') out next last others framed more
          left

  -- With lawful codecs and streams in memory, where the input is the frames of a list of requests
  -- and the store answers each, the loop ends without an error with the input used up and the
  -- store as after the last of them, what it adds to the output is read back as the responses in
  -- order, and their ids are those of the requests.
  pub rounds-conversation :
      IsLawful w.requests
      → IsLawful w.responses
      → (acknowledgement : HelloAck) (es : List (Envelope Request)) (input before out : Bytes)
        (store last : S) (rs : List Response)
      → send_all w.requests es [] ≡ ok input
      → respond acknowledgement es store ≡ some (rs, last)
      → send_all w.responses (map current rs) before ≡ ok out
      → (rounds d b w memory_reader memory_writer
            (suc (length es))
            acknowledgement
            (record { reader = input; writer = before; store = store })
          ≡ some (with_result (ok tt) (record { reader = []; writer = out; store = last })))
        × ((received : Bytes) × (out ≡ before ++ received)
            × (receive_all w.responses (length (map current rs)) received
                ≡ ok (map current rs, [])))
        × (map (λ (r : Response). r.request_id) rs
            ≡ map (λ (e : Envelope Request). e.payload.request_id) es)
  rounds-conversation asked law acknowledgement es input before out store last rs i h o =
      let (bytes, e, framed) = send_all-Framed w.requests asked es [] input i in
      let (received, added, back) = send_all-Framed w.responses law (map current rs) before out o in
      (
        rounds-Framed law acknowledgement es input before out store last rs
            (subst (Framed w.requests es) (sym e) framed) h o,
        (received, added, receive_all-Framed w.responses (map current rs) received back),
        respond-ids acknowledgement es store last rs h,
      )
