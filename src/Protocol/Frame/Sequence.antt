-- ===== src/Protocol/Frame/Sequence.antt =====
-- Frames of crates/protocol/src/frame.rs one after the other: a peer that writes a list of messages, and one that reads them.
use wincred_libsecret_wsl_pl.Prelude.{
  ◌≡◌, refl, sym, ◌∙◌, ap, inl, inr, ℕ, zero, suc, List, [], ◌∷◌, ◌++◌, Result, ok, err, length,
  arith, append_assoc, append-nil,
}
use wincred_libsecret_wsl_pl.Prelude.Results.{Result-cases}
use wincred_libsecret_wsl_pl.Prelude.Exec.{◌>>=◌}
use wincred_libsecret_wsl_pl.Protocol.Errors.{ProtocolError}
use wincred_libsecret_wsl_pl.Protocol.Frame.{
  Bytes, Codec, IsLawful, read_frame, write_frame, memory_reader, memory_writer, encode_payload,
}
use wincred_libsecret_wsl_pl.Protocol.Frame.RoundTrip.{read_frame-write_frame}

module _ {T : Type 0} (c : Codec T) where
  -- A peer that writes the frames of a list of messages one after the other.
  abbrev pub send_all : List T → Bytes → Result ProtocolError Bytes
  send_all [] written = ok written
  send_all (t ∷ ts) written =
      let (r, more) = write_frame c memory_writer t written in
      let rest = send_all ts more in elim r [ err e ↦ err e | ok _ ↦ rest ]

  abbrev pub add_first :
      T → Result ProtocolError (List T × Bytes) → Result ProtocolError (List T × Bytes)
  add_first t (err e) = err e
  add_first t (ok (ts, left)) = ok (t ∷ ts, left)

  abbrev pub receive_first :
      Result ProtocolError T
      → Result ProtocolError (List T × Bytes)
      → Result ProtocolError (List T × Bytes)
  receive_first (err e) rest = err e
  receive_first (ok t) rest = add_first t rest

  -- A peer that reads as many messages.
  abbrev pub receive_all : ℕ → Bytes → Result ProtocolError (List T × Bytes)
  receive_all zero bytes = ok ([], bytes)
  receive_all (suc n) bytes =
      let (r, more) = read_frame c memory_reader bytes in receive_first r (receive_all n more)

  -- What is written does not depend on what is there.
  write_frame-before :
      (t : T) (before : Bytes)
      → (write_frame c memory_writer t before).0 ≡ (write_frame c memory_writer t []).0
  unfolding write_frame ◌>>=◌
  write_frame-before t before = elim (Result-cases (encode_payload c t)) [
    | inl (p, e) ↦ ground (arith, e)
    | inr (x, e) ↦ ground (arith, e)
  ]

  write_frame-after :
      (t : T) (before : Bytes)
      → (write_frame c memory_writer t []).0 ≡ ok tt
      → (write_frame c memory_writer t before).1 ≡ before ++ (write_frame c memory_writer t []).1
  unfolding write_frame ◌>>=◌
  write_frame-after t before h = elim (Result-cases (encode_payload c t)) [
    | inl (p, e) ↦ rw (e, append_assoc)
    | inr (x, e) ↦ absurd (ground (arith, e, h))
  ]

  -- Bytes that are read as the messages, one after the other.
  pub data Framed : List T → Bytes → Type 0 where
    nothing : Framed [] []
    frame :
        (t : T) (ts : List T) (f rest bytes : Bytes)
        → ((after : Bytes) → read_frame c memory_reader (f ++ after) ≡ (ok t, after))
        → Framed ts rest
        → bytes ≡ f ++ rest
        → Framed (t ∷ ts) bytes

  pub sent_first :
      IsLawful c
      → (t : T) (ts : List T) (written out : Bytes) → send_all (t ∷ ts) written ≡ ok out
      → (f : Bytes) × (write_frame c memory_writer t written ≡ (ok tt, written ++ f))
        × ((after : Bytes) → read_frame c memory_reader (f ++ after) ≡ (ok t, after))
        × (send_all ts (written ++ f) ≡ ok out)
  sent_first law t ts written out h =
      elim (Result-cases (write_frame c memory_writer t written).0) [
        | inr (x, e) ↦ absurd (ground (arith, h, e))
        | inl (unit, e) ↦
            let alone = sym (write_frame-before t written) ∙ e in
            let f = (write_frame c memory_writer t []).1 in
            let added = write_frame-after t written alone in
            let rest : send_all ts (write_frame c memory_writer t written).1 ≡ ok out =
              ground (arith, h, e) in
            (
              f,
              λ i. (e i, added i),
              λ after.
                  let (f', w', r) = read_frame-write_frame c law t [] after alone in
                  ap (λ x. read_frame c memory_reader (x ++ after)) w' ∙ r,
              ap (send_all ts) (sym added) ∙ rest,
            )
      ]

  pub send_all-Framed :
      IsLawful c
      → (ts : List T) (written out : Bytes) → send_all ts written ≡ ok out
      → (bytes : Bytes) × (out ≡ written ++ bytes) × Framed ts bytes
  send_all-Framed law [] written out h = ([], ground (arith, h, append-nil written), nothing)
  send_all-Framed law (t ∷ ts) written out h =
      let (f, w, r, more) = sent_first law t ts written out h in
      let (rest, e, framed) = send_all-Framed law ts (written ++ f) out more in
      (f ++ rest, e ∙ append_assoc written f rest, frame t ts f rest (f ++ rest) r framed refl)

  pub receive_all-Framed :
      (ts : List T) (bytes : Bytes) → Framed ts bytes → receive_all (length ts) bytes ≡ ok (ts, [])
  receive_all-Framed _ _ nothing = refl
  receive_all-Framed _ _ (frame t ts f rest bytes r framed e) =
      ap (λ x. receive_first x.0 (receive_all (length ts) x.1))
        (ap (read_frame c memory_reader) e ∙ r rest)
      ∙ ap (add_first t) (receive_all-Framed ts rest framed)
