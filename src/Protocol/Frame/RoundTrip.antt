-- ===== src/Protocol/Frame/RoundTrip.antt =====
-- `write_frame` and then `read_frame` of crates/protocol/src/frame.rs.
use wincred_libsecret_wsl_pl.Prelude.{
  inl, inr, ◌≡◌, refl, ◌∙◌, ℕ, ◌^◌, ◌<◌, false, ltb, ◌==◌, [], ◌∷◌, ◌++◌, arith, ok, length, some,
  append-nil, append_assoc,
}
use wincred_libsecret_wsl_pl.Prelude.Exec.{◌>>=◌, lift}
use wincred_libsecret_wsl_pl.Prelude.Results.{Result-cases}
use wincred_libsecret_wsl_pl.Protocol.Frame.{
  Bytes, Codec, IsLawful, max_frame_size, of_be, to_be32, decode_payload, encode_payload,
  read_frame, write_frame, memory_reader, memory_writer, take_exact,
}

-- A length below 2³² survives the header.
of_be-to_be32 : (n : ℕ) → n < 2 ^ 32 → of_be 0 (to_be32 n) ≡ n
of_be-to_be32 n h = omega arith

pub take_exact-append : (a b : Bytes) → take_exact (length a) (a ++ b) ≡ some (a, b)
unfolding take_exact
take_exact-append [] b = refl
take_exact-append (x ∷ a) b = rw (take_exact-append a b) refl

read_exact-append : (a b : Bytes) → memory_reader.read_exact (length a) (a ++ b) ≡ (ok a, b)
read_exact-append a b = rw (memory_reader, take_exact-append a b) refl

module _ {T : Type 0} (c : Codec T) where
  encode_payload-ok :
      (t : T) (p : Bytes)
      → encode_payload c t ≡ ok p
      → (c.into_writer t ≡ ok p)
        × ((length p == 0) ≡ false)
        × (ltb max_frame_size (length p) ≡ false)
  unfolding encode_payload
  encode_payload-ok t p h = elim (Result-cases (c.into_writer t)) [
    | inr (e, failed) ↦ absurd (ground arith)
    | inl (w, written) ↦ ground arith
  ]

  decode_payload-ok :
      IsLawful c
      → (t : T) (p : Bytes) → c.into_writer t ≡ ok p
      → decode_payload c (length p) p ≡ ok t
  unfolding decode_payload
  decode_payload-ok law t p w =
      let whole = rw append-nil at (law.from_reader-into_writer t p [] w) in ground (arith, whole)

  -- After the header, the reader takes the payload off the stream.
  read_frame-header :
      (n : ℕ) (rest : Bytes)
      → (n == 0) ≡ false
      → ltb max_frame_size n ≡ false
      → read_frame c memory_reader (to_be32 n ++ rest)
        ≡ (memory_reader.read_exact n >>= λ p. lift (decode_payload c n p)) rest
  unfolding read_frame take_exact ◌>>=◌
  read_frame-header n rest full small = rw (of_be-to_be32 n (ground arith), full, small) refl

  read_body :
      (n : ℕ) (t : T) (p before after : Bytes)
      → memory_reader.read_exact n before ≡ (ok p, after)
      → decode_payload c n p ≡ ok t
      → (memory_reader.read_exact n >>= λ q. lift (decode_payload c n q)) before ≡ (ok t, after)
  unfolding ◌>>=◌
  read_body n t p before after r e = rw (r, e) refl

  -- With a lawful codec, what a successful write of a frame adds to a stream in memory is read
  -- back as the value, and what follows it stays unread.
  pub read_frame-write_frame :
      IsLawful c
      → (t : T) (before after : Bytes) → (write_frame c memory_writer t before).0 ≡ ok tt
      → (frame : Bytes) × ((write_frame c memory_writer t before).1 ≡ before ++ frame)
        × (read_frame c memory_reader (frame ++ after) ≡ (ok t, after))
  unfolding write_frame read_frame ◌>>=◌
  read_frame-write_frame law t before after h = elim (Result-cases (encode_payload c t)) [
    | inr (e, failed) ↦ absurd (ground arith)
    | inl (p, encoded) ↦
        let (written, full, small) = encode_payload-ok t p encoded in
        (
          to_be32 (length p) ++ p,
          rw (encoded, append_assoc) refl,
          read_frame-header (length p) (p ++ after) full small
              ∙ read_body (length p) t p (p ++ after) after (read_exact-append p after)
                  (decode_payload-ok law t p written),
        )
  ]
