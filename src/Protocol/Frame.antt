-- ===== src/Protocol/Frame.antt =====
-- crates/protocol/src/frame.rs: length-prefixed frames. The `ciborium` crate is the parameter
-- `Codec`, and a stream is a reader or a writer with a state of its own.
pub mod RoundTrip
pub mod Sequence
use wincred_libsecret_wsl_pl.Prelude.{
  ℕ, zero, suc, ◌+◌, ◌-◌, ◌*◌, ◌/◌, ◌%◌, ◌^◌, ◌≡◌, List, [], ◌∷◌, ◌++◌, Text, length, ltb, ◌==◌,
  if◌then◌else◌, codes, Option, none, some, Result, ok, err,
}
use wincred_libsecret_wsl_pl.Prelude.Exec.{Exec, raise, lift, ◌>>=◌, ◌>>◌}
use wincred_libsecret_wsl_pl.Protocol.Errors.{
  ProtocolError, io, unexpected_eof, empty_frame, frame_too_large, trailing_bytes, encode, decode,
}

abbrev pub Bytes : Type 0
Bytes = List ℕ

-- `into_writer` and `from_reader` at one type; an error is its text, and a decoded value comes with
-- the bytes that were not read.
pub record Codec (T : Type 0) : Type 0 where
  pub into_writer : T → Result Text Bytes
  pub from_reader : Bytes → Result Text (T × Bytes)

-- CBOR is self-delimiting: what was encoded decodes again, whatever follows it.
pub record IsLawful {T : Type 0} (c : Codec T) : Type 0 where
  pub from_reader-into_writer :
      (t : T) (b rest : Bytes) → c.into_writer t ≡ ok b → c.from_reader (b ++ rest) ≡ ok (t, rest)

-- `read_exact` and `write_all` with `flush`.
pub record AsyncRead (R : Type 0) : Type 0 where
  pub read_exact : ℕ → Exec R ProtocolError Bytes

pub record AsyncWrite (W : Type 0) : Type 0 where
  pub write_all : Bytes → Exec W ProtocolError (Unit {0})
  pub flush : Exec W ProtocolError (Unit {0})

abbrev pub max_frame_size : ℕ
max_frame_size = 1024 * 1024

-- `read_u32` and `write_u32` are big-endian.
abbrev pub of_be : ℕ → Bytes → ℕ
of_be acc [] = acc
of_be acc (b ∷ bs) = of_be (acc * 256 + b) bs

abbrev pub to_be32 : ℕ → Bytes
to_be32 n = (n / 2 ^ 24 % 256) ∷ (n / 2 ^ 16 % 256) ∷ (n / 2 ^ 8 % 256) ∷ (n % 256) ∷ []

module _ {T : Type 0} (c : Codec T) where
  -- From the decoder's call on: `consumed` is the cursor's position.
  unfoldable pub decode_payload : ℕ → Bytes → Result ProtocolError T
  decode_payload size payload = elim (c.from_reader payload) [
    | err e ↦ err (decode e)
    | ok (value, rest) ↦
        let consumed = length payload - length rest in
        if consumed == size then ok value else err (trailing_bytes (size - consumed))
  ]

  unfoldable pub read_frame : {R : Type 0} → AsyncRead R → Exec R ProtocolError T
  unfolding decode_payload ◌>>=◌
  read_frame r = do
    header ← r.read_exact 4
    let size = of_be 0 header
    if size == 0
        then raise empty_frame
        else if ltb max_frame_size size
        then raise (frame_too_large size max_frame_size)
        else do payload ← r.read_exact size; lift (decode_payload size payload)

  -- Past the length check, `u32::try_from` cannot fail.
  unfoldable pub encode_payload : T → Result ProtocolError Bytes
  encode_payload value = elim (c.into_writer value) [
    | err e ↦ err (encode e)
    | ok payload ↦
        if length payload == 0
        then err empty_frame
        else if ltb max_frame_size (length payload)
        then err (frame_too_large (length payload) max_frame_size)
        else ok payload
  ]

  unfoldable pub write_frame : {W : Type 0} → AsyncWrite W → T → Exec W ProtocolError (Unit {0})
  unfolding encode_payload ◌>>=◌
  write_frame w value = do
    payload ← lift (encode_payload value)
    w.write_all (to_be32 (length payload))
    w.write_all payload
    w.flush

abbrev pub eof : ProtocolError
eof = io (record { kind = unexpected_eof; text = codes "early eof" })

-- Splits off the first bytes; a stream that is too short is used up.
unfoldable pub take_exact : ℕ → Bytes → Option (Bytes × Bytes)
take_exact zero bytes = some ([], bytes)
take_exact (suc n) [] = none
take_exact (suc n) (b ∷ bs) = elim (take_exact n bs) [
  | none ↦ none
  | some (front, rest) ↦ some (b ∷ front, rest)
]

-- A stream held in memory: the reader takes from the front, the writer adds at the end.
abbrev pub memory_reader : AsyncRead Bytes
memory_reader = record {
  read_exact = λ n bytes. elim (take_exact n bytes) [
    | none ↦ (err eof, [])
    | some (front, rest) ↦ (ok front, rest)
  ];
}

abbrev pub memory_writer : AsyncWrite Bytes
memory_writer = record {
  write_all = λ bytes written. (ok tt, written ++ bytes);
  flush = λ written. (ok tt, written);
}
