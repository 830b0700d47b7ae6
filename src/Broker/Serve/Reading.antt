-- ===== src/Broker/Serve/Reading.antt =====
-- A frame that crates/protocol/src/frame.rs reads from a stream in memory leaves less of the stream.
use wincred_libsecret_wsl_pl.Prelude.{
  Bool, true, false, subst, ◌≡◌, ◌⊎◌, if◌then◌else◌, sym, ap, inl, inr, ℕ, zero, suc, ◌+◌, ◌<◌, ◌≤◌,
  some, [], ◌∷◌, Result, ok, err, length, arith, Option-cases, ltb, ◌==◌,
}
use wincred_libsecret_wsl_pl.Protocol.Frame.{
  Bytes, Codec, read_frame, memory_reader, take_exact, eof, of_be, max_frame_size, decode_payload,
}
use wincred_libsecret_wsl_pl.Prelude.Exec.{continue, ◌>>=◌, raise, lift}
use wincred_libsecret_wsl_pl.Protocol.Errors.{ProtocolError, empty_frame, frame_too_large}

take_exact-shorter :
    (n : ℕ) (bytes front rest : Bytes)
    → take_exact n bytes ≡ some (front, rest)
    → n + length rest ≡ length bytes
unfolding take_exact
take_exact-shorter zero bytes front rest h = ground (arith, h)
take_exact-shorter (suc n) [] front rest h = absurd (cc h)
take_exact-shorter (suc n) (b ∷ bytes) front rest h = elim (Option-cases (take_exact n bytes)) [
  | inl e ↦ absurd (ground (arith, h, e))
  | inr ((f, r), e) ↦ ground (arith, h, e, take_exact-shorter n bytes f r e)
]

-- A read takes what was asked for, or uses the stream up.
read_exact-cases :
    (n : ℕ) (bytes : Bytes)
    → ((front : Bytes) × (rest : Bytes) × (memory_reader.read_exact n bytes ≡ (ok front, rest))
        × (n + length rest ≡ length bytes))
      ⊎ (memory_reader.read_exact n bytes ≡ (err eof, []))
read_exact-cases n bytes = elim (Option-cases (take_exact n bytes)) [
  | inl e ↦ inr (ground (arith, e))
  | inr ((f, r), e) ↦ inl (f, r, ground (arith, e), take_exact-shorter n bytes f r e)
]

module _ {T : Type 0} (c : Codec T) where
  -- What stands between the header and the value.
  read_frame_body :
      (front rest : Bytes) (bytes : Bytes)
      → memory_reader.read_exact 4 bytes ≡ (ok front, rest)
      → read_frame c memory_reader bytes ≡ (
          let size = of_be 0 front in
          if size == 0
          then raise empty_frame rest
          else if ltb max_frame_size size
          then raise (frame_too_large size max_frame_size) rest
          else (memory_reader.read_exact size >>= λ p. lift (decode_payload c size p)) rest)
  unfolding read_frame ◌>>=◌ raise lift
  read_frame_body front rest bytes e = ground (arith, e)

  pub read_frame-eof :
      (bytes : Bytes)
      → memory_reader.read_exact 4 bytes ≡ (err eof, [])
      → read_frame c memory_reader bytes ≡ (err eof, [])
  unfolding read_frame ◌>>=◌
  read_frame-eof bytes e = ground (arith, e)

  -- If the outcome is a value, no more is left than there was.
  abbrev Shorter : Bytes → Result ProtocolError T × Bytes → Type 0
  Shorter rest r = (t : T) → r.0 ≡ ok t → length r.1 ≤ length rest

  if-Shorter :
      (rest : Bytes) (test : Bool) (x y : Result ProtocolError T × Bytes)
      → Shorter rest x
      → Shorter rest y
      → Shorter rest (if test then x else y)
  if-Shorter rest true x y a b = a
  if-Shorter rest false x y a b = b

  raise-Shorter : (rest : Bytes) (e : ProtocolError) → Shorter rest (raise e rest)
  unfolding raise
  raise-Shorter rest e t h = absurd (cc h)

  payload-Shorter :
      (size : ℕ) (rest : Bytes)
      → Shorter rest ((memory_reader.read_exact size >>= λ p. lift (decode_payload c size p)) rest)
  unfolding ◌>>=◌ lift
  payload-Shorter size rest t h = elim (read_exact-cases size rest) [
    | inr e ↦ absurd (ground (arith, h, e))
    | inl (front, left, e, l) ↦
        shorter (memory_reader.read_exact size rest) left (ap (λ x. x.1) e) (omega (arith, l))
  ]
    where
      shorter :
          (r : Result ProtocolError Bytes × Bytes) (left : Bytes)
          → r.1 ≡ left
          → length left ≤ length rest
          → length (continue r.0 (λ p. lift (decode_payload c size p)) r.1).1 ≤ length rest
      shorter (ok p, x) left e l = rw e l
      shorter (err x, y) left e l = rw e l

  pub read_frame_shorter :
      (bytes : Bytes) (t : T)
      → (read_frame c memory_reader bytes).0 ≡ ok t
      → length (read_frame c memory_reader bytes).1 < length bytes
  read_frame_shorter bytes t h = elim (read_exact-cases 4 bytes) [
    | inr e ↦ absurd (cc (h, read_frame-eof bytes e))
    | inl (front, rest, e, l) ↦
        let all : Shorter rest (read_frame c memory_reader bytes) =
          subst (Shorter rest) (sym (read_frame_body front rest bytes e)) (
            if-Shorter rest (of_be 0 front == 0) _ _ (raise-Shorter rest empty_frame) (
              if-Shorter rest (ltb max_frame_size (of_be 0 front)) _ _
                (raise-Shorter rest (frame_too_large (of_be 0 front) max_frame_size))
                (payload-Shorter (of_be 0 front) rest))) in
        omega (arith, all t h, l)
  ]
