-- ===== src/Protocol/Errors.antt =====
-- crates/protocol/src/error.rs: the errors of the wire protocol, and how they are displayed.
use wincred_libsecret_wsl_pl.Prelude.{
  ℕ, zero, suc, ◌+◌, ◌/◌, ◌%◌, Bool, true, false, ◌&&◌, ◌||◌, [], ◌∷◌, ◌++◌, Text, codes, ltb, ◌==◌,
  if◌then◌else◌,
}

pub data ErrorCode : Type 0 where
  invalid_request unsupported_version not_found already_exists invalid_collection : ErrorCode
  secret_too_large metadata_too_large permission_denied backend_unavailable : ErrorCode
  conflict corrupt_state internal : ErrorCode

pub record BrokerError : Type 0 where
  pub code : ErrorCode
  pub message : Text

abbrev pub broker_error : ErrorCode → Text → BrokerError
broker_error c m = record { code = c; message = m }

-- `std::io::Error`, as far as the program looks at one.
pub data IoKind : Type 0 where
  unexpected_eof other : IoKind

pub record IoError : Type 0 where
  pub kind : IoKind
  pub text : Text

pub data ProtocolError : Type 0 where
  io : IoError → ProtocolError
  frame_too_large : ℕ → ℕ → ProtocolError
  empty_frame : ProtocolError
  encode decode : Text → ProtocolError
  trailing_bytes unsupported_version : ℕ → ProtocolError
  no_common_version : ProtocolError
  invalid_metadata : Text → ProtocolError

-- Decimal formatting of an unsigned integer; `n + 1` rounds are enough for `n`.
unfoldable pub digits : ℕ → ℕ → Text
digits zero n = []
digits (suc f) n =
    let rest = digits f (n / 10) in if ltb n 10 then (n + 48) ∷ [] else rest ++ ((n % 10 + 48) ∷ [])

unfoldable pub show_nat : ℕ → Text
unfolding digits
show_nat n = digits (suc n) n

-- The `#[error("...")]` attributes.
unfoldable pub to_string : ProtocolError → Text
to_string (io e) = codes "I/O error: " ++ e.text
to_string (frame_too_large actual maximum) =
    codes "frame length "
    ++ (show_nat actual ++ (codes " exceeds the maximum " ++ show_nat maximum))
to_string empty_frame = codes "zero-length frames are invalid"
to_string (encode e) = codes "CBOR encoding failed: " ++ e
to_string (decode e) = codes "CBOR decoding failed: " ++ e
to_string (trailing_bytes n) = codes "frame contains " ++ (show_nat n ++ codes " trailing bytes")
to_string (ProtocolError.unsupported_version v) =
    codes "unsupported protocol version " ++ show_nat v
to_string no_common_version = codes "no mutually supported protocol version"
to_string (invalid_metadata e) = codes "invalid metadata: " ++ e

-- `str::starts_with` and `str::contains`.
abbrev pub starts_with : Text → Text → Bool
starts_with [] hay = true
starts_with (n ∷ ns) [] = false
starts_with (n ∷ ns) (h ∷ hs) = n == h && starts_with ns hs

abbrev pub contains : Text → Text → Bool
contains needle [] = starts_with needle []
contains needle (h ∷ hs) = starts_with needle (h ∷ hs) || contains needle hs
