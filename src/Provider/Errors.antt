-- ===== src/Provider/Errors.antt =====
-- crates/provider/src/error.rs: the errors of the provider, and what D-Bus clients see of them.
use wincred_libsecret_wsl_pl.Prelude.{Text, codes}
use wincred_libsecret_wsl_pl.Protocol.Errors.{
  ErrorCode, BrokerError, ProtocolError, invalid_metadata, to_string,
}

pub data ProviderError : Type 0 where
  broker : BrokerError → ProviderError
  transport timeout indeterminate : ProviderError
  invalid_request : Text → ProviderError
  invalid_session secret_too_large : ProviderError
  protocol : ProtocolError → ProviderError

pub data SecretServiceError : Type 0 where
  failed no_such_object no_such_session already_exists : Text → SecretServiceError
  is_locked access_denied limits_exceeded backend_unavailable : Text → SecretServiceError

-- `From<ProviderError>`, at a broker's error.
unfoldable pub of_broker : ErrorCode → Text → SecretServiceError
of_broker ErrorCode.not_found message = SecretServiceError.no_such_object message
of_broker ErrorCode.invalid_collection message = SecretServiceError.no_such_object message
of_broker ErrorCode.already_exists message = SecretServiceError.already_exists message
of_broker ErrorCode.conflict message = SecretServiceError.already_exists message
of_broker ErrorCode.secret_too_large message = SecretServiceError.limits_exceeded message
of_broker ErrorCode.metadata_too_large message = SecretServiceError.limits_exceeded message
of_broker ErrorCode.permission_denied message = SecretServiceError.access_denied message
of_broker ErrorCode.backend_unavailable message = SecretServiceError.backend_unavailable message
of_broker _ message = SecretServiceError.failed message

abbrev unavailable : SecretServiceError
unavailable =
    SecretServiceError.backend_unavailable
      (codes "Windows Credential Manager broker is unavailable")

-- `From<ProviderError> for SecretServiceError`.
unfoldable pub of_provider : ProviderError → SecretServiceError
unfolding of_broker to_string
of_provider (ProviderError.broker e) = of_broker e.code e.message
of_provider ProviderError.secret_too_large =
    SecretServiceError.limits_exceeded
      (codes "secret exceeds the 2560-byte Windows Credential Manager limit")
of_provider ProviderError.invalid_session =
    SecretServiceError.no_such_session (codes "unknown or expired session")
of_provider (ProviderError.invalid_request message) = SecretServiceError.failed message
of_provider ProviderError.transport = unavailable
of_provider ProviderError.timeout = unavailable
of_provider ProviderError.indeterminate = unavailable
of_provider (ProviderError.protocol e) = SecretServiceError.failed (to_string e)

-- `From<ProtocolError> for ProviderError`.
unfoldable pub of_protocol : ProtocolError → ProviderError
unfolding to_string
of_protocol (invalid_metadata m) = ProviderError.invalid_request (to_string (invalid_metadata m))
of_protocol e = ProviderError.protocol e
