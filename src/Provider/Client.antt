-- ===== src/Provider/Client.antt =====
-- `retry_safe` and `ProcessBroker::call` of crates/provider/src/broker.rs. The broker process is the
-- parameter: a request and a restart, each an action on a state.
pub mod Retry
use wincred_libsecret_wsl_pl.Prelude.{Bool, true, false, Result, ok, err}
use wincred_libsecret_wsl_pl.Prelude.Exec.{
  Exec, match_result, lift, raise, outcome, pure, ◌>>=◌, ◌>>◌,
}
use wincred_libsecret_wsl_pl.Protocol.Message.{Operation, ResponseBody}
use wincred_libsecret_wsl_pl.Provider.Errors.{ProviderError, transport, timeout, indeterminate}

unfoldable pub retry_safe : Operation → Bool
retry_safe Operation.ping = true
retry_safe Operation.list_collections = true
retry_safe (Operation.get_collection _) = true
retry_safe Operation.list_aliases = true
retry_safe (Operation.resolve_alias _) = true
retry_safe (Operation.search_items _) = true
retry_safe (Operation.list_items _) = true
retry_safe (Operation.get_item _ _) = true
retry_safe _ = false

-- `matches!(first, Err(Transport | Timeout))`
abbrev pub was_lost : Result ProviderError ResponseBody → Bool
was_lost (err ProviderError.transport) = true
was_lost (err ProviderError.timeout) = true
was_lost _ = false

-- `request_once`, and `restart`, which cannot fail.
pub record Process (P : Type 0) : Type 0 where
  pub request_once : Operation → Exec P ProviderError ResponseBody
  pub restart : P → P

module _ {P : Type 0} (p : Process P) where
  unfoldable pub call : Operation → Exec P ProviderError ResponseBody
  call operation s =
      let (first, s₁) = p.request_once operation s in
      let s₂ = p.restart s₁ in
      elim (was_lost first) [
        | false ↦ (first, s₁)
        | true ↦ elim (retry_safe operation) [
          | true ↦ p.request_once operation s₂
          | false ↦ (err indeterminate, s₂)
        ]
      ]
