-- ===== src/Provider/Client/Retry.antt =====
-- What `ProcessBroker::call` of crates/provider/src/broker.rs may send twice.
use wincred_libsecret_wsl_pl.Prelude.{◌≡◌, refl, ◌⊎◌, inl, inr, false, err, arith, Bool-cases}
use wincred_libsecret_wsl_pl.Protocol.Message.{Operation}
use wincred_libsecret_wsl_pl.Broker.ReadOnly.{is_read}
use wincred_libsecret_wsl_pl.Provider.Errors.{indeterminate}
use wincred_libsecret_wsl_pl.Provider.Client.{retry_safe, Process, call, was_lost}

-- The operations that the provider may send again are those that `is_read` accepts.
pub retry_safe-is_read : (op : Operation) → retry_safe op ≡ is_read op
unfolding retry_safe is_read
retry_safe-is_read op = refl

module _ {P : Type 0} (p : Process P) where
  -- An operation that may write is sent once: the call is the request, or it ends with an
  -- indeterminate outcome in the state of the restart after that request.
  pub call-once :
      (op : Operation) (s : P)
      → is_read op ≡ false
      → (call p op s ≡ p.request_once op s)
        ⊎ (call p op s ≡ (err indeterminate, p.restart (p.request_once op s).1))
  unfolding call
  call-once op s h = elim (Bool-cases (was_lost (p.request_once op s).0)) [
    | inl lost ↦ inr (ground (arith, lost, retry_safe-is_read op, h))
    | inr answered ↦ inl (ground (arith, answered))
  ]
