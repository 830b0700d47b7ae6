-- ===== src/Provider/Service/Answers.antt =====
-- The calls of crates/provider/src/service.rs that succeed: their checks, and the answer they took.
use wincred_libsecret_wsl_pl.Prelude.{◌≡◌, refl, arith, inl, inr, Result, ok, err}
use wincred_libsecret_wsl_pl.Prelude.Results.{Result-cases}
use wincred_libsecret_wsl_pl.Prelude.Exec.{Exec, ◌>>=◌, ◌>>◌}
use wincred_libsecret_wsl_pl.Protocol.Errors.{ProtocolError}
use wincred_libsecret_wsl_pl.Protocol.Message.{Operation, ResponseBody}
use wincred_libsecret_wsl_pl.Provider.Errors.{ProviderError}
use wincred_libsecret_wsl_pl.Provider.Service.{BrokerClient, check, ask}

-- Behind a check that lets an action through, the action is all there is.
pub check-ok :
    {W A : Type 0} (r : Result ProtocolError (Unit {0})) (k : Exec W ProviderError A) (w : W)
    (a : A)
    → ((check r >> k) w).0 ≡ ok a
    → (check r >> k) w ≡ k w
unfolding check ◌>>=◌
check-ok (ok x) k w a h = refl
check-ok (err e) k w a h = ground arith

-- An answer that was taken came from the broker, and the broker left its state.
pub ask-ok :
    {W A : Type 0} (call : BrokerClient W) (take : ResponseBody → Result ProviderError A)
    (op : Operation) (w : W) (a : A)
    → (ask call take op w).0 ≡ ok a
    → (body : ResponseBody) × ((call op w).0 ≡ ok body)
      × (take body ≡ ok a)
      × ((ask call take op w).1 ≡ (call op w).1)
unfolding ask ◌>>=◌
ask-ok call take op w a h = elim (Result-cases (call op w).0) [
  | inl (body, e) ↦ (body, e, ground (arith, e, h), ground (arith, e))
  | inr (x, e) ↦ ground (arith, e, h)
]
