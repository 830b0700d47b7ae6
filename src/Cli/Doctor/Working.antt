-- ===== src/Cli/Doctor/Working.antt =====
-- What the state of a distribution says of its findings, in crates/cli/src/main.rs.
use wincred_libsecret_wsl_pl.Prelude.{◌≡◌, ◌↔◌, arith, Bool, true, false, Result, ok, err, Text}
use wincred_libsecret_wsl_pl.Cli.Lifecycle.{CommandResult}
use wincred_libsecret_wsl_pl.Cli.Doctor.{
  enablement_finding, wsl2_finding, distribution_diagnostics, Format, Distribution, working, state,
  all_ok, distribution_findings,
}

-- The state of a distribution, from the registry's answer and the helper's where it is asked, is
-- enabled and working exactly where every finding on it is ok.
pub state-working_iff :
    (format : Format) (d : Distribution) (enablement : Result Text Bool)
    (remote : Result Text CommandResult)
    → (state (distribution_findings format d enablement remote) ≡ working)
      ↔ (all_ok (distribution_findings format d enablement remote).findings ≡ true)
unfolding state distribution_findings distribution_diagnostics wsl2_finding enablement_finding
state-working_iff format d (ok true) remote = (λ h. ground (arith, h), λ h. ground (arith, h))
state-working_iff format d (ok false) remote = (λ h. ground (arith, h), λ h. ground (arith, h))
state-working_iff format d (err e) remote = (λ h. ground (arith, h), λ h. ground (arith, h))
