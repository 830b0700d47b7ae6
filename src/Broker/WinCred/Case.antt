-- ===== src/Broker/WinCred/Case.antt =====
-- Two names of the project that Windows takes for one, in crates/broker/src/wincred.rs.
use wincred_libsecret_wsl_pl.Prelude.{◌≡◌, ◌∙◌, ap, true, Option, some, Result, ok}
use wincred_libsecret_wsl_pl.Protocol.Errors.{BrokerError}
use wincred_libsecret_wsl_pl.Protocol.Model.{Blob}
use wincred_libsecret_wsl_pl.Protocol.Target.{Crates, TargetName}
use wincred_libsecret_wsl_pl.Broker.Windows.{WinApi}
use wincred_libsecret_wsl_pl.Broker.WinCred.{WinState, wide_target, wincred_backend}
use wincred_libsecret_wsl_pl.Broker.WinCred.Manager.{IsManager}
use wincred_libsecret_wsl_pl.Broker.WinCred.Effects.{
  content, read_lem, Written, stored_as, refused, write-Written,
}

module _ (c : Crates) {W : Type 0} (api : WinApi W) (m : IsManager api) where
  stored-Written :
      (t u : TargetName) (blob : Blob) (w : W) (r : Result BrokerError (Unit {0}) × W)
      → Written c api m t blob w r
      → m.same (wide_target c t) (wide_target c u) ≡ true
      → r.0 ≡ ok tt
      → content (m.stored r.1 (wide_target c u)) ≡ some blob
  stored-Written t u blob w _ (stored_as name w' spelled after) same h =
      ap content (after (wide_target c u)) ∙ rw same
  stored-Written t u blob w _ (refused e w' kept) same h = absurd (cc h)

  -- With a Windows store that keeps credentials by name, where the names of two targets are the
  -- same to Windows, a read of the second that succeeds after a write of the first that succeeds
  -- returns what was written to the first.
  pub read-write_same :
      (t u : TargetName) (blob : Blob) (s : WinState W) (o : Option Blob)
      → m.same (wide_target c t) (wide_target c u) ≡ true
      → ((wincred_backend c api).write t blob s).0 ≡ ok tt
      → ((wincred_backend c api).read u ((wincred_backend c api).write t blob s).1).0 ≡ ok o
      → o ≡ some blob
  read-write_same t u blob s o same sent found =
      read_lem c api m u ((wincred_backend c api).write t blob s).1 o found
      ∙ stored-Written t u blob s.system _ (write-Written c api m t blob s.system) same sent
