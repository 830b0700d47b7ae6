-- ===== src/Broker/WinCred/Lock.antt =====
-- The lock of crates/broker/src/wincred.rs: taking and dropping it leaves the credentials alone.
use wincred_libsecret_wsl_pl.Prelude.{
  subst, sym, some_injective, chain-eq_some, ap, ℕ, ◌≡◌, refl, ◌∙◌, some, Result, ok, err,
}
use wincred_libsecret_wsl_pl.Prelude.Exec.{Exec}
use wincred_libsecret_wsl_pl.Prelude.Exec.Keeps.{Keeps, keeps_rules}
use wincred_libsecret_wsl_pl.Protocol.Errors.{BrokerError}
use wincred_libsecret_wsl_pl.Protocol.Target.{Crates}
use wincred_libsecret_wsl_pl.Prelude.{inl, inr, Option-cases}
use wincred_libsecret_wsl_pl.Broker.Windows.{Wide, WinError, WinApi, WaitEvent}
use wincred_libsecret_wsl_pl.Broker.WinCred.{
  create_user_mutex, wait_for_mutex, lock_wait_milliseconds, WinState, windows, closing, measure,
  sid_of_token, current_user_sid, waited, take_mutex, guarded, acquire_lock, release,
}
use wincred_libsecret_wsl_pl.Broker.WinCred.Manager.{IsManager}

-- What the calls on tokens, descriptors and handles keep.
pub record KeepsTokens {W : Type 0} (api : WinApi W) (P : W → Type 0) : Type 0 where
  pub on_open : (w : W) → P w → P (api.open_process_token w).1
  pub on_length : (token : ℕ) (w : W) → P w → P (api.token_user_length token w).1
  pub on_user : (token size : ℕ) (w : W) → P w → P (api.token_user token size w).1
  pub on_sid : (sid : ℕ) (w : W) → P w → P (api.convert_sid sid w).1
  pub on_descriptor : (sddl : Wide) (w : W) → P w → P (api.convert_descriptor sddl w).1
  pub on_mutex : (descriptor : ℕ) (n : Wide) (w : W) → P w → P (api.create_mutex descriptor n w).1
  pub on_close : (handle : ℕ) (w : W) → P w → P (api.close_handle handle w)

module _ (c : Crates) {W : Type 0} (api : WinApi W) {P : W → Type 0} (k : KeepsTokens api P) where
  windows-Keeps :
      {A : Type 0} (call : Exec W WinError A)
      → ((w : W) → P w → P (call w).1)
      → Keeps P (windows c api call)
  unfolding windows
  windows-Keeps call keeps = record { at = keeps }

  measure-Keeps :
      {A : Type 0} (f : W → A × W) → ((w : W) → P w → P (f w).1) → Keeps P (measure c api f)
  measure-Keeps f keeps = record { at = keeps }

  closing-Keeps :
      {A : Type 0} (handle : ℕ) (body : Exec W BrokerError A)
      → Keeps P body
      → Keeps P (closing c api handle body)
  unfolding closing
  closing-Keeps handle body kept = record { at = λ w h. k.on_close handle (body w).1 (kept.at w h) }

  ruleset lock_rules = (keeps_rules, windows-Keeps, measure-Keeps, closing-Keeps)

  sid_of_token-Keeps : (token : ℕ) → Keeps P (sid_of_token c api token)
  unfolding sid_of_token
  sid_of_token-Keeps token = search (lock_rules, k.on_length, k.on_user, k.on_sid) depth 12

  current_user_sid-Keeps : Keeps P (current_user_sid c api)
  unfolding current_user_sid
  current_user_sid-Keeps = search (lock_rules, sid_of_token-Keeps, k.on_open) depth 12

  pub waited-Keeps : (handle : ℕ) (event : WaitEvent) → Keeps P (waited c api handle event)
  unfolding waited
  waited-Keeps handle WaitEvent.wait_object_0 = search lock_rules
  waited-Keeps handle WaitEvent.wait_abandoned = search lock_rules
  waited-Keeps handle WaitEvent.wait_timeout = search lock_rules
  waited-Keeps handle WaitEvent.other_event = search lock_rules

  pub create_user_mutex-Keeps : Keeps P (create_user_mutex c api)
  unfolding create_user_mutex
  create_user_mutex-Keeps =
      search (lock_rules, current_user_sid-Keeps, k.on_descriptor, k.on_mutex) depth 14

module _ (c : Crates) {W : Type 0} (api : WinApi W) (m : IsManager api) (w₀ : W) where
  -- The credentials are those of `w₀`.
  abbrev Same : W → Type 0
  Same w = (n : Wide) → m.stored w n ≡ m.stored w₀ n

  Same-KeepsTokens : KeepsTokens api Same
  Same-KeepsTokens = record {
    on_open = λ w h n. m.open_process_token_keeps w n ∙ h n;
    on_length = λ token w h n. m.token_user_length_keeps token w n ∙ h n;
    on_user = λ token size w h n. m.token_user_keeps token size w n ∙ h n;
    on_sid = λ sid w h n. m.convert_sid_keeps sid w n ∙ h n;
    on_descriptor = λ sddl w h n. m.convert_descriptor_keeps sddl w n ∙ h n;
    on_mutex = λ descriptor name w h n. m.create_mutex_keeps descriptor name w n ∙ h n;
    on_close = λ handle w h n. m.close_handle_keeps handle w n ∙ h n;
  }

  wait_for_mutex-Same :
      (r r' : Result BrokerError ℕ) (w w' : W)
      → wait_for_mutex c api r w ≡ some (r', w')
      → Same w
      → Same w'
  unfolding wait_for_mutex
  wait_for_mutex-Same (err e) r' w w' h same = subst Same (ap (λ x. x.1) (some_injective h)) same
  wait_for_mutex-Same (ok handle) r' w w' h same =
      let ((event, t), e, q) =
        chain-eq_some (api.wait_for_single_object handle lock_wait_milliseconds w)
          (λ x. some (waited c api handle x.0 x.1)) (r', w') h in
      subst Same (ap (λ x. x.1) (some_injective q)) (
        (waited-Keeps c api Same-KeepsTokens handle event).at t
          λ n. m.wait_keeps handle lock_wait_milliseconds w event t n e ∙ same n)

  take_mutex-Same :
      (r : Result BrokerError ℕ) (w w' : W) → take_mutex c api w ≡ some (r, w') → Same w → Same w'
  unfolding take_mutex
  take_mutex-Same r w w' h same =
      wait_for_mutex-Same (create_user_mutex c api w).0 r (create_user_mutex c api w).1 w' h
        ((create_user_mutex-Keeps c api Same-KeepsTokens).at w same)

module _ (c : Crates) {W : Type 0} (api : WinApi W) where
  guarded-system :
      (r : Result BrokerError ℕ) (w : W) (s : WinState W) → (guarded c api r w s).1.system ≡ w
  guarded-system (ok handle) w s = refl
  guarded-system (err e) w s = refl

  pub acquire_lock-Same :
      (m : IsManager api) (s : WinState W) (r : Result BrokerError (Unit {0})) (s' : WinState W)
      (n : Wide)
      → acquire_lock c api s ≡ some (r, s')
      → m.stored s'.system n ≡ m.stored s.system n
  unfolding acquire_lock
  acquire_lock-Same m s r s' n e =
      let ((taken, w), took, q) =
        chain-eq_some (take_mutex c api s.system) (λ x. some (guarded c api x.0 x.1 s)) (r, s') e in
      let same : s'.system ≡ w =
        sym (ap (λ x. x.1.system) (some_injective q)) ∙ guarded-system taken w s in
      rw same (take_mutex-Same c api m s.system taken s.system w took (λ _. refl) n)

  pub release-Same :
      (m : IsManager api) (s : WinState W) (n : Wide)
      → m.stored (release c api s).system n ≡ m.stored s.system n
  unfolding release
  release-Same m s n = elim (Option-cases s.guard) [
    | inl e ↦ rw e
    | inr (handle, e) ↦ rw e (
        m.close_handle_keeps handle (api.release_mutex handle s.system) n
        ∙ m.release_mutex_keeps handle s.system n)
  ]
