-- ===== src/Broker/WinCred/Held.antt =====
-- The mutex of crates/broker/src/wincred.rs over what Windows documents of mutexes: every operation takes it
-- within the bound of the wait, or fails, and gives it back.
use wincred_libsecret_wsl_pl.Prelude.{
  ap, arith, Bool-cases, ltb, length, err, inl, inr, none, ok, refl, some, sym, subst, List, Option,
  Result, [], ◌-◌, ◌<◌, ◌∷◌, ◌≡◌, ◌^◌, ◌∙◌, ℕ, ◌⊎◌,
}
use wincred_libsecret_wsl_pl.Protocol.Errors.{BrokerError}
use wincred_libsecret_wsl_pl.Protocol.Message.{Operation, ResponseBody}
use wincred_libsecret_wsl_pl.Broker.Backend.{VaultBackend, Action}
use wincred_libsecret_wsl_pl.Broker.Metadata.{Deps}
use wincred_libsecret_wsl_pl.Broker.Service.{dispatch, execute, locked}
use wincred_libsecret_wsl_pl.Broker.Service.Keeps.{KeepsCalls, dispatch-Keeps}
use wincred_libsecret_wsl_pl.Broker.Windows.{Credential, WaitEvent, Wide, WinApi}
use wincred_libsecret_wsl_pl.Broker.WinCred.{
  WinState, acquire_lock, create_user_mutex, delete, enumerate, guarded, read, release, take_mutex,
  wait_for_mutex, waited, wincred_backend, write, windows, closing, lock_wait_milliseconds,
}
use wincred_libsecret_wsl_pl.Broker.WinCred.Lock.{KeepsTokens, create_user_mutex-Keeps}

-- The mutexes that the thread owns, by their handles. A wait that is not for ever ends; it gives
-- the mutex, of its own or of an owner that has ended, or it does not; a release gives it back, and
-- no other call does either.
pub record IsMutexes {W : Type 0} (api : WinApi W) : Type 0 where
  pub held : W → List ℕ
  pub wait_returns :
      (handle time : ℕ) (w : W)
      → time < 2 ^ 32 - 1
      → (event : WaitEvent) × (w' : W) × (api.wait_for_single_object handle time w
          ≡ some (event, w'))
  pub wait_taken :
      (handle time : ℕ) (w : W) (event : WaitEvent) (w' : W)
      → api.wait_for_single_object handle time w ≡ some (event, w')
      → (event ≡ WaitEvent.wait_object_0) ⊎ (event ≡ WaitEvent.wait_abandoned)
      → held w' ≡ handle ∷ held w
  pub wait_missed :
      (handle time : ℕ) (w : W) (event : WaitEvent) (w' : W)
      → api.wait_for_single_object handle time w ≡ some (event, w')
      → (event ≡ WaitEvent.wait_timeout) ⊎ (event ≡ WaitEvent.other_event)
      → held w' ≡ held w
  pub release_done :
      (handle : ℕ) (w : W) (rest : List ℕ)
      → held w ≡ handle ∷ rest
      → held (api.release_mutex handle w) ≡ rest
  pub tokens_keep : (own : List ℕ) → KeepsTokens api (λ w. held w ≡ own)
  pub read_keeps : (n : Wide) (kind : ℕ) (w : W) → held (api.cred_read n kind w).1 ≡ held w
  pub write_keeps :
      (credential : Credential) (w : W) → held (api.cred_write credential w).1 ≡ held w
  pub delete_keeps : (n : Wide) (kind : ℕ) (w : W) → held (api.cred_delete n kind w).1 ≡ held w
  pub enumerate_keeps : (filter : Wide) (w : W) → held (api.cred_enumerate filter w).1 ≡ held w

module _ (d : Deps) {S A : Type 0} (b : VaultBackend S) (m : Action S A) (s s' : S) where
  locked-taken :
      b.acquire_lock s ≡ some (ok tt, s') → locked d b m s ≡ some ((m s').0, b.release (m s').1)
  unfolding locked
  locked-taken e = ground (arith, e)

  locked-refused :
      (x : BrokerError) → b.acquire_lock s ≡ some (err x, s') → locked d b m s ≡ some (err x, s')
  unfolding locked
  locked-refused x e = ground (arith, e)

module _ (d : Deps) {W : Type 0} (api : WinApi W) (m : IsMutexes api) where
  abbrev backend : VaultBackend (WinState W)
  backend = wincred_backend d.crates api

  -- Nothing of the lock is held.
  abbrev pub Free : WinState W → Type 0
  Free s = (s.guard ≡ none) × (m.held s.system ≡ [])

  -- The mutex of a handle is held, and the state will give it back.
  abbrev Held : ℕ → WinState W → Type 0
  Held handle s = (s.guard ≡ some handle) × (m.held s.system ≡ handle ∷ [])

  write-held : (t : _) (blob : _) (w : W) → m.held (write d.crates api t blob w).1 ≡ m.held w
  unfolding write windows wincred_libsecret_wsl_pl.Prelude.Exec.raise
  write-held t blob w = elim (Bool-cases (ltb (length blob) (2 ^ 32))) [
    | inl p ↦ rw p (m.write_keeps _ w)
    | inr p ↦ rw p refl
  ]

  Held-KeepsCalls : (handle : ℕ) → KeepsCalls (wincred_backend d.crates api) (Held handle)
  unfolding read delete enumerate
  Held-KeepsCalls handle = record {
    on_read = λ t. record { at = λ s h. (h.0, m.read_keeps _ _ s.system ∙ h.1) };
    on_write = λ t blob. record { at = λ s h. (h.0, write-held t blob s.system ∙ h.1) };
    on_delete = λ t. record { at = λ s h. (h.0, m.delete_keeps _ _ s.system ∙ h.1) };
    on_enumerate = record { at = λ s h. (h.0, m.enumerate_keeps _ s.system ∙ h.1) };
  }

  release-Free : (handle : ℕ) (s : WinState W) → Held handle s → Free (release d.crates api s)
  unfolding release
  release-Free handle s h =
      rw h.0 (refl, (m.tokens_keep []).on_close handle _ (m.release_done handle s.system [] h.1))

  -- What a wait for the mutex has come to.
  abbrev Taken : Result BrokerError ℕ → W → Type 0
  Taken (ok handle) w = m.held w ≡ handle ∷ []
  Taken (err e) w = m.held w ≡ []

  waited-Taken :
      (handle : ℕ) (w : W) (event : WaitEvent) (w' : W)
      → api.wait_for_single_object handle lock_wait_milliseconds w ≡ some (event, w')
      → m.held w ≡ []
      → Taken (waited d.crates api handle event w').0 (waited d.crates api handle event w').1
  unfolding waited closing wincred_libsecret_wsl_pl.Prelude.Exec.pure
      wincred_libsecret_wsl_pl.Prelude.Exec.raise
  waited-Taken handle w WaitEvent.wait_object_0 w' e h =
      m.wait_taken handle _ w _ w' e (inl refl) ∙ ap (λ l. handle ∷ l) h
  waited-Taken handle w WaitEvent.wait_abandoned w' e h =
      m.wait_taken handle _ w _ w' e (inr refl) ∙ ap (λ l. handle ∷ l) h
  waited-Taken handle w WaitEvent.wait_timeout w' e h =
      (m.tokens_keep []).on_close handle w' (m.wait_missed handle _ w _ w' e (inl refl) ∙ h)
  waited-Taken handle w WaitEvent.other_event w' e h =
      (m.tokens_keep []).on_close handle w' (m.wait_missed handle _ w _ w' e (inr refl) ∙ h)

  wait_for_mutex-Taken :
      (r : Result BrokerError ℕ) (w : W)
      → m.held w ≡ []
      → (r' : Result BrokerError ℕ) × (w' : W) × (wait_for_mutex d.crates api r w ≡ some (r', w'))
        × Taken r' w'
  unfolding wait_for_mutex
  wait_for_mutex-Taken (err e) w h = (err e, w, refl, h)
  wait_for_mutex-Taken (ok handle) w h =
      let (event, w', e) = m.wait_returns handle lock_wait_milliseconds w (omega arith) in
      (
        (waited d.crates api handle event w').0,
        (waited d.crates api handle event w').1,
        ap
            (λ (o : Option (WaitEvent × W)). elim o as (λ _. Option (Result BrokerError ℕ × W)) [
              | none ↦ none
              | some (x, y) ↦ some (waited d.crates api handle x y)
            ])
            e,
        waited-Taken handle w event w' e h,
      )

  take_mutex-Taken :
      (w : W)
      → m.held w ≡ []
      → (r : Result BrokerError ℕ) × (w' : W) × (take_mutex d.crates api w ≡ some (r, w'))
        × Taken r w'
  unfolding take_mutex
  take_mutex-Taken w h =
      wait_for_mutex-Taken (create_user_mutex d.crates api w).0 (create_user_mutex d.crates api w).1
        ((create_user_mutex-Keeps d.crates api (m.tokens_keep [])).at w h)

  acquire_lock-taken :
      (s : WinState W) (r : Result BrokerError ℕ) (w : W)
      → take_mutex d.crates api s.system ≡ some (r, w)
      → acquire_lock d.crates api s ≡ some (guarded d.crates api r w s)
  unfolding acquire_lock
  acquire_lock-taken s r w e = ground (arith, e)

  -- Over a Windows in which a wait that is not for ever ends, a wait may give its mutex to the
  -- thread, and only a release gives it back: every operation over the Windows store returns from
  -- a state in which no mutex is held, whether it gets the lock or not and whatever the other
  -- calls come to, and no mutex is held after it.
  pub execute-answers :
      (operation : Operation) (s : WinState W)
      → Free s
      → (r : Result BrokerError ResponseBody) × (s' : WinState W) × (execute d
            (wincred_backend d.crates api)
            operation
            s
          ≡ some (r, s'))
        × Free s'
  unfolding execute
  execute-answers operation s (unguarded, unheld) =
      let (r, w, e, h) = take_mutex-Taken s.system unheld in answered r w e h
    where
      answered :
          (r : Result BrokerError ℕ) (w : W)
          → take_mutex d.crates api s.system ≡ some (r, w)
          → Taken r w
          → (r' : Result BrokerError ResponseBody) × (s' : WinState W) × (execute d backend
                operation s
              ≡ some (r', s'))
            × Free s'
      answered (err x) w e h = (
        err x,
        record s { system = w },
        locked-refused d backend (dispatch d backend operation) s (record s { system = w }) x
            (acquire_lock-taken s (err x) w e),
        (unguarded, h),
      )
      answered (ok handle) w e h =
          let under : WinState W = record { system = w; guard = some handle } in
          let done = dispatch d backend operation under in
          (
            done.0,
            release d.crates api done.1,
            locked-taken d backend (dispatch d backend operation) s under
                (acquire_lock-taken s (ok handle) w e),
            release-Free handle done.1
                ((dispatch-Keeps d backend (Held-KeepsCalls handle) operation).at under (refl, h)),
          )
