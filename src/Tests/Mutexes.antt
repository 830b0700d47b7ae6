-- ===== src/Tests/Mutexes.antt =====
-- A Windows with the credentials of a manager and the mutexes that its thread owns.
use wincred_libsecret_wsl_pl.Prelude.{
  ap, arith, if-eq_some, inl, inr, ltb, none, refl, some, some_injective, sym, Result, List, [],
  ◌∷◌, ◌≡◌, ◌∙◌, ◌^◌, ◌-◌, if◌then◌else◌, ℕ,
}
use wincred_libsecret_wsl_pl.Prelude.Exec.{Exec}
use wincred_libsecret_wsl_pl.Protocol.Errors.{BrokerError}
use wincred_libsecret_wsl_pl.Protocol.Message.{Operation, ResponseBody}
use wincred_libsecret_wsl_pl.Broker.Samples.{deps}
use wincred_libsecret_wsl_pl.Broker.Service.{execute}
use wincred_libsecret_wsl_pl.Broker.Windows.{WaitEvent, WinApi}
use wincred_libsecret_wsl_pl.Broker.WinCred.{WinState, wincred_backend}
use wincred_libsecret_wsl_pl.Broker.WinCred.Held.{IsMutexes, Free, execute-answers}
use wincred_libsecret_wsl_pl.Broker.WinCred.Names.{lower}
use wincred_libsecret_wsl_pl.Tests.Room.{Room, one_room}

-- The credentials, and the handles of the mutexes.
abbrev pub System : Type 0
System = Room × List ℕ

abbrev room : WinApi Room
room = one_room lower

abbrev beside : {E A : Type 0} → Exec Room E A → Exec System E A
beside call w = ((call w.0).0, ((call w.0).1, w.1))

abbrev without : ℕ → List ℕ → List ℕ
without handle [] = []
without handle (_ ∷ rest) = rest

abbrev pub windows_with_mutexes : WinApi System
windows_with_mutexes = record {
  cred_type_generic = room.cred_type_generic;
  cred_persist_local_machine = room.cred_persist_local_machine;
  error_not_found = room.error_not_found;
  error_access_denied = room.error_access_denied;
  to_string = room.to_string;
  cred_read = λ n kind. beside (room.cred_read n kind);
  cred_write = λ credential. beside (room.cred_write credential);
  cred_delete = λ n kind. beside (room.cred_delete n kind);
  cred_enumerate = λ filter. beside (room.cred_enumerate filter);
  open_process_token = beside room.open_process_token;
  token_user_length = λ token w. (44, w);
  token_user = λ token size. beside (room.token_user token size);
  convert_sid = λ sid. beside (room.convert_sid sid);
  convert_descriptor = λ sddl. beside (room.convert_descriptor sddl);
  create_mutex = λ descriptor n. beside (room.create_mutex descriptor n);
  wait_for_single_object = λ handle time w.
      if ltb time (2 ^ 32 - 1) then some (WaitEvent.wait_object_0, (w.0, handle ∷ w.1)) else none;
  release_mutex = λ handle w. (w.0, without handle w.1);
  close_handle = λ handle w. w;
}

pub waited_for :
    (handle time : ℕ) (w : System) (event : WaitEvent) (w' : System)
    → windows_with_mutexes.wait_for_single_object handle time w ≡ some (event, w')
    → (WaitEvent.wait_object_0 ≡ event) × ((w.0, handle ∷ w.1) ≡ w')
waited_for handle time w event w' h =
    let (test, p) =
      if-eq_some (ltb time (2 ^ 32 - 1)) (some (WaitEvent.wait_object_0, (w.0, handle ∷ w.1)))
        (event, w') h in
    (ap (λ x. x.0) (some_injective p), ap (λ x. x.1) (some_injective p))

abbrev pub windows_with_mutexes-IsMutexes : IsMutexes windows_with_mutexes
windows_with_mutexes-IsMutexes = record {
  held = λ w. w.1;
  wait_returns = λ handle time w bounded.
      (WaitEvent.wait_object_0, (w.0, handle ∷ w.1), ground (arith, bounded));
  wait_taken =
      λ handle time w event w' h got. ap (λ x. x.1) (sym (waited_for handle time w event w' h).1);
  wait_missed = λ handle time w event w' h missed. elim missed [
    | inl e ↦ absurd (cc ((waited_for handle time w event w' h).0 ∙ e))
    | inr e ↦ absurd (cc ((waited_for handle time w event w' h).0 ∙ e))
  ];
  release_done = λ handle w rest h. ap (without handle) h;
  tokens_keep = λ own. record {
    on_open = λ w h. h;
    on_length = λ token w h. h;
    on_user = λ token size w h. h;
    on_sid = λ sid w h. h;
    on_descriptor = λ sddl w h. h;
    on_mutex = λ descriptor n w h. h;
    on_close = λ handle w h. h;
  };
  read_keeps = λ n kind w. refl;
  write_keeps = λ credential w. refl;
  delete_keeps = λ n kind w. refl;
  enumerate_keeps = λ filter w. refl;
}

abbrev pub nothing_held : WinState System
nothing_held = record { system = (none, []); guard = none }

execute-answers_example :
    (r : Result BrokerError ResponseBody) × (s' : WinState System) × (execute deps
        (wincred_backend deps.crates windows_with_mutexes)
        Operation.list_collections
        nothing_held
      ≡ some (r, s'))
    × Free deps windows_with_mutexes windows_with_mutexes-IsMutexes s'
execute-answers_example =
    execute-answers deps windows_with_mutexes windows_with_mutexes-IsMutexes
      Operation.list_collections nothing_held (refl, refl)
