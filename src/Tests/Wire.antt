-- ===== src/Tests/Wire.antt =====
-- Runs of the protocol and of the provider on concrete messages.
use wincred_libsecret_wsl_pl.Prelude.{
  inl, inr, ℕ, suc, ◌+◌, ◌-◌, ◌≤◌, ◌≡◌, ◌≢◌, refl, ◌↔◌, ◌⊎◌, Bool, true, false, Option, none, some,
  List, [], ◌∷◌, ◌++◌, In, codes, Result, ok, err, arith, Text, every,
}
use wincred_libsecret_wsl_pl.Prelude.OrdMap.{get, insert, contains}
use wincred_libsecret_wsl_pl.Prelude.Results.{map_err}
use wincred_libsecret_wsl_pl.Protocol.Message.{Response, ResponseBody, capability_ord}
use wincred_libsecret_wsl_pl.Provider.Errors.{ProviderError}
use wincred_libsecret_wsl_pl.Provider.Process.{RunningBroker, Caller, next_id, wait_for, deliver}
use wincred_libsecret_wsl_pl.Provider.Process.Delivery.{
  History, Reachable, start, numbered, waiting, deliver-own,
}
use wincred_libsecret_wsl_pl.Prelude.Order.{nat_ord}
use wincred_libsecret_wsl_pl.Protocol.Model.{Uuid}
use wincred_libsecret_wsl_pl.Protocol.Target.{Crates, TargetName, display, from_str, is_utf8}
use wincred_libsecret_wsl_pl.Protocol.Target.RoundTrip.{from_str-display, display-from_str, IsValid}
use wincred_libsecret_wsl_pl.Protocol.Vault.{
  RecoveryInventory, plan_recovery, delete_abandoned_generation,
}
use wincred_libsecret_wsl_pl.Protocol.Vault.Plan.{plan_recovery-delete_iff}
use wincred_libsecret_wsl_pl.Protocol.Message.{
  Capability, CapabilitySet, Hello, HelloAck, VersionRange, negotiate, in_range, Operation,
}
use wincred_libsecret_wsl_pl.Protocol.Message.Negotiation.{negotiate-highest}
use wincred_libsecret_wsl_pl.Protocol.Frame.{
  Bytes, write_frame, read_frame, memory_reader, memory_writer,
}
use wincred_libsecret_wsl_pl.Protocol.Frame.RoundTrip.{read_frame-write_frame}
use wincred_libsecret_wsl_pl.Broker.Samples.{
  crates, crates-IsFaithful, item_codec, item_codec-IsLawful, sample_item,
}
use wincred_libsecret_wsl_pl.Broker.ReadOnly.{is_read}
use wincred_libsecret_wsl_pl.Provider.Errors.{transport, indeterminate}
use wincred_libsecret_wsl_pl.Provider.Client.{Process, call}
use wincred_libsecret_wsl_pl.Provider.Client.Retry.{call-once}
use wincred_libsecret_wsl_pl.Provider.Paths.{
  collection_path, item_path, session_path, collection_id, item_id, session_id,
}
use wincred_libsecret_wsl_pl.Provider.Paths.RoundTrip.{IsSimple, paths-roundtrip}

default-IsValid : IsValid (TargetName.alias (codes "default"))
unfolding is_utf8
default-IsValid = (omega arith, omega arith, refl, refl)

from_str-display_example :
    from_str crates (display crates (TargetName.alias (codes "default")))
    ≡ ok (TargetName.alias (codes "default"))
from_str-display_example =
    from_str-display crates crates-IsFaithful (TargetName.alias (codes "default")) default-IsValid

parse_ok : from_str crates (codes "WinCredLibSecret/v1/collection/7") ≡ ok (TargetName.collection 7)
unfolding from_str
parse_ok = refl

display-from_str_example :
    (display crates (TargetName.collection 7) ≡ codes "WinCredLibSecret/v1/collection/7")
    × IsValid (TargetName.collection 7)
display-from_str_example =
    display-from_str crates crates-IsFaithful (codes "WinCredLibSecret/v1/collection/7")
      (TargetName.collection 7) parse_ok

abbrev inventory : RecoveryInventory
inventory = record { committed_generations = (5, 3) ∷ []; stored_generations = (5, 2) ∷ [] }

plan_recovery-delete_iff_example :
    In (delete_abandoned_generation 5 2) (plan_recovery inventory) ↔ (
      In (5, 2) inventory.stored_generations × (¬ (get 5 inventory.committed_generations ≡ some 2)))
plan_recovery-delete_iff_example = plan_recovery-delete_iff 5 2 inventory

abbrev client : Hello
client = record {
  versions = record { minimum = 1; maximum = 3 };
  capabilities = Capability.binary_secrets ∷ Capability.aliases ∷ [];
}

abbrev server_versions : VersionRange
server_versions = record { minimum = 2; maximum = 4 }

abbrev server_capabilities : CapabilitySet
server_capabilities = Capability.aliases ∷ []

abbrev acknowledgement : HelloAck
acknowledgement = record { version = 3; capabilities = Capability.aliases ∷ [] }

negotiate_ok : negotiate client server_versions server_capabilities ≡ ok acknowledgement
unfolding negotiate wincred_libsecret_wsl_pl.Prelude.OrdMap.contains
negotiate_ok = refl

negotiate-highest_example :
    (in_range client.versions 3 ≡ true)
    × (in_range server_versions 3 ≡ true)
    × ((v : ℕ) → in_range client.versions v ≡ true → in_range server_versions v ≡ true → v ≤ 3)
negotiate-highest_example =
    negotiate-highest client server_versions server_capabilities acknowledgement negotiate_ok

write_ok : (write_frame item_codec memory_writer sample_item []).0 ≡ ok tt
unfolding write_frame
write_ok = refl

read_frame-write_frame_example :
    (frame : Bytes) × ((write_frame item_codec memory_writer sample_item []).1 ≡ [] ++ frame)
    × (read_frame item_codec memory_reader (frame ++ (1 ∷ 2 ∷ [])) ≡ (ok sample_item, 1 ∷ 2 ∷ []))
read_frame-write_frame_example =
    read_frame-write_frame item_codec item_codec-IsLawful sample_item [] (1 ∷ 2 ∷ []) write_ok

-- A process that loses every request, with the number of requests and of restarts.
abbrev lossy : Process (ℕ × ℕ)
lossy = record {
  request_once = λ op s. (err transport, (suc s.0, s.1));
  restart = λ s. (s.0, suc s.1);
}

delete_writes : is_read (Operation.delete_item 5) ≡ false
unfolding is_read
delete_writes = refl

call-once_example :
    (call lossy (Operation.delete_item 5) (0, 0)
      ≡ lossy.request_once (Operation.delete_item 5) (0, 0))
    ⊎ (call lossy (Operation.delete_item 5) (0, 0) ≡ (err indeterminate, (1, 1)))
call-once_example = call-once lossy (Operation.delete_item 5) (0, 0) delete_writes

abbrev pub last_digit : Text → Option Uuid
last_digit [] = none
last_digit (c ∷ []) = some (c - 48)
last_digit (c ∷ d ∷ t) = last_digit (d ∷ t)

-- Identifiers as 32 hexadecimal digits, of which the last one is read.
abbrev pub hex_crates : Crates
hex_crates = record crates {
  simple = λ u. codes "0000000000000000000000000000000" ++ ((u + 48) ∷ []);
  parse_str = last_digit;
}

pub five_IsSimple : IsSimple hex_crates 5
five_IsSimple = record { simple_length = refl; simple_hexdigits = refl; parse_str-simple = refl }

paths-roundtrip_example :
    (collection_id hex_crates (collection_path hex_crates 5) ≡ some 5)
    × (item_id hex_crates (item_path hex_crates 5) ≡ some 5)
    × (session_id hex_crates (session_path hex_crates 5) ≡ some 5)
    × (item_id hex_crates (collection_path hex_crates 5) ≡ none)
    × (session_id hex_crates (collection_path hex_crates 5) ≡ none)
    × (collection_id hex_crates (item_path hex_crates 5) ≡ none)
    × (session_id hex_crates (item_path hex_crates 5) ≡ none)
    × (collection_id hex_crates (session_path hex_crates 5) ≡ none)
    × (item_id hex_crates (session_path hex_crates 5) ≡ none)
paths-roundtrip_example = paths-roundtrip hex_crates 5 five_IsSimple

-- Callers 8 and 9 ask, and the answer to the second request comes first.
abbrev pub two_callers : RunningBroker
two_callers = record { pending = (1, 8) ∷ (2, 9) ∷ []; requests = 3 }

abbrev pub pong_2 : Response
pong_2 = record { request_id = 2; result = ok ResponseBody.pong }

abbrev pub two_requests : History
two_requests = (2, 9) ∷ (1, 8) ∷ []

two_callers-Reachable : Reachable two_callers two_requests
unfolding next_id wait_for insert
two_callers-Reachable =
    waiting _ _ 2 9
      (waiting _ _ 1 8 (numbered _ _ 9 (numbered _ _ 8 start (omega arith)) (omega arith))
        (inr (inl refl)))
      (inl refl)

deliver-own_example :
    In (2, 9) two_requests
    × ((other : Caller) → In (2, other) two_requests → other ≡ 9)
    × (ok ResponseBody.pong ≡ map_err ProviderError.broker pong_2.result)
    × ((again : Response)
        → again.request_id ≡ 2
        → (deliver again (deliver pong_2 two_callers).1).0 ≡ none)
unfolding deliver get
deliver-own_example =
    deliver-own two_callers two_requests pong_2 9 (ok ResponseBody.pong) two_callers-Reachable refl
