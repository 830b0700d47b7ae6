-- ===== src/Provider/Process.antt =====
-- The running broker of `ProcessBroker` in crates/provider/src/broker.rs: the check of its handshake, and
-- the requests that wait for their answers. A caller is the number of its one-shot channel.
pub mod Delivery
pub mod Handshake
use wincred_libsecret_wsl_pl.Prelude.{
  ℕ, suc, ◌+◌, ◌%◌, ◌^◌, Bool, true, false, not, Option, none, some, List, [], ◌∷◌, map, ◌==◌,
  if◌then◌else◌, Result, ok, err,
}
use wincred_libsecret_wsl_pl.Prelude.Results.{map_err, ◌>>=◌, ◌>>◌}
use wincred_libsecret_wsl_pl.Prelude.Order.{nat_ord}
use wincred_libsecret_wsl_pl.Prelude.OrdMap.{OrdMap, get, insert, remove, contains}
use wincred_libsecret_wsl_pl.Protocol.Message.{
  Capability, capability_ord, CapabilitySet, collect_set, Hello, HelloAck, Envelope, current,
  current_versions, protocol_version, validate_version, Response, ResponseBody,
}
use wincred_libsecret_wsl_pl.Provider.Errors.{ProviderError, transport, of_protocol}

-- The hello of `start`.
abbrev pub hello : Hello
hello = record {
  versions = current_versions;
  capabilities = collect_set (
      Capability.binary_secrets ∷ Capability.collections ∷ Capability.aliases
      ∷ Capability.generation_commits ∷ Capability.reconciliation ∷ Capability.atomic_item_mutations
      ∷ []);
}

-- What `start` asks of the answer.
unfoldable pub check_acknowledgement : Envelope HelloAck → Result ProviderError (Unit {0})
unfolding validate_version of_protocol contains
check_acknowledgement acknowledgement = do
  map_err of_protocol (validate_version acknowledgement)
  if not (acknowledgement.payload.version == protocol_version)
      then err transport
      else if not (contains Capability.atomic_item_mutations acknowledgement.payload.capabilities)
      then err transport
      else ok tt

abbrev pub Caller : Type 0
Caller = ℕ

-- What a caller receives.
abbrev pub Outcome : Type 0
Outcome = Result ProviderError ResponseBody

pub record RunningBroker : Type 0 where
  pub pending : OrdMap ℕ Caller
  pub requests : ℕ

abbrev pub new_running : RunningBroker
new_running = record { pending = []; requests = 1 }

-- A request's id, from a counter that wraps around, and then its entry.
unfoldable pub next_id : RunningBroker → ℕ × RunningBroker
next_id r = (r.requests, record r { requests = (r.requests + 1) % 2 ^ 64 })

unfoldable pub wait_for : ℕ → Caller → RunningBroker → RunningBroker
wait_for id caller r = record r { pending = insert id caller r.pending }

-- A request that could not be written.
unfoldable pub abandon : ℕ → RunningBroker → RunningBroker
abandon id r = record r { pending = remove id r.pending }

-- A response that the reader has read: its caller, if one waits for it, gets the result.
unfoldable pub deliver : Response → RunningBroker → Option (Caller × Outcome) × RunningBroker
deliver response r = elim (get response.request_id r.pending) [
  | none ↦ (none, r)
  | some caller ↦ (
    some (caller, map_err ProviderError.broker response.result),
    record r { pending = remove response.request_id r.pending },
  )
]

-- The end of the reader and of the process: whoever waits gets a failure.
unfoldable pub drain : RunningBroker → List (Caller × Outcome) × RunningBroker
drain r = (map (λ entry. (entry.1, err transport)) r.pending, record r { pending = [] })
