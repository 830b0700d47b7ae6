-- ===== src/Provider/Process/Handshake.antt =====
-- The handshake between `ProcessBroker::start` of crates/provider/src/broker.rs and `negotiate` of
-- crates/protocol/src/message.rs.
use wincred_libsecret_wsl_pl.Prelude.{In, true, ◌≡◌, ◌↔◌, refl, arith, ok}
use wincred_libsecret_wsl_pl.Prelude.OrdMap.{add, contains, contains_iff}
use wincred_libsecret_wsl_pl.Protocol.Message.{
  protocol_version, capability_ord, collect_set, VersionRange, CapabilitySet, Capability, HelloAck,
  current, negotiate,
}
use wincred_libsecret_wsl_pl.Protocol.Message.Negotiation.{negotiate-capabilities_iff}
use wincred_libsecret_wsl_pl.Provider.Process.{hello, check_acknowledgement}

hello-version :
    (versions : VersionRange) (capabilities : CapabilitySet) (ack : HelloAck)
    → negotiate hello versions capabilities ≡ ok ack
    → ack.version ≡ protocol_version
unfolding negotiate
hello-version versions capabilities ack h = ground arith

hello-mutations : In Capability.atomic_item_mutations hello.capabilities
unfolding contains collect_set add
hello-mutations = (contains_iff Capability.atomic_item_mutations hello.capabilities).0 refl

-- Of the answers that `negotiate` gives to the provider's hello, `check_acknowledgement` accepts
-- exactly those of brokers that have atomic item mutations.
pub check_acknowledgement_iff :
    (versions : VersionRange) (capabilities : CapabilitySet) (ack : HelloAck)
    → negotiate hello versions capabilities ≡ ok ack
    → (check_acknowledgement (current ack) ≡ ok tt)
      ↔ (contains Capability.atomic_item_mutations capabilities ≡ true)
unfolding check_acknowledgement
check_acknowledgement_iff versions capabilities ack h = (
  λ a.
      there.1
        ((shared.0 (here.0 (ground (arith, hello-version versions capabilities ack h, a)))).1),
  λ a. ground (
    arith,
    hello-version versions capabilities ack h,
    here.1 (shared.1 (hello-mutations, there.0 a)),
  ),
)
  where
    here :
        (contains Capability.atomic_item_mutations ack.capabilities ≡ true)
        ↔ In Capability.atomic_item_mutations ack.capabilities
    here = contains_iff Capability.atomic_item_mutations ack.capabilities

    there :
        (contains Capability.atomic_item_mutations capabilities ≡ true)
        ↔ In Capability.atomic_item_mutations capabilities
    there = contains_iff Capability.atomic_item_mutations capabilities

    shared : In Capability.atomic_item_mutations ack.capabilities ↔ (
        In Capability.atomic_item_mutations hello.capabilities
        × In Capability.atomic_item_mutations capabilities)
    shared =
        negotiate-capabilities_iff hello versions capabilities ack h
          Capability.atomic_item_mutations
