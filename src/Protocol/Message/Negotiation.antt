-- ===== src/Protocol/Message/Negotiation.antt =====
-- What `negotiate` of crates/protocol/src/message.rs agrees on.
use wincred_libsecret_wsl_pl.Prelude.{◌≡◌, ◌↔◌, ℕ, ◌≤◌, min, true, [], ◌∷◌, In, arith, ok, err}
use wincred_libsecret_wsl_pl.Prelude.OrdMap.{contains_iff}
use wincred_libsecret_wsl_pl.Protocol.Errors.{no_common_version}
use wincred_libsecret_wsl_pl.Protocol.Message.{
  Capability, capability_ord, CapabilitySet, Hello, HelloAck, VersionRange, in_range, intersection,
  negotiate,
}

In-intersection :
    (c : Capability) (a b : CapabilitySet) → In c (intersection a b) ↔ (In c a × In c b)
In-intersection c [] b = (λ h. absurd h, λ h. absurd h.0)
In-intersection c (x ∷ a) b = (
  λ h. ground (arith, contains_iff c b, contains_iff x b, In-intersection c a b),
  λ h. ground (arith, contains_iff c b, contains_iff x b, In-intersection c a b),
)

module _ (client : Hello) (server : VersionRange) (capabilities : CapabilitySet) where
  -- An agreed version lies in both ranges, and no version of both ranges is higher.
  pub negotiate-highest :
      (ack : HelloAck)
      → negotiate client server capabilities ≡ ok ack
      → (in_range client.versions ack.version ≡ true)
        × (in_range server ack.version ≡ true)
        × ((v : ℕ) → in_range client.versions v ≡ true → in_range server v ≡ true → v ≤ ack.version)
  unfolding negotiate in_range
  negotiate-highest ack h = (ground arith, ground arith, λ v a b. ground arith)

  -- The negotiation fails exactly when no version is in both ranges.
  pub negotiate-err_iff :
      (negotiate client server capabilities ≡ err no_common_version)
      ↔ ((v : ℕ) → ¬ ((in_range client.versions v ≡ true) × (in_range server v ≡ true)))
  unfolding negotiate in_range
  negotiate-err_iff =
      (λ h v p. ground arith, λ h. ground (arith, h (min client.versions.maximum server.maximum)))

  -- The agreed capabilities are those that both sides have.
  pub negotiate-capabilities_iff :
      (ack : HelloAck)
      → negotiate client server capabilities ≡ ok ack
      → (c : Capability) → In c ack.capabilities ↔ (In c client.capabilities × In c capabilities)
  unfolding negotiate
  negotiate-capabilities_iff ack h c =
      ground (arith, In-intersection c client.capabilities capabilities)
