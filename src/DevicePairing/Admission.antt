-- ===== src/DevicePairing/Admission.antt =====
-- When `completePairing` of services/runtime/src/device-pairing.ts trusts a device.
use nova_test.Common.Map
use nova_test.Common.{
  ℕ, ◌<◌, ◌≡◌, sym, ◌∙◌, ◌≢◌, inl, inr, true, String, none, some, arith, Option-cases,
}
use nova_test.Shared.{ok}
use nova_test.DevicePairing.{
  PairingOptions, PairingOffer, PairingRequest, TrustedDevice, DevicePairingManager, is_request,
  objection, device_of, complete_pairing,
}

-- The request is whole and confirmed, its offer stands and has not expired, both sides agree on the
-- mode, the device is not trusted yet, and the signature is one of the challenge and the mode under
-- the key of the offer.
pub record Admits (o : PairingOptions) (m : DevicePairingManager) (code : String)
    (r : PairingRequest) (checked : ℕ) : Type 0 where
  pub offer : PairingOffer
  pub whole : is_request o code r ≡ true
  pub found : Map.get m.offers code ≡ some offer
  pub alive : checked < offer.expires_at
  pub agreed : r.runtime_mode ≡ offer.runtime_mode
  pub fresh : Map.get m.trusted r.device_id ≡ none
  pub signed :
      o.verify_signature offer.primary_public_key
        (o.stringify r.challenge r.runtime_mode)
        r.signature
      ≡ true

Admits-complete :
    (o : PairingOptions) (m : DevicePairingManager) (code : String) (r : PairingRequest)
    (checked paired : ℕ)
    → Admits o m code r checked
    → (complete_pairing o m code r checked paired).1 ≡ ok (device_of r paired)
unfolding complete_pairing objection is_request
Admits-complete o m code r checked paired h =
    ground (arith, h.whole, h.found, h.alive, h.agreed, h.fresh, h.signed)

-- What a successful pairing changes: the device of the request is trusted, with the key and the mode
-- of the request, no other device is, and the offer is used up.
pub record Trusts (m after : DevicePairingManager) (code : String) (r : PairingRequest) (paired : ℕ)
    : Type 0 where
  pub added : Map.get after.trusted r.device_id ≡ some (device_of r paired)
  pub others : (j : String) → r.device_id ≢ j → Map.get after.trusted j ≡ Map.get m.trusted j
  pub used : Map.get after.offers code ≡ none

used_up :
    (o : PairingOptions) (m : DevicePairingManager) (code : String) (r : PairingRequest)
    (checked paired : ℕ) (d : TrustedDevice)
    → (complete_pairing o m code r checked paired).1 ≡ ok d
    → Map.get (complete_pairing o m code r checked paired).0.offers code ≡ none
unfolding complete_pairing
used_up o m code r checked paired d h = elim (Option-cases (Map.get m.offers code)) [
  | inl e ↦ absurd (ground arith)
  | inr (offer, e) ↦ elim (Option-cases (objection o m offer r)) [
    | inr (message, f) ↦ absurd (ground arith)
    | inl f ↦ ground (arith, Map.get-delete m.offers code code)
  ]
]

no_offer :
    (o : PairingOptions) (m : DevicePairingManager) (code : String) (r : PairingRequest)
    (checked paired : ℕ) (d : TrustedDevice)
    → Map.get m.offers code ≡ none
    → (complete_pairing o m code r checked paired).1 ≢ ok d
unfolding complete_pairing
no_offer o m code r checked paired d e h = absurd (ground arith)

-- An offer pairs one device: after a pairing, no request under the same code succeeds until there
-- is a new offer.
pub pairing_once :
    (o : PairingOptions) (m : DevicePairingManager) (code : String) (r s : PairingRequest)
    (checked paired later after : ℕ) (d e : TrustedDevice)
    → (complete_pairing o m code r checked paired).1 ≡ ok d
    → (complete_pairing o (complete_pairing o m code r checked paired).0 code s later after).1
      ≢ ok e
pairing_once o m code r s checked paired later after d e h =
    no_offer o (complete_pairing o m code r checked paired).0 code s later after e
      (used_up o m code r checked paired d h)

-- The signature binds neither the device nor the offer: the challenge and the signature of one
-- admitted request admit any other device under any standing offer with the same key and mode.
pub signature_replays :
    (o : PairingOptions) (m n : DevicePairingManager) (code other : String) (r s : PairingRequest)
    (checked later paired : ℕ) (offer : PairingOffer) (h : Admits o m code r checked)
    → is_request o other s ≡ true
    → s.challenge ≡ r.challenge
    → s.signature ≡ r.signature
    → s.runtime_mode ≡ r.runtime_mode
    → Map.get n.offers other ≡ some offer
    → offer.primary_public_key ≡ h.offer.primary_public_key
    → offer.runtime_mode ≡ h.offer.runtime_mode
    → later < offer.expires_at
    → Map.get n.trusted s.device_id ≡ none
    → (complete_pairing o n other s later paired).1 ≡ ok (device_of s paired)
signature_replays o m n code other r s checked later paired offer h whole c g t f k u alive fresh =
    Admits-complete o n other s later paired (record {
      offer = offer;
      whole = whole;
      found = f;
      alive = alive;
      agreed = t ∙ h.agreed ∙ sym u;
      fresh = fresh;
      signed = ground (arith, h.signed, k, c, t, g);
    })
