-- ===== src/DevicePairing.antt =====
-- services/runtime/src/device-pairing.ts: offers of a device to pair with it, and the devices that
-- it trusts. The code and the token of an offer and the readings of the clock are arguments. The
-- options hold the signature check, `JSON.stringify` of a challenge and a mode, and `trim`.
pub mod Admission
mod Tests
use nova_test.Common.Map
use nova_test.Common.Map.{Map}
use nova_test.Common.{
  ℕ, ◌+◌, refl, Bool, true, false, not, ◌&&◌, List, [], String, Option, none, some, ltb, leb,
  if◌then◌else◌, or_else, text_dec, is_some,
}
use mathlib.Core.Logic.{ite}
use nova_test.Shared.{ErrorInfo, Result, ok, err, nova_sec001}

pub data DeviceRuntimeMode : Type 0 where
  full_peer companion : DeviceRuntimeMode

unfoldable pub DeviceRuntimeMode-discrete : Discrete DeviceRuntimeMode
DeviceRuntimeMode-discrete full_peer full_peer = yes refl
DeviceRuntimeMode-discrete companion companion = yes refl
DeviceRuntimeMode-discrete full_peer companion = no (λ e. cc)
DeviceRuntimeMode-discrete companion full_peer = no (λ e. cc)

pub record PairingOffer : Type 0 where
  pub code : String
  pub channel_token : String
  pub primary_public_key : String
  pub runtime_mode : DeviceRuntimeMode
  pub expires_at : ℕ

pub record PairingOptions : Type 0 where
  pub verify_signature : String → String → String → Bool
  pub stringify : String → DeviceRuntimeMode → String
  pub trim : String → String
  pub ttl_ms : Option ℕ

pub record PairingRequest : Type 0 where
  pub device_id : String
  pub device_public_key : String
  pub challenge : String
  pub signature : String
  pub runtime_mode : DeviceRuntimeMode
  pub confirmed : Bool

-- The state of a trusted device is always `Trusted`.
pub record TrustedDevice : Type 0 where
  pub device_id : String
  pub device_public_key : String
  pub runtime_mode : DeviceRuntimeMode
  pub paired_at : ℕ

pub record DevicePairingManager : Type 0 where
  pub offers : Map PairingOffer
  pub trusted : Map TrustedDevice

pub record OfferInput : Type 0 where
  pub runtime_mode : DeviceRuntimeMode
  pub primary_public_key : String

abbrev pub security_error : String → ErrorInfo
security_error message = record {
  code = nova_sec001;
  message = message;
  retryable = false;
  details = [];
}

unfoldable pub has_text : PairingOptions → String → Bool
has_text o value = ite (text_dec (o.trim value) "") false true

abbrev pub same_mode : DeviceRuntimeMode → DeviceRuntimeMode → Bool
same_mode a b = ite (DeviceRuntimeMode-discrete a b) true false

-- From the new offer on.
unfoldable pub issue :
    PairingOptions
    → DevicePairingManager
    → PairingOffer
    → DevicePairingManager × Result PairingOffer
unfolding has_text
issue o m offer =
    if has_text o offer.code
      && has_text o offer.channel_token
      && has_text o offer.primary_public_key
    then (record m { offers = Map.set m.offers offer.code offer }, ok offer)
    else (m, err (security_error "Pairing offer fields are invalid."))

-- `checked` is the clock for the offer that has the code already, `created` for the new one.
unfoldable pub create_offer :
    PairingOptions
    → DevicePairingManager
    → OfferInput
    → String
    → String
    → ℕ
    → ℕ
    → DevicePairingManager × Result PairingOffer
unfolding issue
create_offer o m input code token checked created =
    let ttl = or_else o.ttl_ms 30000 in
    let offer : PairingOffer = record {
      code = code;
      channel_token = token;
      primary_public_key = input.primary_public_key;
      runtime_mode = input.runtime_mode;
      expires_at = created + ttl;
    } in
    if ltb 0 ttl && leb ttl 9007199254740991
    then elim (Map.get m.offers code) [
      | none ↦ issue o m offer
      | some existing ↦
          if ltb checked existing.expires_at
          then (m, err (security_error "Pairing offer code is already active."))
          else issue o (record m { offers = Map.delete m.offers code }) offer
    ]
    else (m, err (security_error "Pairing offer TTL must be a positive safe integer."))

unfoldable pub is_request : PairingOptions → String → PairingRequest → Bool
unfolding has_text
is_request o code r =
    has_text o code
    && has_text o r.device_id
    && has_text o r.device_public_key
    && has_text o r.challenge
    && has_text o r.signature
    && r.confirmed

abbrev pub device_of : PairingRequest → ℕ → TrustedDevice
device_of r paired_at = record {
  device_id = r.device_id;
  device_public_key = r.device_public_key;
  runtime_mode = r.runtime_mode;
  paired_at = paired_at;
}

-- The guards of `completePairing` after the offer is found, with the message of the first that
-- refuses.
unfoldable pub objection :
    PairingOptions → DevicePairingManager → PairingOffer → PairingRequest → Option String
objection o m offer r =
    if not r.confirmed
    then some "Pairing requires explicit user confirmation."
    else if not (same_mode r.runtime_mode offer.runtime_mode)
    then some "Paired devices disagree on runtime mode."
    else if Map.has m.trusted r.device_id
    then some "Device is already trusted; unpair before re-pairing."
    else if o.verify_signature offer.primary_public_key (o.stringify r.challenge r.runtime_mode)
        r.signature
    then none
    else some "Pairing challenge signature could not be verified."

-- `checked` is the clock for the expiry, `paired` for the new device.
unfoldable pub complete_pairing :
    PairingOptions
    → DevicePairingManager
    → String
    → PairingRequest
    → ℕ
    → ℕ
    → DevicePairingManager × Result TrustedDevice
unfolding is_request objection
complete_pairing o m code r checked paired =
    if is_request o code r
    then elim (Map.get m.offers code) [
      | none ↦ (m, err (security_error "Pairing offer is expired or unavailable."))
      | some offer ↦
          if ltb checked offer.expires_at
          then elim (objection o m offer r) [
            | some message ↦ (m, err (security_error message))
            | none ↦ (
              record {
                offers = Map.delete m.offers code;
                trusted = Map.set m.trusted r.device_id (device_of r paired);
              },
              ok (device_of r paired),
            )
          ]
          else (m, err (security_error "Pairing offer is expired or unavailable."))
    ]
    else (m, err (security_error "Pairing request fields are invalid."))

unfoldable pub get : DevicePairingManager → String → Result TrustedDevice
get m id = elim (Map.get m.trusted id) [
  | none ↦ err (security_error "Device is not trusted.")
  | some device ↦ ok device
]

unfoldable pub list_trusted : DevicePairingManager → List TrustedDevice
list_trusted m = Map.values m.trusted

pub data Done : Type 0 where
  done : Done

unfoldable pub unpair : DevicePairingManager → String → DevicePairingManager × Result Done
unpair m id =
    if Map.has m.trusted id
    then (record m { trusted = Map.delete m.trusted id }, ok done)
    else (m, err (security_error "Device is not trusted."))
