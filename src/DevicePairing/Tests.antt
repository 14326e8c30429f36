-- ===== src/DevicePairing/Tests.antt =====
-- Runs of services/runtime/src/device-pairing.ts, and its theorems at concrete offers.
use nova_test.Common.Map
use nova_test.Common.{◌≡◌, refl, [], none, true, arith, ◌⊕◌, text_dec}
use mathlib.Core.Logic.{ite}
use mathlib.Core.Bool.{false}
use nova_test.Shared.{ok}
use nova_test.DevicePairing.{
  PairingOptions, PairingOffer, PairingRequest, DevicePairingManager, DeviceRuntimeMode-discrete,
  companion, create_offer, complete_pairing, device_of, is_request,
}
use nova_test.DevicePairing.Admission.{Admits, signature_replays}

program : Unit {0}
unfolding DeviceRuntimeMode-discrete text_dec Map.get Map.set Map.delete create_offer
    complete_pairing is_request
program = tt

abbrev options : PairingOptions
options = record {
  verify_signature = λ key payload signature. ite (text_dec signature (key ⊕ payload)) true false;
  stringify = λ challenge mode. challenge;
  trim = λ s. s;
  ttl_ms = none;
}

abbrev initial : DevicePairingManager
initial = record { offers = []; trusted = [] }

abbrev offered : DevicePairingManager
offered =
    (create_offer options initial (record { runtime_mode = companion; primary_public_key = "K" })
      "1234" "token" 0 10).0

abbrev offer : PairingOffer
offer = record {
  code = "1234";
  channel_token = "token";
  primary_public_key = "K";
  runtime_mode = companion;
  expires_at = 30010;
}

abbrev phone : PairingRequest
phone = record {
  device_id = "phone";
  device_public_key = "P";
  challenge = "c";
  signature = "Kc";
  runtime_mode = companion;
  confirmed = true;
}

abbrev stranger : PairingRequest
stranger = record phone { device_id = "stranger"; device_public_key = "S" }

paired_run : (complete_pairing options offered "1234" phone 20 21).1 ≡ ok (device_of phone 21)
unfolding program
paired_run = refl

admitted : Admits options offered "1234" phone 20
unfolding program
admitted = record {
  offer = offer;
  whole = refl;
  found = refl;
  alive = omega arith;
  agreed = refl;
  fresh = refl;
  signed = refl;
}

signature_replays_example :
    (complete_pairing options offered "1234" stranger 30 31).1 ≡ ok (device_of stranger 31)
unfolding program admitted
signature_replays_example =
    signature_replays options offered offered "1234" "1234" phone stranger 20 30 31 offer admitted
      refl refl refl refl refl refl refl (omega arith) refl
