-- ===== src/Worker/Pairing/Examples.antt =====
-- The theorems on pairing at concrete inputs.
use sendself.Base.{◌≡◌, refl, none, [], ◌∷◌, txt, str_eq}
use sendself.Errors.{err, conflict}
use sendself.Worker.Tables.{Server, SlotDevice}
use sendself.Worker.Pairing.Slot.{reserve_slot, new_slot}
use sendself.Worker.Pairing.Slot.Reservation.{reserve_slot-first}
use sendself.Worker.Pairing.Join.{Join, join}
use sendself.Worker.Pairing.Join.Completion.{Outcome, join-Outcome}
use sendself.Worker.Sample.{sample_server, sample_slot_device}

abbrev slot_server : Server
slot_server = record sample_server { slots = new_slot (txt "p") sample_slot_device 7 ∷ [] }

-- Another device with the same id.
abbrev impostor : SlotDevice
impostor = record sample_slot_device { public_key = txt "other" }

reserve_slot-first_example :
    reserve_slot (txt "p") impostor 9 slot_server ≡ (err conflict, slot_server)
unfolding reserve_slot str_eq
reserve_slot-first_example =
    reserve_slot-first (txt "p") sample_slot_device 7 sample_server slot_server impostor 9 refl

abbrev sample_join : Join
sample_join = record {
  pairing_id = txt "p";
  group_id = txt "g";
  device = sample_slot_device;
  name_enc = txt "name";
  name_iv = txt "iv";
  attestation = none;
  token_hash = txt "n";
  key_epoch = 1;
  wrapped_package = txt "package";
  ephemeral_public_key = txt "eph";
  now = 8;
}

join-Outcome_example : Outcome sample_join slot_server (join sample_join slot_server)
join-Outcome_example = join-Outcome sample_join slot_server
