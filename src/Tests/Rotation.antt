-- ===== src/Tests/Rotation.antt =====
-- A second run of Phase 2, under the identity that the first one left with the drone.
use uav_omnet.Base.{
  ◌≡◌, refl, none, some, [], ◌∷◌, false, pos, eq_ℤ, to_u16, bytes_eq, replicate, take, drop, lookup,
  insert, inl, inr, arith,
}
use uav_omnet.Core.{FieldId, of_list}
use uav_omnet.Wire.{MessageType, Message, blank, mac_input, mac_type_tag}
use uav_omnet.Crypto.X25519
use uav_omnet.Protocol.Flow.{done}
use uav_omnet.Protocol.Credentials.{pack_credentials}
use uav_omnet.Protocol.State.{GroundStation, Phase2GsSession, no_gs_session}
use uav_omnet.Protocol.GroundStation.{
  answers_to, find_by_tid, pair_credential, credentials_for, tids_for, handle_m3,
}
use uav_omnet.Protocol.Handshake.Registry.{Registered}
use uav_omnet.Protocol.Handshake.Terms.{input_of_m3}
use uav_omnet.Protocol.Safety.Station.{field, device_of}
use uav_omnet.Protocol.Safety.Rotation.{Silent, next_tid, handle_m3_strands}
use uav_omnet.Tests.Toy.{sum, mac}
use uav_omnet.Tests.Encoding.{encode_field, encode_each, encode_fields}
use uav_omnet.Tests.World.{env, first_device, second_device, station}
use uav_omnet.Tests.Exchange.{message_of, state_after}

abbrev session : Phase2GsSession
session = record no_gs_session {
  uav_id = pos 0;
  auth_key = 1 ∷ [];
  n1 = 2 ∷ [];
  n2 = 3 ∷ [];
  epk_a = replicate 32 4;
  ephemeral = record { secret = replicate 32 5; public_key = replicate 32 5; erased = false };
  transcript = 6 ∷ [];
}

-- The drone has taken the pending identity 77 from the first run and has got M2 of the second.
abbrev before : GroundStation
before = record station {
  devices = (pos 0, record first_device { pending_tid = 77 ∷ [] }) ∷ (pos 1, second_device) ∷ [];
  sessions = (pos 0, session) ∷ [];
}

abbrev confirm : Message
confirm = record blank {
  type = MessageType.p2_m3_uav_confirm;
  suite_id = 1;
  fields = of_list (
      (FieldId.tid, 77 ∷ [])
      ∷ (FieldId.mac_tag, mac (1 ∷ []) (input_of_m3 env 1 (77 ∷ []) (6 ∷ [])))
      ∷ []);
}

abbrev after : GroundStation
after = state_after before (handle_m3 env confirm 900 before)

record Rotates : Type 0 where
  accepts :
      handle_m3 env confirm 900 before
      ≡ done (some (message_of (handle_m3 env confirm 900 before))) after
  filed : lookup (device_of before confirm).uav_id before.devices ≡ some (device_of before confirm)
  silent : Silent (field confirm FieldId.tid) (device_of before confirm).uav_id before.devices
  old : bytes_eq (device_of before confirm).tid (field confirm FieldId.tid) ≡ false
  new : bytes_eq (next_tid env before confirm) (field confirm FieldId.tid) ≡ false

rotates : Rotates
unfolding handle_m3 sum take drop answers_to find_by_tid bytes_eq replicate mac_input mac_type_tag
    X25519.x25519_derive X25519.erase mac encode_field encode_each encode_fields lookup insert
    pack_credentials credentials_for tids_for pair_credential to_u16 eq_ℤ
rotates = record {
  accepts = refl;
  filed = refl;
  silent = (inl refl, (inr refl, tt));
  old = refl;
  new = refl;
}

registered : Registered 0 before.devices
registered = ground arith

handle_m3_strands_example : find_by_tid (field confirm FieldId.tid) after.devices ≡ none
handle_m3_strands_example =
    handle_m3_strands env confirm 900 before after
      (some (message_of (handle_m3 env confirm 900 before))) registered rotates.silent rotates.old
      rotates.new rotates.accepts
