-- ===== src/Nodes/Baseline/Drone.antt =====
-- nodes/BaselineUavNode.h and BaselineUavNode.cc. Measurements and the scalars of `finish` that copy them
-- are left out; of the latency signal its number is kept.
use Prim.Native.String.{String}
use uav_omnet.Base.{ℕ, ◌+◌, Bool, true, Option, none, some, List, [], ◌∷◌, ℤ}
use uav_omnet.Wire.{MessageType, Message, AbortReason, abort_reason_name, wire_bytes}
use uav_omnet.Protocol.Flow.{done, stop, fault}
use uav_omnet.Baseline.State.{BaselineEnv, BaselineUav}
use uav_omnet.Baseline.Uav.{start_phase2, handle_m2, handle_m4}
use uav_omnet.Nodes.Carrier.{SimMessage, carrying, Module, Effect}
use uav_omnet.Nodes.Station.{or_blank}

pub record BaselineUavRecord : Type 0 where
  pub success : Bool
  pub bytes_m1 : ℕ
  pub bytes_m2 : ℕ
  pub bytes_m3 : ℕ
  pub bytes_m4 : ℕ
  pub overhead_bytes : ℕ
  pub abort_reason : String

pub record BaselineUavNode (Key : Type 0) : Type 0 where
  pub uav_id : ℤ
  pub proto : BaselineUav Key
  pub rec : BaselineUavRecord
  pub auth_samples : ℕ

module _ {Key : Type 0} where
  unfoldable pub aborted : AbortReason → BaselineUavNode Key → BaselineUavNode Key
  aborted r node = record node { rec = record node.rec { abort_reason = abort_reason_name r } }

module _ {Key : Type 0} (env : BaselineEnv Key) where
  open env use {core}

  -- `send`.
  unfoldable pub uav_send : Message → BaselineUavNode Key → BaselineUavNode Key × List Effect
  uav_send payload node = (
    record node {
      rec = record node.rec { overhead_bytes = node.rec.overhead_bytes + wire_bytes core payload };
    },
    Effect.transmits (carrying payload) (some Module.ground_station) ∷ [],
  )

  -- The self-message `startBaselineAuth`.
  unfoldable pub begin_baseline :
      ℕ → BaselineUavNode Key → Option (BaselineUavNode Key × List Effect)
  begin_baseline now_ms node = elim (start_phase2 env now_ms node.proto) [
    | done reply uav ↦ some (
        uav_send (or_blank reply) (record node {
          proto = uav;
          rec = record node.rec { bytes_m1 = wire_bytes core (or_blank reply) };
        }))
    | stop r uav ↦ some (aborted r (record node { proto = uav }), [])
    | fault ↦ none
  ]

  unfoldable pub receive_b2 :
      Message → ℕ → BaselineUavNode Key → Option (BaselineUavNode Key × List Effect)
  receive_b2 payload now_ms node =
      let bytes = wire_bytes core payload in
      let counted = record node {
        rec = record node.rec {
          bytes_m2 = bytes;
          overhead_bytes = node.rec.overhead_bytes + bytes;
        };
      } in
      elim (handle_m2 env payload now_ms node.proto) [
        | done reply uav ↦ some (
            uav_send (or_blank reply) (record counted {
              proto = uav;
              rec = record counted.rec { bytes_m3 = wire_bytes core (or_blank reply) };
            }))
        | stop r uav ↦ some (aborted r (record counted { proto = uav }), [])
        | fault ↦ none
      ]

  unfoldable pub receive_b4 :
      Message → ℕ → BaselineUavNode Key → Option (BaselineUavNode Key × List Effect)
  receive_b4 payload now_ms node =
      let bytes = wire_bytes core payload in
      let counted = record node {
        rec = record node.rec {
          bytes_m4 = bytes;
          overhead_bytes = node.rec.overhead_bytes + bytes;
        };
      } in
      elim (handle_m4 env payload now_ms node.proto) [
        | done reply uav ↦ some (
          record counted {
            proto = uav;
            rec = record counted.rec { success = true };
            auth_samples = node.auth_samples + 1;
          },
          [],
        )
        | stop r uav ↦ some (aborted r (record counted { proto = uav }), [])
        | fault ↦ none
      ]

  unfoldable pub uav_message :
      SimMessage → ℕ → BaselineUavNode Key → Option (BaselineUavNode Key × List Effect)
  uav_message msg now_ms node = elim msg.payload.type [
    | MessageType.b1_m2_gs_response ↦ receive_b2 msg.payload now_ms node
    | MessageType.b1_m4_gs_confirm ↦ receive_b4 msg.payload now_ms node
    | _ ↦ some (node, [])
  ]
