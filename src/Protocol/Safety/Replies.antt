-- ===== src/Protocol/Safety/Replies.antt =====
-- Protocol.cc: what the replies of Phase 2 are, and what their handlers leave of a drone's configuration.
use uav_omnet.Base.{ℕ, ◌≡◌, true, false, none, some, arith}
use uav_omnet.Wire.{MessageType, Message}
use uav_omnet.Protocol.Flow.{done, stop, fault, StepResult}
use uav_omnet.Protocol.State.{Env, PufModel, Uav, GroundStation}
use uav_omnet.Protocol.Uav.{start_phase2, handle_m2}
use uav_omnet.Protocol.GroundStation.{handle_m1, handle_m3}

-- A step of a drone that replies, if it does, with a message of its own of this type, and changes neither
-- its mode nor its id.
abbrev pub Replies : MessageType → Uav → StepResult Uav → Type 0
Replies type uav (done none uav') = true ≡ false
Replies type uav (done (some m) uav') =
    (m.type ≡ type)
    × (m.sender_id ≡ uav.uav_id)
    × (uav'.legacy_no_gs_auth ≡ uav.legacy_no_gs_auth)
    × (uav'.uav_id ≡ uav.uav_id)
Replies type uav (stop r uav') =
    (uav'.legacy_no_gs_auth ≡ uav.legacy_no_gs_auth) × (uav'.uav_id ≡ uav.uav_id)
Replies type uav fault = Unit

-- A step of the ground station that replies, if it does, with a message of this type.
abbrev pub Answers : MessageType → StepResult GroundStation → Type 0
Answers type (done none gs') = true ≡ false
Answers type (done (some m) gs') = m.type ≡ type
Answers type (stop r gs') = Unit
Answers type fault = Unit

module _ (env : Env) where
  pub start_phase2-Replies :
      (puf : PufModel) (now_ms : ℕ) (uav : Uav)
      → Replies MessageType.p2_m1_auth_request uav (start_phase2 env puf now_ms uav)
  unfolding start_phase2
  start_phase2-Replies puf now_ms uav = ground arith

  pub handle_m2-Replies :
      (m2 : Message) (now_ms : ℕ) (uav : Uav)
      → Replies MessageType.p2_m3_uav_confirm uav (handle_m2 env m2 now_ms uav)
  unfolding handle_m2
  handle_m2-Replies m2 now_ms uav = ground arith

  pub handle_m1-Answers :
      (m1 : Message) (now_ms : ℕ) (gs : GroundStation)
      → Answers MessageType.p2_m2_gs_response (handle_m1 env m1 now_ms gs)
  unfolding handle_m1
  handle_m1-Answers m1 now_ms gs = ground arith

  pub handle_m3-Answers :
      (m3 : Message) (now_ms : ℕ) (gs : GroundStation)
      → Answers MessageType.p2_m4_gs_confirm (handle_m3 env m3 now_ms gs)
  unfolding handle_m3
  handle_m3-Answers m3 now_ms gs = ground arith
