-- ===== src/Nodes/Baseline/Enrollment.antt =====
-- nodes/BaselineGroundStationNode.cc, `enrollAll`: the exchange of public keys, and what it leaves.
use uav_omnet.Base.{
  ℕ, zero, suc, ◌+◌, ◌<◌, ◌≡◌, Option, none, some, Option-cases, inl, inr, List, [], ◌∷◌, get_elem?,
  pos, eq_ℤ, eq_ℤ_refl, lookup-insert, arith,
}
use uav_omnet.Baseline.State.{BaselineEnv, BaselineGroundStation, BaselineUav}
use uav_omnet.Baseline.GroundStation
use uav_omnet.Baseline.GroundStation.{key_of, enroll_uav}
use uav_omnet.Baseline.Uav
use uav_omnet.Baseline.Uav.{provision_gs_public_key}
use uav_omnet.Nodes.Baseline.Station.{BaselineGroundStationNode}
use uav_omnet.Nodes.Baseline.Drone.{BaselineUavNode}

module _ {Key : Type 0} (env : BaselineEnv Key) where
  -- The loop of `enrollAll` over the drones from `i` on. `generated` are the key pairs that drones
  -- without one make; `none` is the exception for a missing module.
  unfoldable pub enroll_from :
      ℕ
      → ℕ
      → (ℕ → Option Key)
      → List (BaselineUavNode Key)
      → BaselineGroundStation Key
      → Option (BaselineGroundStation Key × List (BaselineUavNode Key))
  enroll_from zero i generated nodes gs = some (gs, nodes)
  enroll_from (suc left) i generated [] gs = none
  enroll_from (suc left) i generated (node ∷ nodes) gs =
      let uav = Uav.ensure_own_keypair (generated i) node.proto in
      let enrolled = enroll_uav env (pos i) (Uav.public_key_bytes env uav) gs in
      let provisioned =
        provision_gs_public_key env (GroundStation.public_key_bytes env enrolled) uav in
      elim (enroll_from left (i + 1) generated nodes enrolled) [
        | none ↦ none
        | some (gs', rest) ↦ some (gs', record node { proto = provisioned } ∷ rest)
      ]

  unfoldable pub enroll_all :
      Option Key
      → (ℕ → Option Key)
      → List (BaselineUavNode Key)
      → BaselineGroundStationNode Key
      → Option (BaselineGroundStationNode Key × List (BaselineUavNode Key))
  enroll_all own generated nodes node =
      elim (enroll_from node.num_uavs 0 generated nodes
        (GroundStation.ensure_own_keypair own node.proto)) [
          | none ↦ none
          | some (gs, nodes') ↦ some (record node { proto = gs }, nodes')
        ]

module _ {Key : Type 0} (env : BaselineEnv Key) where
  open env use {sig_suite}

  -- What both sides hold of each other.
  pub record IsExchanged (i : ℕ) (gs : BaselineGroundStation Key) (uav : BaselineUav Key)
      : Type 0 where
    pub enrolled :
        key_of (pos i) gs ≡ sig_suite.key_from_public_bytes (sig_suite.public_key_bytes uav.keypair)
    pub provisioned :
        uav.gs_public_key ≡ sig_suite.key_from_public_bytes (sig_suite.public_key_bytes gs.keypair)

  -- The drones before `i` keep their keys, and the ground station its own pair.
  enroll_from-earlier :
      (left i j : ℕ) (generated : ℕ → Option Key) (nodes nodes' : List (BaselineUavNode Key))
      (gs gs' : BaselineGroundStation Key)
      → j < i
      → enroll_from env left i generated nodes gs ≡ some (gs', nodes')
      → (key_of (pos j) gs' ≡ key_of (pos j) gs) × (gs'.keypair ≡ gs.keypair)
  unfolding enroll_from enroll_uav key_of eq_ℤ
  enroll_from-earlier zero i j generated nodes nodes' gs gs' below e = ground (arith, e)
  enroll_from-earlier (suc left) i j generated [] nodes' gs gs' below e = absurd (ground (arith, e))
  enroll_from-earlier (suc left) i j generated (node ∷ nodes) nodes' gs gs' below e =
      let uav = Uav.ensure_own_keypair (generated i) node.proto in
      let enrolled = enroll_uav env (pos i) (Uav.public_key_bytes env uav) gs in
      let other =
        lookup-insert (pos i) (pos j)
          (sig_suite.key_from_public_bytes (Uav.public_key_bytes env uav)) gs.uav_public_keys in
      elim (Option-cases (enroll_from env left (i + 1) generated nodes enrolled)) [
        | inl f ↦ absurd (ground (arith, e, f))
        | inr ((gs2, rest), f) ↦
            (let (kept, own) =
                enroll_from-earlier left (i + 1) j generated nodes rest enrolled gs2
                  (omega (arith, below)) f in
              ground (arith, e, f, kept, own, other, below))
      ]

  enroll_from-IsExchanged :
      (left i k : ℕ) (generated : ℕ → Option Key) (nodes nodes' : List (BaselineUavNode Key))
      (gs gs' : BaselineGroundStation Key) (node : BaselineUavNode Key)
      → enroll_from env left i generated nodes gs ≡ some (gs', nodes')
      → k < left
      → get_elem? nodes' k ≡ some node
      → IsExchanged (i + k) gs' node.proto
  unfolding enroll_from enroll_uav key_of provision_gs_public_key Uav.public_key_bytes
      GroundStation.public_key_bytes
  enroll_from-IsExchanged zero i k generated nodes nodes' gs gs' node e below found =
      absurd (omega (arith, below))
  enroll_from-IsExchanged (suc left) i k generated [] nodes' gs gs' node e below found =
      absurd (ground (arith, e))
  enroll_from-IsExchanged (suc left) i zero generated (first ∷ nodes) nodes' gs gs' node e below
        found =
      let uav = Uav.ensure_own_keypair (generated i) first.proto in
      let enrolled = enroll_uav env (pos i) (Uav.public_key_bytes env uav) gs in
      let self =
        lookup-insert (pos i) (pos i)
          (sig_suite.key_from_public_bytes (Uav.public_key_bytes env uav)) gs.uav_public_keys in
      elim (Option-cases (enroll_from env left (i + 1) generated nodes enrolled)) [
        | inl f ↦ absurd (ground (arith, e, f))
        | inr ((gs2, rest), f) ↦
            (let (kept, own) =
                enroll_from-earlier left (i + 1) i generated nodes rest enrolled gs2 (omega arith)
                  f in
              record {
                enrolled = ground (arith, e, f, kept, found, self, eq_ℤ_refl (pos i));
                provisioned = ground (arith, e, f, own, found);
              })
      ]
  enroll_from-IsExchanged (suc left) i (suc k) generated (first ∷ nodes) nodes' gs gs' node e below
        found =
      let uav = Uav.ensure_own_keypair (generated i) first.proto in
      let enrolled = enroll_uav env (pos i) (Uav.public_key_bytes env uav) gs in
      elim (Option-cases (enroll_from env left (i + 1) generated nodes enrolled)) [
        | inl f ↦ absurd (ground (arith, e, f))
        | inr ((gs2, rest), f) ↦
            (let more =
                enroll_from-IsExchanged left (i + 1) k generated nodes rest enrolled gs2 node f
                  (omega (arith, below)) (ground (arith, e, f, found)) in
              ground (arith, e, f, more))
      ]

  -- After the exchange every drone that takes part and the ground station hold the keys that import from
  -- each other's public bytes.
  pub enroll_all-IsExchanged :
      (own : Option Key) (generated : ℕ → Option Key) (nodes nodes' : List (BaselineUavNode Key))
      (station station' : BaselineGroundStationNode Key) (i : ℕ) (node : BaselineUavNode Key)
      → enroll_all env own generated nodes station ≡ some (station', nodes')
      → i < station.num_uavs
      → get_elem? nodes' i ≡ some node
      → IsExchanged i station'.proto node.proto
  unfolding enroll_all
  enroll_all-IsExchanged own generated nodes nodes' station station' i node e below found =
      let gs = GroundStation.ensure_own_keypair own station.proto in
      elim (Option-cases (enroll_from env station.num_uavs 0 generated nodes gs)) [
        | inl f ↦ absurd (ground (arith, e, f))
        | inr ((gs', rest), f) ↦
            (let all =
                enroll_from-IsExchanged station.num_uavs 0 i generated nodes rest gs gs' node f
                  below (ground (arith, e, f, found)) in
              ground (arith, e, f, all))
      ]
