-- ===== src/Lib.antt =====
-- The mutual authentication of a ground station and its drones (UAVs), and of two drones, for the
-- OMNeT++ and INET simulations of the repository. A drone holds no secret: its PUF and public
-- helper data give back its master key by a fuzzy extractor. In Phase 1 (`enroll`) the ground
-- station keeps that key. In Phase 2 the messages M1 to M4 (`startPhase2`, `handleM1`, `handleM2`,
-- `handleM3`, `handleM4`) authenticate both sides, agree on a session key over X25519, and M4
-- carries the credentials with the other drones and a new temporary identity. In Phase 3 the
-- messages P1 to P3 (`startPhase3`, `handleP1`, `handleP2`, `handleP3`) agree on a key between two
-- drones under such a credential. The simulation compares Phase 2 with a handshake B1 to B4 of the
-- same shape that is authenticated by signatures. In the OMNeT++ simulation a node for each party
-- holds its protocol object, every message goes through one `WirelessMedium`, and an `AttackerNode`
-- can stand there.
--
-- Files, and what they model (paths from the repository's root):
--   Base, Base/*            machine tests, lists, `int`, and `std::map<int, V>` as an ordered list
--   Core                    the namespace `uavauth::core`, which the repository does not hold: the
--                           record `CoreLib` of operations, and the laws that tests/test_encoding.cc
--                           documents (`IsBigEndian`, `IsCanonical`; `IsBits` in Fe/Bch/Systematic)
--   Wire, Wire/*            src/protocol/Wire.h, Wire.cc: message types, tags, encoding
--   Crypto/Suite, Label     src/crypto/CryptoSuite.h: the abstract suite as a record
--   Crypto/Contract         src/crypto/CryptoSuite.h: its operations as the implementations have them, with
--                           exceptions, and what the class documents (`IsSuite`)
--   Crypto/X25519           src/crypto/X25519.h, X25519.cc over OpenSSL's raw operations (`Ossl`)
--   Crypto/Drbg, Drbg/*     src/crypto/Drbg.h, Drbg.cc: the generator in counter mode
--   Crypto/Ascon, Ascon/*   src/crypto/ascon/Ascon128a.h, Ascon128a.cc: the authenticated encryption
--   Crypto/Spongent, */     src/crypto/spongent/Spongent160.h, Spongent160.cc: the permutation and the
--                           sponge; src/crypto/SpongentSuite.h, SpongentSuite.cc: the constrained suite
--   Crypto/Sha3, Sha3/*     src/crypto/Sha3Suite.h, Sha3Suite.cc: the software suite over OpenSSL's
--                           primitives (`OsslPrimitives`, `IsOssl`)
--   Crypto/Signature        src/crypto/SignatureSuite.h, SignatureSuite.cc: the abstract signature suite
--   Fe/Params               src/fe/FuzzyExtractor.h: parameters, helper data and the interface
--   Fe/Codec                src/fe/BchCodec.h: the codec as an interface
--   Fe/Bch, Bch/*           src/fe/BchCodec.h, BchCodec.cc: tables, encoder and decoder, and the extractor
--                           over them
--   Fe/Block, Extractor, Reproduce  src/fe/FuzzyExtractor.cc: the repetition code, `gen` and `rep`
--   Protocol/Flow           `StepResult` and exceptions: a handler returns (`done`), rejects a message
--                           (`stop`) or is left by an exception (`fault`)
--   Protocol/Replay, */     `ReplayCache`, `timestampFresh`
--   Protocol/Credentials, */  `packCredentials`, `unpackCredentials`
--   Protocol/State          the records of src/protocol/Protocol.h
--   Protocol/GroundStation  class `GroundStationProtocol`
--   Protocol/Uav            class `UavProtocol`, Phase 2
--   Protocol/Peer           class `UavProtocol`, Phase 3
--   Protocol/Handshake/*    a whole Phase 2
--   Protocol/Pairing/*      a whole Phase 3
--   Protocol/Safety/*       the handlers against any message, and any sequence of calls of a drone
--   Baseline/State          the records of src/protocol/BaselineSigAuth.h
--   Baseline/GroundStation  class `BaselineGroundStationProtocol`
--   Baseline/Uav            class `BaselineUavProtocol`
--   Baseline/Handshake, */  a whole signed handshake
--   Baseline/Safety/*       its handlers against any message, and any sequence of calls of both sides
--   Nodes/Carrier           src/nodes/SimMessage.h, and what a node hands to the kernel
--   Nodes/Medium, Medium/*  src/nodes/WirelessMedium.h, WirelessMedium.cc: `transmit` and the trace
--   Nodes/Station           src/nodes/GroundStationNode.h, GroundStationNode.cc
--   Nodes/Drone, Drone/*    src/nodes/UavNode.h, UavNode.cc
--   Nodes/Attacker, */      src/nodes/AttackerNode.h, AttackerNode.cc
--   Nodes/Baseline, */      src/nodes/BaselineGroundStationNode.h, BaselineGroundStationNode.cc,
--                           BaselineUavNode.h, BaselineUavNode.cc
--   Nodes/Network, */       simulations/UavAuthNetwork.ned: the nodes with the events pending, runs without an
--                           attacker, and the experiment in which it poses as the ground station
--   Tests, Tests/*          the theorems at concrete inputs
--
-- An event of a node is a function from its record to the next one and the messages and self-
-- messages that it hands to the kernel. The kernel is not in the repository: in the experiment with
-- an attacker a step takes any pending event at any time, so that a theorem about runs holds
-- whatever the kernel and the delays choose. In the experiment without one, a run takes the only
-- event that is pending, at a list of times.
--
-- State is passed explicitly: a handler is a function from the object's record to a `Flow`. A field
-- of a C++ object is a field of the record under the same name in snake case; a reference into a
-- map is a lookup followed by an insert for each write through it. The generator, which the source
-- shares by reference, is a field of each side; no theorem is about two sides that share one. The
-- device's PUF is an argument of the calls that use it.
--
-- Fuel: `bytes` draws with as many rounds as bytes, which is enough when the hash gives a byte at
-- least; `uniform` takes the number of draws as an argument, since nothing bounds them in the
-- source; the loop over the entries of a package runs as often as its count says; the sponge is
-- squeezed with as many turns as bytes, since a turn writes one at least; the loop over the
-- conjugates of a root has nine turns, since doubling modulo 255 comes back after eight. The loops
-- over full blocks run as often as there are full blocks, and those of the BCH code over bits,
-- powers and syndromes as often as there are any. The attacker's loop of forgeries has the eight
-- rounds of the source. Everything else is structural.
--
-- Parameters, since their code is not in the repository: `CoreLib`, `Ossl` and the hash of the
-- generator. What the software suite calls of OpenSSL is `OsslPrimitives`. The first key of a map
-- of fields, which the attacker uses, is `first_field`, since the order of the enumerators belongs
-- to the byte library, and `turns` is the number of draws that it may take for a place. The suite,
-- the extractor and the PUF are the interfaces that the source itself calls them by.
--
-- Words: the words of Ascon are numbers below 2^64 with the wrap-around written out, and `^`, `&`
-- and `~` are the bitwise operations on numbers; the bytes of the sponge likewise. An element of
-- the field of the BCH code is a number below 256, with its primitive polynomial a parameter as in
-- the source.
--
-- Not modelled: timings and cost counters, and with them delays and the result scalars that copy
-- measurements; reading the parameters of the nodes; the INET applications; RSA, ECDSA and the
-- primitives behind the software suite, which are calls of OpenSSL; the PUF models; the draws of
-- doubles of the generator. Cryptographic strength is not modelled either: the laws on the suites
-- say what they do when nobody interferes.
pub mod Base
pub mod Core
pub mod Wire
pub mod Crypto
pub mod Fe
pub mod Protocol
pub mod Baseline
pub mod Nodes
pub mod Tests
