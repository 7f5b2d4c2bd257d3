-- ===== src/Crypto/Label.antt =====
-- crypto/CryptoSuite.h, namespace `label`: each derived key carries one of these.
use Prim.Native.String.{String}

abbrev pub fe_root : String
fe_root = "uavauth/v1/fe-root"

abbrev pub fe_extract : String
fe_extract = "uavauth/v1/fe-extract"

abbrev pub p2_auth : String
p2_auth = "uavauth/v1/p2-auth"

abbrev pub p2_sess : String
p2_sess = "uavauth/v1/p2-sess"

abbrev pub p2_aead : String
p2_aead = "uavauth/v1/p2-aead"

abbrev pub pair_cred : String
pair_cred = "uavauth/v1/pair-cred"

abbrev pub peer_auth : String
peer_auth = "uavauth/v1/peer-auth"

abbrev pub peer_sess : String
peer_sess = "uavauth/v1/peer-sess"

abbrev pub tid_rotate : String
tid_rotate = "uavauth/v1/tid-rotate"
