-- ===== src/Crypto/Keys.antt =====
-- src/crypto.cpp, lines 83 to 164: the two sides of a derivation mirror each other.
use new_mavlink.Common.{ℕ, ◌≡◌, ◌≢◌, List, some, arith}
use new_mavlink.Wire.{SessionId, DirectionalKeys}
use new_mavlink.Crypto.{Ascon, derive_directional_keys}

-- Two ends of one session: what one sends under, the other receives under.
pub record Mirrors (first second : DirectionalKeys) : Type 0 where
  pub session : first.session ≡ second.session
  pub ids : (first.local_id ≡ second.peer_id) × (first.peer_id ≡ second.local_id)
  pub keys : (first.tx ≡ second.rx) × (first.rx ≡ second.tx)

-- If `derive_directional_keys` succeeds, the two results mirror each other, belong to the given
-- session and carry the two identifiers, and session value, epoch and identifiers are not 0 and the
-- identifiers distinct.
pub derive_directional_keys-Mirrors :
    (a : Ascon) (psk : List ℕ) (session : SessionId) (first_id second_id : ℕ)
    (first second : DirectionalKeys)
    → derive_directional_keys a psk session first_id second_id ≡ some (first, second)
    → Mirrors first second
      × (first.session ≡ session)
      × (first.local_id ≡ first_id)
      × (first.peer_id ≡ second_id)
      × (session.value ≢ 0)
      × (session.epoch ≢ 0)
      × (first_id ≢ 0)
      × (second_id ≢ 0)
      × (first_id ≢ second_id)
unfolding derive_directional_keys
derive_directional_keys-Mirrors a psk session first_id second_id first second e = ground arith
