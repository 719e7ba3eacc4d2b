-- ===== src/Handshake/Acceptance.antt =====
-- src/session.cpp, lines 80 to 87: what an initiator checks before it is established.
use new_mavlink.Common.{◌≡◌, true, false, some}
use new_mavlink.Crypto.{Ascon, derive_directional_keys}
use new_mavlink.Wire.{DirectionalKeys}
use new_mavlink.Handshake.{transcript, make_auth}
use new_mavlink.Handshake.Types.{Accept, Finish}
use new_mavlink.Handshake.Sides.{InitiatorSession, finish_input, without_auth}

-- What `accept` checked before it established a session.
pub record Accepts (a : Ascon) (s : InitiatorSession) (m : Accept) (s' : InitiatorSession)
    (closing : Finish) : Type 0 where
  pub waiting : (s.started ≡ true) × (s.established ≡ false)
  pub echo :
      (m.initiator_id ≡ s.local_id)
      × (m.responder_id ≡ s.peer_id)
      × (m.client_nonce ≡ s.hello.client_nonce)
  pub tag : make_auth a s.psk (transcript s.hello (without_auth m)) ≡ some m.authenticator
  pub responder_keys : DirectionalKeys
  pub derived :
      derive_directional_keys a s.psk
        (record { value = m.session_id; epoch = m.epoch })
        s.local_id
        s.peer_id
      ≡ some (s'.keys, responder_keys)
  pub established : s' ≡ record s { keys = s'.keys; established = true }
  pub answer :
      make_auth a s.psk (finish_input s.local_id s.peer_id m.session_id m.epoch)
      ≡ some closing.authenticator
