-- ===== src/Record/Session/Rekey.antt =====
-- src/record.cpp, lines 171 to 178: a session moves to keys of a later epoch.
use new_mavlink.Common.{◌≡◌, ◌<◌, ◌⊎◌, inl, inr, true, Bool-cases, arith}
use new_mavlink.Wire.{DirectionalKeys}
use new_mavlink.Record.Types.{RecordError, ok, err}
use new_mavlink.Record.Replay.{reset}
use new_mavlink.Record.Session.{Session, new_session, valid_keys, refuses_keys, rekey}

-- `rekey` either leaves the session as it is and returns an error, or makes it the new session of
-- the given keys, which are then valid, of a larger epoch, and of the same session and identifiers.
pub rekey_lem :
    (s : Session) (next : DirectionalKeys)
    → (rekey s next ≡ (s, err RecordError.invalid_header))
      ⊎ ((rekey s next ≡ (new_session next, ok tt))
          × (valid_keys next ≡ true)
          × (s.keys.session.epoch < next.session.epoch)
          × (next.session.value ≡ s.keys.session.value)
          × (next.local_id ≡ s.keys.local_id)
          × (next.peer_id ≡ s.keys.peer_id))
unfolding rekey refuses_keys new_session reset
rekey_lem s next = elim (Bool-cases (refuses_keys s.keys next)) [
  | inl refused ↦ inl (ground arith)
  | inr taken ↦
      inr (ground arith, ground arith, ground arith, ground arith, ground arith, ground arith)
]
