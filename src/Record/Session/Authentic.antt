-- ===== src/Record/Session/Authentic.antt =====
-- src/record.cpp, lines 133 to 169: what an opened record is, and that it is opened once.
use new_mavlink.Common.{
  ℕ, ◌+◌, ◌-◌, ◌≡◌, ◌≢◌, ◌⊎◌, inl, inr, ◌∙◌, sym, refl, ap, subst, true, false, List, [], ◌∷◌, some,
  Buffer, read_bytes, write_bytes, read_bytes-write_bytes, length, Option-cases, arith, Zeros, ◌≤◌,
}
use new_mavlink.Crypto.{Ascon, IsAead, make_nonce, aead_open}
use new_mavlink.Crypto.Aead.{aead_open_inv}
use new_mavlink.Wire.{RecordHeader, header_bytes, tag_bytes, max_payload_bytes}
use new_mavlink.Record.Types.{OpenRecord, ok}
use new_mavlink.Record.Replay.{ReplayWindow, accepted, commit}
use new_mavlink.Record.Replay.Window.{Represents}
use new_mavlink.Record.Replay.History.{commit_all, replay_refused}
use new_mavlink.Record.Header.{decode_header}
use new_mavlink.Record.Session.{
  Session, valid_keys, at_offset, mismatches, open_matching, open_decoded, open_uncommitted,
  commit_replay,
}

-- What `open_uncommitted` established of a record that it opened.
pub record Opens (a : Ascon) (r : Session) (bytes : Buffer) (size now_ms : ℕ) (o : OpenRecord)
    : Type 0 where
  pub valid : valid_keys r.keys ≡ true
  pub header : decode_header (some bytes) ≡ some o.header
  pub matching : mismatches r o.header size ≡ false
  pub in_time : (o.header.deadline_ms ≡ 0) ⊎ (now_ms ≤ o.header.deadline_ms)
  pub admitted : accepted r.replay o.header.sequence ≡ true
  pub total : size ≡ header_bytes + (o.length + tag_bytes)
  pub decrypted :
      a.decrypt
        (read_bytes (at_offset bytes header_bytes) 0 (o.length + tag_bytes))
        (read_bytes bytes 0 header_bytes)
        (make_nonce r.keys.session o.header.sequence)
        r.keys.rx
      ≡ some (read_bytes o.payload 0 o.length)

module _ (a : Ascon) (r : Session) (bytes : Buffer) (size now_ms : ℕ) (o : OpenRecord) where
  open_matching_inv :
      (h : RecordHeader)
      → valid_keys r.keys ≡ true
      → header_bytes + tag_bytes ≤ size
      → decode_header (some bytes) ≡ some h
      → mismatches r h size ≡ false
      → open_matching a r bytes size now_ms h ≡ ok o
      → Opens a r bytes size now_ms o
  unfolding open_matching
  open_matching_inv h v lo d m e =
      elim (Option-cases (
        aead_open a r.keys.rx (make_nonce r.keys.session h.sequence) (some bytes) header_bytes
          (some (at_offset bytes header_bytes)) (size - header_bytes) (some Zeros)
          max_payload_bytes)) [
            | inl failed ↦ absurd (ground arith)
            | inr (plain, done) ↦
                let (dec, len, _) =
                  aead_open_inv a r.keys.rx (make_nonce r.keys.session h.sequence) bytes
                    header_bytes (at_offset bytes header_bytes) (size - header_bytes) Zeros
                    max_payload_bytes plain done in
                let this : record {
                  header = h;
                  payload = write_bytes Zeros 0 plain;
                  length = length plain;
                }
                    ≡ o =
                  ground arith in
                let n : size - header_bytes ≡ length plain + tag_bytes = omega arith in
                subst (Opens a r bytes size now_ms) this (record {
                  valid = v;
                  header = d;
                  matching = m;
                  in_time = ground arith;
                  admitted = ground arith;
                  total = omega arith;
                  decrypted =
                      subst
                        (λ k.
                          a.decrypt (read_bytes (at_offset bytes header_bytes) 0 k)
                            (read_bytes bytes 0 header_bytes) (make_nonce r.keys.session h.sequence)
                            r.keys.rx
                          ≡ some (read_bytes (write_bytes Zeros 0 plain) 0 (length plain)))
                        n (dec ∙ ap some (sym (read_bytes-write_bytes Zeros 0 plain)));
                })
          ]

  pub open_inv :
      open_uncommitted a r (some bytes) size now_ms ≡ ok o → Opens a r bytes size now_ms o
  unfolding open_uncommitted open_decoded
  open_inv e = elim (Option-cases (decode_header (some bytes))) [
    | inl failed ↦ absurd (ground arith)
    | inr (h, d) ↦ open_matching_inv h (ground arith) (ground arith) d (ground arith) (ground arith)
  ]

  -- With a cipher that satisfies the laws of an AEAD, whatever `open_uncommitted` accepts decodes
  -- to the header it returns, passes the checks against the session's keys, and carries after its
  -- header exactly the encryption of the returned payload under the receiving key, the nonce of
  -- the returned sequence number and the 40 header bytes as associated data.
  pub open-authentic :
      IsAead a
      → open_uncommitted a r (some bytes) size now_ms ≡ ok o
      → (decode_header (some bytes) ≡ some o.header)
        × (mismatches r o.header size ≡ false)
        × (a.encrypt
              (read_bytes o.payload 0 o.length)
              (read_bytes bytes 0 header_bytes)
              (make_nonce r.keys.session o.header.sequence)
              r.keys.rx
            ≡ some (read_bytes (at_offset bytes header_bytes) 0 (o.length + tag_bytes)))
  open-authentic aead e =
      let done = open_inv e in (done.header, done.matching, aead.authentic _ _ _ _ _ done.decrypted)

-- The session after `commit_replay` of each of the records, in order.
abbrev pub commit_each : Session → List OpenRecord → Session
commit_each r [] = r
commit_each r (o ∷ rest) = commit_each (commit_replay r o).0 rest

-- The sequence numbers committed by that run.
abbrev pub sequences : List OpenRecord → List ℕ
sequences [] = []
sequences (o ∷ rest) = o.header.sequence ∷ sequences rest

commit_refused : (w : ReplayWindow) (s : ℕ) → (commit w s).1 ≡ false → (commit w s).0 ≡ w
unfolding commit
commit_refused w s e = ground arith

commit_replay-replay :
    (r : Session) (o : OpenRecord)
    → (commit_replay r o).0.replay ≡ (commit r.replay o.header.sequence).0
unfolding commit_replay
commit_replay-replay r o = ground (arith, commit_refused r.replay o.header.sequence)

commit_each-replay :
    (r : Session) (rest : List OpenRecord)
    → (commit_each r rest).replay ≡ commit_all r.replay (sequences rest)
commit_each-replay r [] = refl
commit_each-replay r (o ∷ rest) =
    commit_each-replay (commit_replay r o).0 rest
    ∙ ap (λ w. commit_all w (sequences rest)) (commit_replay-replay r o)

commit_replay-passed :
    (r : Session) (o : OpenRecord)
    → (commit_replay r o).1 ≡ ok tt
    → (commit r.replay o.header.sequence).1 ≡ true
unfolding commit_replay
commit_replay-passed r o done = ground arith

-- Once `commit_replay` took a record, and after any further calls of `commit_replay`, no record
-- that `open_uncommitted` accepts has the sequence number of the first, if the window stood for a
-- history of numbers before.
pub no_replay :
    (a : Ascon) (r : Session) (seen : List ℕ) (o : OpenRecord) (rest : List OpenRecord)
    (bytes : Buffer) (size now_ms : ℕ) (again : OpenRecord)
    → Represents r.replay seen
    → (commit_replay r o).1 ≡ ok tt
    → open_uncommitted a (commit_each (commit_replay r o).0 rest) (some bytes) size now_ms
      ≡ ok again
    → again.header.sequence ≢ o.header.sequence
no_replay a r seen o rest bytes size now_ms again rep done opened same =
    let refused =
      replay_refused r.replay seen (sequences rest) o.header.sequence rep
        (commit_replay-passed r o done) in
    let now =
      commit_each-replay (commit_replay r o).0 rest
      ∙ ap (λ w. commit_all w (sequences rest)) (commit_replay-replay r o) in
    let admitted =
      (open_inv a (commit_each (commit_replay r o).0 rest) bytes size now_ms again
        opened).admitted in
    let at_same =
      subst (λ n. accepted (commit_each (commit_replay r o).0 rest).replay n ≡ true) same
        admitted in
    let at_now = subst (λ w. accepted w o.header.sequence ≡ true) now at_same in cc
