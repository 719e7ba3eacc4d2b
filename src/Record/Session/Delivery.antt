-- ===== src/Record/Session/Delivery.antt =====
-- src/record.cpp, lines 97 to 163: `seal` on one side and `open` on the other.
use new_mavlink.Common.{
  ℕ, ◌≡◌, refl, some, Buffer, read_bytes, read_bytes-write_bytes, length-read_bytes, arith, Zeros,
}
use new_mavlink.Crypto.{Ascon, IsAead}
use new_mavlink.Wire.{RecordHeader}
use new_mavlink.Record.Types.{OpenRecord, ok}
use new_mavlink.Record.Session.{
  Session, Sealed, sealed_header, seal, open_decoded, open_uncommitted,
}
use new_mavlink.Record.Session.Seal.{Seals, seal_inv}
use new_mavlink.Record.Session.Open.{
  Deliverable, Mirrors-valid_keys, decode_sealed, sealed_fits, matches, opened, matching,
}

module _ (a : Ascon) (aead : IsAead a) (s r : Session) (h : RecordHeader) (plain : Buffer)
    (size : ℕ) (output : Buffer) (s' : Session) (sealed : Sealed) (now_ms : ℕ) where
  pub delivered :
      (done : Seals a s h (some plain) size output s' sealed)
      → (ready : Deliverable s r h now_ms)
      → open_uncommitted a r (some sealed.output) sealed.output_length now_ms
        ≡ ok (opened a aead s r h plain size output s' sealed now_ms done ready)
  unfolding open_uncommitted open_decoded
  delivered done ready =
      rw
        (
          done.written,
          done.total,
          done.cipher_size,
          Mirrors-valid_keys s.keys r.keys ready.mirrors done.valid,
          decode_sealed h size output done.cipher (
              sealed_fits s h size output ready.keys done.admitted ready.qos ready.sequence
                ready.deadline_ms),
        )
        (ground (
          arith,
          done.admitted.fits,
          matches s r h size output ready.mirrors done.admitted,
          matching a aead s r h plain size output s' sealed now_ms done ready,
        ))

  -- With a cipher that satisfies the laws of an AEAD and two sessions whose keys mirror each
  -- other, a record that `seal` returns is opened by the peer's `open_uncommitted`, if the
  -- numbers of the call have their widths, its level is a named one, its deadline has not passed
  -- and the peer's window admits its sequence number; the opened header is the sealed one, and
  -- length and bytes of the payload are the plaintext's.
  pub open-seal :
      Deliverable s r h now_ms
      → seal a s h (some plain) size output ≡ (s', ok sealed)
      → (o : OpenRecord) × (open_uncommitted a r (some sealed.output) sealed.output_length now_ms
          ≡ ok o)
        × (o.header ≡ sealed_header h size output)
        × (o.length ≡ size)
        × (read_bytes o.payload 0 o.length ≡ read_bytes plain 0 size)
  open-seal ready e =
      let done = seal_inv a s h (some plain) size output s' sealed e in
      (
        opened a aead s r h plain size output s' sealed now_ms done ready,
        delivered done ready,
        refl,
        length-read_bytes plain 0 size,
        read_bytes-write_bytes Zeros 0 (read_bytes plain 0 size),
      )
