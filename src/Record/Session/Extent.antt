-- ===== src/Record/Session/Extent.antt =====
-- src/record.cpp, lines 133 to 163: `open_uncommitted` reads the record and nothing behind it.
use new_mavlink.Common.{
  ℕ, ◌+◌, ◌-◌, ◌<◌, ◌≤◌, ◌≡◌, inl, inr, refl, ap, Option, none, some, Buffer, read_bytes_ext,
  Bool-cases, ltb, arith,
}
use new_mavlink.Crc.Laws.{crc16_ccitt_ext}
use new_mavlink.Crypto.{Ascon, aead_open}
use new_mavlink.Wire.{RecordHeader, header_bytes, tag_bytes}
use new_mavlink.Record.Types.{fail_if}
use new_mavlink.Record.Header.{decode_header}
use new_mavlink.Record.Header.RoundTrip.{read_header_ext}
use new_mavlink.Record.Session.{
  Session, at_offset, open_matching, open_decoded, open_uncommitted, mismatches,
}

module _ (m m' : Buffer) where
  decode_header_ext :
      ((i : ℕ) → i < 40 → m i ≡ m' i) → decode_header (some m) ≡ decode_header (some m')
  unfolding decode_header
  decode_header_ext same =
      rw
        (
          same 38 (omega arith),
          same 39 (omega arith),
          read_header_ext m m' same,
          crc16_ccitt_ext m m' 36 (λ i lt. same i (omega arith)),
        )
        refl

  module _ (a : Ascon) (s : Session) (size now_ms : ℕ)
      (same : (i : ℕ) → i < size → m i ≡ m' i) where
    open_matching_ext :
        (h : RecordHeader)
        → header_bytes ≤ size
        → open_matching a s m size now_ms h ≡ open_matching a s m' size now_ms h
    unfolding open_matching aead_open
    open_matching_ext h lo =
        rw
          (
            read_bytes_ext m m' 0 header_bytes (λ i _ lt. same i (omega arith)),
            read_bytes_ext (at_offset m header_bytes) (at_offset m' header_bytes) 0
                (size - header_bytes) (λ i _ lt. same (header_bytes + i) (omega arith)),
          )
          refl

    open_decoded_ext :
        (h : Option RecordHeader)
        → header_bytes ≤ size
        → open_decoded a s m size now_ms h ≡ open_decoded a s m' size now_ms h
    unfolding open_decoded
    open_decoded_ext none lo = refl
    open_decoded_ext (some h) lo = ap (fail_if (mismatches s h size) _) (open_matching_ext h lo)

    pub open_uncommitted_ext :
        open_uncommitted a s (some m) size now_ms ≡ open_uncommitted a s (some m') size now_ms
    unfolding open_uncommitted
    open_uncommitted_ext = elim (Bool-cases (ltb size (header_bytes + tag_bytes))) [
      | inl short ↦ ground (arith, short)
      | inr long ↦
          let lo : header_bytes ≤ size = ground arith in
          rw
            (
              decode_header_ext (λ i lt. same i (omega arith)),
              open_decoded_ext (decode_header (some m')) lo,
            )
            refl
    ]
