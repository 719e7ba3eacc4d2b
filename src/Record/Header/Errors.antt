-- ===== src/Record/Header/Errors.antt =====
-- The header's check value, and a byte of the header that changed on the way.
use native.Mathlib.Decide.{ℕ_discrete}
use new_mavlink.Common.{
  ℕ, ◌+◌, ◌*◌, ◌<◌, ◌≤◌, ◌≡◌, ◌≢◌, inl, inr, sym, ◌∙◌, some, none, Buffer, get16, get16_lem,
  get16_ext, ltb, Bool-cases, Option-cases, arith,
}
use new_mavlink.Crc.{crc16_ccitt}
use new_mavlink.Crc.Laws.{crc16_ccitt_ext}
use new_mavlink.Crc.Errors.{crc16_ccitt_inj}
use new_mavlink.Wire.{RecordHeader}
use new_mavlink.Record.Header.{read_header, decode_header}

read_crc : (n : Buffer) → n 36 < 256 → n 37 < 256 → get16 n 36 ≡ n 36 + n 37 * 256
read_crc n a b = get16_lem n 36 (n 36 + n 37 * 256) (omega arith) (omega arith, omega arith)

decode_header_inv :
    (m : Buffer) (h : RecordHeader)
    → decode_header (some m) ≡ some h
    → (m 38 ≡ 0) × (m 39 ≡ 0) × (crc16_ccitt (some m) 36 ≡ get16 m 36)
unfolding decode_header read_header
decode_header_inv m h e = ground arith

-- Two buffers of bytes that differ at one place of the 40.
module _ (m m' : Buffer) (k : ℕ) (same : (j : ℕ) → j < 40 → j ≢ k → m j ≡ m' j)
    (bytes : (j : ℕ) → j < 40 → m j < 256) (byte : m' k < 256) where
  bytes' : (j : ℕ) → j < 40 → m' j < 256
  bytes' j lt = elim (ℕ_discrete j k) [
    | yes p ↦ rw p byte
    | no p ↦ rw (sym (same j lt p)) (bytes j lt)
  ]

  front_same :
      k < 36
      → crc16_ccitt (some m) 36 ≡ get16 m 36
      → crc16_ccitt (some m') 36 ≡ get16 m' 36
      → m k ≡ m' k
  front_same lt e f =
      let stored = get16_ext m m' 36 (λ i p q. same i (omega arith) (λ s. omega (arith, s))) in
      crc16_ccitt_inj m m' 36 k lt (λ j p. same j (omega arith)) (λ j p. bytes j (omega arith)) byte
        (e ∙ stored ∙ sym f)

  stored_same :
      k < 38
      → 36 ≤ k
      → crc16_ccitt (some m) 36 ≡ get16 m 36
      → crc16_ccitt (some m') 36 ≡ get16 m' 36
      → m k ≡ m' k
  stored_same lt ge e f =
      let value = crc16_ccitt_ext m m' 36 (λ i p. same i (omega arith) (λ s. omega (arith, s))) in
      let read : get16 m 36 ≡ get16 m' 36 = sym e ∙ value ∙ f in
      let before = read_crc m (bytes 36 (omega arith)) (bytes 37 (omega arith)) in
      let after = read_crc m' (bytes' 36 (omega arith)) (bytes' 37 (omega arith)) in
      elim (ℕ_discrete k 36) [
        | yes p ↦
            rw p
              (omega (arith, before, after, read, bytes 36 (omega arith), bytes' 36 (omega arith)))
        | no p ↦
            let last : k ≡ 37 = omega (arith, p) in
            rw last
              (omega (arith, before, after, read, bytes 36 (omega arith), bytes' 36 (omega arith)))
      ]

  header_byte_inj :
      (h h' : RecordHeader)
      → k < 40
      → decode_header (some m) ≡ some h
      → decode_header (some m') ≡ some h'
      → m k ≡ m' k
  header_byte_inj h h' lt e f =
      let (a, b, c) = decode_header_inv m h e in
      let (a', b', c') = decode_header_inv m' h' f in
      elim (Bool-cases (ltb k 36)) [
        | inl p ↦ front_same (ground arith) c c'
        | inr p ↦ elim (Bool-cases (ltb k 38)) [
          | inl q ↦ stored_same (ground arith) (ground arith) c c'
          | inr q ↦ elim (ℕ_discrete k 38) [
            | yes r ↦ rw r (a ∙ sym a')
            | no r ↦ let last : k ≡ 39 = ground arith in rw last (b ∙ sym b')
          ]
        ]
      ]

  -- If `decode_header` accepts 40 bytes, it refuses every 40 bytes that differ from them at
  -- exactly one place, whichever it is and whatever byte stands there.
  pub one_byte_refused :
      (h : RecordHeader)
      → k < 40
      → m k ≢ m' k
      → decode_header (some m) ≡ some h
      → decode_header (some m') ≡ none
  one_byte_refused h lt changed e = elim (Option-cases (decode_header (some m'))) [
    | inl f ↦ f
    | inr (h', f) ↦ absurd (changed (header_byte_inj h h' lt e f))
  ]
