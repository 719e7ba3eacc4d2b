-- ===== src/Crc/Errors.antt =====
-- src/crc16.cpp: two inputs that differ in one byte have different check values.
use native.Mathlib.Decide.{ℕ_discrete}
use new_mavlink.Common.{
  ℕ, zero, suc, ◌+◌, ◌*◌, ◌/◌, ◌%◌, ◌^◌, ◌<◌, ◌≤◌, ◌≡◌, ◌≢◌, inl, inr, sym, ap, ◌∙◌, some, Buffer,
  bit_and, bit_xor, bit_xor-lt, bit_xor_cancel, bit_xor_comm, bit-bit_xor, bit_and-pow, leb, u16,
  Bool-cases, arith,
}
use new_mavlink.Crc.{crc_bit, crc_bits, crc_byte, crc_loop, crc16_ccitt}
use new_mavlink.Crc.Laws.{crc_bit-lt, crc_byte-lt}

top_bit : (x : ℕ) → x < 2 ^ 16 → bit_and x 0x8000 ≡ x / 2 ^ 15 * 2 ^ 15
top_bit x h = omega (arith, bit_and-pow x 15)

crc_bit_low : (x : ℕ) → x < 2 ^ 15 → crc_bit x ≡ x * 2
unfolding crc_bit
crc_bit_low x h = ground (arith, top_bit x)

-- With the top bit set the result is odd, and the shifted word is the exclusive or with it.
crc_bit_high :
    (x : ℕ)
    → x < 2 ^ 16
    → 2 ^ 15 ≤ x
    → (bit_xor (x * 2) 0x1021 ≡ 2 ^ 16 + crc_bit x) × (crc_bit x % 2 ≡ 1)
unfolding crc_bit
crc_bit_high x h k =
    let lt = bit_xor-lt 17 (x * 2) 0x1021 (omega arith) (omega arith) in
    let odd = bit-bit_xor (x * 2) 0x1021 0 in
    let above = bit-bit_xor (x * 2) 0x1021 16 in
    let high : bit_xor (x * 2) 0x1021 / 2 ^ 16 ≡ 1 = omega (arith, above, lt) in
    let this : crc_bit x ≡ u16 (bit_xor (x * 2) 0x1021) = ground (arith, top_bit x) in
    (omega (arith, this, high), omega (arith, this, odd))

high_injective :
    (x y : ℕ) → x < 2 ^ 16 → y < 2 ^ 16 → 2 ^ 15 ≤ x → 2 ^ 15 ≤ y → crc_bit x ≡ crc_bit y → x ≡ y
high_injective x y hx hy a b e =
    let (fx, _) = crc_bit_high x hx a in
    let (fy, _) = crc_bit_high y hy b in
    let twice = bit_xor_cancel 0x1021 (x * 2) (y * 2) (
      bit_xor_comm 0x1021 (x * 2)
      ∙ fx
      ∙ ap (λ (t : ℕ). 2 ^ 16 + t) e
      ∙ sym fy
      ∙ bit_xor_comm (y * 2) 0x1021) in
    omega (arith, twice)

high_low : (x y : ℕ) → x < 2 ^ 16 → 2 ^ 15 ≤ x → y < 2 ^ 15 → crc_bit x ≡ crc_bit y → ⊥
high_low x y hx a b e = let (_, odd) = crc_bit_high x hx a in omega (arith, odd, e, crc_bit_low y b)

crc_bit_injective : (x y : ℕ) → x < 2 ^ 16 → y < 2 ^ 16 → crc_bit x ≡ crc_bit y → x ≡ y
crc_bit_injective x y hx hy e = elim (Bool-cases (leb (2 ^ 15) x)) [
  | inl a ↦ elim (Bool-cases (leb (2 ^ 15) y)) [
    | inl b ↦ high_injective x y hx hy (ground arith) (ground arith) e
    | inr b ↦ absurd (high_low x y hx (ground arith) (ground arith) e)
  ]
  | inr a ↦ elim (Bool-cases (leb (2 ^ 15) y)) [
    | inl b ↦ absurd (high_low y x hy (ground arith) (ground arith) (sym e))
    | inr b ↦ omega (arith, e, crc_bit_low x (ground arith), crc_bit_low y (ground arith))
  ]
]

crc_bits_injective :
    (left x y : ℕ) → x < 2 ^ 16 → y < 2 ^ 16 → crc_bits left x ≡ crc_bits left y → x ≡ y
unfolding crc_bits
crc_bits_injective zero x y hx hy e = e
crc_bits_injective (suc left) x y hx hy e =
    crc_bit_injective x y hx hy
      (crc_bits_injective left (crc_bit x) (crc_bit y) (crc_bit-lt x) (crc_bit-lt y) e)

crc_byte_cancel :
    (crc crc' byte byte' : ℕ)
    → crc < 2 ^ 16
    → crc' < 2 ^ 16
    → byte < 256
    → byte' < 256
    → crc_byte crc byte ≡ crc_byte crc' byte'
    → bit_xor crc (byte * 2 ^ 8) ≡ bit_xor crc' (byte' * 2 ^ 8)
unfolding crc_byte
crc_byte_cancel crc crc' byte byte' h h' b b' e =
    let lt = bit_xor-lt 16 crc (byte * 2 ^ 8) h (omega arith) in
    let lt' = bit_xor-lt 16 crc' (byte' * 2 ^ 8) h' (omega arith) in
    let same =
      crc_bits_injective 8 (u16 (bit_xor crc (byte * 2 ^ 8))) (u16 (bit_xor crc' (byte' * 2 ^ 8)))
        (omega arith) (omega arith) e in
    omega (arith, same, lt, lt')

crc_loop_cancel :
    (left i : ℕ) (m m' : Buffer) (crc crc' : ℕ)
    → crc < 2 ^ 16
    → crc' < 2 ^ 16
    → ((j : ℕ) → i ≤ j → j < i + left → m j ≡ m' j)
    → ((j : ℕ) → j < i + left → m j < 256)
    → crc_loop left i m crc ≡ crc_loop left i m' crc'
    → crc ≡ crc'
unfolding crc_loop
crc_loop_cancel zero i m m' crc crc' h h' same b e = e
crc_loop_cancel (suc left) i m m' crc crc' h h' same b e =
    let here = same i (omega arith) (omega arith) in
    let rounds =
      crc_loop_cancel left (i + 1) m m' (crc_byte crc (m i)) (crc_byte crc' (m' i))
        (crc_byte-lt crc (m i)) (crc_byte-lt crc' (m' i))
        (λ j p q. same j (omega arith) (omega arith)) (λ j q. b j (omega arith)) e in
    let words =
      crc_byte_cancel crc crc' (m i) (m' i) h h' (b i (omega arith))
        (omega (arith, b i (omega arith), here)) rounds in
    bit_xor_cancel (m i * 2 ^ 8) crc crc' (
      bit_xor_comm (m i * 2 ^ 8) crc
      ∙ words
      ∙ bit_xor_comm crc' (m' i * 2 ^ 8)
      ∙ ap (λ (t : ℕ). bit_xor (t * 2 ^ 8) crc') (sym here))

crc_loop_inj :
    (left i k : ℕ) (m m' : Buffer) (crc : ℕ)
    → crc < 2 ^ 16
    → i ≤ k
    → k < i + left
    → ((j : ℕ) → j < i + left → j ≢ k → m j ≡ m' j)
    → ((j : ℕ) → j < i + left → m j < 256)
    → m' k < 256
    → crc_loop left i m crc ≡ crc_loop left i m' crc
    → m k ≡ m' k
unfolding crc_loop
crc_loop_inj zero i k m m' crc h from to same b b' e = absurd (omega arith)
crc_loop_inj (suc left) i k m m' crc h from to same b b' e = elim (ℕ_discrete i k) [
  | yes p ↦
      let rounds =
        crc_loop_cancel left (i + 1) m m' (crc_byte crc (m i)) (crc_byte crc (m' i))
          (crc_byte-lt crc (m i)) (crc_byte-lt crc (m' i))
          (λ j q r. same j (omega arith) (λ s. omega (arith, s, p))) (λ j q. b j (omega arith)) e in
      let words = crc_byte_cancel crc crc (m i) (m' i) h h (b i (omega arith)) (rw p b') rounds in
      let shifted = bit_xor_cancel crc (m i * 2 ^ 8) (m' i * 2 ^ 8) words in
      rw (sym p) (omega (arith, shifted))
  | no p ↦
      let here = same i (omega arith) p in
      crc_loop_inj left (i + 1) k m m' (crc_byte crc (m i)) (crc_byte-lt crc (m i)) (omega arith)
        (omega arith) (λ j q. same j (omega arith)) (λ j q. b j (omega arith)) b'
        (e ∙ ap (λ (t : ℕ). crc_loop left (i + 1) m' (crc_byte crc t)) (sym here))
]

-- A changed byte changes the check value.
pub crc16_ccitt_inj :
    (m m' : Buffer) (n k : ℕ)
    → k < n
    → ((j : ℕ) → j < n → j ≢ k → m j ≡ m' j)
    → ((j : ℕ) → j < n → m j < 256)
    → m' k < 256
    → crc16_ccitt (some m) n ≡ crc16_ccitt (some m') n
    → m k ≡ m' k
unfolding crc16_ccitt
crc16_ccitt_inj m m' n k lt same b b' e =
    crc_loop_inj n 0 k m m' 0xffff (omega arith) (omega arith) (omega arith)
      (λ j q. same j (omega arith)) (λ j q. b j (omega arith)) b' e
