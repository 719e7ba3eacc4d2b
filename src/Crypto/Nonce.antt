-- ===== src/Crypto/Nonce.antt =====
-- src/crypto.cpp, lines 76 to 81: within one session no two sequence numbers share a nonce.
use new_mavlink.Common.{
  ℕ, ◌<◌, ◌^◌, ◌≡◌, refl, sym, ◌∙◌, bit_xor, Buffer, Zeros, put64, get64, Holds64, get64_lem,
  bit_xor-lt, bit_xor_cancel, arith, read_bytes_inj, length, length-read_bytes,
}
use new_mavlink.Wire.{SessionId}
use new_mavlink.Crypto.{make_nonce}

abbrev nonce_buffer : SessionId → ℕ → Buffer
nonce_buffer session sequence =
    put64 (put64 Zeros 0 session.value) 8 (bit_xor session.epoch sequence)

holds_xor :
    (session : SessionId) (sequence : ℕ)
    → Holds64 (nonce_buffer session sequence) 8 (bit_xor session.epoch sequence)
unfolding put64
holds_xor session sequence = (refl, refl, refl, refl, refl, refl, refl, refl)

-- Under one session identifier and epoch, records with different sequence numbers have
-- different nonces.
pub make_nonce_injective :
    (session : SessionId) (s t : ℕ)
    → session.epoch < 2 ^ 64
    → s < 2 ^ 64
    → t < 2 ^ 64
    → make_nonce session s ≡ make_nonce session t
    → s ≡ t
unfolding make_nonce
make_nonce_injective session s t he hs ht e = bit_xor_cancel session.epoch s t (sym read_s ∙ read_t)
  where
    same : (i : ℕ) → i < 16 → nonce_buffer session s i ≡ nonce_buffer session t i
    same i h = read_bytes_inj _ _ 0 16 e i (omega arith) (omega arith)

    read_s : get64 (nonce_buffer session s) 8 ≡ bit_xor session.epoch s
    read_s = get64_lem _ 8 _ (bit_xor-lt 64 session.epoch s he hs) (holds_xor session s)

    read_t : get64 (nonce_buffer session s) 8 ≡ bit_xor session.epoch t
    read_t =
        let (b0, b1, b2, b3, b4, b5, b6, b7) = holds_xor session t in
        get64_lem _ 8 _ (bit_xor-lt 64 session.epoch t he ht) (
          same 8 (omega arith) ∙ b0,
          same 9 (omega arith) ∙ b1,
          same 10 (omega arith) ∙ b2,
          same 11 (omega arith) ∙ b3,
          same 12 (omega arith) ∙ b4,
          same 13 (omega arith) ∙ b5,
          same 14 (omega arith) ∙ b6,
          same 15 (omega arith) ∙ b7,
        )

-- A nonce has the sixteen bytes that the cipher expects.
pub length-make_nonce : (session : SessionId) (s : ℕ) → length (make_nonce session s) ≡ 16
unfolding make_nonce
length-make_nonce session s = length-read_bytes (nonce_buffer session s) 0 16
