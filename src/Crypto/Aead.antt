-- ===== src/Crypto/Aead.antt =====
-- src/crypto.cpp, lines 110 to 164: when the two wrappers succeed, and with what.
use new_mavlink.Common.{
  ℕ, ◌+◌, ◌-◌, ◌≤◌, ◌≡◌, ◌&&◌, ◌!=◌, false, inl, inr, List, some, Buffer, Pointer, read_bytes,
  length, Option-cases, arith,
}
use new_mavlink.Wire.{tag_bytes, max_payload_bytes}
use new_mavlink.Crypto.{Ascon, aead_seal, aead_open, pointed, is_null}

module _ (a : Ascon) (key nonce : List ℕ) (aad : Buffer) (n : ℕ) where
  pub aead_seal_inv :
      (plaintext : Pointer) (size : ℕ) (at : Buffer) (capacity : ℕ) (out : List ℕ)
      → aead_seal a key nonce (some aad) n plaintext size (some at) capacity ≡ some out
      → (a.encrypt (pointed plaintext size) (read_bytes aad 0 n) nonce key ≡ some out)
        × (length out ≡ size + tag_bytes)
        × (size ≤ max_payload_bytes)
  unfolding aead_seal
  aead_seal_inv plaintext size at capacity out e =
      elim (Option-cases (a.encrypt (pointed plaintext size) (read_bytes aad 0 n) nonce key)) [
        | inl failed ↦ absurd (ground arith)
        | inr (c, done) ↦ (ground arith, ground arith, ground arith)
      ]

  pub aead_seal_lem :
      (plaintext : Pointer) (size : ℕ) (at : Buffer) (capacity : ℕ) (out : List ℕ)
      → a.encrypt (pointed plaintext size) (read_bytes aad 0 n) nonce key ≡ some out
      → length out ≡ size + tag_bytes
      → size + tag_bytes ≤ capacity
      → (is_null plaintext && size != 0) ≡ false
      → size ≤ max_payload_bytes
      → aead_seal a key nonce (some aad) n plaintext size (some at) capacity ≡ some out
  unfolding aead_seal
  aead_seal_lem plaintext size at capacity out e l room null hi =
      rw e (ground (arith, l, room, null, hi))

  pub aead_open_lem :
      (cipher : Buffer) (size : ℕ) (at : Buffer) (capacity : ℕ) (out : List ℕ)
      → a.decrypt (read_bytes cipher 0 size) (read_bytes aad 0 n) nonce key ≡ some out
      → length out ≡ size - tag_bytes
      → tag_bytes ≤ size
      → size ≤ max_payload_bytes + tag_bytes
      → size - tag_bytes ≤ capacity
      → aead_open a key nonce (some aad) n (some cipher) size (some at) capacity ≡ some out
  unfolding aead_open
  aead_open_lem cipher size at capacity out e l lo hi room = rw e (ground arith)

  pub aead_open_inv :
      (cipher : Buffer) (size : ℕ) (at : Buffer) (capacity : ℕ) (out : List ℕ)
      → aead_open a key nonce (some aad) n (some cipher) size (some at) capacity ≡ some out
      → (a.decrypt (read_bytes cipher 0 size) (read_bytes aad 0 n) nonce key ≡ some out)
        × (length out ≡ size - tag_bytes)
        × (tag_bytes ≤ size)
  unfolding aead_open
  aead_open_inv cipher size at capacity out e =
      elim (Option-cases (a.decrypt (read_bytes cipher 0 size) (read_bytes aad 0 n) nonce key)) [
        | inl failed ↦ absurd (ground arith)
        | inr (c, done) ↦ (ground arith, ground arith, ground arith)
      ]
