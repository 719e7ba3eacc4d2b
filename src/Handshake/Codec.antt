-- ===== src/Handshake/Codec.antt =====
-- src/session.cpp, lines 53 to 71: round trips of `Accept` and `Finish`.
use new_mavlink.Common.{
  ℕ, ◌^◌, ◌<◌, ◌≤◌, ◌+◌, ◌≡◌, inl, inr, refl, sym, subst, ◌∙◌, true, List, some, Buffer, put16,
  put64, get16, get64, get16_lem, get64_lem, get16_ext, get64_ext, put16-below, write_bytes-below,
  read_bytes, read_bytes_ext, read_bytes-write_bytes, write_bytes, length, arith, set_at,
  Bool-cases,
}
use new_mavlink.Crc.{crc16_ccitt}
use new_mavlink.Crc.Laws.{crc16_ccitt-lt, crc16_ccitt_ext}
use new_mavlink.Handshake.Types.{Accept, Finish, accept_bytes, finish_bytes}
use new_mavlink.Handshake.{
  valid_accept, accept_front, encode_accept, read_accept, decode_accept, valid_finish, finish_front,
  encode_finish, read_finish, decode_finish,
}

-- A front of `n` bytes, an authenticator and the check value of both.
module _ (front : Buffer) (n : ℕ) (tag : List ℕ) (sixteen : length tag ≡ 16) where
  abbrev tagged : Buffer
  tagged = write_bytes front n tag

  abbrev whole : Buffer
  whole = put16 tagged (n + 16) (crc16_ccitt (some tagged) (n + 16))

  whole-below : (i : ℕ) → i < n → whole i ≡ front i
  whole-below i lt =
      put16-below tagged (n + 16) (crc16_ccitt (some tagged) (n + 16)) i (omega arith)
      ∙ write_bytes-below front n tag i lt

  whole_tag : read_bytes whole n 16 ≡ tag
  whole_tag =
      read_bytes_ext whole tagged n 16 (λ i lo hi. put16-below tagged (n + 16) _ i hi)
      ∙ subst (λ k. read_bytes tagged n k ≡ tag) sixteen (read_bytes-write_bytes front n tag)

  whole_crc : get16 whole (n + 16) ≡ crc16_ccitt (some whole) (n + 16)
  unfolding put16 set_at
  whole_crc =
      get16_lem whole (n + 16) (crc16_ccitt (some tagged) (n + 16)) (crc16_ccitt-lt tagged (n + 16))
        (ground arith, ground arith)
      ∙ crc16_ccitt_ext tagged whole (n + 16) (λ i lt. sym (put16-below tagged (n + 16) _ i lt))

  whole16 : (p v : ℕ) → p + 2 ≤ n → get16 front p ≡ v → get16 whole p ≡ v
  whole16 p v le e = get16_ext whole front p (λ i lo hi. whole-below i (omega arith)) ∙ e

  whole64 : (p v : ℕ) → p + 8 ≤ n → get64 front p ≡ v → get64 whole p ≡ v
  whole64 p v le e = get64_ext whole front p (λ i lo hi. whole-below i (omega arith)) ∙ e

pub record FitsAccept (v : Accept) : Type 0 where
  pub initiator_id : v.initiator_id < 2 ^ 16
  pub responder_id : v.responder_id < 2 ^ 16
  pub client_nonce : v.client_nonce < 2 ^ 64
  pub server_nonce : v.server_nonce < 2 ^ 64
  pub session_id : v.session_id < 2 ^ 64
  pub epoch : v.epoch < 2 ^ 64
  pub authenticator : length v.authenticator ≡ 16

encode_accept_inv :
    (v : Accept) (bytes : Buffer) (h : length v.authenticator ≡ 16)
    → encode_accept v ≡ some bytes
    → (whole (accept_front v) 36 v.authenticator h ≡ bytes) × (valid_accept v ≡ true)
unfolding encode_accept
encode_accept_inv v bytes h e = elim (Bool-cases (valid_accept v)) [
  | inl good ↦ (ground (arith, e, good), good)
  | inr bad ↦ absurd (ground (arith, e, bad))
]

read_accept_lem :
    (v : Accept) (fits : FitsAccept v)
    → read_accept (whole (accept_front v) 36 v.authenticator fits.authenticator) ≡ v
unfolding read_accept accept_front put16 put64
read_accept_lem v fits i =
    let front = accept_front v in
    let h = fits.authenticator in
    record {
      initiator_id =
          whole16 front 36 v.authenticator h 0 v.initiator_id (omega arith)
            (get16_lem front 0 v.initiator_id fits.initiator_id (refl, refl)) i;
      responder_id =
          whole16 front 36 v.authenticator h 2 v.responder_id (omega arith)
            (get16_lem front 2 v.responder_id fits.responder_id (refl, refl)) i;
      client_nonce =
          whole64 front 36 v.authenticator h 4 v.client_nonce (omega arith)
            (get64_lem front 4 v.client_nonce fits.client_nonce
              (refl, refl, refl, refl, refl, refl, refl, refl))
            i;
      server_nonce =
          whole64 front 36 v.authenticator h 12 v.server_nonce (omega arith)
            (get64_lem front 12 v.server_nonce fits.server_nonce
              (refl, refl, refl, refl, refl, refl, refl, refl))
            i;
      session_id =
          whole64 front 36 v.authenticator h 20 v.session_id (omega arith)
            (get64_lem front 20 v.session_id fits.session_id
              (refl, refl, refl, refl, refl, refl, refl, refl))
            i;
      epoch =
          whole64 front 36 v.authenticator h 28 v.epoch (omega arith)
            (get64_lem front 28 v.epoch fits.epoch (refl, refl, refl, refl, refl, refl, refl, refl))
            i;
      authenticator = whole_tag front 36 v.authenticator h i;
    }

-- An `Accept` with numbers of their widths and an authenticator of 16 bytes that `encode_accept`
-- accepts decodes to itself.
pub decode_accept-encode_accept :
    (v : Accept) (bytes : Buffer)
    → FitsAccept v
    → encode_accept v ≡ some bytes
    → decode_accept (some bytes) accept_bytes ≡ some v
unfolding decode_accept
decode_accept-encode_accept v bytes fits e =
    let (w, good) = encode_accept_inv v bytes fits.authenticator e in
    rw
      (
        ← w,
        whole_crc (accept_front v) 36 v.authenticator fits.authenticator,
        read_accept_lem v fits,
        good,
      )
      (ground arith)

pub record FitsFinish (v : Finish) : Type 0 where
  pub initiator_id : v.initiator_id < 2 ^ 16
  pub responder_id : v.responder_id < 2 ^ 16
  pub session_id : v.session_id < 2 ^ 64
  pub epoch : v.epoch < 2 ^ 64
  pub authenticator : length v.authenticator ≡ 16

encode_finish_inv :
    (v : Finish) (bytes : Buffer) (h : length v.authenticator ≡ 16)
    → encode_finish v ≡ some bytes
    → (whole (finish_front v) 20 v.authenticator h ≡ bytes) × (valid_finish v ≡ true)
unfolding encode_finish
encode_finish_inv v bytes h e = elim (Bool-cases (valid_finish v)) [
  | inl good ↦ (ground (arith, e, good), good)
  | inr bad ↦ absurd (ground (arith, e, bad))
]

read_finish_lem :
    (v : Finish) (fits : FitsFinish v)
    → read_finish (whole (finish_front v) 20 v.authenticator fits.authenticator) ≡ v
unfolding read_finish finish_front put16 put64
read_finish_lem v fits i =
    let front = finish_front v in
    let h = fits.authenticator in
    record {
      initiator_id =
          whole16 front 20 v.authenticator h 0 v.initiator_id (omega arith)
            (get16_lem front 0 v.initiator_id fits.initiator_id (refl, refl)) i;
      responder_id =
          whole16 front 20 v.authenticator h 2 v.responder_id (omega arith)
            (get16_lem front 2 v.responder_id fits.responder_id (refl, refl)) i;
      session_id =
          whole64 front 20 v.authenticator h 4 v.session_id (omega arith)
            (get64_lem front 4 v.session_id fits.session_id
              (refl, refl, refl, refl, refl, refl, refl, refl))
            i;
      epoch =
          whole64 front 20 v.authenticator h 12 v.epoch (omega arith)
            (get64_lem front 12 v.epoch fits.epoch (refl, refl, refl, refl, refl, refl, refl, refl))
            i;
      authenticator = whole_tag front 20 v.authenticator h i;
    }

-- A `Finish` with numbers of their widths and an authenticator of 16 bytes that `encode_finish`
-- accepts decodes to itself.
pub decode_finish-encode_finish :
    (v : Finish) (bytes : Buffer)
    → FitsFinish v
    → encode_finish v ≡ some bytes
    → decode_finish (some bytes) finish_bytes ≡ some v
unfolding decode_finish
decode_finish-encode_finish v bytes fits e =
    let (w, good) = encode_finish_inv v bytes fits.authenticator e in
    rw
      (
        ← w,
        whole_crc (finish_front v) 20 v.authenticator fits.authenticator,
        read_finish_lem v fits,
        good,
      )
      (ground arith)
