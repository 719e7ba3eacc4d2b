-- ===== src/Handshake/Establish.antt =====
-- src/session.cpp, lines 73 to 99: a whole handshake between two fresh sides.
use new_mavlink.Common.{
  ℕ, ◌+◌, ◌≤◌, Buffer, read_bytes, ◌≡◌, ◌≢◌, refl, sym, ap, ◌∙◌, bit_xor, bit_xor_self,
  bit_xor_cancel, true, List, [], some, bytes_eq_refl, length, arith,
}
use new_mavlink.Crypto.{
  Ascon, Answers, derive_directional_keys, derive_one, prf_block, prf_input, key_info, tx_label,
  rx_label,
}
use new_mavlink.Crypto.Keys.{Mirrors, derive_directional_keys-Mirrors}
use new_mavlink.Wire.{SessionId, DirectionalKeys}
use new_mavlink.Handshake.{valid_ids, transcript, make_auth}
use new_mavlink.Handshake.Types.{Hello, Accept, Finish, zero_block}
use new_mavlink.Handshake.Sides.{
  ok, InitiatorSession, new_initiator, start, finish_input, without_auth, authentic, accept_keys,
  accept, ResponderSession, new_responder, offer, derive_keys, receive_hello, finish,
}

module _ (a : Ascon) (answers : Answers a) where
  make_auth_answers : (psk input : List ℕ) → (tag : List ℕ) × (make_auth a psk input ≡ some tag)
  unfolding make_auth
  make_auth_answers psk input =
      let (c, e, n) = answers.encrypt [] input zero_block psk in (c, ground (arith, e, n))

  prf_block_answers :
      (psk : List ℕ) (info : Buffer) (n block : ℕ)
      → n ≤ 96
      → (key : List ℕ) × (prf_block a psk (some info) n block ≡ some key)
  unfolding prf_block
  prf_block_answers psk info n block h =
      let (key, e) = answers.auth (read_bytes (prf_input info n block) 0 (n + 4)) psk in
      (key, ground (arith, e, h))

  derive_one_answers :
      (psk label : List ℕ) (session : SessionId) (i r : ℕ)
      → length label ≤ 8
      → (key : List ℕ) × (derive_one a psk label session i r ≡ some key)
  unfolding derive_one
  derive_one_answers psk label session i r short =
      let (key, e) = prf_block_answers psk (key_info label session i r) 28 0 (omega arith) in
      (key, ground (arith, e, short))

  derive_answers :
      (psk : List ℕ) (session : SessionId) (i r : ℕ)
      → session.value ≢ 0
      → session.epoch ≢ 0
      → valid_ids i r ≡ true
      → (first : DirectionalKeys) × (second : DirectionalKeys) × (derive_directional_keys a psk
            session i r
          ≡ some (first, second))
  unfolding derive_directional_keys valid_ids
  derive_answers psk session i r v e ids =
      let (tx, t) = derive_one_answers psk tx_label session i r (omega arith) in
      let (rx, x) = derive_one_answers psk rx_label session i r (omega arith) in
      (
        record { session = session; local_id = i; peer_id = r; tx = tx; rx = rx },
        record { session = session; local_id = r; peer_id = i; tx = rx; rx = tx },
        ground (arith, t, x, v, e, ids),
      )

-- A handshake that went through: every message was taken, both sides are established, and their
-- keys mirror each other.
pub record Established (a : Ascon) (psk : List ℕ) (i r client_nonce server_nonce : ℕ) : Type 0 where
  pub hello : Hello
  pub response : Accept
  pub closing : Finish
  pub initiator0 : InitiatorSession
  pub responder0 : ResponderSession
  pub initiator1 : InitiatorSession
  pub responder1 : ResponderSession
  pub started : start (new_initiator i r psk) client_nonce ≡ (initiator0, ok hello)
  pub answered :
      receive_hello a (new_responder r i psk) hello server_nonce ≡ (responder0, ok response)
  pub accepted : accept a initiator0 response ≡ (initiator1, ok closing)
  pub finished : finish a responder0 closing ≡ (responder1, ok tt)
  pub both : (initiator1.established ≡ true) × (responder1.established ≡ true)
  pub keys : Mirrors initiator1.keys responder1.keys
  pub session_id : initiator1.keys.session.value ≡ bit_xor client_nonce server_nonce

xor_differs : (m n : ℕ) → m ≢ n → bit_xor m n ≢ 0
xor_differs m n ne e = ne (bit_xor_cancel m m n (bit_xor_self m ∙ sym e))

-- Between a fresh initiator and a fresh responder with the same key, distinct non-zero identifiers
-- and two distinct non-zero nonces, every step of the handshake succeeds, if the cipher's functions
-- return 0: both sides are established, their keys mirror each other, and the session identifier is
-- the exclusive or of the nonces.
pub handshake :
    (a : Ascon) (psk : List ℕ) (i r client_nonce server_nonce : ℕ)
    → Answers a
    → valid_ids i r ≡ true
    → client_nonce ≢ 0
    → server_nonce ≢ 0
    → client_nonce ≢ server_nonce
    → Established a psk i r client_nonce server_nonce
unfolding start new_initiator new_responder receive_hello derive_keys accept accept_keys finish
    valid_ids offer without_auth authentic
handshake a psk i r cn sn answers ids c s ne =
    let hello : Hello = record {
      initiator_id = i;
      responder_id = r;
      client_nonce = cn;
      capabilities = 0;
    } in
    let offered : Accept = offer (new_responder r i psk) hello sn in
    let (tag, e1) = make_auth_answers a answers psk (transcript hello offered) in
    let session : SessionId = record { value = bit_xor cn sn; epoch = 1 } in
    let (first, second, e2) =
      derive_answers a answers psk session i r (xor_differs cn sn ne) (omega arith) ids in
    let (final, e3) = make_auth_answers a answers psk (finish_input i r (bit_xor cn sn) 1) in
    let (m, same, _, _, _, _, _, _, _) =
      derive_directional_keys-Mirrors a psk session i r first second e2 in
    record {
      hello = hello;
      response = record offered { authenticator = tag };
      closing = record {
        initiator_id = i;
        responder_id = r;
        session_id = bit_xor cn sn;
        epoch = 1;
        authenticator = final;
      };
      initiator0 = record (new_initiator i r psk) { hello = hello; started = true };
      responder0 = record (new_responder r i psk) {
        hello = hello;
        response = record offered { authenticator = tag };
        keys = second;
        accepted = true;
      };
      initiator1 = record (new_initiator i r psk) {
        hello = hello;
        started = true;
        keys = first;
        established = true;
      };
      responder1 = record (new_responder r i psk) {
        hello = hello;
        response = record offered { authenticator = tag };
        keys = second;
        accepted = true;
        established = true;
      };
      started = ground (arith, ids, c);
      answered = rw (receive_hello, e1, derive_keys, e2) (ground (arith, ids, c, s));
      accepted = rw (accept, e1, e2, accept_keys, e3) (ground (arith, bytes_eq_refl tag));
      finished = rw (finish, e3) (ground (arith, bytes_eq_refl final));
      both = (refl, refl);
      keys = m;
      session_id = ap (λ (t : SessionId). t.value) same;
    }
