-- ===== src/Tests/Handshakes.antt =====
-- The handshake at concrete inputs.
use new_mavlink.Common.{
  ℕ, ◌^◌, ◌<◌, ◌≡◌, ◌≢◌, ◌⊎◌, inl, inr, refl, sym, ap, ◌∙◌, Bool, true, false, List, [], ◌∷◌,
  Option, none, some, Buffer, length, arith, Steps, done, next, put16, write_bytes,
}
use new_mavlink.Crc.{crc16_ccitt}
use new_mavlink.Handshake.{
  hello_front, encode_hello, decode_hello, accept_front, encode_accept, decode_accept, finish_front,
  encode_finish, decode_finish, valid_ids, valid_accept, valid_finish,
}
use new_mavlink.Handshake.Types.{
  Hello, Accept, Finish, accept_bytes, finish_bytes, hello_bytes, zero_block,
}
use new_mavlink.Handshake.Codec.{decode_accept-encode_accept, decode_finish-encode_finish}
use new_mavlink.Handshake.Refusal.{decode_hello-encode_hello}
use new_mavlink.Handshake.Establish.{Established, handshake}
use new_mavlink.Handshake.Sides.{
  Outcome, InitiatorSession, new_initiator, start, ResponderSession, new_responder, receive_hello,
}
use new_mavlink.Handshake.States.{
  InitiatorStep, starts_step, accepts_step, ResponderStep, hears_step, finishes_step,
  initiator_final, responder_final,
}
use new_mavlink.Tests.Cipher.{plain_cipher, plain_cipher-Answers}

abbrev psk : List ℕ
psk = 1 ∷ 2 ∷ 3 ∷ 4 ∷ 5 ∷ 6 ∷ 7 ∷ 8 ∷ 9 ∷ 10 ∷ 11 ∷ 12 ∷ 13 ∷ 14 ∷ 15 ∷ 16 ∷ []

ids_valid : valid_ids 1 2 ≡ true
unfolding valid_ids
ids_valid = refl

handshake_example : Established plain_cipher psk 1 2 5 6
handshake_example =
    handshake plain_cipher psk 1 2 5 6 plain_cipher-Answers ids_valid (omega arith) (omega arith)
      (omega arith)

-- The run that the theorem promises.
abbrev run : Established plain_cipher psk 1 2 5 6
run =
    handshake plain_cipher psk 1 2 5 6 plain_cipher-Answers ids_valid (omega arith) (omega arith)
      (omega arith)

abbrev initiator_run : Steps (InitiatorStep plain_cipher) (new_initiator 1 2 psk) run.initiator1
initiator_run =
    next (new_initiator 1 2 psk) run.initiator0 run.initiator1 started
      (next run.initiator0 run.initiator1 run.initiator1 accepted (done run.initiator1))
  where
    started : InitiatorStep plain_cipher (new_initiator 1 2 psk) run.initiator0
    started =
        rw (← ap (λ (t : InitiatorSession × Outcome Hello). t.0) run.started)
          (starts_step (new_initiator 1 2 psk) 5)

    accepted : InitiatorStep plain_cipher run.initiator0 run.initiator1
    accepted =
        rw (← ap (λ (t : InitiatorSession × Outcome Finish). t.0) run.accepted)
          (accepts_step run.initiator0 run.response)

initiator_final_example : (start run.initiator1 9).0 ≡ run.initiator1
initiator_final_example =
    initiator_final plain_cipher 1 2 psk run.initiator1 (start run.initiator1 9).0 initiator_run
      run.both.0
      (next run.initiator1 (start run.initiator1 9).0 (start run.initiator1 9).0
        (starts_step run.initiator1 9) (done (start run.initiator1 9).0))

abbrev responder_run : Steps (ResponderStep plain_cipher) (new_responder 2 1 psk) run.responder1
responder_run =
    next (new_responder 2 1 psk) run.responder0 run.responder1 answered
      (next run.responder0 run.responder1 run.responder1 finished (done run.responder1))
  where
    answered : ResponderStep plain_cipher (new_responder 2 1 psk) run.responder0
    answered =
        rw (← ap (λ (t : ResponderSession × Outcome Accept). t.0) run.answered)
          (hears_step (new_responder 2 1 psk) run.hello 6)

    finished : ResponderStep plain_cipher run.responder0 run.responder1
    finished =
        rw (← ap (λ (t : ResponderSession × Outcome (Unit {0})). t.0) run.finished)
          (finishes_step run.responder0 run.closing)

responder_final_example : (receive_hello plain_cipher run.responder1 run.hello 9).0 ≡ run.responder1
responder_final_example =
    responder_final plain_cipher 2 1 psk run.responder1
      (receive_hello plain_cipher run.responder1 run.hello 9).0 responder_run run.both.1
      (next run.responder1 (receive_hello plain_cipher run.responder1 run.hello 9).0
        (receive_hello plain_cipher run.responder1 run.hello 9).0
        (hears_step run.responder1 run.hello 9)
        (done (receive_hello plain_cipher run.responder1 run.hello 9).0))

abbrev response : Accept
response = record {
  initiator_id = 1;
  responder_id = 2;
  client_nonce = 5;
  server_nonce = 6;
  session_id = 3;
  epoch = 1;
  authenticator = zero_block;
}

abbrev response_bytes : Buffer
response_bytes =
    let out = write_bytes (accept_front response) 36 zero_block in
    put16 out 52 (crc16_ccitt (some out) 52)

response_encoded : encode_accept response ≡ some response_bytes
unfolding encode_accept valid_accept valid_ids
response_encoded = refl

accept_decodes : decode_accept (some response_bytes) accept_bytes ≡ some response
accept_decodes =
    decode_accept-encode_accept response response_bytes
      (record {
        initiator_id = omega arith;
        responder_id = omega arith;
        client_nonce = omega arith;
        server_nonce = omega arith;
        session_id = omega arith;
        epoch = omega arith;
        authenticator = refl;
      })
      response_encoded

abbrev closing : Finish
closing = record {
  initiator_id = 1;
  responder_id = 2;
  session_id = 3;
  epoch = 1;
  authenticator = zero_block;
}

abbrev closing_bytes : Buffer
closing_bytes =
    let out = write_bytes (finish_front closing) 20 zero_block in
    put16 out 36 (crc16_ccitt (some out) 36)

closing_encoded : encode_finish closing ≡ some closing_bytes
unfolding encode_finish valid_finish valid_ids
closing_encoded = refl

finish_decodes : decode_finish (some closing_bytes) finish_bytes ≡ some closing
finish_decodes =
    decode_finish-encode_finish closing closing_bytes
      (record {
        initiator_id = omega arith;
        responder_id = omega arith;
        session_id = omega arith;
        epoch = omega arith;
        authenticator = refl;
      })
      closing_encoded

abbrev greeting : Hello
greeting = record { initiator_id = 1; responder_id = 2; client_nonce = 5; capabilities = 0 }

greeting_encoded : encode_hello greeting ≡ some (hello_front greeting)
unfolding encode_hello valid_ids hello_front crc16_ccitt new_mavlink.Crc.crc_loop
    new_mavlink.Crc.crc_byte new_mavlink.Crc.crc_bits new_mavlink.Crc.crc_bit put16
    new_mavlink.Common.put64 new_mavlink.Common.put32 new_mavlink.Common.set_at
greeting_encoded = refl

decode_hello-encode_hello_example : decode_hello (some (hello_front greeting)) hello_bytes ≡ none
decode_hello-encode_hello_example =
    decode_hello-encode_hello greeting (hello_front greeting) greeting_encoded
