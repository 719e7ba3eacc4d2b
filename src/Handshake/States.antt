-- ===== src/Handshake/States.antt =====
-- src/session.cpp, lines 75 to 99: the two state machines over every run of calls.
use new_mavlink.Common.{
  ℕ, ◌≡◌, ◌⊎◌, inl, inr, refl, ap, ◌∙◌, true, false, List, Option-cases, arith, Steps, done, next,
}
use new_mavlink.Crypto.{Ascon, derive_directional_keys}
use new_mavlink.Handshake.{transcript, make_auth}
use new_mavlink.Handshake.Types.{Hello, Accept, Finish}
use new_mavlink.Handshake.Sides.{
  InitiatorSession, new_initiator, start, finish_input, accept_keys, accept, ResponderSession,
  new_responder, offer, derive_keys, receive_hello, finish,
}

-- A transition of each state machine, and runs of them.
pub data InitiatorStep (a : Ascon) : InitiatorSession → InitiatorSession → Type 0 where
  starts_step :
      (s : InitiatorSession) (client_nonce : ℕ) → InitiatorStep a s (start s client_nonce).0
  accepts_step :
      (s : InitiatorSession) (received : Accept) → InitiatorStep a s (accept a s received).0

pub data ResponderStep (a : Ascon) : ResponderSession → ResponderSession → Type 0 where
  hears_step :
      (s : ResponderSession) (hello : Hello) (server_nonce : ℕ)
      → ResponderStep a s (receive_hello a s hello server_nonce).0
  finishes_step :
      (s : ResponderSession) (message : Finish) → ResponderStep a s (finish a s message).0

-- An established side has passed the state before.
abbrev InitiatorSound : InitiatorSession → Type 0
InitiatorSound s = (s.established ≡ false) ⊎ (s.started ≡ true)

abbrev ResponderSound : ResponderSession → Type 0
ResponderSound s = (s.established ≡ false) ⊎ (s.accepted ≡ true)

start_sound : (s : InitiatorSession) (n : ℕ) → InitiatorSound s → InitiatorSound (start s n).0
unfolding start
start_sound s n sound = ground arith

accept_keys-started :
    (a : Ascon) (s : InitiatorSession) (m : Accept) → (accept_keys a s m).0.started ≡ s.started
unfolding accept_keys
accept_keys-started a s m =
    elim (Option-cases
      (make_auth a s.psk (finish_input s.local_id s.peer_id m.session_id m.epoch))) [
        | inl e ↦ ground (arith, e)
        | inr (tag, e) ↦ ground (arith, e)
      ]

accept_sound :
    (a : Ascon) (s : InitiatorSession) (m : Accept)
    → InitiatorSound s
    → InitiatorSound (accept a s m).0
unfolding accept
accept_sound a s m sound =
    elim (Option-cases (
      derive_directional_keys a s.psk (record { value = m.session_id; epoch = m.epoch }) s.local_id
        s.peer_id)) [
          | inl e ↦ ground (arith, e)
          | inr ((first, second), e) ↦
              ground (arith, e, accept_keys-started a (record s { keys = first }) m)
        ]

initiator_step :
    (a : Ascon) (s t : InitiatorSession) → InitiatorStep a s t → InitiatorSound s → InitiatorSound t
initiator_step a s _ (starts_step _ n) sound = start_sound s n sound
initiator_step a s _ (accepts_step _ m) sound = accept_sound a s m sound

initiator_steps :
    (a : Ascon) (s t : InitiatorSession)
    → Steps (InitiatorStep a) s t
    → InitiatorSound s
    → InitiatorSound t
initiator_steps a s _ (done _) sound = sound
initiator_steps a s u (next _ t _ step rest) sound =
    initiator_steps a t u rest (initiator_step a s t step sound)

initiator_settled :
    (a : Ascon) (s t : InitiatorSession)
    → InitiatorStep a s t
    → s.established ≡ true
    → s.started ≡ true
    → t ≡ s
unfolding start accept
initiator_settled a s _ (starts_step _ n) e b = ground (arith, e, b)
initiator_settled a s _ (accepts_step _ m) e b = ground (arith, e, b)

initiator_frozen :
    (a : Ascon) (s t : InitiatorSession)
    → Steps (InitiatorStep a) s t
    → s.established ≡ true
    → s.started ≡ true
    → t ≡ s
initiator_frozen a s _ (done _) e b = refl
initiator_frozen a s u (next _ t _ step rest) e b =
    let same = initiator_settled a s t step e b in
    initiator_frozen a t u rest (ap (λ (x : InitiatorSession). x.established) same ∙ e)
      (ap (λ (x : InitiatorSession). x.started) same ∙ b)
    ∙ same

-- Once an initiator that started fresh is established, no run of further calls of `start` and
-- `accept` changes it.
pub initiator_final :
    (a : Ascon) (local_id peer_id : ℕ) (psk : List ℕ) (s t : InitiatorSession)
    → Steps (InitiatorStep a) (new_initiator local_id peer_id psk) s
    → s.established ≡ true
    → Steps (InitiatorStep a) s t
    → t ≡ s
unfolding new_initiator
initiator_final a local_id peer_id psk s t before e after =
    let sound = initiator_steps a (new_initiator local_id peer_id psk) s before (inl refl) in
    initiator_frozen a s t after e (ground (arith, e, sound))

derive_keys-established :
    (a : Ascon) (s : ResponderSession) → (derive_keys a s).0.established ≡ s.established
unfolding derive_keys
derive_keys-established a s =
    elim (Option-cases (
      derive_directional_keys a s.psk
        (record { value = s.response.session_id; epoch = s.response.epoch }) s.peer_id
        s.local_id)) [ inl e ↦ ground (arith, e) | inr (pair, e) ↦ ground (arith, e) ]

receive_hello_sound :
    (a : Ascon) (s : ResponderSession) (h : Hello) (n : ℕ)
    → ResponderSound s
    → ResponderSound (receive_hello a s h n).0
unfolding receive_hello
receive_hello_sound a s h n sound =
    elim (Option-cases (make_auth a s.psk (transcript h (offer s h n)))) [
      | inl e ↦ ground (arith, e)
      | inr (tag, e) ↦ ground (
        arith,
        e,
        derive_keys-established a
            (record s { hello = h; response = record (offer s h n) { authenticator = tag } }),
      )
    ]

finish_sound :
    (a : Ascon) (s : ResponderSession) (m : Finish)
    → ResponderSound s
    → ResponderSound (finish a s m).0
unfolding finish
finish_sound a s m sound = ground arith

responder_steps :
    (a : Ascon) (s t : ResponderSession)
    → Steps (ResponderStep a) s t
    → ResponderSound s
    → ResponderSound t
responder_steps a s _ (done _) sound = sound
responder_steps a s u (next _ _ _ (hears_step _ h n) rest) sound =
    responder_steps a _ u rest (receive_hello_sound a s h n sound)
responder_steps a s u (next _ _ _ (finishes_step _ m) rest) sound =
    responder_steps a _ u rest (finish_sound a s m sound)

responder_settled :
    (a : Ascon) (s t : ResponderSession)
    → ResponderStep a s t
    → s.established ≡ true
    → s.accepted ≡ true
    → t ≡ s
unfolding receive_hello finish
responder_settled a s _ (hears_step _ h n) e b = ground (arith, e, b)
responder_settled a s _ (finishes_step _ m) e b = ground (arith, e, b)

responder_frozen :
    (a : Ascon) (s t : ResponderSession)
    → Steps (ResponderStep a) s t
    → s.established ≡ true
    → s.accepted ≡ true
    → t ≡ s
responder_frozen a s _ (done _) e b = refl
responder_frozen a s u (next _ t _ step rest) e b =
    let same = responder_settled a s t step e b in
    responder_frozen a t u rest (ap (λ (x : ResponderSession). x.established) same ∙ e)
      (ap (λ (x : ResponderSession). x.accepted) same ∙ b)
    ∙ same

-- Once a responder that started fresh is established, no run of further calls of `receive_hello`
-- and `finish` changes it.
pub responder_final :
    (a : Ascon) (local_id peer_id : ℕ) (psk : List ℕ) (s t : ResponderSession)
    → Steps (ResponderStep a) (new_responder local_id peer_id psk) s
    → s.established ≡ true
    → Steps (ResponderStep a) s t
    → t ≡ s
unfolding new_responder
responder_final a local_id peer_id psk s t before e after =
    let sound = responder_steps a (new_responder local_id peer_id psk) s before (inl refl) in
    responder_frozen a s t after e (ground (arith, e, sound))
