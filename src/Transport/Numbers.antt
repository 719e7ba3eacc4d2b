-- ===== src/Transport/Numbers.antt =====
-- src/transport.cpp, lines 64 to 89: the sequence numbers that an endpoint gives out, whatever calls
-- of its methods follow each other and whatever the network does.
use new_mavlink.Common.{
  ℕ, ◌≡◌, inl, inr, refl, subst, true, List, [], ◌∷◌, Option, none, some, Buffer, Pointer, All,
  arith,
}
use new_mavlink.Crypto.{Ascon, make_nonce}
use new_mavlink.Wire.{RecordHeader}
use new_mavlink.Record.Types.{OpenRecord, Result, ok, err}
use new_mavlink.Record.Session.{Session, Sealed, seal, commit_replay}
use new_mavlink.Record.Session.Nonces.{
  IsUnder, seal-IsUnder, Call, Ascending, Later, All-map, seal_outcome,
}
use new_mavlink.Transport.Udp.{Network, UdpEndpoint}
use new_mavlink.Transport.{
  NativeEndpoint, send, send_sealed, receive_uncommitted, commit, commit_opened, receive,
}
use new_mavlink.Transport.Sequences.{
  EndpointCall, number_if, prepend, called, gives, given, send-session, peek-session,
}

module _ {W : Type 0} (a : Ascon) (net : Network W) (udp : UdpEndpoint) where
  -- A call leaves what the session remembers of its numbers, or remembers a later one.
  abbrev Giving : Session → Option ℕ → Session → Type 0
  Giving s none t =
      (t.send_initialized ≡ s.send_initialized) × (t.send_high_water ≡ s.send_high_water)
  Giving s (some n) t = Later s n × (t.send_initialized ≡ true) × (t.send_high_water ≡ n)

  seal-Giving :
      (s : Session) (h : RecordHeader) (plain : Pointer) (size : ℕ) (output : Buffer)
      → Giving s
          (number_if h.sequence (seal a s h plain size output).1)
          (seal a s h plain size output).0
  seal-Giving s h plain size output =
      let call : Call = record { header = h; plaintext = plain; size = size; output = output } in
      elim (seal_outcome a s call) [
        | inl (x, e) ↦ rw e (refl, refl)
        | inr (sealed, e, later) ↦ rw e (later, refl, refl)
      ]

  commit-kept : (e : NativeEndpoint) (o : OpenRecord) → Giving e.session none (commit e o).0.session
  unfolding commit commit_replay
  commit-kept e o = ground arith

  commit_opened-kept :
      (r : W × NativeEndpoint × Result OpenRecord)
      → Giving r.1.session none (commit_opened r).1.session
  unfolding commit_opened
  commit_opened-kept (w, e, err x) = (refl, refl)
  commit_opened-kept (w, e, ok o) = commit-kept e o

  called-Giving :
      (w : W) (e : NativeEndpoint) (c : EndpointCall)
      → Giving e.session (gives a net udp w e c) (called a net udp w e c).1.session
  unfolding receive
  called-Giving w e (EndpointCall.sends h plain size host port) =
      rw (send-session a net udp w e h plain size host port)
        (seal-Giving e.session h plain size e.buffer)
  called-Giving w e (EndpointCall.peeks now) = rw (peek-session a net udp w e now) (refl, refl)
  called-Giving w e (EndpointCall.commits o) = commit-kept e o
  called-Giving w e (EndpointCall.receives now) =
      let opened = receive_uncommitted a net w e udp now in
      subst (λ s. Giving s none (commit_opened opened).1.session) (peek-session a net udp w e now)
        (commit_opened-kept opened)

  given-Later :
      (w : W) (e : NativeEndpoint) (calls : List EndpointCall)
      → All (λ n. Later e.session n) (given a net udp w e calls)
        × Ascending (given a net udp w e calls)
  given-Later w e [] = (tt, tt)
  given-Later w e (c ∷ rest) =
      split _ (given a net udp (called a net udp w e c).0 (called a net udp w e c).1 rest)
        (gives a net udp w e c) (called-Giving w e c)
        (given-Later (called a net udp w e c).0 (called a net udp w e c).1 rest)
    where
      split :
          (next : Session) (ns : List ℕ) (number : Option ℕ)
          → Giving e.session number next
          → All (λ n. Later next n) ns × Ascending ns
          → All (λ n. Later e.session n) (prepend number ns) × Ascending (prepend number ns)
      split next ns none h (later, up) = (All-map (λ m k. ground (arith, k, h.0, h.1)) _ later, up)
      split next ns (some n) h (later, up) = (
        (h.0, All-map (λ m k. ground (arith, k, h.0, h.1, h.2)) _ later),
        (All-map (λ m k. ground (arith, k, h.1, h.2)) _ later, up),
      )

  -- If the call encrypts, what it leaves in the endpoint's buffer, from which it is sent, is the
  -- encryption of its payload under the nonce of that number.
  abbrev pub Encrypts : NativeEndpoint → NativeEndpoint → EndpointCall → Option ℕ → Type 0
  Encrypts e e1 (EndpointCall.sends h plain size host port) (some n) =
      IsUnder a e.session.keys.tx (make_nonce e.session.keys.session n) plain size e1.buffer
  Encrypts e e1 _ _ = Unit {0}

  abbrev pub EncryptsEach : W → NativeEndpoint → List EndpointCall → Type 0
  EncryptsEach w e [] = Unit {0}
  EncryptsEach w e (c ∷ rest) =
      let (w1, e1) = called a net udp w e c in
      Encrypts e e1 c (gives a net udp w e c) × EncryptsEach w1 e1 rest

  send_sealed-Encrypts :
      (w : W) (e : NativeEndpoint) (h : RecordHeader) (plain : Pointer) (size : ℕ)
      (host : Option (List ℕ)) (port : ℕ) (r : Session × Result Sealed)
      → seal a e.session h plain size e.buffer ≡ r
      → Encrypts e
          (send_sealed net w e r udp host port).1
          (EndpointCall.sends h plain size host port)
          (number_if h.sequence r.1)
  unfolding send_sealed
  send_sealed-Encrypts w e h plain size host port (s, err x) eq = tt
  send_sealed-Encrypts w e h plain size host port (s, ok sealed) eq =
      seal-IsUnder a e.session h plain size e.buffer s sealed eq

  call-Encrypts :
      (w : W) (e : NativeEndpoint) (c : EndpointCall)
      → Encrypts e (called a net udp w e c).1 c (gives a net udp w e c)
  unfolding send
  call-Encrypts w e (EndpointCall.sends h plain size host port) =
      send_sealed-Encrypts w e h plain size host port (seal a e.session h plain size e.buffer) refl
  call-Encrypts w e (EndpointCall.peeks now) = tt
  call-Encrypts w e (EndpointCall.commits o) = tt
  call-Encrypts w e (EndpointCall.receives now) = tt

  each-Encrypts : (w : W) (e : NativeEndpoint) (calls : List EndpointCall) → EncryptsEach w e calls
  each-Encrypts w e [] = tt
  each-Encrypts w e (c ∷ rest) = (
    call-Encrypts w e c,
    each-Encrypts (called a net udp w e c).0 (called a net udp w e c).1 rest,
  )

  -- Whatever calls of its methods follow each other on an endpoint, and whatever the network
  -- does, what every call of `send` that seals leaves in the buffer, from which it sends, is the
  -- encryption of its payload under the session's key and the nonce of a sequence number, and
  -- these numbers strictly increase.
  pub given-Ascending :
      (w : W) (e : NativeEndpoint) (calls : List EndpointCall)
      → EncryptsEach w e calls × Ascending (given a net udp w e calls)
  given-Ascending w e calls = (each-Encrypts w e calls, (given-Later w e calls).1)
