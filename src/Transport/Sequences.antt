-- ===== src/Transport/Sequences.antt =====
-- src/transport.cpp, lines 64 to 89: the sequence numbers that an endpoint takes and gives out,
-- whatever calls of its methods follow each other and whatever the network does.
use new_mavlink.Common.{
  ℕ, ◌≡◌, ◌≢◌, inl, inr, refl, true, false, List, [], ◌∷◌, Option, none, some, Buffer, Pointer, All,
  Bool-cases, arith,
}
use new_mavlink.Crypto.{Ascon}
use new_mavlink.Wire.{RecordHeader, DirectionalKeys}
use new_mavlink.Record.Types.{OpenRecord, Result, ok, err}
use new_mavlink.Record.Replay.{ReplayWindow}
use new_mavlink.Record.Replay.Window.{
  Represents, contains, fresh, commit-Represents, empty_window-Represents,
}
use new_mavlink.Record.Replay.History.{not_fresh}
use new_mavlink.Record.Session.{Session, Sealed, new_session, seal, commit_replay}
use new_mavlink.Record.Session.Nonces.{Call, All-map, seal_outcome}
use new_mavlink.Transport.Udp.{Network, UdpEndpoint}
use new_mavlink.Transport.{
  NativeEndpoint, new_endpoint, send_sealed, send, open_received, receive_uncommitted, commit,
  commit_opened, commit_result, receive,
}

-- One call of a method and its arguments.
pub data EndpointCall : Type 0 where
  sends : RecordHeader → Pointer → ℕ → Option (List ℕ) → ℕ → EndpointCall
  peeks : ℕ → EndpointCall
  commits : OpenRecord → EndpointCall
  receives : ℕ → EndpointCall

abbrev pub Distinct : List ℕ → Type 0
Distinct [] = Unit {0}
Distinct (n ∷ ns) = All (λ m. m ≢ n) ns × Distinct ns

abbrev pub prepend : Option ℕ → List ℕ → List ℕ
prepend none ns = ns
prepend (some n) ns = n ∷ ns

abbrev pub number_if {ℓ} : {A : Type ℓ} → ℕ → Result A → Option ℕ
number_if n (ok x) = some n
number_if n (err e) = none

abbrev number_of : Result OpenRecord → Option ℕ
number_of (ok o) = some o.header.sequence
number_of (err e) = none

module _ {W : Type 0} (a : Ascon) (net : Network W) (udp : UdpEndpoint) where
  -- The outside and the endpoint after a call.
  abbrev pub called : W → NativeEndpoint → EndpointCall → W × NativeEndpoint
  called w e (EndpointCall.sends h plain size host port) =
      let (w1, e1, _) = send a net w e h plain size udp host port in (w1, e1)
  called w e (EndpointCall.peeks now) =
      let (w1, e1, _) = receive_uncommitted a net w e udp now in (w1, e1)
  called w e (EndpointCall.commits o) = (w, (commit e o).0)
  called w e (EndpointCall.receives now) = let (w1, e1, _) = receive a net w e udp now in (w1, e1)

  -- The sequence number that a call commits.
  abbrev pub takes : W → NativeEndpoint → EndpointCall → Option ℕ
  takes w e (EndpointCall.sends h plain size host port) = none
  takes w e (EndpointCall.peeks now) = none
  takes w e (EndpointCall.commits o) = number_if o.header.sequence (commit e o).1
  takes w e (EndpointCall.receives now) =
      let (_, _, result) = receive a net w e udp now in number_of result

  -- The sequence number under which a call encrypts.
  abbrev pub gives : W → NativeEndpoint → EndpointCall → Option ℕ
  gives w e (EndpointCall.sends h plain size host port) =
      number_if h.sequence (seal a e.session h plain size e.buffer).1
  gives w e (EndpointCall.peeks now) = none
  gives w e (EndpointCall.commits o) = none
  gives w e (EndpointCall.receives now) = none

  abbrev pub taken : W → NativeEndpoint → List EndpointCall → List ℕ
  taken w e [] = []
  taken w e (c ∷ rest) = let (w1, e1) = called w e c in prepend (takes w e c) (taken w1 e1 rest)

  abbrev pub given : W → NativeEndpoint → List EndpointCall → List ℕ
  given w e [] = []
  given w e (c ∷ rest) = let (w1, e1) = called w e c in prepend (gives w e c) (given w1 e1 rest)

  send_sealed-session :
      (w : W) (e : NativeEndpoint) (r : Session × Result Sealed) (host : Option (List ℕ)) (port : ℕ)
      → (send_sealed net w e r udp host port).1.session ≡ r.0
  unfolding send_sealed
  send_sealed-session w e (s, ok sealed) host port = refl
  send_sealed-session w e (s, err x) host port = refl

  pub send-session :
      (w : W) (e : NativeEndpoint) (h : RecordHeader) (plain : Pointer) (size : ℕ)
      (host : Option (List ℕ)) (port : ℕ)
      → (send a net w e h plain size udp host port).1.session
        ≡ (seal a e.session h plain size e.buffer).0
  unfolding send
  send-session w e h plain size host port =
      send_sealed-session w e (seal a e.session h plain size e.buffer) host port

  open_received-session :
      (e : NativeEndpoint) (now : ℕ) (r : W × Option (Buffer × ℕ))
      → (open_received a e now r).1.session ≡ e.session
  unfolding open_received
  open_received-session e now (w, none) = refl
  open_received-session e now (w, some (bytes, size)) = refl

  pub peek-session :
      (w : W) (e : NativeEndpoint) (now : ℕ)
      → (receive_uncommitted a net w e udp now).1.session ≡ e.session
  unfolding receive_uncommitted
  peek-session w e now = open_received-session e now _

  -- A call takes no number and leaves the window, or takes a number that the window's history
  -- does not have, and the window stands for the history with it.
  abbrev Taking : List ℕ → Option ℕ → ReplayWindow → Type 0
  Taking seen none w = Represents w seen
  Taking seen (some n) w = (contains seen n ≡ false) × Represents w (n ∷ seen)

  was_fresh : (seen : List ℕ) (n : ℕ) → fresh seen n ≡ true → contains seen n ≡ false
  was_fresh seen n h = elim (Bool-cases (contains seen n)) [
    | inl old ↦ absurd (ground (arith, not_fresh seen n old))
    | inr new ↦ new
  ]

  commit-Taking :
      (e : NativeEndpoint) (o : OpenRecord) (seen : List ℕ)
      → Represents e.session.replay seen
      → Taking seen (number_if o.header.sequence (commit e o).1) (commit e o).0.session.replay
  unfolding commit commit_replay
  commit-Taking e o seen rep =
      let (decided, next) = commit-Represents e.session.replay seen o.header.sequence rep in
      elim (Bool-cases (fresh seen o.header.sequence)) [
        | inl new ↦
            rw (decided, new) (was_fresh seen o.header.sequence new, ground (arith, next, new))
        | inr old ↦ rw (decided, old) rep
      ]

  number_of_result :
      (o : OpenRecord) (result : Result (Unit {0}))
      → number_of (commit_result o result) ≡ number_if o.header.sequence result
  unfolding commit_result
  number_of_result o (ok x) = refl
  number_of_result o (err x) = refl

  commit_opened-Taking :
      (r : W × NativeEndpoint × Result OpenRecord) (seen : List ℕ)
      → Represents r.1.session.replay seen
      → Taking seen (number_of (commit_opened r).2) (commit_opened r).1.session.replay
  unfolding commit_opened
  commit_opened-Taking (w, e, err x) seen rep = rep
  commit_opened-Taking (w, e, ok o) seen rep =
      rw (number_of_result o (commit e o).1) (commit-Taking e o seen rep)

  seal-replay :
      (s : Session) (h : RecordHeader) (plain : Pointer) (size : ℕ) (output : Buffer)
      → (seal a s h plain size output).0.replay ≡ s.replay
  seal-replay s h plain size output =
      let call : Call = record { header = h; plaintext = plain; size = size; output = output } in
      elim (seal_outcome a s call) [ inl (x, e) ↦ rw e refl | inr (sealed, e, later) ↦ rw e refl ]

  called-Taking :
      (w : W) (e : NativeEndpoint) (c : EndpointCall) (seen : List ℕ)
      → Represents e.session.replay seen
      → Taking seen (takes w e c) (called w e c).1.session.replay
  unfolding receive
  called-Taking w e (EndpointCall.sends h plain size host port) seen rep =
      rw (send-session w e h plain size host port, seal-replay e.session h plain size e.buffer) rep
  called-Taking w e (EndpointCall.peeks now) seen rep = rw (peek-session w e now) rep
  called-Taking w e (EndpointCall.commits o) seen rep = commit-Taking e o seen rep
  called-Taking w e (EndpointCall.receives now) seen rep =
      commit_opened-Taking (receive_uncommitted a net w e udp now) seen
        (rw (peek-session w e now) rep)

  not_seen : (seen : List ℕ) (n m : ℕ) → contains (n ∷ seen) m ≡ false → m ≢ n
  not_seen seen n m h = ground arith

  still_not : (seen : List ℕ) (n m : ℕ) → contains (n ∷ seen) m ≡ false → contains seen m ≡ false
  still_not seen n m h = ground arith

  taken-new :
      (w : W) (e : NativeEndpoint) (calls : List EndpointCall) (seen : List ℕ)
      → Represents e.session.replay seen
      → All (λ m. contains seen m ≡ false) (taken w e calls) × Distinct (taken w e calls)
  taken-new w e [] seen rep = (tt, tt)
  taken-new w e (c ∷ rest) seen rep =
      split _ (taken (called w e c).0 (called w e c).1 rest) (takes w e c)
        (called-Taking w e c seen rep)
        (λ later. taken-new (called w e c).0 (called w e c).1 rest later)
    where
      split :
          (next : ReplayWindow) (ns : List ℕ) (number : Option ℕ)
          → Taking seen number next
          → ((later : List ℕ)
              → Represents next later
              → All (λ m. contains later m ≡ false) ns × Distinct ns)
          → All (λ m. contains seen m ≡ false) (prepend number ns) × Distinct (prepend number ns)
      split next ns none h more = more seen h
      split next ns (some n) h more =
          let (new, distinct) = more (n ∷ seen) h.1 in
          ((h.0, All-map (still_not seen n) _ new), (All-map (not_seen seen n) _ new, distinct))

  -- Whatever calls of its methods follow each other on an endpoint with a new session, and
  -- whatever the network does, no sequence number is committed twice.
  pub taken-Distinct :
      (w : W) (keys : DirectionalKeys) (calls : List EndpointCall)
      → Distinct (taken w (new_endpoint (new_session keys)) calls)
  unfolding new_endpoint new_session
  taken-Distinct w keys calls =
      (taken-new w (new_endpoint (new_session keys)) calls [] empty_window-Represents).1
