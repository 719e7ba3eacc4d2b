-- ===== src/Record/Session/Nonces.antt =====
-- src/record.cpp, lines 97 to 131: the sequence numbers and the nonces of what a session sends.
use new_mavlink.Common.{
  ℕ, ◌<◌, ◌^◌, ◌≡◌, ◌≢◌, refl, ap, ◌∙◌, true, false, List, [], ◌∷◌, Buffer, Pointer, All, arith,
  map, leb, ◌&&◌, ◌⊎◌, inl, inr, some, length, read_bytes, read_bytes_ext, write_bytes,
  write_bytes-below, read_bytes-write_bytes, subst, sym,
}
use new_mavlink.Crypto.{Ascon, make_nonce, pointed}
use new_mavlink.Crypto.Nonce.{make_nonce_injective}
use new_mavlink.Wire.{RecordHeader, SessionId, header_bytes}
use new_mavlink.Record.Types.{ok, err, Result, RecordError}
use new_mavlink.Record.Session.{Session, Sealed, seal, header_written}
use new_mavlink.Record.Session.Seal.{seal_inv, seal_failure}

-- One call of `seal` and its arguments.
pub record Call : Type 0 where
  pub header : RecordHeader
  pub plaintext : Pointer
  pub size : ℕ
  pub output : Buffer

abbrev pub sent_of : ℕ → Result Sealed → List ℕ → List ℕ
sent_of sequence (ok sealed) rest = sequence ∷ rest
sent_of sequence (err e) rest = rest

-- The sequence numbers that a run of calls encrypts what it returns under.
abbrev pub sent : Ascon → Session → List Call → List ℕ
sent a s [] = []
sent a s (c ∷ rest) =
    let (s', result) = seal a s c.header c.plaintext c.size c.output in
    sent_of c.header.sequence result (sent a s' rest)

-- What stands behind the header of a record is the encryption of the plaintext under the key and
-- the nonce, with the header as associated data.
abbrev pub IsUnder : Ascon → List ℕ → List ℕ → Pointer → ℕ → Buffer → Type 0
IsUnder a key nonce plaintext size bytes =
    (cipher : List ℕ) × (a.encrypt (pointed plaintext size) (read_bytes bytes 0 header_bytes) nonce
        key
      ≡ some cipher)
    × (read_bytes bytes header_bytes (length cipher) ≡ cipher)

-- A call that returns a record takes the first nonce, for which `P` holds; the others are for `Q`.
abbrev pub TakesNonce :
    Result Sealed → (List ℕ → Sealed → Type 0) → (List (List ℕ) → Type 0) → List (List ℕ) → Type 0
TakesNonce (err e) P Q nonces = Q nonces
TakesNonce (ok sealed) P Q [] = ⊥
TakesNonce (ok sealed) P Q (nonce ∷ more) = P nonce sealed × Q more

-- The returned records of a run of calls are encryptions under these nonces, one after the other.
abbrev pub Encrypted : Ascon → Session → List Call → List (List ℕ) → Type 0
Encrypted a s [] nonces = nonces ≡ []
Encrypted a s (c ∷ rest) nonces =
    let (s', result) = seal a s c.header c.plaintext c.size c.output in
    TakesNonce result (λ nonce sealed. IsUnder a s.keys.tx nonce c.plaintext c.size sealed.output)
      (Encrypted a s' rest) nonces

abbrev pub Ascending : List ℕ → Type 0
Ascending [] = Unit {0}
Ascending (n ∷ ns) = All (λ m. n < m) ns × Ascending ns

abbrev pub AllDistinct : List (List ℕ) → Type 0
AllDistinct [] = Unit {0}
AllDistinct (n ∷ ns) = All (λ m. m ≢ n) ns × AllDistinct ns

abbrev pub Later : Session → ℕ → Type 0
Later s n = s.send_initialized && leb n s.send_high_water ≡ false

abbrev pub remembered : Session → ℕ → Session
remembered s n = record s { send_high_water = n; send_initialized = true }

pub All-map : {P Q : ℕ → Type 0} → ((n : ℕ) → P n → Q n) → (ns : List ℕ) → All P ns → All Q ns
All-map f [] h = tt
All-map f (n ∷ ns) h = (f n h.0, All-map f ns h.1)

pub after : (s : Session) (n : ℕ) → Later s n → (m : ℕ) → Later (remembered s n) m → Later s m
after s n h m k = ground arith

pub above : (s : Session) (n m : ℕ) → Later (remembered s n) m → n < m
above s n m k = ground arith

-- A call either leaves the session, and returns an error, or remembers a later number.
pub seal_outcome :
    (a : Ascon) (s : Session) (c : Call)
    → ((e : RecordError) × (seal a s c.header c.plaintext c.size c.output ≡ (s, err e)))
      ⊎ ((sealed : Sealed) × (seal a s c.header c.plaintext c.size c.output
            ≡ (remembered s c.header.sequence, ok sealed))
          × Later s c.header.sequence)
seal_outcome a s c =
    split (seal a s c.header c.plaintext c.size c.output).0
      (seal a s c.header c.plaintext c.size c.output).1 refl
  where
    split :
        (s' : Session) (result : Result Sealed)
        → seal a s c.header c.plaintext c.size c.output ≡ (s', result)
        → ((e : RecordError) × (seal a s c.header c.plaintext c.size c.output ≡ (s, err e)))
          ⊎ ((sealed : Sealed) × (seal a s c.header c.plaintext c.size c.output
                ≡ (remembered s c.header.sequence, ok sealed))
              × Later s c.header.sequence)
    split s' (err x) e = inl (
      x,
      e
          ∙ ap (λ (t : Session). (t, err x))
              (seal_failure a s c.header c.plaintext c.size c.output s' x e),
    )
    split s' (ok sealed) e =
        let done = seal_inv a s c.header c.plaintext c.size c.output s' sealed e in
        inr (sealed, e ∙ ap (λ (t : Session). (t, ok sealed)) done.state, done.admitted.later)

-- A record that `seal` returns is under the nonce of its sequence number.
pub seal-IsUnder :
    (a : Ascon) (s : Session) (h : RecordHeader) (plaintext : Pointer) (size : ℕ) (output : Buffer)
    (s' : Session) (sealed : Sealed)
    → seal a s h plaintext size output ≡ (s', ok sealed)
    → IsUnder a s.keys.tx (make_nonce s.keys.session h.sequence) plaintext size sealed.output
seal-IsUnder a s h plaintext size output s' sealed e =
    let done = seal_inv a s h plaintext size output s' sealed e in
    let m = header_written h size output in
    let front =
      read_bytes_ext (write_bytes m header_bytes done.cipher) m 0 header_bytes
        (λ i lo hi. write_bytes-below m header_bytes done.cipher i (omega arith)) in
    subst (IsUnder a s.keys.tx (make_nonce s.keys.session h.sequence) plaintext size)
      (sym done.written)
      (done.cipher, rw front done.encrypted, read_bytes-write_bytes m header_bytes done.cipher)

sent-Later : (a : Ascon) (s : Session) (calls : List Call) → All (λ n. Later s n) (sent a s calls)
sent-Later a s [] = tt
sent-Later a s (c ∷ rest) = elim (seal_outcome a s c) [
  | inl (x, e) ↦ rw e (sent-Later a s rest)
  | inr (sealed, e, later) ↦ rw e (
    later,
    All-map (after s c.header.sequence later) _
        (sent-Later a (remembered s c.header.sequence) rest),
  )
]

-- Over any run of calls of `seal` on one session, the sequence numbers of the returned records
-- strictly increase.
pub sent-Ascending : (a : Ascon) (s : Session) (calls : List Call) → Ascending (sent a s calls)
sent-Ascending a s [] = tt
sent-Ascending a s (c ∷ rest) = elim (seal_outcome a s c) [
  | inl (x, e) ↦ rw e (sent-Ascending a s rest)
  | inr (sealed, e, later) ↦ rw e (
    All-map (above s c.header.sequence) _ (sent-Later a (remembered s c.header.sequence) rest),
    sent-Ascending a (remembered s c.header.sequence) rest,
  )
]

nonces_differ :
    (session : SessionId) (n : ℕ) (ns : List ℕ)
    → session.epoch < 2 ^ 64
    → n < 2 ^ 64
    → All (λ m. m < 2 ^ 64) ns
    → All (λ m. n < m) ns
    → All (λ m. m ≢ make_nonce session n) (map (make_nonce session) ns)
nonces_differ session n [] he hn hs up = tt
nonces_differ session n (m ∷ ns) he hn hs up = (
  λ e. absurd (ground (arith, make_nonce_injective session m n he hs.0 hn e, up.0)),
  nonces_differ session n ns he hn hs.1 up.1,
)

Ascending-distinct :
    (session : SessionId) (ns : List ℕ)
    → session.epoch < 2 ^ 64
    → All (λ m. m < 2 ^ 64) ns
    → Ascending ns
    → AllDistinct (map (make_nonce session) ns)
Ascending-distinct session [] he hs up = tt
Ascending-distinct session (n ∷ ns) he hs up =
    (nonces_differ session n ns he hs.0 hs.1 up.0, Ascending-distinct session ns he hs.1 up.1)

sent_bounded :
    (a : Ascon) (s : Session) (calls : List Call)
    → All (λ (c : Call). c.header.sequence < 2 ^ 64) calls
    → All (λ n. n < 2 ^ 64) (sent a s calls)
sent_bounded a s [] h = tt
sent_bounded a s (c ∷ rest) h = elim (seal_outcome a s c) [
  | inl (x, e) ↦ rw e (sent_bounded a s rest h.1)
  | inr (sealed, e, later) ↦ rw e (h.0, sent_bounded a (remembered s c.header.sequence) rest h.1)
]

sent-Encrypted :
    (a : Ascon) (s : Session) (calls : List Call)
    → Encrypted a s calls (map (make_nonce s.keys.session) (sent a s calls))
sent-Encrypted a s [] = refl
sent-Encrypted a s (c ∷ rest) = elim (seal_outcome a s c) [
  | inl (x, e) ↦ subst ongoing (sym e) (sent-Encrypted a s rest)
  | inr (sealed, e, later) ↦ subst ongoing (sym e) (
    seal-IsUnder a s c.header c.plaintext c.size c.output _ sealed e,
    sent-Encrypted a (remembered s c.header.sequence) rest,
  )
]
  where
    ongoing : Session × Result Sealed → Type 0
    ongoing (s', result) =
        TakesNonce result
          (λ nonce sealed. IsUnder a s.keys.tx nonce c.plaintext c.size sealed.output)
          (Encrypted a s' rest)
          (map (make_nonce s.keys.session) (sent_of c.header.sequence result (sent a s' rest)))

-- Over any run of calls of `seal` on one session, every returned record is the encryption, under
-- the session's key and the nonce of its sequence number, of the plaintext, with the header as
-- associated data, and these nonces are pairwise distinct, if the epoch and the sequence numbers
-- have 64 bits.
pub nonces-distinct :
    (a : Ascon) (s : Session) (calls : List Call)
    → s.keys.session.epoch < 2 ^ 64
    → All (λ (c : Call). c.header.sequence < 2 ^ 64) calls
    → Encrypted a s calls (map (make_nonce s.keys.session) (sent a s calls))
      × AllDistinct (map (make_nonce s.keys.session) (sent a s calls))
nonces-distinct a s calls he hs = (
  sent-Encrypted a s calls,
  Ascending-distinct s.keys.session (sent a s calls) he (sent_bounded a s calls hs)
      (sent-Ascending a s calls),
)
