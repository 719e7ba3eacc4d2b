-- ===== src/Messages/Requests/Fixed.antt =====
-- src/messages.cpp: round trips of acknowledgements, subscriptions, resync requests, heartbeats.
use new_mavlink.Common.{
  ℕ, ◌<◌, ◌≤◌, ◌≡◌, refl, ◌^◌, true, some, none, Buffer, set_at, put16, put32, put64, get16_lem,
  get32_lem, get64_lem, if◌then◌else◌, reject_if, arith, ap, ◌∙◌, ◌!=◌, ◌||◌, ◌&&◌, not, ltb, ◌≢◌,
}
use new_mavlink.Wire.{type_code, type_of_code, qos_code, known_type, state_type}
use new_mavlink.Wire.Classes.{
  type_of_code-type_code, qos_of_code-qos_code, IsNamed, state_type-known_type, qos_code-le,
}
use new_mavlink.Messages.{
  CommandAck, Subscription, ResyncRequest, Heartbeat, ack_bytes, subscribe_bytes, resync_bytes,
  heartbeat_bytes,
}
use new_mavlink.Messages.Requests.{
  encode_ack, decode_ack, read_ack, encode_subscription, decode_subscription, read_subscription,
  encode_resync, decode_resync, read_resync, encode_heartbeat, decode_heartbeat,
}

pub record FitsAck (value : CommandAck) : Type 0 where
  pub request_id : value.request_id < 2 ^ 64
  pub reserved : value.reserved < 2 ^ 16
  pub result_code : value.result_code < 2 ^ 32

abbrev written_ack : CommandAck → Buffer → Buffer
written_ack value out =
    let out = put64 out 0 value.request_id in
    let out = set_at (set_at out 8 value.status) 9 value.detail in
    put32 (put16 out 10 value.reserved) 12 value.result_code

encode_ack_inv :
    (value : CommandAck) (out bytes : Buffer) (capacity : ℕ)
    → encode_ack value (some out) capacity ≡ some bytes
    → (written_ack value out ≡ bytes) × (value.request_id ≢ 0)
unfolding encode_ack
encode_ack_inv value out bytes capacity e = ground arith

accept_ack :
    (v w : CommandAck)
    → v ≡ w
    → w.request_id ≢ 0
    → (if v.request_id != 0 then some v else none) ≡ some w
accept_ack v w e h = rw e (ground arith)

-- An acknowledgement with numbers of their widths that `encode_ack` accepts decodes to the same
-- acknowledgement.
pub decode_ack-encode_ack :
    (value : CommandAck) (out bytes : Buffer) (capacity : ℕ)
    → FitsAck value
    → encode_ack value (some out) capacity ≡ some bytes
    → decode_ack (some bytes) ack_bytes ≡ some value
unfolding decode_ack read_ack put64 put16 put32 set_at
decode_ack-encode_ack value out bytes capacity fits e =
    let (w, h) = encode_ack_inv value out bytes capacity e in
    rw (← w) (
      accept_ack _ value
        (λ i. record {
          request_id =
              get64_lem (written_ack value out) 0 value.request_id fits.request_id
                (refl, refl, refl, refl, refl, refl, refl, refl) i;
          status = value.status;
          detail = value.detail;
          reserved =
              get16_lem (written_ack value out) 10 value.reserved fits.reserved (refl, refl) i;
          result_code =
              get32_lem (written_ack value out) 12 value.result_code fits.result_code
                (refl, refl, refl, refl) i;
        })
        h)

pub record FitsSubscription (value : Subscription) : Type 0 where
  pub source_id : value.source_id < 2 ^ 16
  pub interval_ms : value.interval_ms < 2 ^ 16
  pub flags : value.flags < 2 ^ 32

abbrev written_subscription : Subscription → Buffer → Buffer
written_subscription value out =
    let out = set_at (set_at out 0 (type_code value.type)) 1 (qos_code value.qos) in
    let out = put16 (put16 out 2 value.source_id) 4 value.interval_ms in put32 out 6 value.flags

encode_subscription_inv :
    (value : Subscription) (out bytes : Buffer) (capacity : ℕ)
    → encode_subscription value (some out) capacity ≡ some bytes
    → (written_subscription value out ≡ bytes)
      × (known_type value.type ≡ true)
      × (value.source_id ≢ 0)
unfolding encode_subscription
encode_subscription_inv value out bytes capacity e = ground arith

accept_subscription :
    (code q : ℕ) (v w : Subscription)
    → v ≡ w
    → w.source_id ≢ 0
    → known_type (type_of_code code) ≡ true
    → q ≤ 5
    → reject_if
        (subscribe_bytes != subscribe_bytes || not (known_type (type_of_code code)) || ltb 5 q)
        (if v.source_id != 0 then some v else none)
      ≡ some w
accept_subscription code q v w e h k n = rw (e, k) (ground arith)

-- A subscription with numbers of their widths and a named level that `encode_subscription` accepts
-- decodes to the same subscription.
pub decode_subscription-encode_subscription :
    (value : Subscription) (out bytes : Buffer) (capacity : ℕ)
    → FitsSubscription value
    → IsNamed value.qos
    → encode_subscription value (some out) capacity ≡ some bytes
    → decode_subscription (some bytes) subscribe_bytes ≡ some value
unfolding decode_subscription read_subscription put16 put32 set_at qos_code
decode_subscription-encode_subscription value out bytes capacity fits named e =
    let (w, k, h) = encode_subscription_inv value out bytes capacity e in
    let t = type_of_code-type_code value.type k in
    rw (← w) (
      accept_subscription (type_code value.type) (qos_code value.qos) _ value
        (λ i. record {
          type = t i;
          qos = qos_of_code-qos_code value.qos named i;
          source_id =
              get16_lem (written_subscription value out) 2 value.source_id fits.source_id
                (refl, refl) i;
          interval_ms =
              get16_lem (written_subscription value out) 4 value.interval_ms fits.interval_ms
                (refl, refl) i;
          flags =
              get32_lem (written_subscription value out) 6 value.flags fits.flags
                (refl, refl, refl, refl) i;
        })
        h (ap known_type t ∙ k) (qos_code-le value.qos named))

pub record FitsResync (value : ResyncRequest) : Type 0 where
  pub source_id : value.source_id < 2 ^ 16
  pub resource_id : value.resource_id < 2 ^ 32

abbrev written_resync : ResyncRequest → Buffer → Buffer
written_resync value out =
    put32 (put16 (set_at (set_at out 0 (type_code value.type)) 1 0) 2 value.source_id) 4
      value.resource_id

encode_resync_inv :
    (value : ResyncRequest) (out bytes : Buffer) (capacity : ℕ)
    → encode_resync value (some out) capacity ≡ some bytes
    → (written_resync value out ≡ bytes)
      × (state_type value.type ≡ true)
      × (value.source_id ≢ 0)
      × (value.resource_id ≢ 0)
unfolding encode_resync
encode_resync_inv value out bytes capacity e = ground arith

accept_resync :
    (code : ℕ) (v w : ResyncRequest)
    → v ≡ w
    → w.source_id ≢ 0
    → w.resource_id ≢ 0
    → state_type (type_of_code code) ≡ true
    → reject_if
        (resync_bytes != resync_bytes || 0 != 0 || not (state_type (type_of_code code)))
        (if v.source_id != 0 && v.resource_id != 0 then some v else none)
      ≡ some w
accept_resync code v w e s r k = rw (e, k) (ground arith)

-- A request to resynchronise with numbers of their widths that `encode_resync` accepts decodes to
-- the same request.
pub decode_resync-encode_resync :
    (value : ResyncRequest) (out bytes : Buffer) (capacity : ℕ)
    → FitsResync value
    → encode_resync value (some out) capacity ≡ some bytes
    → decode_resync (some bytes) resync_bytes ≡ some value
unfolding decode_resync read_resync put16 put32 set_at
decode_resync-encode_resync value out bytes capacity fits e =
    let (w, k, s, r) = encode_resync_inv value out bytes capacity e in
    let t = type_of_code-type_code value.type (state_type-known_type value.type k) in
    rw (← w) (
      accept_resync (type_code value.type) _ value
        (λ i. record {
          type = t i;
          source_id =
              get16_lem (written_resync value out) 2 value.source_id fits.source_id (refl, refl) i;
          resource_id =
              get32_lem (written_resync value out) 4 value.resource_id fits.resource_id
                (refl, refl, refl, refl) i;
        })
        s r (ap state_type t ∙ k))

pub record FitsHeartbeat (value : Heartbeat) : Type 0 where
  pub uptime_ms : value.uptime_ms < 2 ^ 64
  pub capabilities : value.capabilities < 2 ^ 32
  pub state : value.state < 2 ^ 32

abbrev written_heartbeat : Heartbeat → Buffer → Buffer
written_heartbeat value out =
    put32 (put32 (put64 out 0 value.uptime_ms) 8 value.capabilities) 12 value.state

encode_heartbeat_inv :
    (value : Heartbeat) (out bytes : Buffer) (capacity : ℕ)
    → encode_heartbeat value (some out) capacity ≡ some bytes
    → written_heartbeat value out ≡ bytes
unfolding encode_heartbeat
encode_heartbeat_inv value out bytes capacity e = ground arith

-- A heartbeat with numbers of their widths that `encode_heartbeat` accepts decodes to the same
-- heartbeat.
pub decode_heartbeat-encode_heartbeat :
    (value : Heartbeat) (out bytes : Buffer) (capacity : ℕ)
    → FitsHeartbeat value
    → encode_heartbeat value (some out) capacity ≡ some bytes
    → decode_heartbeat (some bytes) heartbeat_bytes ≡ some value
unfolding decode_heartbeat put64 put32
decode_heartbeat-encode_heartbeat value out bytes capacity fits e =
    rw (← encode_heartbeat_inv value out bytes capacity e) (λ i. some (record {
      uptime_ms =
          get64_lem (written_heartbeat value out) 0 value.uptime_ms fits.uptime_ms
            (refl, refl, refl, refl, refl, refl, refl, refl) i;
      capabilities =
          get32_lem (written_heartbeat value out) 8 value.capabilities fits.capabilities
            (refl, refl, refl, refl) i;
      state =
          get32_lem (written_heartbeat value out) 12 value.state fits.state (refl, refl, refl, refl)
            i;
    }))
