-- ===== src/Proxy/Ingest.antt =====
-- src/proxy.cpp, lines 52 to 80: what the proxy does with an opened record. The function `stream_key`
-- of lines 8 to 17 repeats that of the queue, and is taken from there.
use new_mavlink.Common.{
  ℕ, Bool, true, false, not, ◌&&◌, List, [], ◌∷◌, ◌++◌, Option, none, some, Zeros, read_bytes,
  write_bytes, length, is_some, leb, ltb, ◌==◌, ◌!=◌, if◌then◌else◌, lookup, store, incr64,
}
use new_mavlink.Wire.{MessageType, type_code, known_type, state_type, max_payload_bytes}
use new_mavlink.Messages.{NativeMessage, Subscription, ResyncRequest, StateMeta}
use new_mavlink.Messages.State.{decode_state_meta, decode_position}
use new_mavlink.Record.Types.{OpenRecord}
use new_mavlink.Qos.{push, stream_key}
use new_mavlink.Proxy.{NativeProxy, LinkState, ProxyMetrics}

unfoldable pub reject : NativeProxy → NativeProxy × Bool
reject p = (
  record p { metrics = record p.metrics { ingress_rejected = incr64 p.metrics.ingress_rejected } },
  false,
)

-- The source and the destination are those of the link's session.
unfoldable pub from_peer : Option LinkState → OpenRecord → Bool
from_peer none opened = false
from_peer (some link) opened = elim link.session [
  | none ↦ false
  | some session ↦
      opened.header.source_id == session.keys.peer_id
      && opened.header.destination_id == session.keys.local_id
]

unfoldable pub admits_record : NativeProxy → ℕ → OpenRecord → Bool
admits_record p ingress_link opened =
    leb opened.length max_payload_bytes
    && known_type opened.header.type
    && from_peer (lookup p.links ingress_link) opened

unfoldable pub message_of : OpenRecord → NativeMessage
message_of opened = record {
  header = opened.header;
  payload = write_bytes Zeros 0 (read_bytes opened.payload 0 opened.length);
  length = opened.length;
}

unfoldable pub bad_position : NativeMessage → Bool
bad_position m =
    type_code m.header.type == type_code MessageType.position
    && not (is_some (decode_position (some m.payload) m.length))

-- The metadata at the front of a payload that has room for it.
unfoldable pub meta_of : NativeMessage → Option StateMeta
meta_of m = if leb 16 m.length then decode_state_meta (some m.payload) 16 else none

-- What becomes of an update to a stream that is cached.
pub data Verdict : Type 0 where
  refuse stale take : Verdict
  gap : StateMeta → Verdict

unfoldable pub compare_generations : StateMeta → StateMeta → Verdict
compare_generations old new =
    if new.snapshot == 0 && new.base_generation != old.generation
    then Verdict.gap new
    else if leb new.generation old.generation
    then Verdict.stale
    else Verdict.take

unfoldable pub judge_metas : Option StateMeta → Option StateMeta → Bool → Verdict
judge_metas none new bad = Verdict.refuse
judge_metas (some old) none bad = Verdict.refuse
judge_metas (some old) (some new) bad = if bad then Verdict.refuse else compare_generations old new

unfoldable pub judge : NativeMessage → NativeMessage → Verdict
judge old message = judge_metas (meta_of old) (meta_of message) (bad_position message)

unfoldable pub ask_resync : NativeProxy → ResyncRequest → NativeProxy × Bool
ask_resync p request =
    if ltb (length p.resync) p.queue_capacity
    then (
      record p {
        resync = p.resync ++ (request ∷ []);
        metrics = record p.metrics { resync_requests = incr64 p.metrics.resync_requests };
      },
      false,
    )
    else (p, false)

-- `for (auto& item : links_)`: whether the link gets the message.
unfoldable pub wants : Option Subscription → NativeMessage → Bool
wants none m = false
wants (some s) m = s.source_id == m.header.source_id

unfoldable pub forward_link : ℕ → LinkState → NativeMessage → ℕ → LinkState × Bool
forward_link link_id link m now_ms =
    let (queue, done) =
      push link.queue (record m { header = record m.header { destination_id = link_id } }) now_ms in
    if wants (lookup link.subscriptions (type_code m.header.type)) m
    then (record link { queue = queue }, done)
    else (link, false)

unfoldable pub count_forwarded : ProxyMetrics → Bool → ProxyMetrics
count_forwarded metrics done =
    if done then record metrics { forwarded = incr64 metrics.forwarded } else metrics

unfoldable pub forward :
    List (ℕ × LinkState)
    → ProxyMetrics
    → ℕ
    → NativeMessage
    → ℕ
    → List (ℕ × LinkState) × ProxyMetrics
forward [] metrics ingress_link m now_ms = ([], metrics)
forward ((link_id, link) ∷ rest) metrics ingress_link m now_ms =
    let (after, done) =
      if link_id == ingress_link then (link, false) else forward_link link_id link m now_ms in
    let (links, counted) = forward rest (count_forwarded metrics done) ingress_link m now_ms in
    ((link_id, after) ∷ links, counted)

unfoldable pub deliver : NativeProxy → ℕ → NativeMessage → ℕ → NativeProxy × Bool
deliver p ingress_link m now_ms =
    let accepted = record p.metrics { ingress_accepted = incr64 p.metrics.ingress_accepted } in
    let (links, metrics) = forward p.links accepted ingress_link m now_ms in
    (record p { links = links; metrics = metrics }, true)

unfoldable pub cache_message : NativeProxy → NativeMessage → NativeProxy
cache_message p m = record p {
  cache = store p.cache (stream_key m) m;
  metrics = record p.metrics { cache_updates = incr64 p.metrics.cache_updates };
}

unfoldable pub act : NativeProxy → ℕ → NativeMessage → ℕ → Verdict → NativeProxy × Bool
act p ingress_link m now_ms Verdict.refuse = reject p
act p ingress_link m now_ms (Verdict.gap meta) =
    ask_resync p
      (record { type = m.header.type; source_id = meta.source_id; resource_id = meta.resource_id })
act p ingress_link m now_ms Verdict.stale = (p, true)
act p ingress_link m now_ms Verdict.take = deliver (cache_message p m) ingress_link m now_ms

-- The first message of a stream is taken as it is.
unfoldable pub verdict : NativeProxy → NativeMessage → Verdict
verdict p m = elim (lookup p.cache (stream_key m)) [ none ↦ Verdict.take | some old ↦ judge old m ]

unfoldable pub ingest : NativeProxy → ℕ → OpenRecord → ℕ → NativeProxy × Bool
ingest p ingress_link opened now_ms =
    let m = message_of opened in
    if not (admits_record p ingress_link opened)
    then reject p
    else if bad_position m
    then reject p
    else if state_type m.header.type
    then act p ingress_link m now_ms (verdict p m)
    else deliver p ingress_link m now_ms
