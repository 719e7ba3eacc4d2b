-- ===== src/Proxy/Bounds/Records.antt =====
-- src/proxy.cpp, lines 52 to 80: an ingested record keeps the bounds.
use new_mavlink.Common.{
  ℕ, suc, ◌≡◌, inl, inr, refl, ap, false, List, [], ◌∷◌, none, Bool-cases, length, length-append,
  ltb, ◌==◌, lookup, Distinct, store-Distinct, arith,
}
use new_mavlink.Wire.{type_code, state_type}
use new_mavlink.Messages.{NativeMessage}
use new_mavlink.Record.Types.{OpenRecord}
use new_mavlink.Qos.{stream_key}
use new_mavlink.Qos.Invariant.{IsValid, push-IsValid}
use new_mavlink.Proxy.{NativeProxy, LinkState, ProxyMetrics, subscription_count}
use new_mavlink.Proxy.Ingest.{
  admits_record, bad_position, ingest, deliver, cache_message, act, Verdict, reject, ask_resync,
  message_of, forward, forward_link, wants, count_forwarded,
}
use new_mavlink.Proxy.Bounds.{WithinBounds, QueuesValid}

forward_link-subscriptions :
    (k : ℕ) (l : LinkState) (m : NativeMessage) (now_ms : ℕ)
    → (forward_link k l m now_ms).0.subscriptions ≡ l.subscriptions
unfolding forward_link
forward_link-subscriptions k l m now_ms = ground arith

forward_link-IsValid :
    (k : ℕ) (l : LinkState) (m : NativeMessage) (now_ms : ℕ)
    → IsValid l.queue
    → IsValid (forward_link k l m now_ms).0.queue
unfolding forward_link
forward_link-IsValid k l m now_ms v =
    elim (Bool-cases (wants (lookup l.subscriptions (type_code m.header.type)) m)) [
      | inl yes_ ↦ rw yes_ (push-IsValid l.queue _ now_ms v)
      | inr no_ ↦ rw no_ v
    ]

forward-size :
    (links : List (ℕ × LinkState)) (x : ProxyMetrics) (i : ℕ) (m : NativeMessage) (now_ms : ℕ)
    → length (forward links x i m now_ms).0 ≡ length links
unfolding forward
forward-size [] x i m now_ms = refl
forward-size ((j, l) ∷ links) x i m now_ms = ap suc (forward-size links _ i m now_ms)

forward-keys :
    (links : List (ℕ × LinkState)) (x : ProxyMetrics) (i : ℕ) (m : NativeMessage) (now_ms k : ℕ)
    → lookup links k ≡ none
    → lookup (forward links x i m now_ms).0 k ≡ none
unfolding forward
forward-keys [] x i m now_ms k e = refl
forward-keys ((j, l) ∷ links) x i m now_ms k e = elim (Bool-cases (j == k)) [
  | inl here ↦ absurd (ground (arith, e, here))
  | inr there ↦ rw there (forward-keys links _ i m now_ms k (ground (arith, e, there)))
]

forward-Distinct :
    (links : List (ℕ × LinkState)) (x : ProxyMetrics) (i : ℕ) (m : NativeMessage) (now_ms : ℕ)
    → Distinct links
    → Distinct (forward links x i m now_ms).0
unfolding forward
forward-Distinct [] x i m now_ms d = tt
forward-Distinct ((j, l) ∷ links) x i m now_ms d =
    (forward-keys links _ i m now_ms j d.0, forward-Distinct links _ i m now_ms d.1)

forward-count :
    (links : List (ℕ × LinkState)) (x : ProxyMetrics) (i : ℕ) (m : NativeMessage) (now_ms : ℕ)
    → subscription_count (forward links x i m now_ms).0 ≡ subscription_count links
unfolding forward subscription_count
forward-count [] x i m now_ms = refl
forward-count ((j, l) ∷ links) x i m now_ms = elim (Bool-cases (j == i)) [
  | inl here ↦ rw here (omega (arith, forward-count links (count_forwarded x false) i m now_ms))
  | inr there ↦ rw there (
      omega (
        arith,
        ap length (forward_link-subscriptions j l m now_ms),
        forward-count links (count_forwarded x (forward_link j l m now_ms).1) i m now_ms,
      ))
]

forward-queues :
    (links : List (ℕ × LinkState)) (x : ProxyMetrics) (i : ℕ) (m : NativeMessage) (now_ms : ℕ)
    → QueuesValid links
    → QueuesValid (forward links x i m now_ms).0
unfolding forward
forward-queues [] x i m now_ms v = tt
forward-queues ((j, l) ∷ links) x i m now_ms v = elim (Bool-cases (j == i)) [
  | inl here ↦ rw here (v.0, forward-queues links _ i m now_ms v.1)
  | inr there ↦
      rw there (forward_link-IsValid j l m now_ms v.0, forward-queues links _ i m now_ms v.1)
]

deliver-WithinBounds :
    (p : NativeProxy) (i : ℕ) (m : NativeMessage) (now_ms : ℕ)
    → WithinBounds p
    → WithinBounds (deliver p i m now_ms).0
unfolding deliver
deliver-WithinBounds p i m now_ms w = record {
  links = omega (arith, w.links, forward-size p.links _ i m now_ms);
  distinct = forward-Distinct p.links _ i m now_ms w.distinct;
  subscriptions = omega (arith, w.subscriptions, forward-count p.links _ i m now_ms);
  queues = forward-queues p.links _ i m now_ms w.queues;
  cache = w.cache;
  resync = w.resync;
}

with_metrics :
    (p : NativeProxy) (x : ProxyMetrics) → WithinBounds p → WithinBounds (record p { metrics = x })
with_metrics p x w = record {
  links = w.links;
  distinct = w.distinct;
  subscriptions = w.subscriptions;
  queues = w.queues;
  cache = w.cache;
  resync = w.resync;
}

act-WithinBounds :
    (p : NativeProxy) (i : ℕ) (m : NativeMessage) (now_ms : ℕ) (v : Verdict)
    → WithinBounds p
    → WithinBounds (act p i m now_ms v).0
unfolding act reject cache_message ask_resync
act-WithinBounds p i m now_ms Verdict.refuse w = with_metrics p _ w
act-WithinBounds p i m now_ms (Verdict.gap meta) w =
    elim (Bool-cases (ltb (length p.resync) p.queue_capacity)) [
      | inl room ↦ rw room (record {
        links = w.links;
        distinct = w.distinct;
        subscriptions = w.subscriptions;
        queues = w.queues;
        cache = w.cache;
        resync = ground (
          arith,
          room,
          length-append p.resync (
              record {
                type = m.header.type;
                source_id = meta.source_id;
                resource_id = meta.resource_id;
              }
              ∷ []),
        );
      })
      | inr full ↦ rw full w
    ]
act-WithinBounds p i m now_ms Verdict.stale w = w
act-WithinBounds p i m now_ms Verdict.take w =
    deliver-WithinBounds (cache_message p m) i m now_ms (record {
      links = w.links;
      distinct = w.distinct;
      subscriptions = w.subscriptions;
      queues = w.queues;
      cache = store-Distinct p.cache (stream_key m) m w.cache;
      resync = w.resync;
    })

pub ingest-WithinBounds :
    (p : NativeProxy) (i : ℕ) (opened : OpenRecord) (now_ms : ℕ)
    → WithinBounds p
    → WithinBounds (ingest p i opened now_ms).0
unfolding ingest reject
ingest-WithinBounds p i opened now_ms w = elim (Bool-cases (admits_record p i opened)) [
  | inr refused ↦ rw refused (with_metrics p _ w)
  | inl admitted ↦ elim (Bool-cases (bad_position (message_of opened))) [
    | inl bad ↦ rw (admitted, bad) (with_metrics p _ w)
    | inr good ↦ elim (Bool-cases (state_type (message_of opened).header.type)) [
      | inl st ↦ rw (admitted, good, st) (act-WithinBounds p i (message_of opened) now_ms _ w)
      | inr plain ↦
          rw (admitted, good, plain) (deliver-WithinBounds p i (message_of opened) now_ms w)
    ]
  ]
]
