-- ===== src/Proxy/Routing.antt =====
-- src/proxy.cpp, lines 72 to 78: which links a record reaches.
use new_mavlink.Common.{
  ℕ, ◌≡◌, ◌≢◌, ◌⊎◌, inl, inr, refl, ap, ◌∙◌, true, false, List, [], ◌∷◌, Option, none, some, lookup,
  ◌==◌, if◌then◌else◌, Bool-cases, arith,
}
use new_mavlink.Wire.{type_code, state_type}
use new_mavlink.Messages.{NativeMessage}
use new_mavlink.Record.Types.{OpenRecord}
use new_mavlink.Qos.{push}
use new_mavlink.Proxy.{NativeProxy, LinkState, ProxyMetrics}
use new_mavlink.Proxy.Ingest.{
  admits_record, bad_position, ingest, forward_link, forward, wants, deliver, cache_message, act,
  verdict, Verdict, reject, ask_resync, message_of,
}

-- What a link is like after the loop.
unfoldable pub routed : ℕ → Option LinkState → ℕ → NativeMessage → ℕ → Option LinkState
routed link_id none ingress_link m now_ms = none
routed link_id (some link) ingress_link m now_ms =
    if link_id == ingress_link then some link else some (forward_link link_id link m now_ms).0

lookup-forward :
    (links : List (ℕ × LinkState)) (metrics : ProxyMetrics) (ingress_link : ℕ) (m : NativeMessage)
    (now_ms link_id : ℕ)
    → lookup (forward links metrics ingress_link m now_ms).0 link_id
      ≡ routed link_id (lookup links link_id) ingress_link m now_ms
unfolding forward routed
lookup-forward [] metrics ingress_link m now_ms link_id = refl
lookup-forward ((j, link) ∷ rest) metrics ingress_link m now_ms link_id =
    elim (Bool-cases (j == link_id)) [
      | inl here ↦ let e : j ≡ link_id = ground arith in ground (arith, e)
      | inr there ↦ rw there (lookup-forward rest _ ingress_link m now_ms link_id)
    ]

deliver_routes :
    (p : NativeProxy) (ingress_link : ℕ) (m : NativeMessage) (now_ms link_id : ℕ)
    → lookup (deliver p ingress_link m now_ms).0.links link_id
      ≡ routed link_id (lookup p.links link_id) ingress_link m now_ms
unfolding deliver
deliver_routes p ingress_link m now_ms link_id =
    lookup-forward p.links _ ingress_link m now_ms link_id

-- The other ways through `ingest` leave the links as they are.
act_routes :
    (p : NativeProxy) (ingress_link : ℕ) (m : NativeMessage) (now_ms link_id : ℕ) (v : Verdict)
    → (lookup (act p ingress_link m now_ms v).0.links link_id ≡ lookup p.links link_id)
      ⊎ (lookup (act p ingress_link m now_ms v).0.links link_id
          ≡ routed link_id (lookup p.links link_id) ingress_link m now_ms)
unfolding act reject ask_resync cache_message
act_routes p ingress_link m now_ms link_id Verdict.refuse = inl refl
act_routes p ingress_link m now_ms link_id (Verdict.gap meta) = ground arith
act_routes p ingress_link m now_ms link_id Verdict.stale = inl refl
act_routes p ingress_link m now_ms link_id Verdict.take =
    inr (deliver_routes (cache_message p m) ingress_link m now_ms link_id)

ingest_routes :
    (p : NativeProxy) (ingress_link : ℕ) (opened : OpenRecord) (now_ms link_id : ℕ)
    → (lookup (ingest p ingress_link opened now_ms).0.links link_id ≡ lookup p.links link_id)
      ⊎ (lookup (ingest p ingress_link opened now_ms).0.links link_id
          ≡ routed link_id (lookup p.links link_id) ingress_link (message_of opened) now_ms)
unfolding ingest reject
ingest_routes p ingress_link opened now_ms link_id =
    let m = message_of opened in
    ground (
      arith,
      act_routes p ingress_link m now_ms link_id (verdict p m),
      deliver_routes p ingress_link m now_ms link_id,
    )

routed_same :
    (link_id : ℕ) (link : LinkState) (ingress_link : ℕ) (m : NativeMessage) (now_ms : ℕ)
    → (link_id ≡ ingress_link)
      ⊎ (wants (lookup link.subscriptions (type_code m.header.type)) m ≡ false)
    → routed link_id (some link) ingress_link m now_ms ≡ some link
unfolding routed forward_link
routed_same link_id link ingress_link m now_ms h = ground (arith, h)

-- Whatever record `ingest` is given, it leaves a link as it was if the record came in on that link,
-- or if the link has no subscription to the record's type and source.
pub ingest-isolated :
    (p : NativeProxy) (ingress_link : ℕ) (opened : OpenRecord) (now_ms link_id : ℕ)
    (link : LinkState)
    → lookup p.links link_id ≡ some link
    → (link_id ≡ ingress_link)
      ⊎ (wants (lookup link.subscriptions (type_code opened.header.type)) (message_of opened)
          ≡ false)
    → lookup (ingest p ingress_link opened now_ms).0.links link_id ≡ some link
unfolding message_of
ingest-isolated p ingress_link opened now_ms link_id link found h =
    elim (ingest_routes p ingress_link opened now_ms link_id) [
      | inl same ↦ same ∙ found
      | inr moved ↦
          moved
          ∙ ap (λ (l : Option LinkState). routed link_id l ingress_link (message_of opened) now_ms)
              found
          ∙ routed_same link_id link ingress_link (message_of opened) now_ms h
    ]

-- When `ingest` gets as far as its last loop.
abbrev pub Delivered : NativeProxy → ℕ → OpenRecord → Type 0
Delivered p ingress_link opened =
    (admits_record p ingress_link opened ≡ true)
    × (bad_position (message_of opened) ≡ false)
    × ((state_type opened.header.type ≡ false) ⊎ (verdict p (message_of opened) ≡ Verdict.take))

routed_sent :
    (link_id : ℕ) (link : LinkState) (ingress_link : ℕ) (m : NativeMessage) (now_ms : ℕ)
    → link_id ≢ ingress_link
    → wants (lookup link.subscriptions (type_code m.header.type)) m ≡ true
    → routed link_id (some link) ingress_link m now_ms
      ≡ some (record link {
        queue =
            (push link.queue
              (record m { header = record m.header { destination_id = link_id } })
              now_ms).0;
      })
unfolding routed forward_link
routed_sent link_id link ingress_link m now_ms ne h = ground (arith, ne, h)

take_routes :
    (p : NativeProxy) (ingress_link : ℕ) (m : NativeMessage) (now_ms link_id : ℕ) (v : Verdict)
    → v ≡ Verdict.take
    → ((act p ingress_link m now_ms v).1 ≡ true)
      × (lookup (act p ingress_link m now_ms v).0.links link_id
          ≡ routed link_id (lookup p.links link_id) ingress_link m now_ms)
unfolding act deliver cache_message
take_routes p ingress_link m now_ms link_id v e =
    rw e (refl, lookup-forward p.links _ ingress_link m now_ms link_id)

deliver_done :
    (p : NativeProxy) (ingress_link : ℕ) (m : NativeMessage) (now_ms : ℕ)
    → (deliver p ingress_link m now_ms).1 ≡ true
unfolding deliver
deliver_done p ingress_link m now_ms = refl

Delivered-routes :
    (p : NativeProxy) (ingress_link : ℕ) (opened : OpenRecord) (now_ms link_id : ℕ)
    → Delivered p ingress_link opened
    → ((ingest p ingress_link opened now_ms).1 ≡ true)
      × (lookup (ingest p ingress_link opened now_ms).0.links link_id
          ≡ routed link_id (lookup p.links link_id) ingress_link (message_of opened) now_ms)
unfolding message_of ingest
Delivered-routes p ingress_link opened now_ms link_id (ad, pos, inl plain) =
    rw (ingest, ad, pos, plain)
      (
        deliver_done p ingress_link (message_of opened) now_ms,
        deliver_routes p ingress_link (message_of opened) now_ms link_id,
      )
Delivered-routes p ingress_link opened now_ms link_id (ad, pos, inr taken) =
    elim (Bool-cases (state_type opened.header.type)) [
      | inl st ↦
          rw (ingest, ad, pos, st)
            (take_routes p ingress_link (message_of opened) now_ms link_id _ taken)
      | inr plain ↦
          rw (ingest, ad, pos, plain)
            (
              deliver_done p ingress_link (message_of opened) now_ms,
              deliver_routes p ingress_link (message_of opened) now_ms link_id,
            )
    ]

-- If a record is admitted, is no position that fails to decode, and is no state message or one that
-- the cache takes, then `ingest` returns true, and every other link with a subscription to its type
-- and source has it pushed on its queue with the link as destination, and is otherwise as before.
pub ingest-delivers :
    (p : NativeProxy) (ingress_link : ℕ) (opened : OpenRecord) (now_ms link_id : ℕ)
    (link : LinkState)
    → Delivered p ingress_link opened
    → lookup p.links link_id ≡ some link
    → link_id ≢ ingress_link
    → wants (lookup link.subscriptions (type_code opened.header.type)) (message_of opened) ≡ true
    → ((ingest p ingress_link opened now_ms).1 ≡ true)
      × (lookup (ingest p ingress_link opened now_ms).0.links link_id
          ≡ some (record link {
            queue =
                (push link.queue
                  (record (message_of opened) {
                    header = record opened.header { destination_id = link_id };
                  })
                  now_ms).0;
          }))
unfolding message_of
ingest-delivers p ingress_link opened now_ms link_id link delivered found ne h =
    let (done, e) = Delivered-routes p ingress_link opened now_ms link_id delivered in
    (
      done,
      e
          ∙ ap (λ (l : Option LinkState). routed link_id l ingress_link (message_of opened) now_ms)
              found
          ∙ routed_sent link_id link ingress_link (message_of opened) now_ms ne h,
    )
