-- ===== src/Proxy/Bounds.antt =====
-- src/proxy.cpp: what holds of a proxy after every operation.
pub mod Links
pub mod Records
pub mod Reachable
use new_mavlink.Common.{
  ℕ, zero, suc, ◌+◌, ◌-◌, ◌<◌, ◌≤◌, ◌≡◌, ◌≢◌, ◌⊎◌, inl, inr, refl, sym, ap, ◌∙◌, Bool, true, false,
  not, ◌&&◌, ◌||◌, List, [], ◌∷◌, ◌++◌, Option, none, some, Option-cases, Bool-cases, length,
  length-append, is_some, ltb, leb, ◌==◌, if◌then◌else◌, lookup, store, erase, Distinct,
  store-Distinct, erase-Distinct, lookup-store, lookup-store_other, lookup-erase,
  lookup-erase_other, length-store_new, length-store_old, length-erase, All, arith,
}
use new_mavlink.Wire.{MessageType, type_code, state_type}
use new_mavlink.Messages.{NativeMessage, Subscription, ResyncRequest}
use new_mavlink.Record.Types.{OpenRecord}
use new_mavlink.Record.Session.{Session}
use new_mavlink.Qos.{BoundedQosQueue, new_queue, push, pop}
use new_mavlink.Qos.Invariant.{IsValid, new_queue-IsValid, push-IsValid}
use new_mavlink.Qos.Pop.{pop_lem}
use new_mavlink.Proxy.{
  NativeProxy, LinkState, ProxyMetrics, max_proxy_subscriptions, new_proxy, add_link, remove_link,
  subscription_count, push_cached, refuses_subscription, subscribe_link, subscribe, unsubscribe,
  next, next_resync, pop_resync,
}
use new_mavlink.Proxy.Ingest.{
  admits_record, bad_position, ingest, deliver, cache_message, act, verdict, Verdict, reject,
  ask_resync, message_of, forward, forward_link, count_forwarded,
}

abbrev pub QueuesValid : List (ℕ × LinkState) → Type 0
QueuesValid links = All (λ (e : ℕ × LinkState). IsValid e.1.queue) links

-- At most 16 links, each under one identifier and with a valid queue, at most 64 subscriptions in
-- all, and no more requests to resynchronise than a queue has room for.
pub record WithinBounds (p : NativeProxy) : Type 0 where
  pub links : length p.links ≤ 16
  pub distinct : Distinct p.links
  pub subscriptions : subscription_count p.links ≤ max_proxy_subscriptions
  pub queues : QueuesValid p.links
  pub cache : Distinct p.cache
  pub resync : length p.resync ≤ p.queue_capacity

pub new_proxy-WithinBounds : (capacity : ℕ) → WithinBounds (new_proxy capacity)
unfolding new_proxy subscription_count
new_proxy-WithinBounds capacity = record {
  links = omega arith;
  distinct = tt;
  subscriptions = omega arith;
  queues = tt;
  cache = tt;
  resync = omega arith;
}

count-store :
    (links : List (ℕ × LinkState)) (k : ℕ) (old new : LinkState)
    → lookup links k ≡ some old
    → subscription_count (store links k new) + length old.subscriptions
      ≡ subscription_count links + length new.subscriptions
unfolding subscription_count
count-store [] k old new h = cc
count-store ((j, l) ∷ links) k old new h = elim (Bool-cases (j == k)) [
  | inl here ↦ let e : l ≡ old = ground (arith, h, here) in rw (here, e) (omega arith)
  | inr there ↦ rw there (omega (arith, count-store links k old new (ground (arith, h, there))))
]

pub count-store_new :
    (links : List (ℕ × LinkState)) (k : ℕ) (new : LinkState)
    → lookup links k ≡ none
    → subscription_count (store links k new) ≡ subscription_count links + length new.subscriptions
unfolding subscription_count
count-store_new [] k new h = omega arith
count-store_new ((j, l) ∷ links) k new h = elim (Bool-cases (j == k)) [
  | inl here ↦ absurd (ground (arith, h, here))
  | inr there ↦ rw there (omega (arith, count-store_new links k new (ground (arith, h, there))))
]

pub count-erase :
    (links : List (ℕ × LinkState)) (k : ℕ)
    → subscription_count (erase links k) ≤ subscription_count links
unfolding subscription_count
count-erase [] k = omega arith
count-erase ((j, l) ∷ links) k = ground (arith, count-erase links k)

pub queues-store :
    (links : List (ℕ × LinkState)) (k : ℕ) (new : LinkState)
    → QueuesValid links
    → IsValid new.queue
    → QueuesValid (store links k new)
queues-store [] k new h v = (v, tt)
queues-store ((j, l) ∷ links) k new h v = elim (Bool-cases (j == k)) [
  | inl here ↦ rw here (v, h.1)
  | inr there ↦ rw there (h.0, queues-store links k new h.1 v)
]

pub queues-erase :
    (links : List (ℕ × LinkState)) (k : ℕ) → QueuesValid links → QueuesValid (erase links k)
queues-erase [] k h = tt
queues-erase ((j, l) ∷ links) k h = elim (Bool-cases (j == k)) [
  | inl here ↦ rw here (queues-erase links k h.1)
  | inr there ↦ rw there (h.0, queues-erase links k h.1)
]

pub queue_at :
    (links : List (ℕ × LinkState)) (k : ℕ) (l : LinkState)
    → QueuesValid links
    → lookup links k ≡ some l
    → IsValid l.queue
queue_at [] k l h e = cc
queue_at ((j, x) ∷ links) k l h e = elim (Bool-cases (j == k)) [
  | inl here ↦ let same : x ≡ l = ground (arith, e, here) in rw (← same) h.0
  | inr there ↦ queue_at links k l h.1 (ground (arith, e, there))
]

-- A link that was found is replaced.
pub replace-WithinBounds :
    (p : NativeProxy) (k : ℕ) (old new : LinkState)
    → WithinBounds p
    → lookup p.links k ≡ some old
    → IsValid new.queue
    → subscription_count p.links + length new.subscriptions
      ≤ max_proxy_subscriptions + length old.subscriptions
    → WithinBounds (record p { links = store p.links k new })
replace-WithinBounds p k old new w e v le = record {
  links = omega (arith, length-store_old p.links k new old e, w.links);
  distinct = store-Distinct p.links k new w.distinct;
  subscriptions = omega (arith, count-store p.links k old new e);
  queues = queues-store p.links k new w.queues v;
  cache = w.cache;
  resync = w.resync;
}
