-- ===== src/Proxy.antt =====
-- include/new_mavlink/proxy.hpp and src/proxy.cpp: the proxy between links. Its hash maps are
-- lists of entries, iterated in their order; the theorems hold for every order.
pub mod Ingest
pub mod Bounds
pub mod Cache
pub mod Routing
use new_mavlink.Common.{
  ℕ, suc, ◌+◌, Bool, true, false, not, ◌&&◌, ◌||◌, List, [], ◌∷◌, ◌++◌, Option, none, some, length,
  is_some, leb, ltb, ◌==◌, ◌!=◌, if◌then◌else◌, lookup, store, erase, incr64,
}
use new_mavlink.Wire.{MessageType, Qos, type_code, qos_code, known_type, control_type, command_type}
use new_mavlink.Messages.{NativeMessage, Subscription, ResyncRequest}
use new_mavlink.Record.Session.{Session}
use new_mavlink.Qos.{BoundedQosQueue, new_queue, push, pop}

abbrev pub max_proxy_subscriptions : ℕ
max_proxy_subscriptions = 64

pub record ProxyMetrics : Type 0 where
  pub ingress_accepted : ℕ
  pub ingress_rejected : ℕ
  pub forwarded : ℕ
  pub cache_updates : ℕ
  pub resync_requests : ℕ

-- `session` is the value behind the pointer; the proxy reads only its two identifiers, which no
-- method of `Session` changes.
pub record LinkState : Type 0 where
  pub session : Option Session
  pub queue : BoundedQosQueue
  pub subscriptions : List (ℕ × Subscription)

pub record NativeProxy : Type 0 where
  pub queue_capacity : ℕ
  pub links : List (ℕ × LinkState)
  pub cache : List (ℕ × NativeMessage)
  pub resync : List ResyncRequest
  pub metrics : ProxyMetrics

-- `NativeProxy(queue_capacity)`
unfoldable pub new_proxy : ℕ → NativeProxy
new_proxy queue_capacity = record {
  queue_capacity = queue_capacity;
  links = [];
  cache = [];
  resync = [];
  metrics = record {
    ingress_accepted = 0;
    ingress_rejected = 0;
    forwarded = 0;
    cache_updates = 0;
    resync_requests = 0;
  };
}

unfoldable pub add_link : NativeProxy → ℕ → Session → NativeProxy × Bool
add_link p link_id session =
    if link_id == 0 || is_some (lookup p.links link_id) || leb 16 (length p.links)
    then (p, false)
    else let state : LinkState = record {
      session = some session;
      queue = new_queue p.queue_capacity;
      subscriptions = [];
    } in
      (record p { links = store p.links link_id state }, true)

unfoldable pub remove_link : NativeProxy → ℕ → NativeProxy × Bool
remove_link p link_id =
    (record p { links = erase p.links link_id }, is_some (lookup p.links link_id))

-- `for (const auto& link : links_) count += link.second.subscriptions.size();`
unfoldable pub subscription_count : List (ℕ × LinkState) → ℕ
subscription_count [] = 0
subscription_count (link ∷ links) = length link.1.subscriptions + subscription_count links

-- The loop of `subscribe` over the cache, which ends where a push fails.
unfoldable pub push_cached :
    BoundedQosQueue → List (ℕ × NativeMessage) → ℕ → ℕ → BoundedQosQueue × Bool
push_cached q [] key source_id = (q, true)
push_cached q (cached ∷ rest) key source_id =
    let (pushed, done) =
      if type_code cached.1.header.type == key && cached.1.header.source_id == source_id
      then push q cached.1 0
      else (q, true) in
    let after = push_cached pushed rest key source_id in if done then after else (pushed, false)

unfoldable pub refuses_subscription : Subscription → Bool
refuses_subscription s =
    s.source_id == 0
    || not (known_type s.type)
    || control_type s.type
    || command_type s.type
    || ltb (qos_code Qos.explicit) (qos_code s.qos)

-- `subscribe` on the link that was found.
unfoldable pub subscribe_link : NativeProxy → ℕ → LinkState → Subscription → NativeProxy × Bool
subscribe_link p link_id link s =
    let key = type_code s.type in
    if not (is_some (lookup link.subscriptions key))
      && leb max_proxy_subscriptions (subscription_count p.links)
    then (p, false)
    else let (queue, done) = push_cached link.queue p.cache key s.source_id in
      let link = record link { queue = queue; subscriptions = store link.subscriptions key s } in
      (record p { links = store p.links link_id link }, done)

unfoldable pub subscribe : NativeProxy → ℕ → Subscription → NativeProxy × Bool
subscribe p link_id s = elim (lookup p.links link_id) [
  | none ↦ (p, false)
  | some link ↦ if refuses_subscription s then (p, false) else subscribe_link p link_id link s
]

unfoldable pub unsubscribe : NativeProxy → ℕ → MessageType → NativeProxy × Bool
unsubscribe p link_id type = elim (lookup p.links link_id) [
  | none ↦ (p, false)
  | some link ↦ (
    record p {
      links =
          store p.links link_id
            (record link { subscriptions = erase link.subscriptions (type_code type) });
    },
    is_some (lookup link.subscriptions (type_code type)),
  )
]

unfoldable pub next : NativeProxy → ℕ → ℕ → NativeProxy × Option NativeMessage
next p egress_link now_ms = elim (lookup p.links egress_link) [
  | none ↦ (p, none)
  | some link ↦
      let (queue, message) = pop link.queue now_ms in
      (record p { links = store p.links egress_link (record link { queue = queue }) }, message)
]

unfoldable pub find_cached : List (ℕ × NativeMessage) → MessageType → Option NativeMessage
find_cached [] type = none
find_cached (item ∷ rest) type =
    let later = find_cached rest type in
    if type_code item.1.header.type == type_code type then some item.1 else later

unfoldable pub cached : NativeProxy → MessageType → Option NativeMessage
cached p type = find_cached p.cache type

unfoldable pub pop_resync : NativeProxy → List ResyncRequest → NativeProxy × Option ResyncRequest
pop_resync p [] = (p, none)
pop_resync p (request ∷ rest) = (record p { resync = rest }, some request)

unfoldable pub next_resync : NativeProxy → NativeProxy × Option ResyncRequest
next_resync p = pop_resync p p.resync
