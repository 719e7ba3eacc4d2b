-- ===== src/Proxy/Bounds/Links.antt =====
-- src/proxy.cpp, lines 21 to 50 and 82 to 95: the links and their subscriptions stay in bounds.
use new_mavlink.Common.{
  ℕ, suc, ◌<◌, ◌≤◌, ◌≡◌, ◌⊎◌, inl, inr, ap, true, false, not, ◌&&◌, ◌||◌, List, [], ◌∷◌, none, some,
  Option-cases, Bool-cases, length, is_some, leb, ◌==◌, lookup, store, store-Distinct,
  erase-Distinct, length-store_new, length-store_old, length-erase, arith,
}
use new_mavlink.Wire.{MessageType, type_code}
use new_mavlink.Messages.{NativeMessage, Subscription, ResyncRequest}
use new_mavlink.Record.Session.{Session}
use new_mavlink.Qos.{BoundedQosQueue, new_queue, push}
use new_mavlink.Qos.Invariant.{IsValid, new_queue-IsValid, push-IsValid}
use new_mavlink.Qos.Pop.{pop_lem}
use new_mavlink.Proxy.{
  NativeProxy, LinkState, max_proxy_subscriptions, add_link, remove_link, subscription_count,
  push_cached, refuses_subscription, subscribe_link, subscribe, unsubscribe, next, next_resync,
  pop_resync,
}
use new_mavlink.Proxy.Bounds.{
  WithinBounds, count-store_new, count-erase, queues-store, queues-erase, queue_at,
  replace-WithinBounds,
}

pub add_link-WithinBounds :
    (p : NativeProxy) (k : ℕ) (session : Session)
    → WithinBounds p
    → WithinBounds (add_link p k session).0
unfolding add_link
add_link-WithinBounds p k session w =
    elim (Bool-cases (k == 0 || is_some (lookup p.links k) || leb 16 (length p.links))) [
      | inl refused ↦ rw refused w
      | inr taken ↦ rw taken (added (ground (arith, taken)) (ground (arith, taken)))
    ]
  where
    state : LinkState
    state = record {
      session = some session;
      queue = new_queue p.queue_capacity;
      subscriptions = [];
    }

    added :
        lookup p.links k ≡ none
        → length p.links < 16
        → WithinBounds (record p { links = store p.links k state })
    added missing room = record {
      links = omega (arith, length-store_new p.links k state missing);
      distinct = store-Distinct p.links k state w.distinct;
      subscriptions = omega (arith, count-store_new p.links k state missing, w.subscriptions);
      queues = queues-store p.links k state w.queues (new_queue-IsValid p.queue_capacity);
      cache = w.cache;
      resync = w.resync;
    }

pub remove_link-WithinBounds :
    (p : NativeProxy) (k : ℕ) → WithinBounds p → WithinBounds (remove_link p k).0
unfolding remove_link
remove_link-WithinBounds p k w = record {
  links = omega (arith, length-erase p.links k, w.links);
  distinct = erase-Distinct p.links k w.distinct;
  subscriptions = omega (arith, count-erase p.links k, w.subscriptions);
  queues = queues-erase p.links k w.queues;
  cache = w.cache;
  resync = w.resync;
}

pub push_cached-IsValid :
    (q : BoundedQosQueue) (cache : List (ℕ × NativeMessage)) (key source_id : ℕ)
    → IsValid q
    → IsValid (push_cached q cache key source_id).0
unfolding push_cached
push_cached-IsValid q [] key source_id v = v
push_cached-IsValid q (c ∷ rest) key source_id v =
    elim (Bool-cases (type_code c.1.header.type == key && c.1.header.source_id == source_id)) [
      | inl match ↦ rw match (elim (Bool-cases (push q c.1 0).1) [
        | inl pushed ↦
            rw pushed
              (push_cached-IsValid (push q c.1 0).0 rest key source_id (push-IsValid q c.1 0 v))
        | inr full ↦ rw full (push-IsValid q c.1 0 v)
      ])
      | inr other ↦ rw other (push_cached-IsValid q rest key source_id v)
    ]

length-store_le :
    (m : List (ℕ × Subscription)) (k : ℕ) (s : Subscription)
    → (is_some (lookup m k) ≡ true) × (length (store m k s) ≡ length m)
      ⊎ (is_some (lookup m k) ≡ false) × (length (store m k s) ≡ suc (length m))
length-store_le m k s = elim (Option-cases (lookup m k)) [
  | inl missing ↦ inr (ap is_some missing, length-store_new m k s missing)
  | inr (old, found) ↦ inl (ap is_some found, length-store_old m k s old found)
]

pub subscribe_link-WithinBounds :
    (p : NativeProxy) (k : ℕ) (link : LinkState) (s : Subscription)
    → WithinBounds p
    → lookup p.links k ≡ some link
    → WithinBounds (subscribe_link p k link s).0
unfolding subscribe_link
subscribe_link-WithinBounds p k link s w found =
    elim (Bool-cases (
      not (is_some (lookup link.subscriptions (type_code s.type)))
      && leb max_proxy_subscriptions (subscription_count p.links))) [
        | inl full ↦ rw full w
        | inr room ↦ rw room (
            replace-WithinBounds p k link _ w found
              (push_cached-IsValid link.queue p.cache (type_code s.type) s.source_id
                (queue_at p.links k link w.queues found))
              (ground (
                arith,
                room,
                w.subscriptions,
                length-store_le link.subscriptions (type_code s.type) s,
              )))
      ]

pub subscribe-WithinBounds :
    (p : NativeProxy) (k : ℕ) (s : Subscription) → WithinBounds p → WithinBounds (subscribe p k s).0
unfolding subscribe
subscribe-WithinBounds p k s w = elim (Option-cases (lookup p.links k)) [
  | inl missing ↦ rw (subscribe, missing) w
  | inr (link, found) ↦ elim (Bool-cases (refuses_subscription s)) [
    | inl bad ↦ rw (subscribe, found, bad) w
    | inr good ↦ rw (subscribe, found, good) (subscribe_link-WithinBounds p k link s w found)
  ]
]

pub unsubscribe-WithinBounds :
    (p : NativeProxy) (k : ℕ) (type : MessageType)
    → WithinBounds p
    → WithinBounds (unsubscribe p k type).0
unfolding unsubscribe
unsubscribe-WithinBounds p k type w = elim (Option-cases (lookup p.links k)) [
  | inl missing ↦ rw (unsubscribe, missing) w
  | inr (link, found) ↦
      rw (unsubscribe, found)
        (replace-WithinBounds p k link _ w found (queue_at p.links k link w.queues found)
          (omega (arith, w.subscriptions, length-erase link.subscriptions (type_code type))))
]

pub next-WithinBounds :
    (p : NativeProxy) (k now_ms : ℕ) → WithinBounds p → WithinBounds (next p k now_ms).0
unfolding next
next-WithinBounds p k now_ms w = elim (Option-cases (lookup p.links k)) [
  | inl missing ↦ rw (next, missing) w
  | inr (link, found) ↦
      rw (next, found)
        (replace-WithinBounds p k link _ w found
          (pop_lem link.queue now_ms (queue_at p.links k link w.queues found)).valid
          (omega (arith, w.subscriptions)))
]

pub next_resync-WithinBounds : (p : NativeProxy) → WithinBounds p → WithinBounds (next_resync p).0
unfolding next_resync pop_resync
next_resync-WithinBounds p w = go p.resync w.resync
  where
    go :
        (requests : List ResyncRequest)
        → length requests ≤ p.queue_capacity
        → WithinBounds (pop_resync p requests).0
    go [] h = w
    go (r ∷ rs) h = record {
      links = w.links;
      distinct = w.distinct;
      subscriptions = w.subscriptions;
      queues = w.queues;
      cache = w.cache;
      resync = omega (arith, h);
    }
