-- ===== src/Proxy/Cache.antt =====
-- src/proxy.cpp, lines 60 to 70: the latest value of each stream, and requests to resynchronise.
use new_mavlink.Common.{
  ℕ, ◌<◌, ◌≡◌, ◌≢◌, ◌⊎◌, inl, inr, refl, ◌∙◌, true, false, [], ◌∷◌, ◌++◌, some, Option-cases,
  Bool-cases, length, ltb, lookup, lookup-store, lookup-store_other, ◌==◌, if◌then◌else◌, arith,
}
use new_mavlink.Wire.{state_type}
use new_mavlink.Messages.{NativeMessage, StateMeta}
use new_mavlink.Record.Types.{OpenRecord}
use new_mavlink.Qos.{stream_key}
use new_mavlink.Proxy.{NativeProxy}
use new_mavlink.Proxy.Ingest.{
  admits_record, bad_position, ingest, meta_of, compare_generations, judge_metas, judge, deliver,
  cache_message, act, verdict, Verdict, reject, ask_resync, message_of,
}

-- `new` may replace `old`: it is later, and a snapshot or built on `old`.
pub record Advances (old new : NativeMessage) : Type 0 where
  pub old_meta : StateMeta
  pub new_meta : StateMeta
  pub old_decodes : meta_of old ≡ some old_meta
  pub new_decodes : meta_of new ≡ some new_meta
  pub later : old_meta.generation < new_meta.generation
  pub based : (new_meta.snapshot ≢ 0) ⊎ (new_meta.base_generation ≡ old_meta.generation)

judge-Advances : (old new : NativeMessage) → judge old new ≡ Verdict.take → Advances old new
unfolding judge judge_metas compare_generations
judge-Advances old new e = elim (Option-cases (meta_of old)) [
  | inl none_old ↦ absurd (ground (arith, none_old))
  | inr (mo, o) ↦ elim (Option-cases (meta_of new)) [
    | inl none_new ↦ absurd (ground (arith, o, none_new))
    | inr (mn, n) ↦ record {
      old_meta = mo;
      new_meta = mn;
      old_decodes = o;
      new_decodes = n;
      later = ground (arith, o, n);
      based = ground (arith, o, n);
    }
  ]
]

-- What is cached under `key` is kept, or replaced by what advances it.
pub record Keeps (p : NativeProxy) (key : ℕ) (old : NativeMessage) (p' : NativeProxy) : Type 0 where
  pub entry :
      (lookup p'.cache key ≡ some old)
      ⊎ ((new : NativeMessage) × (lookup p'.cache key ≡ some new) × Advances old new)

act-Keeps :
    (p : NativeProxy) (ingress_link : ℕ) (m : NativeMessage) (now_ms key : ℕ) (old : NativeMessage)
    (v : Verdict)
    → verdict p m ≡ v
    → lookup p.cache key ≡ some old
    → Keeps p key old (act p ingress_link m now_ms v).0
unfolding act reject ask_resync deliver cache_message verdict
act-Keeps p ingress_link m now_ms key old Verdict.refuse e h = record { entry = inl h }
act-Keeps p ingress_link m now_ms key old (Verdict.gap meta) e h =
    elim (Bool-cases (ltb (length p.resync) p.queue_capacity)) [
      | inl room ↦ rw room (record { entry = inl h })
      | inr full ↦ rw full (record { entry = inl h })
    ]
act-Keeps p ingress_link m now_ms key old Verdict.stale e h = record { entry = inl h }
act-Keeps p ingress_link m now_ms key old Verdict.take e h =
    elim (Bool-cases (key == stream_key m)) [
      | inl same ↦
          let k : key ≡ stream_key m = ground arith in
          record {
            entry = inr (
              m,
              ground (arith, k, lookup-store p.cache (stream_key m) m),
              judge-Advances old m (ground (arith, e, h, k)),
            );
          }
      | inr other ↦ record {
        entry = inl (lookup-store_other p.cache (stream_key m) key m (ground arith) ∙ h);
      }
    ]

-- Whatever record `ingest` is given, a message that is cached stays cached under its key, or is
-- replaced by one whose metadata has a larger generation and is a snapshot or is based on the
-- generation of the message it replaces.
pub ingest-Keeps :
    (p : NativeProxy) (ingress_link : ℕ) (opened : OpenRecord) (now_ms key : ℕ)
    (old : NativeMessage)
    → lookup p.cache key ≡ some old
    → Keeps p key old (ingest p ingress_link opened now_ms).0
unfolding ingest reject deliver
ingest-Keeps p ingress_link opened now_ms key old h =
    elim (Bool-cases (admits_record p ingress_link opened)) [
      | inr refused ↦ rw refused (record { entry = inl h })
      | inl admitted ↦ elim (Bool-cases (bad_position (message_of opened))) [
        | inl bad ↦ rw (admitted, bad) (record { entry = inl h })
        | inr good ↦ elim (Bool-cases (state_type (message_of opened).header.type)) [
          | inl st ↦
              rw (admitted, good, st)
                (act-Keeps p ingress_link (message_of opened) now_ms key old _ refl h)
          | inr plain ↦ rw (admitted, good, plain) (record { entry = inl h })
        ]
      ]
    ]

gap_verdict :
    (p : NativeProxy) (m old : NativeMessage) (old_meta new_meta : StateMeta)
    → lookup p.cache (stream_key m) ≡ some old
    → bad_position m ≡ false
    → meta_of old ≡ some old_meta
    → meta_of m ≡ some new_meta
    → new_meta.snapshot ≡ 0
    → new_meta.base_generation ≢ old_meta.generation
    → verdict p m ≡ Verdict.gap new_meta
unfolding verdict judge judge_metas compare_generations
gap_verdict p m old old_meta new_meta found pos o n delta based =
    rw (verdict, found, judge, o, n, pos) (ground (arith, delta, based))

-- If an admitted update of a cached stream is no snapshot and is based on a generation other than
-- the cached one, `ingest` returns false, leaves cache and links as they are, and queues a request
-- to resynchronise the stream as long as there is room for it.
pub ingest-gap :
    (p : NativeProxy) (ingress_link : ℕ) (opened : OpenRecord) (now_ms : ℕ) (old : NativeMessage)
    (old_meta new_meta : StateMeta)
    → admits_record p ingress_link opened ≡ true
    → bad_position (message_of opened) ≡ false
    → state_type opened.header.type ≡ true
    → lookup p.cache (stream_key (message_of opened)) ≡ some old
    → meta_of old ≡ some old_meta
    → meta_of (message_of opened) ≡ some new_meta
    → new_meta.snapshot ≡ 0
    → new_meta.base_generation ≢ old_meta.generation
    → ((ingest p ingress_link opened now_ms).1 ≡ false)
      × ((ingest p ingress_link opened now_ms).0.cache ≡ p.cache)
      × ((ingest p ingress_link opened now_ms).0.links ≡ p.links)
      × ((ingest p ingress_link opened now_ms).0.resync ≡ (
          if ltb (length p.resync) p.queue_capacity
          then p.resync
            ++ (record {
              type = opened.header.type;
              source_id = new_meta.source_id;
              resource_id = new_meta.resource_id;
            }
                ∷ [])
          else p.resync))
unfolding ask_resync message_of ingest act
ingest-gap p ingress_link opened now_ms old old_meta new_meta ad pos st found o n delta based =
    rw
      (
        ingest,
        ad,
        pos,
        st,
        gap_verdict p (message_of opened) old old_meta new_meta found pos o n delta based,
        act,
      )
      (ground arith)
