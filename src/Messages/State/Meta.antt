-- ===== src/Messages/State/Meta.antt =====
-- src/messages.cpp, lines 81 to 89: what `encode_state_meta` wrote, `decode_state_meta` reads back.
use new_mavlink.Common.{
  ℕ, ◌≤◌, ◌≡◌, refl, true, none, some, if◌then◌else◌, ◌≢◌, Buffer, Holds16, Holds32, get16_lem,
  get32_lem, arith,
}
use new_mavlink.Messages.{StateMeta}
use new_mavlink.Messages.State.{
  write_state_meta, encode_state_meta, read_state_meta, valid_state_meta, decode_state_meta,
  FitsMeta,
}

-- The first 16 bytes of a buffer are the metadata.
pub record HoldsMeta (m : Buffer) (value : StateMeta) : Type 0 where
  pub resource_id : Holds32 m 0 value.resource_id
  pub generation : Holds32 m 4 value.generation
  pub base_generation : Holds32 m 8 value.base_generation
  pub source_id : Holds16 m 12 value.source_id
  pub snapshot : m 14 ≡ value.snapshot
  pub reserved : m 15 ≡ value.reserved

read_state_meta_lem :
    (m : Buffer) (value : StateMeta)
    → FitsMeta value
    → HoldsMeta m value
    → read_state_meta m ≡ value
unfolding read_state_meta
read_state_meta_lem m value fits held = λ i. record {
  resource_id = get32_lem m 0 value.resource_id fits.resource_id held.resource_id i;
  generation = get32_lem m 4 value.generation fits.generation held.generation i;
  base_generation = get32_lem m 8 value.base_generation fits.base_generation held.base_generation i;
  source_id = get16_lem m 12 value.source_id fits.source_id held.source_id i;
  snapshot = held.snapshot i;
  reserved = held.reserved i;
}

accept_valid :
    (v w : StateMeta)
    → v ≡ w
    → valid_state_meta w ≡ true
    → (if valid_state_meta v then some v else none) ≡ some w
accept_valid v w e valid = rw e (rw valid)

pub decode_held_meta :
    (m : Buffer) (value : StateMeta)
    → FitsMeta value
    → HoldsMeta m value
    → valid_state_meta value ≡ true
    → decode_state_meta (some m) 16 ≡ some value
unfolding decode_state_meta
decode_held_meta m value fits held valid =
    accept_valid (read_state_meta m) value (read_state_meta_lem m value fits held) valid

pub write_state_meta-HoldsMeta :
    (out : Buffer) (value : StateMeta) → HoldsMeta (write_state_meta value out) value
unfolding write_state_meta
write_state_meta-HoldsMeta out value = record {
  resource_id = (refl, refl, refl, refl);
  generation = (refl, refl, refl, refl);
  base_generation = (refl, refl, refl, refl);
  source_id = (refl, refl);
  snapshot = refl;
  reserved = refl;
}

pub encode_state_meta_inv :
    (value : StateMeta) (out bytes : Buffer) (capacity : ℕ)
    → encode_state_meta value (some out) capacity ≡ some bytes
    → (write_state_meta value out ≡ bytes)
      × (value.resource_id ≢ 0)
      × (value.generation ≢ 0)
      × (value.source_id ≢ 0)
unfolding encode_state_meta
encode_state_meta_inv value out bytes capacity e = ground arith

-- The encoder alone does not check `snapshot` and `reserved`.
pub valid_encoded :
    (value : StateMeta) (out bytes : Buffer) (capacity : ℕ)
    → value.snapshot ≤ 1
    → value.reserved ≡ 0
    → encode_state_meta value (some out) capacity ≡ some bytes
    → valid_state_meta value ≡ true
unfolding valid_state_meta
valid_encoded value out bytes capacity s r e =
    let (_, a, b, c) = encode_state_meta_inv value out bytes capacity e in ground arith

-- Metadata that was encoded decodes to the same metadata, if its fields have their widths,
-- `snapshot` is 0 or 1 and `reserved` is 0.
pub decode_state_meta-encode_state_meta :
    (value : StateMeta) (out bytes : Buffer) (capacity : ℕ)
    → FitsMeta value
    → value.snapshot ≤ 1
    → value.reserved ≡ 0
    → encode_state_meta value (some out) capacity ≡ some bytes
    → decode_state_meta (some bytes) 16 ≡ some value
decode_state_meta-encode_state_meta value out bytes capacity fits s r e =
    let (written, _, _, _) = encode_state_meta_inv value out bytes capacity e in
    rw (← written) (
      decode_held_meta _ value fits (write_state_meta-HoldsMeta out value)
        (valid_encoded value out bytes capacity s r e))
