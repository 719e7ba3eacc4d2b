-- ===== src/Publisher/Poll/Each.antt =====
-- src/publisher.cpp, lines 107 to 122: what holds of every message that `poll` returns.
use new_mavlink.Common.{
  ℕ, ◌≡◌, ◌⊎◌, inl, inr, refl, Bool, true, false, ◌&&◌, ◌||◌, List, [], ◌∷◌, ◌++◌, Option, none,
  some, All, Bool-cases, length, ltb,
}
use new_mavlink.Publisher.{StatePublisher, PublishedMessage}
use new_mavlink.Publisher.Poll.{
  build_position, build_attitude, build_battery, emit, emit_dirty, poll_snapshot, poll_changes, due,
  poll,
}

module _ (p : StatePublisher) (P : PublishedMessage → Type 0) where
  append-All :
      (out : List PublishedMessage) (m : PublishedMessage)
      → All P out
      → P m
      → All P (out ++ (m ∷ []))
  append-All [] m h k = (k, tt)
  append-All (x ∷ out) m h k = (h.0, append-All out m h.1 k)

  emit-All :
      (out : List PublishedMessage) (capacity : ℕ) (o : Option PublishedMessage)
      → All P out
      → ((m : PublishedMessage) → o ≡ some m → P m)
      → All P (emit out capacity o)
  unfolding emit
  emit-All out capacity none h k = h
  emit-All out capacity (some m) h k = elim (Bool-cases (ltb (length out) capacity)) [
    | inl room ↦ rw room (append-All out m h (k m refl))
    | inr full ↦ rw full h
  ]

  emit_dirty-All :
      (out : List PublishedMessage) (capacity : ℕ) (dirty : Bool) (o : Option PublishedMessage)
      → All P out
      → ((m : PublishedMessage) → o ≡ some m → P m)
      → All P (emit_dirty out capacity dirty o).0
  unfolding emit_dirty
  emit_dirty-All out capacity dirty none h k = h
  emit_dirty-All out capacity dirty (some m) h k =
      elim (Bool-cases (dirty && ltb (length out) capacity)) [
        | inl room ↦ rw room (append-All out m h (k m refl))
        | inr full ↦ rw full h
      ]

  -- What holds of every message that can be built.
  abbrev pub OfBuilt : Type 0
  OfBuilt =
      (snapshot : Bool) (m : PublishedMessage)
      → (build_position p snapshot ≡ some m)
        ⊎ ((build_attitude p snapshot ≡ some m) ⊎ (build_battery p snapshot ≡ some m))
      → P m

  snapshots : (now_ms capacity : ℕ) → OfBuilt → All P (poll_snapshot p now_ms capacity).1
  unfolding poll_snapshot
  snapshots now_ms capacity each =
      emit-All _ capacity (build_battery p true)
        (emit-All _ capacity (build_attitude p true)
          (emit-All [] capacity (build_position p true) tt (λ m e. each true m (inl e)))
          (λ m e. each true m (inr (inl e))))
        (λ m e. each true m (inr (inr e)))

  changes : (capacity : ℕ) → OfBuilt → All P (poll_changes p capacity).1
  unfolding poll_changes
  changes capacity each =
      emit_dirty-All _ capacity p.battery_dirty (build_battery p false)
        (emit_dirty-All _ capacity p.attitude_dirty (build_attitude p false)
          (emit_dirty-All [] capacity p.position_dirty (build_position p false) tt
            (λ m e. each false m (inl e)))
          (λ m e. each false m (inr (inl e))))
        (λ m e. each false m (inr (inr e)))

  pub poll-All :
      (now_ms : ℕ) (is_null : Bool) (capacity : ℕ)
      → OfBuilt
      → All P (poll p now_ms is_null capacity).1
  unfolding poll
  poll-All now_ms is_null capacity each = elim (Bool-cases (is_null || ltb capacity 1)) [
    | inl nothing ↦ rw nothing tt
    | inr room ↦ elim (Bool-cases (due p now_ms)) [
      | inl now ↦ rw (room, now) (snapshots now_ms capacity each)
      | inr later ↦ rw (room, later) (changes capacity each)
    ]
  ]
