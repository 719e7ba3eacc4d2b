-- ===== src/Adapter/Parser.antt =====
-- src/mavlink2_adapter.cpp, lines 43 to 48 and 56 to 63: the message that the parser finds in the bytes.
use new_mavlink.Common.{
  ℕ, ◌≡◌, ◌≢◌, inl, inr, subst, refl, ap, ◌∙◌, ◌⊎◌, ◌++◌, true, ==_iff, ◌||◌, List, [], ◌∷◌, none,
  some, Pointer, Option-cases, Bool-cases, ltb, ◌==◌, arith,
}
use new_mavlink.Crypto.{is_null, pointed}
use new_mavlink.Adapter.{Mavlink, parse_loop, parse_message, frame_bytes}

module _ {C M : Type 0} (mav : Mavlink C M) where
  -- The channel after some bytes.
  abbrev pub fed : C → List ℕ → C
  fed c [] = c
  fed c (b ∷ bytes) = fed (mav.parse_char c b).0 bytes

  -- A message of that type that the parser completes with one of the bytes, after it was given
  -- those before it.
  pub record IsFound (c : C) (bytes : List ℕ) (id : ℕ) (m : M) : Type 0 where
    pub before : List ℕ
    pub last : ℕ
    pub behind : List ℕ
    pub split : bytes ≡ before ++ last ∷ behind
    pub parsed : (mav.parse_char (fed c before) last).1 ≡ some m
    pub msgid : mav.msgid m ≡ id

  cons-IsFound :
      (c : C) (b : ℕ) (bytes : List ℕ) (id : ℕ) (m : M)
      → IsFound (mav.parse_char c b).0 bytes id m
      → IsFound c (b ∷ bytes) id m
  cons-IsFound c b bytes id m f = record {
    before = b ∷ f.before;
    last = f.last;
    behind = f.behind;
    split = ap (λ xs. b ∷ xs) f.split;
    parsed = f.parsed;
    msgid = f.msgid;
  }

  parse_loop-IsFound :
      (c : C) (bytes : List ℕ) (id : ℕ) (m : M)
      → (parse_loop mav c bytes id).1 ≡ some m
      → IsFound c bytes id m
  unfolding parse_loop
  parse_loop-IsFound c [] id m e = absurd cc
  parse_loop-IsFound c (b ∷ bytes) id m e = elim (Option-cases (mav.parse_char c b).1) [
    | inl more ↦
        cons-IsFound c b bytes id m
          (parse_loop-IsFound (mav.parse_char c b).0 bytes id m (ground (arith, e, more)))
    | inr (p, parsed) ↦ elim (Bool-cases (mav.msgid p == id)) [
      | inl wanted ↦
          let it : p ≡ m = ground (arith, e, parsed, wanted) in
          record {
            before = [];
            last = b;
            behind = bytes;
            split = refl;
            parsed = parsed ∙ ap some it;
            msgid = subst (λ q. mav.msgid q ≡ id) it ((==_iff (mav.msgid p) id).0 wanted);
          }
      | inr other ↦
          cons-IsFound c b bytes id m (
            parse_loop-IsFound (mav.parse_char c b).0 bytes id m (ground (arith, e, parsed, other)))
    ]
  ]

  pub parse_message-IsFound :
      (c : C) (bytes : Pointer) (size id : ℕ) (m : M)
      → (parse_message mav c bytes size id).1 ≡ some m
      → IsFound c (pointed bytes size) id m
  unfolding parse_message
  parse_message-IsFound c bytes size id m e =
      elim (Bool-cases (is_null bytes || size == 0 || ltb frame_bytes size)) [
        | inl bad ↦ absurd (ground (arith, e, bad))
        | inr good ↦ parse_loop-IsFound c (pointed bytes size) id m (ground (arith, e, good))
      ]

  loop_finds :
      (c : C) (before : List ℕ) (last : ℕ) (behind : List ℕ) (id : ℕ) (m : M)
      → (mav.parse_char (fed c before) last).1 ≡ some m
      → mav.msgid m ≡ id
      → (parse_loop mav c (before ++ last ∷ behind) id).1 ≢ none
  unfolding parse_loop
  loop_finds c [] last behind id m parsed wanted e =
      absurd (ground (arith, e, parsed, (==_iff (mav.msgid m) id).1 wanted))
  loop_finds c (b ∷ before) last behind id m parsed wanted e =
      elim (Option-cases (mav.parse_char c b).1) [
        | inl more ↦
            loop_finds (mav.parse_char c b).0 before last behind id m parsed wanted
              (ground (arith, e, more))
        | inr (p, other) ↦ elim (Bool-cases (mav.msgid p == id)) [
          | inl same ↦ absurd (ground (arith, e, other, same))
          | inr differs ↦
              loop_finds (mav.parse_char c b).0 before last behind id m parsed wanted
                (ground (arith, e, other, differs))
        ]
      ]

  pub parse_message-none :
      (c : C) (bytes : Pointer) (size id : ℕ)
      → (parse_message mav c bytes size id).1 ≡ none
      → ((is_null bytes || size == 0 || ltb frame_bytes size) ≡ true)
        ⊎ ((m : M) → IsFound c (pointed bytes size) id m → ⊥)
  unfolding parse_message
  parse_message-none c bytes size id e =
      elim (Bool-cases (is_null bytes || size == 0 || ltb frame_bytes size)) [
        | inl bad ↦ inl bad
        | inr good ↦ inr (λ m f.
            loop_finds c f.before f.last f.behind id m f.parsed f.msgid
              (subst (λ xs. (parse_loop mav c xs id).1 ≡ none) f.split (ground (arith, e, good))))
      ]
