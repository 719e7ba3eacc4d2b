-- ===== src/Tests/Cipher.antt =====
-- A cipher that satisfies the laws of the interface, to run the model with: it appends a constant
-- tag, and the pseudo-random function returns the front of its input.
use new_mavlink.Common.{
  ℕ, zero, suc, ◌≡◌, refl, sym, ap, ◌∙◌, false, List, [], ◌∷◌, ◌++◌, Option, none, some, Bool-cases,
  Option-cases, inl, inr, bytes_eq, bytes_eq→eq, length, length-append, if◌then◌else◌, arith,
}
use new_mavlink.Crypto.{Ascon, IsAead, Answers}
use new_mavlink.Handshake.Types.{zero_block}

abbrev pub take : ℕ → List ℕ → List ℕ
take zero xs = []
take (suc n) [] = 0 ∷ take n []
take (suc n) (x ∷ xs) = x ∷ take n xs

abbrev pub prepend : ℕ → Option (List ℕ) → Option (List ℕ)
prepend x none = none
prepend x (some xs) = some (x ∷ xs)

-- The list before a tag at its end.
abbrev pub strip : List ℕ → Option (List ℕ)
strip [] = none
strip (x ∷ xs) = if bytes_eq (x ∷ xs) zero_block then some [] else prepend x (strip xs)

abbrev pub plain_cipher : Ascon
plain_cipher = record {
  auth = λ input key. some (take 16 input);
  encrypt = λ p ad nonce key. some (p ++ zero_block);
  decrypt = λ c ad nonce key. strip c;
}

longer : (x : ℕ) (p : List ℕ) → bytes_eq (x ∷ (p ++ zero_block)) zero_block ≡ false
longer x p = elim (Bool-cases (bytes_eq (x ∷ (p ++ zero_block)) zero_block)) [
  | inl same ↦ absurd (
      omega (
        arith,
        length-append p zero_block,
        ap length (bytes_eq→eq (x ∷ (p ++ zero_block)) zero_block same),
      ))
  | inr other ↦ other
]

strip-append : (p : List ℕ) → strip (p ++ zero_block) ≡ some p
strip-append [] = refl
strip-append (x ∷ p) = rw (strip, longer x p, strip-append p) refl

strip_inv : (c p : List ℕ) → strip c ≡ some p → p ++ zero_block ≡ c
strip_inv [] p e = cc
strip_inv (x ∷ xs) p e = elim (Bool-cases (bytes_eq (x ∷ xs) zero_block)) [
  | inl same ↦
      let empty : [] ≡ p = ground (arith, e, same) in
      rw (← empty) (sym (bytes_eq→eq (x ∷ xs) zero_block same))
  | inr other ↦ elim (Option-cases (strip xs)) [
    | inl missing ↦ absurd (ground (arith, e, other, missing))
    | inr (q, found) ↦
        let front : x ∷ q ≡ p = ground (arith, e, other, found) in
        rw (← front) (ap (◌∷◌ x) (strip_inv xs q found))
  ]
]

injective : (c d : List ℕ) → some c ≡ some d → c ≡ d
injective c d e = cc

pub plain_cipher-IsAead : IsAead plain_cipher
plain_cipher-IsAead = record {
  adds_tag = λ p ad n k c e.
      ap length (sym (injective (p ++ zero_block) c e)) ∙ length-append p zero_block;
  decrypts = λ p ad n k c e. ap strip (sym (injective (p ++ zero_block) c e)) ∙ strip-append p;
  authentic = λ p ad n k c e. ap some (strip_inv c p e);
}

pub plain_cipher-Answers : Answers plain_cipher
plain_cipher-Answers = record {
  auth = λ input key. (take 16 input, refl);
  encrypt = λ p ad n k. (p ++ zero_block, refl, length-append p zero_block);
}
