-- ===== src/Qos/Order.antt =====
-- src/qos.cpp, lines 58 to 102: the order in which the hash map holds the latest values is not seen.
use new_mavlink.Common.{
  ℕ, zero, suc, ◌+◌, ◌≡◌, refl, sym, ap, ap₂, subst, ◌∙◌, List, [], ◌∷◌, Option, none, some,
  Bool-cases, length, Distinct, erase-Distinct, least, insert, by_key, by_key-least, if◌then◌else◌,
  inl, inr, arith,
}
use new_mavlink.Messages.{NativeMessage}
use new_mavlink.Qos.{
  BoundedQosQueue, size, expired, count_expired, count_delivered, take_front, pop_loop, pop,
}
use new_mavlink.Qos.Invariant.{IsValid}

-- The queue with its latest values in the order of their keys.
abbrev pub sorted : BoundedQosQueue → BoundedQosQueue
sorted q = record q { state = by_key q.state }

-- Two queues that differ in that order at most.
record Same (q q' : BoundedQosQueue) : Type 0 where
  together : sorted q ≡ sorted q'
  distinct : Distinct q.state
  distinct' : Distinct q'.state

abbrev Front : Type 0
Front = Option (NativeMessage × BoundedQosQueue)

abbrev SameFront : Front → Front → Type 0
SameFront none none = Unit {0}
SameFront (some (m, r)) (some (n, s)) = (m ≡ n) × Same r s
SameFront none (some t) = ⊥
SameFront (some t) none = ⊥

not_empty : (x : ℕ × NativeMessage) (xs : List (ℕ × NativeMessage)) → [] ≡ x ∷ xs → ⊥
not_empty x xs e = cc

cons_head : (x y : ℕ × NativeMessage) (xs ys : List (ℕ × NativeMessage)) → x ∷ xs ≡ y ∷ ys → x ≡ y
cons_head x y xs ys e = cc

cons_tail : (x y : ℕ × NativeMessage) (xs ys : List (ℕ × NativeMessage)) → x ∷ xs ≡ y ∷ ys → xs ≡ ys
cons_tail x y xs ys e = cc

take_front-Same :
    (q q' : BoundedQosQueue) (critical events : List NativeMessage)
    (st st' : List (ℕ × NativeMessage))
    → Same q q'
    → by_key st ≡ by_key st'
    → Distinct st
    → Distinct st'
    → SameFront (take_front q critical events st) (take_front q' critical events st')
unfolding take_front
take_front-Same q q' (m ∷ ms) events st st' same e d d' = (
  refl,
  record {
    together = ap (λ (r : BoundedQosQueue). record r { critical = ms }) same.together;
    distinct = same.distinct;
    distinct' = same.distinct';
  },
)
take_front-Same q q' [] (m ∷ ms) st st' same e d d' = (
  refl,
  record {
    together = ap (λ (r : BoundedQosQueue). record r { events = ms }) same.together;
    distinct = same.distinct;
    distinct' = same.distinct';
  },
)
take_front-Same q q' [] [] [] [] same e d d' = tt
take_front-Same q q' [] [] [] (y ∷ ys) same e d d' =
    absurd (not_empty _ _ (e ∙ by_key-least y ys d'))
take_front-Same q q' [] [] (x ∷ xs) [] same e d d' =
    absurd (not_empty _ _ (sym e ∙ by_key-least x xs d))
take_front-Same q q' [] [] (x ∷ xs) (y ∷ ys) same e d d' =
    let both = sym (by_key-least x xs d) ∙ e ∙ by_key-least y ys d' in
    (
      ap (λ (it : ℕ × NativeMessage). it.1) (cons_head _ _ _ _ both),
      record {
        together =
            ap₂ (λ (r : BoundedQosQueue) state. record r { state = state }) same.together
              (cons_tail _ _ _ _ both);
        distinct = erase-Distinct (x ∷ xs) (least x xs).0 d;
        distinct' = erase-Distinct (y ∷ ys) (least y ys).0 d';
      },
    )

-- What is returned, and what is left.
abbrev SameResult :
    BoundedQosQueue × Option NativeMessage → BoundedQosQueue × Option NativeMessage → Type 0
SameResult (q, m) (q', m') = (m ≡ m') × Same q q'

-- The rest of a turn, from what was taken on.
abbrev rest_of : ℕ → ℕ → BoundedQosQueue → Front → BoundedQosQueue × Option NativeMessage
rest_of fuel now_ms q none = (q, none)
rest_of fuel now_ms q (some (message, rest)) =
    if expired message now_ms
    then pop_loop fuel (count_expired rest) now_ms
    else (count_delivered rest, some message)

rest_of-Same :
    (fuel now_ms : ℕ) (q q' : BoundedQosQueue) (f f' : Front)
    → Same q q'
    → SameFront f f'
    → ((r r' : BoundedQosQueue)
        → Same r r'
        → SameResult (pop_loop fuel r now_ms) (pop_loop fuel r' now_ms))
    → SameResult (rest_of fuel now_ms q f) (rest_of fuel now_ms q' f')
unfolding count_expired count_delivered
rest_of-Same fuel now_ms q q' none none same taken more = (refl, same)
rest_of-Same fuel now_ms q q' none (some t) same taken more = absurd taken
rest_of-Same fuel now_ms q q' (some t) none same taken more = absurd taken
rest_of-Same fuel now_ms q q' (some (m, r)) (some (n, s)) same (message, rest) more =
    rw (← message) (elim (Bool-cases (expired m now_ms)) [
      | inl old ↦ rw old (
          more (count_expired r) (count_expired s) (record {
            together = ap count_expired rest.together;
            distinct = rest.distinct;
            distinct' = rest.distinct';
          }))
      | inr new ↦ rw new (
        refl,
        record {
          together = ap count_delivered rest.together;
          distinct = rest.distinct;
          distinct' = rest.distinct';
        },
      )
    ])

fronts-Same :
    (q q' : BoundedQosQueue)
    → Same q q'
    → SameFront
        (take_front q q.critical q.events q.state)
        (take_front q' q'.critical q'.events q'.state)
fronts-Same q q' same =
    subst
      (λ (t : BoundedQosQueue).
        SameFront (take_front q q.critical q.events q.state)
          (take_front q' t.critical t.events q'.state))
      same.together
      (take_front-Same q q' q.critical q.events q.state q'.state same
        (ap (λ (t : BoundedQosQueue). t.state) same.together) same.distinct same.distinct')

pop_loop-Same :
    (fuel now_ms : ℕ) (q q' : BoundedQosQueue)
    → Same q q'
    → SameResult (pop_loop fuel q now_ms) (pop_loop fuel q' now_ms)
unfolding pop_loop
pop_loop-Same zero now_ms q q' same = (refl, same)
pop_loop-Same (suc fuel) now_ms q q' same =
    rest_of-Same fuel now_ms q q' _ _ same (fronts-Same q q' same) (pop_loop-Same fuel now_ms)

length-insert :
    (e : ℕ × NativeMessage) (xs : List (ℕ × NativeMessage)) → length (insert e xs) ≡ suc (length xs)
length-insert e [] = refl
length-insert e (x ∷ xs) = ground (arith, length-insert e xs)

length-by_key : (xs : List (ℕ × NativeMessage)) → length (by_key xs) ≡ length xs
length-by_key [] = refl
length-by_key (x ∷ xs) = length-insert x (by_key xs) ∙ ap suc (length-by_key xs)

sizes_of : (q q' : BoundedQosQueue) → sorted q ≡ sorted q' → size q ≡ size q'
sizes_of q q' together = omega (
  arith,
  ap (λ (t : BoundedQosQueue). length t.critical) together,
  ap (λ (t : BoundedQosQueue). length t.events) together,
  ap (λ (t : BoundedQosQueue). length t.state) together,
  length-by_key q.state,
  length-by_key q'.state,
)

-- Two valid queues that differ at most in the order in which the hash map holds the latest values
-- give the same message to `pop`, and are left with the same messages, again up to that order.
pub pop-sorted :
    (q q' : BoundedQosQueue) (now_ms : ℕ)
    → IsValid q
    → IsValid q'
    → sorted q ≡ sorted q'
    → ((pop q now_ms).1 ≡ (pop q' now_ms).1) × (sorted (pop q now_ms).0 ≡ sorted (pop q' now_ms).0)
unfolding pop
pop-sorted q q' now_ms v v' together =
    let same : Same q q' = record {
      together = together;
      distinct = v.distinct;
      distinct' = v'.distinct;
    } in
    let sizes : size q ≡ size q' = sizes_of q q' together in
    let (message, rest) = pop_loop-Same (size q + 1) now_ms q q' same in
    rw (← sizes) (message, rest.together)
