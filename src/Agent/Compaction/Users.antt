-- ===== src/Agent/Compaction/Users.antt =====
-- What `retained_users` keeps of the user's messages.
use kraai.Base.{
  ℕ, zero, suc, ◌+◌, ◌-◌, ◌≤◌, ◌<◌, min, true, false, not, ◌&&◌, List, [], ◌∷◌, map, reverse, ◌≡◌,
  refl, ap, inl, inr, Bool-cases, length, take, is_empty, ◌==◌, sat_mul, usize_max, arith,
}
use mathlib.Core.List.{reverse-cons, reverse-append}
use kraai.Base.Utf8.{Bytes, is_char_boundary, is_char_boundary-zero}
use kraai.Types.Conversation.{
  ConversationItem, file_context, compaction, system, user, assistant, script_result, text,
  content_text, without_images,
}
use kraai.Agent.Compaction.{floor_boundary, retain_users, retained_users}

-- The texts of the user's messages.
abbrev pub user_texts : List ConversationItem → List Bytes
user_texts [] = []
user_texts (user c ∷ ms) = content_text (without_images c) ∷ user_texts ms
user_texts (_ ∷ ms) = user_texts ms

abbrev pub as_user : Bytes → ConversationItem
as_user t = user (text t ∷ [])

-- Each message is a prefix of the text in its place, cut at a character, and texts beyond are
-- left out.
pub data Prefixes : List ConversationItem → List Bytes → Type 0 where
  none_left : {ts : List Bytes} → Prefixes [] ts
  prefix :
      {ms : List ConversationItem} {ts : List Bytes} (t : Bytes) (n : ℕ)
      → is_char_boundary t n ≡ true
      → n ≤ length t
      → Prefixes ms ts
      → Prefixes (as_user (take n t) ∷ ms) (t ∷ ts)

abbrev pub total_length : List Bytes → ℕ
total_length [] = 0
total_length (t ∷ ts) = length t + total_length ts

abbrev pub item_length : ConversationItem → ℕ
item_length (user (text t ∷ [])) = length t
item_length _ = 0

-- The bytes of the texts of retained messages.
abbrev pub retained_length : List ConversationItem → ℕ
retained_length [] = 0
retained_length (m ∷ ms) = item_length m + retained_length ms

floor_boundary-le : (t : Bytes) (n : ℕ) → floor_boundary t n ≤ n
unfolding floor_boundary
floor_boundary-le t zero = omega arith
floor_boundary-le t (suc n) = ground (arith, floor_boundary-le t n)

floor_boundary-is_char_boundary :
    (t : Bytes) (n : ℕ) → is_char_boundary t (floor_boundary t n) ≡ true
unfolding floor_boundary
floor_boundary-is_char_boundary t zero = is_char_boundary-zero t
floor_boundary-is_char_boundary t (suc n) = ground (arith, floor_boundary-is_char_boundary t n)

-- The loop keeps prefixes of the newest texts, within the bytes that remain.
pub record Kept (ms : List ConversationItem) (ts : List Bytes) (n : ℕ) : Type 0 where
  prefixes : Prefixes ms ts
  within : retained_length ms ≤ n

length-take_le : (n : ℕ) (t : Bytes) → length (take n t) ≤ n
length-take_le zero t = omega arith
length-take_le (suc n) [] = omega arith
length-take_le (suc n) (b ∷ t) = omega (arith, length-take_le n t)

retain_users-Kept :
    (older : List ConversationItem) (n : ℕ) → Kept (retain_users older n) (user_texts older) n
unfolding retain_users
retain_users-Kept [] n = record { prefixes = none_left; within = omega arith }
retain_users-Kept (user c ∷ older) n =
    let t : Bytes = content_text (without_images c) in
    let end = floor_boundary t (min (length t) n) in
    let rest = retain_users-Kept older (n - end) in
    let low = floor_boundary-le t (min (length t) n) in
    elim (Bool-cases (n == 0)) [
      | inl d ↦ rw d (record { prefixes = none_left; within = omega arith })
      | inr d ↦ elim (Bool-cases (end == 0 && not (is_empty t))) [
        | inl e ↦ rw (d, e) (record { prefixes = none_left; within = omega arith })
        | inr e ↦
            rw (d, e)
              (record {
                prefixes =
                    prefix t end (floor_boundary-is_char_boundary t (min (length t) n))
                      (omega (arith, low)) rest.prefixes;
                within = omega (arith, low, rest.within, length-take_le end t);
              })
      ]
    ]
retain_users-Kept (file_context t ∷ older) n = retain_users-Kept older n
retain_users-Kept (compaction p q ∷ older) n = retain_users-Kept older n
retain_users-Kept (system t ∷ older) n = retain_users-Kept older n
retain_users-Kept (assistant items ∷ older) n = retain_users-Kept older n
retain_users-Kept (script_result i o r ∷ older) n = retain_users-Kept older n

is_char_boundary-length : (b : ℕ) (t : Bytes) → is_char_boundary (b ∷ t) (length (b ∷ t)) ≡ true
unfolding is_char_boundary
is_char_boundary-length b [] = refl
is_char_boundary-length b (c ∷ t) = is_char_boundary-length c t

nonempty : (t : Bytes) → (length t == 0 && not (is_empty t)) ≡ false
nonempty [] = refl
nonempty (b ∷ t) = ground arith

floor_boundary-length : (t : Bytes) → floor_boundary t (length t) ≡ length t
unfolding floor_boundary
floor_boundary-length [] = refl
floor_boundary-length (b ∷ t) = rw (is_char_boundary-length b t) refl

take-length : (t : Bytes) → take (length t) t ≡ t
take-length [] = refl
take-length (b ∷ t) = ap (λ l. b ∷ l) (take-length t)

-- Texts that fit with bytes to spare are kept whole.
retain_users-all :
    (older : List ConversationItem) (n : ℕ)
    → total_length (user_texts older) < n
    → retain_users older n ≡ map as_user (user_texts older)
unfolding retain_users
retain_users-all [] n h = refl
retain_users-all (user c ∷ older) n h =
    let t : Bytes = content_text (without_images c) in
    let low : min (length t) n ≡ length t = omega (arith, h) in
    let d : (n == 0) ≡ false = ground (arith, h) in
    let e : (length t == 0 && not (is_empty t)) ≡ false = nonempty t in
    rw (low, floor_boundary-length t, d, e, take-length t)
      (ap (λ l. as_user t ∷ l) (retain_users-all older (n - length t) (omega (arith, h))))
retain_users-all (file_context t ∷ older) n h = retain_users-all older n h
retain_users-all (compaction p q ∷ older) n h = retain_users-all older n h
retain_users-all (system t ∷ older) n h = retain_users-all older n h
retain_users-all (assistant items ∷ older) n h = retain_users-all older n h
retain_users-all (script_result i o r ∷ older) n h = retain_users-all older n h

reverse-reverse {ℓ} : {A : Type ℓ} (xs : List A) → reverse (reverse xs) ≡ xs
reverse-reverse [] = refl
reverse-reverse (x ∷ xs) =
    rw (reverse-cons x xs, reverse-append (reverse xs) (x ∷ []), reverse-reverse xs) refl

-- What is kept of the user's messages are, from the newest one on, prefixes of their texts that
-- end at a character, and they are together within four bytes for each token of the budget.
pub retained_users_lem :
    (ms : List ConversationItem) (token_budget : ℕ)
    → Kept
        (reverse (retained_users ms token_budget))
        (user_texts (reverse ms))
        (sat_mul usize_max token_budget 4)
unfolding retained_users
retained_users_lem ms token_budget =
    let k = retain_users-Kept (reverse ms) (sat_mul usize_max token_budget 4) in
    rw (reverse-reverse (retain_users (reverse ms) (sat_mul usize_max token_budget 4))) k

-- If the texts of the user's messages are together shorter than four bytes for each token of the
-- budget, all of them are kept whole.
pub retained_users-all :
    (ms : List ConversationItem) (token_budget : ℕ)
    → total_length (user_texts (reverse ms)) < sat_mul usize_max token_budget 4
    → reverse (retained_users ms token_budget) ≡ map as_user (user_texts (reverse ms))
unfolding retained_users
retained_users-all ms token_budget h =
    rw (reverse-reverse (retain_users (reverse ms) (sat_mul usize_max token_budget 4)))
      (retain_users-all (reverse ms) (sat_mul usize_max token_budget 4) h)
