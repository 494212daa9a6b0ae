-- ===== src/Agent/Compaction/Exchanges.antt =====
-- What `remove_oldest_exchange` takes from a request.
use kraai.Base.{
  suc, ◌+◌, ◌<◌, ◌≤◌, Bool, true, false, List, [], ◌∷◌, ◌++◌, none, some, ◌≡◌, refl, sym, ◌∙◌, ap,
  length, length-append, length-filter-le, filter, all, any, arith, String, inl, inr, Bool-cases,
}
use kraai.Base.Texts.{str_eq, str_eq_iff}
use mathlib.Core.List.{Memᴰ}
use kraai.Types.Conversation.{
  AssistantItem, ScriptCall, reasoning, answer, script_call, ConversationItem, file_context,
  compaction, system, user, assistant, script_result,
}
use kraai.Agent.Compaction.{
  split_systems, calls_of, answers_none, without_results, remove_oldest_exchange,
}

abbrev pub is_system : ConversationItem → Bool
is_system (system t) = true
is_system _ = false

-- A message calls a script under an id, and a message is a result of a script that another calls.
abbrev pub Calls : ConversationItem → String → Type 0
Calls (assistant items) id = (c : ScriptCall) × Memᴰ (script_call c) items × (c.call_id ≡ id)
Calls _ id = ⊥

abbrev pub AnswersCall : ConversationItem → ConversationItem → Type 0
AnswersCall m (script_result id o r) = Calls m id
AnswersCall m _ = ⊥

-- The messages `after` are those of `before`, in their order, that are no results of scripts that the
-- message calls.
pub data Unanswered (m : ConversationItem)
    : List ConversationItem → List ConversationItem → Type 0 where
  none_left : Unanswered m [] []
  stays :
      {x : ConversationItem} {before after : List ConversationItem}
      → ¬ (AnswersCall m x)
      → Unanswered m before after
      → Unanswered m (x ∷ before) (x ∷ after)
  goes :
      {x : ConversationItem} {before after : List ConversationItem}
      → AnswersCall m x
      → Unanswered m before after
      → Unanswered m (x ∷ before) after

-- The messages `after` are `before` without its oldest exchange.
pub record WithoutOldest (before after : List ConversationItem) : Type 0 where
  systems : List ConversationItem
  removed : ConversationItem
  tail : List ConversationItem
  split : before ≡ systems ++ removed ∷ tail
  leading : all is_system systems ≡ true
  oldest : is_system removed ≡ false
  rest : List ConversationItem
  kept : after ≡ systems ++ rest
  unanswered : Unanswered removed tail rest
  shorter : length after < length before

split_systems-append :
    (ms : List ConversationItem) → (split_systems ms).0 ++ (split_systems ms).1 ≡ ms
split_systems-append [] = refl
split_systems-append (system t ∷ ms) = ap (λ l. system t ∷ l) (split_systems-append ms)
split_systems-append (file_context t ∷ ms) = refl
split_systems-append (compaction p q ∷ ms) = refl
split_systems-append (user c ∷ ms) = refl
split_systems-append (assistant items ∷ ms) = refl
split_systems-append (script_result i o r ∷ ms) = refl

split_systems-leading : (ms : List ConversationItem) → all is_system ((split_systems ms).0) ≡ true
split_systems-leading [] = refl
split_systems-leading (system t ∷ ms) = split_systems-leading ms
split_systems-leading (file_context t ∷ ms) = refl
split_systems-leading (compaction p q ∷ ms) = refl
split_systems-leading (user c ∷ ms) = refl
split_systems-leading (assistant items ∷ ms) = refl
split_systems-leading (script_result i o r ∷ ms) = refl

split_systems-oldest :
    (ms : List ConversationItem) {m : ConversationItem} {tail : List ConversationItem}
    → (split_systems ms).1 ≡ m ∷ tail
    → is_system m ≡ false
split_systems-oldest [] h = ground (arith, h)
split_systems-oldest (system t ∷ ms) h = split_systems-oldest ms h
split_systems-oldest (file_context t ∷ ms) h = ground (arith, h)
split_systems-oldest (compaction p q ∷ ms) h = ground (arith, h)
split_systems-oldest (user c ∷ ms) h = ground (arith, h)
split_systems-oldest (assistant items ∷ ms) h = ground (arith, h)
split_systems-oldest (script_result i o r ∷ ms) h = ground (arith, h)

-- A system message is no result of a script.
without_results-append :
    (m : ConversationItem) (ss tail : List ConversationItem)
    → all is_system ss ≡ true
    → without_results m (ss ++ tail) ≡ ss ++ without_results m tail
without_results-append (assistant items) ss tail h = go ss h
  where
    go :
        (ss : List ConversationItem)
        → all is_system ss ≡ true
        → filter (answers_none (calls_of items)) (ss ++ tail)
          ≡ ss ++ filter (answers_none (calls_of items)) tail
    go [] h = refl
    go (system t ∷ ss) h = ap (λ l. system t ∷ l) (go ss h)
    go (file_context t ∷ ss) h = cc
    go (compaction p q ∷ ss) h = cc
    go (user c ∷ ss) h = cc
    go (assistant is ∷ ss) h = cc
    go (script_result i o r ∷ ss) h = cc
without_results-append (file_context t) ss tail h = refl
without_results-append (compaction p q) ss tail h = refl
without_results-append (user c) ss tail h = refl
without_results-append (system t) ss tail h = refl
without_results-append (script_result i o r) ss tail h = refl

length-without_results :
    (m : ConversationItem) (ms : List ConversationItem) → length (without_results m ms) ≤ length ms
length-without_results (assistant items) ms = length-filter-le (answers_none (calls_of items)) ms
length-without_results (file_context t) ms = omega arith
length-without_results (compaction p q) ms = omega arith
length-without_results (user c) ms = omega arith
length-without_results (system t) ms = omega arith
length-without_results (script_result i o r) ms = omega arith

not_both : {b : Bool} → b ≡ true → b ≡ false → ⊥
not_both h k = absurd (cc (h, k))

calls_of-Calls :
    (items : List AssistantItem) (id : String)
    → any (str_eq id) (calls_of items) ≡ true
    → Calls (assistant items) id
calls_of-Calls [] id h = absurd (cc h)
calls_of-Calls (script_call c ∷ items) id h = elim (Bool-cases (str_eq id c.call_id)) [
  | inl e ↦ (c, Memᴰ.head refl, sym ((str_eq_iff id c.call_id).0 e))
  | inr e ↦ let (d, m, k) = calls_of-Calls items id (ground (arith, h, e)) in (d, Memᴰ.tail m, k)
]
calls_of-Calls (reasoning p q ∷ items) id h =
    let (d, m, k) = calls_of-Calls items id h in (d, Memᴰ.tail m, k)
calls_of-Calls (answer p t ∷ items) id h =
    let (d, m, k) = calls_of-Calls items id h in (d, Memᴰ.tail m, k)

-- The id of a call.
abbrev id_of : AssistantItem → String
id_of (script_call c) = c.call_id
id_of _ = ""

Calls-calls_of :
    (items : List AssistantItem) (c : ScriptCall)
    → Memᴰ (script_call c) items
    → any (str_eq c.call_id) (calls_of items) ≡ true
Calls-calls_of [] d m = elim m [ ]
Calls-calls_of (script_call c ∷ items) d (Memᴰ.head e) =
    let same : d.call_id ≡ c.call_id = ap id_of e in
    ground (arith, (str_eq_iff d.call_id c.call_id).1 same)
Calls-calls_of (script_call c ∷ items) d (Memᴰ.tail m) = ground (arith, Calls-calls_of items d m)
Calls-calls_of (reasoning p q ∷ items) d (Memᴰ.head e) = absurd (cc e)
Calls-calls_of (reasoning p q ∷ items) d (Memᴰ.tail m) = Calls-calls_of items d m
Calls-calls_of (answer p t ∷ items) d (Memᴰ.head e) = absurd (cc e)
Calls-calls_of (answer p t ∷ items) d (Memᴰ.tail m) = Calls-calls_of items d m

filter-Unanswered :
    (items : List AssistantItem) (ms : List ConversationItem)
    → Unanswered (assistant items) ms (filter (answers_none (calls_of items)) ms)
filter-Unanswered items [] = none_left
filter-Unanswered items (script_result id o r ∷ ms) =
    elim (Bool-cases (any (str_eq id) (calls_of items))) [
      | inl e ↦ rw e (goes (calls_of-Calls items id e) (filter-Unanswered items ms))
      | inr e ↦ rw e (
          stays (λ (c, m, same). not_both (Calls-calls_of items c m) (rw same e))
            (filter-Unanswered items ms))
    ]
filter-Unanswered items (assistant is ∷ ms) = stays (λ h. h) (filter-Unanswered items ms)
filter-Unanswered items (file_context t ∷ ms) = stays (λ h. h) (filter-Unanswered items ms)
filter-Unanswered items (compaction p q ∷ ms) = stays (λ h. h) (filter-Unanswered items ms)
filter-Unanswered items (user c ∷ ms) = stays (λ h. h) (filter-Unanswered items ms)
filter-Unanswered items (system t ∷ ms) = stays (λ h. h) (filter-Unanswered items ms)

-- A message that calls nothing has no results.
same-Unanswered :
    (m : ConversationItem)
    → ((id : String) → ¬ (Calls m id))
    → (ms : List ConversationItem) → Unanswered m ms ms
same-Unanswered m h [] = none_left
same-Unanswered m h (script_result id o r ∷ ms) = stays (h id) (same-Unanswered m h ms)
same-Unanswered m h (assistant is ∷ ms) = stays (λ x. x) (same-Unanswered m h ms)
same-Unanswered m h (file_context t ∷ ms) = stays (λ x. x) (same-Unanswered m h ms)
same-Unanswered m h (compaction p q ∷ ms) = stays (λ x. x) (same-Unanswered m h ms)
same-Unanswered m h (user c ∷ ms) = stays (λ x. x) (same-Unanswered m h ms)
same-Unanswered m h (system t ∷ ms) = stays (λ x. x) (same-Unanswered m h ms)

without_results-Unanswered :
    (m : ConversationItem) (ms : List ConversationItem) → Unanswered m ms (without_results m ms)
without_results-Unanswered (assistant items) ms = filter-Unanswered items ms
without_results-Unanswered (file_context t) ms = same-Unanswered (file_context t) (λ id h. h) ms
without_results-Unanswered (compaction p q) ms = same-Unanswered (compaction p q) (λ id h. h) ms
without_results-Unanswered (user c) ms = same-Unanswered (user c) (λ id h. h) ms
without_results-Unanswered (system t) ms = same-Unanswered (system t) (λ id h. h) ms
without_results-Unanswered (script_result i o r) ms =
    same-Unanswered (script_result i o r) (λ id h. h) ms

-- If an exchange is removed, the messages are leading system messages, one message that is none,
-- and some further ones; that message goes, with those of the further ones that are results of a
-- script that it calls, and all else stays in order. What is left is shorter.
pub remove_oldest_exchange-WithoutOldest :
    (before : List ConversationItem) {after : List ConversationItem}
    → remove_oldest_exchange before ≡ some after
    → WithoutOldest before after
unfolding remove_oldest_exchange
remove_oldest_exchange-WithoutOldest before {after} h = go ((split_systems before).1) refl
  where
    go :
        (rest : List ConversationItem)
        → (split_systems before).1 ≡ rest
        → WithoutOldest before after
    go [] e = let f : none ≡ some after = rw (← h) (rw (e, remove_oldest_exchange) refl) in cc
    go (m ∷ []) e = let f : none ≡ some after = rw (← h) (rw (e, remove_oldest_exchange) refl) in cc
    go (m ∷ n ∷ tail) e =
        let ss = (split_systems before).0 in
        let joined : before ≡ ss ++ m ∷ n ∷ tail = rw (← e) (sym (split_systems-append before)) in
        let g : some (without_results m (ss ++ n ∷ tail)) ≡ some after =
          rw (← h) (rw (e, remove_oldest_exchange) refl) in
        let f : without_results m (ss ++ n ∷ tail) ≡ after = cc in
        let leading = split_systems-leading before in
        let kept : after ≡ ss ++ without_results m (n ∷ tail) =
          sym f ∙ without_results-append m ss (n ∷ tail) leading in
        let long : length before ≡ length ss + suc (suc (length tail)) =
          ap length joined ∙ length-append ss (m ∷ n ∷ tail) in
        let short : length after ≡ length ss + length (without_results m (n ∷ tail)) =
          ap length kept ∙ length-append ss (without_results m (n ∷ tail)) in
        record {
          systems = ss;
          removed = m;
          tail = n ∷ tail;
          split = joined;
          leading = leading;
          oldest = split_systems-oldest before e;
          rest = without_results m (n ∷ tail);
          kept = kept;
          unanswered = without_results-Unanswered m (n ∷ tail);
          shorter = omega (arith, long, short, length-without_results m (n ∷ tail));
        }
