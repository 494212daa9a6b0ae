-- ===== src/Provider/Sse/RoundTrip.antt =====
-- A body that is written line by line in the format of server-sent events is read back by sse.rs,
-- however it is cut into chunks.
use kraai.Base.{
  ℕ, ◌+◌, ◌≤◌, ◌≡◌, refl, ◌∙◌, ap, Bool, true, false, List, [], ◌∷◌, ◌++◌, Option, none, some, ltb,
  ◌==◌, not, all, map, length, length-append, append_assoc, arith,
}
use kraai.Base.Utf8.{Bytes, bytes_eq, is_utf8, trim_start, strip_prefix, strip_last}
use kraai.Provider.Sse.Task.{
  payload, event, max_sse_event_bytes, done_marker, data_prefix, flush_event, add_data,
  process_text, process_line, Ending, finished, at_end, forward, Status,
}
use kraai.Provider.Sse.Machine.{after_item, lines, forward-lines, flatten}

abbrev pub ends_in : ℕ → Bytes → Bool
ends_in last [] = false
ends_in last (b ∷ []) = b == last
ends_in last (b ∷ c ∷ s) = ends_in last (c ∷ s)

-- A text that one `data:` line carries unchanged.
pub record IsLine (text : Bytes) : Type 0 where
  pub no_newline : all (λ b. not (b == 10)) text ≡ true
  pub no_return : ends_in 13 text ≡ false
  pub trimmed : trim_start text ≡ text
  pub valid : is_utf8 text ≡ true
  pub short : length text + 5 ≤ max_sse_event_bytes

abbrev pub AllLines : List Bytes → Type 0
AllLines [] = Unit
AllLines (l ∷ ls) = IsLine l × AllLines ls

-- The payload of an event with the given lines.
abbrev pub join : Bytes → List Bytes → Bytes
join acc [] = acc
join acc (l ∷ ls) = join (acc ++ (10 ∷ l)) ls

abbrev pub encode_lines : List Bytes → Bytes → Bytes
encode_lines [] rest = 10 ∷ rest
encode_lines (l ∷ ls) rest = data_prefix ++ (l ++ (10 ∷ encode_lines ls rest))

-- An event: its first line and the further ones.
abbrev pub Event : Type 0
Event = Bytes × List Bytes

abbrev pub encode : List Event → Bytes
encode [] = []
encode ((l, ls) ∷ es) = encode_lines (l ∷ ls) (encode es)

pub record IsEvent (e : Event) : Type 0 where
  pub all_lines : AllLines (e.0 ∷ e.1)
  pub fits : length (join e.0 e.1) ≤ max_sse_event_bytes
  pub not_done : bytes_eq (join e.0 e.1) done_marker ≡ false

abbrev pub AllEvents : List Event → Type 0
AllEvents [] = Unit
AllEvents (e ∷ es) = IsEvent e × AllEvents es

strip_last-append : (k : ℕ) (s : Bytes) → strip_last k (s ++ (k ∷ [])) ≡ s
unfolding strip_last
strip_last-append k [] = ground arith
strip_last-append k (b ∷ []) = ground arith
strip_last-append k (b ∷ c ∷ s) = ap (λ t. b ∷ t) (strip_last-append k (c ∷ s))

strip_last_other : (k : ℕ) (s : Bytes) → ends_in k s ≡ false → strip_last k s ≡ s
unfolding strip_last
strip_last_other k [] h = refl
strip_last_other k (b ∷ []) h = rw h
strip_last_other k (b ∷ c ∷ s) h = ap (λ t. b ∷ t) (strip_last_other k (c ∷ s) h)

-- The machine reads a line up to its newline.
lines_of_line :
    (ending : Ending) (part text rest : Bytes) (pending : Option Bytes)
    → all (λ b. not (b == 10)) text ≡ true
    → length part + length text ≤ max_sse_event_bytes
    → lines ending part pending (text ++ (10 ∷ rest))
      ≡ after_item
          (process_line (part ++ (text ++ (10 ∷ []))) pending)
          (λ p. lines ending [] p rest)
unfolding lines
lines_of_line ending part [] rest pending h k =
    let fits : ltb max_sse_event_bytes (length part) ≡ false = ground arith in rw fits
lines_of_line ending part (b ∷ text) rest pending h k =
    let other : b == 10 ≡ false = ground arith in
    rw (other, ← append_assoc part (b ∷ []) (text ++ (10 ∷ [])))
      (lines_of_line ending (part ++ (b ∷ [])) text rest pending (ground arith)
        (omega (arith, length-append {0} part (b ∷ []))))

prefixed_return :
    (text : Bytes) → ends_in 13 text ≡ false → ends_in 13 (data_prefix ++ text) ≡ false
prefixed_return [] h = refl
prefixed_return (b ∷ s) h = h

prefixed_utf8 : (text : Bytes) → is_utf8 text ≡ true → is_utf8 (data_prefix ++ text) ≡ true
unfolding is_utf8
prefixed_utf8 text h = h

prefix_stripped : (text : Bytes) → strip_prefix data_prefix (data_prefix ++ text) ≡ some text
unfolding strip_prefix
prefix_stripped text = refl

process_data :
    (text : Bytes) (pending : Option Bytes)
    → IsLine text
    → process_line (data_prefix ++ (text ++ (10 ∷ []))) pending ≡ add_data text pending
unfolding process_line process_text
process_data text pending h =
    rw
      (
        strip_last-append 10 (data_prefix ++ text),
        strip_last_other 13 (data_prefix ++ text) (prefixed_return text h.no_return),
        prefixed_utf8 text h.valid,
        prefix_stripped text,
        h.trimmed,
      )
      refl

read_line :
    (ending : Ending) (l rest : Bytes) (pending : Option Bytes)
    → IsLine l
    → lines ending [] pending (data_prefix ++ (l ++ (10 ∷ rest)))
      ≡ after_item (add_data l pending) (λ p. lines ending [] p rest)
read_line ending l rest pending h =
    lines_of_line ending [] (data_prefix ++ l) rest pending h.no_newline (omega arith)
    ∙ ap (λ r. after_item r (λ p. lines ending [] p rest)) (process_data l pending h)

process_blank : (pending : Option Bytes) → process_line (10 ∷ []) pending ≡ flush_event pending
unfolding process_line strip_last
process_blank pending = refl

join_le : (acc : Bytes) (ls : List Bytes) → length acc ≤ length (join acc ls)
join_le acc [] = omega arith
join_le acc (l ∷ ls) = omega (arith, length-append {0} acc (10 ∷ l), join_le (acc ++ (10 ∷ l)) ls)

add_data-first :
    (text : Bytes)
    → length text ≤ max_sse_event_bytes
    → add_data text none ≡ record { sent = []; pending = some text; status = Status.proceed }
unfolding add_data
add_data-first text h = ground arith

add_data-next :
    (text before : Bytes)
    → length (before ++ (10 ∷ text)) ≤ max_sse_event_bytes
    → add_data text (some before)
      ≡ record { sent = []; pending = some (before ++ (10 ∷ text)); status = Status.proceed }
unfolding add_data
add_data-next text before h = ground (arith, length-append {0} before (10 ∷ text))

-- The further lines of an event and the blank line behind them.
read_more :
    (ending : Ending) (before : Bytes) (ls : List Bytes) (rest : Bytes)
    → AllLines ls
    → length (join before ls) ≤ max_sse_event_bytes
    → bytes_eq (join before ls) done_marker ≡ false
    → lines ending [] (some before) (encode_lines ls rest)
      ≡ event (payload (join before ls)) ∷ lines ending [] none rest
unfolding flush_event
read_more ending before [] rest h k d =
    lines_of_line ending [] [] rest (some before) refl (omega arith)
    ∙ rw (process_blank (some before), d, flush_event) refl
read_more ending before (l ∷ ls) rest (h, hs) k d =
    let joined = join_le (before ++ (10 ∷ l)) ls in
    read_line ending l (encode_lines ls rest) (some before) h
    ∙ rw (add_data-next l before (omega arith))
        (read_more ending (before ++ (10 ∷ l)) ls rest hs k d)

read_event :
    (ending : Ending) (e : Event) (rest : Bytes)
    → IsEvent e
    → lines ending [] none (encode_lines (e.0 ∷ e.1) rest)
      ≡ event (payload (join e.0 e.1)) ∷ lines ending [] none rest
read_event ending e rest h =
    let first = join_le e.0 e.1 in
    read_line ending e.0 (encode_lines e.1 rest) none h.all_lines.0
    ∙ rw (add_data-first e.0 (omega arith))
        (read_more ending e.0 e.1 rest h.all_lines.1 h.fits h.not_done)

read_all :
    (es : List Event)
    → AllEvents es
    → lines finished [] none (encode es) ≡ map (λ (e : Event). event (payload (join e.0 e.1))) es
unfolding lines at_end flush_event
read_all [] h = refl
read_all ((l, ls) ∷ es) (h, hs) =
    read_event finished (l, ls) (encode es) h
    ∙ ap (λ t. event (payload (join l ls)) ∷ t) (read_all es hs)

-- Events written as `data:` lines with a blank line behind each are sent as they were written, for
-- every way to cut the body into chunks. A line is valid UTF-8 without a newline, without a return
-- at its end or a space at its start, and within the limit with its prefix; the lines of an event,
-- joined by newlines, are within the limit and are not the end marker.
pub forward-encode :
    (es : List Event) (chunks : List Bytes)
    → AllEvents es
    → flatten chunks ≡ encode es
    → forward finished [] none chunks ≡ map (λ (e : Event). event (payload (join e.0 e.1))) es
forward-encode es chunks h e =
    forward-lines finished [] none chunks (omega arith) ∙ rw e (read_all es h)
