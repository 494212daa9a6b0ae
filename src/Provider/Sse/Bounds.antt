-- ===== src/Provider/Sse/Bounds.antt =====
-- The limit of sse.rs on what is held back and on what is sent.
use kraai.Base.{
  ◌≤◌, ◌==◌, ltb, Bool, true, false, Bool-cases, inl, inr, if◌then◌else◌, is_empty, List, [], ◌∷◌,
  ◌++◌, Option, none, some, length, length-append, arith,
}
use kraai.Base.Utf8.{Bytes, is_utf8, strip_last, strip_prefix, trim_start}
use kraai.Provider.Sse.Task.{
  SseError, data_prefix, payload, done, Item, event, error, Handled, Status, max_sse_event_bytes,
  flush_event, add_data, process_text, process_line, Ending, at_end, finished, broken, closed,
  forward,
}
use kraai.Provider.Sse.Machine.{after_item, lines, forward-lines, flatten}

-- The payload of an item is within the limit.
abbrev pub Fits : Item → Type 0
Fits (event (payload text)) = length text ≤ max_sse_event_bytes
Fits (event done) = Unit
Fits (error e) = Unit

abbrev pub AllFit : List Item → Type 0
AllFit [] = Unit
AllFit (i ∷ is) = Fits i × AllFit is

abbrev pub HeldFits : Option Bytes → Type 0
HeldFits none = Unit
HeldFits (some text) = length text ≤ max_sse_event_bytes

AllFit-append : (xs ys : List Item) → AllFit xs → AllFit ys → AllFit (xs ++ ys)
AllFit-append [] ys h k = k
AllFit-append (x ∷ xs) ys h k = (h.0, AllFit-append xs ys h.1 k)

flush_event-fits : (p : Option Bytes) → HeldFits p → AllFit (flush_event p).sent
unfolding flush_event
flush_event-fits none h = tt
flush_event-fits (some text) h = ground arith

flushed : (p : Option Bytes) → HeldFits (flush_event p).pending
unfolding flush_event
flushed none = tt
flushed (some text) = ground arith

add_data-fits :
    (text : Bytes) (p : Option Bytes)
    → HeldFits p
    → AllFit (add_data text p).sent × HeldFits (add_data text p).pending
unfolding add_data
add_data-fits text none h = ground arith
add_data-fits text (some p) h = ground (arith, length-append {0} p (10 ∷ text))

process_text-fits :
    (line : Bytes) (p : Option Bytes)
    → HeldFits p
    → AllFit (process_text line p).sent × HeldFits (process_text line p).pending
unfolding process_text
process_text-fits line p h = go (is_utf8 line) (strip_prefix data_prefix line)
  where
    go :
        (valid : Bool) (rest : Option Bytes)
        → let h : Handled =
            if valid
            then elim rest [
              | none ↦ record { sent = []; pending = p; status = Status.proceed }
              | some text ↦ add_data (trim_start text) p
            ]
            else record {
              sent = [];
              pending = p;
              status = Status.fail (SseError.invalid_utf8 line);
            } in
          AllFit h.sent × HeldFits h.pending
    go false rest = (tt, h)
    go true none = (tt, h)
    go true (some text) = add_data-fits (trim_start text) p h

process_line-fits :
    (line : Bytes) (p : Option Bytes)
    → HeldFits p
    → AllFit (process_line line p).sent × HeldFits (process_line line p).pending
unfolding process_line
process_line-fits raw p h = go (strip_last 13 (strip_last 10 raw))
  where
    go :
        (line : Bytes)
        → let h : Handled = if is_empty line then flush_event p else process_text line p in
          AllFit h.sent × HeldFits h.pending
    go [] = (flush_event-fits p h, unfold flush_event in (flushed p))
    go (b ∷ bs) = process_text-fits (b ∷ bs) p h

AllFit-after_item :
    (h : Handled) (next : Option Bytes → List Item)
    → AllFit h.sent
    → HeldFits h.pending
    → ((p : Option Bytes) → HeldFits p → AllFit (next p))
    → AllFit (after_item h next)
AllFit-after_item h next sent held more = go h.status
  where
    go : (s : Status) → AllFit (after_item (record h { status = s }) next)
    go Status.proceed = AllFit-append h.sent (next h.pending) sent (more h.pending held)
    go Status.finish = sent
    go (Status.fail e) = AllFit-append h.sent (error e ∷ []) sent (tt, tt)

at_end-fits :
    (ending : Ending) (part : Bytes) (p : Option Bytes) → HeldFits p → AllFit (at_end ending part p)
unfolding at_end
at_end-fits broken part p h = (tt, tt)
at_end-fits closed part p h = tt
at_end-fits finished [] p h = flush_event-fits p h
at_end-fits finished (b ∷ bs) p h =
    let fits = process_line-fits (b ∷ bs) p h in
    AllFit-after_item (process_line (b ∷ bs) p) (λ q. (flush_event q).sent) fits.0 fits.1
      flush_event-fits

lines-fits :
    (ending : Ending) (part : Bytes) (p : Option Bytes) (bytes : Bytes)
    → HeldFits p
    → AllFit (lines ending part p bytes)
unfolding lines
lines-fits ending part p [] h = elim (Bool-cases (ltb max_sse_event_bytes (length part))) [
  | inl over ↦ rw over (tt, tt)
  | inr fits ↦ rw fits (at_end-fits ending part p h)
]
lines-fits ending part p (byte ∷ bytes) h = elim (Bool-cases (byte == 10)) [
  | inr other ↦ rw other (lines-fits ending (part ++ byte ∷ []) p bytes h)
  | inl newline ↦ rw newline (elim (Bool-cases (ltb max_sse_event_bytes (length part))) [
    | inl over ↦ rw over (tt, tt)
    | inr fits ↦ rw fits (
        let line = process_line-fits (part ++ byte ∷ []) p h in
        AllFit-after_item (process_line (part ++ byte ∷ []) p) (λ q. lines ending [] q bytes) line.0
          line.1 (λ q held. lines-fits ending [] q bytes held))
  ])
]

-- No event that is sent carries more bytes than the limit, whatever the transport delivers, from a
-- buffer and pending event data within the limit.
pub forward-fits :
    (ending : Ending) (buffer : Bytes) (pending : Option Bytes) (chunks : List Bytes)
    → length buffer ≤ max_sse_event_bytes
    → HeldFits pending
    → AllFit (forward ending buffer pending chunks)
forward-fits ending buffer pending chunks h k =
    rw (forward-lines ending buffer pending chunks h)
      (lines-fits ending buffer pending (flatten chunks) k)
