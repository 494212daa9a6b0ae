-- ===== src/Provider/Sse/Task.antt =====
-- crates/llm-providers/kraai-provider-core/src/sse.rs: the forwarding task that cuts the bytes of
-- an HTTP response into lines and the lines into server-sent events. The transport is the list of
-- its chunks with the way in which it ends; the channel is the list of what was sent.
use kraai.Base.{
  ℕ, ◌+◌, ◌-◌, List, [], ◌∷◌, ◌++◌, Option, none, some, if◌then◌else◌, ltb, ◌==◌, length, take,
  drop, sat_add, usize_max, is_empty, not,
}
use kraai.Base.Utf8.{Bytes, bytes_eq, is_utf8, trim_start, strip_prefix, strip_last}

abbrev pub max_sse_event_bytes : ℕ
max_sse_event_bytes = 1_048_576

pub data SseEvent : Type 0 where
  payload : Bytes → SseEvent
  done : SseEvent

-- The reports that the task sends in place of an event.
pub data SseError : Type 0 where
  line_too_long : SseError
  event_too_long : SseError
  invalid_utf8 : Bytes → SseError
  stream_interrupted : SseError

pub data Item : Type 0 where
  event : SseEvent → Item
  error : SseError → Item

-- What a handler did: the items it sent, the pending event data, and how it returned:
-- `Ok(false)`, `Ok(true)` or `Err(..)`.
pub data Status : Type 0 where
  proceed : Status
  finish : Status
  fail : SseError → Status

pub record Handled : Type 0 where
  pub sent : List Item
  pub pending : Option Bytes
  pub status : Status

abbrev pub done_marker : Bytes
done_marker = b'[' ∷ b'D' ∷ b'O' ∷ b'N' ∷ b'E' ∷ b']' ∷ []

abbrev pub data_prefix : Bytes
data_prefix = b'd' ∷ b'a' ∷ b't' ∷ b'a' ∷ b':' ∷ []

unfoldable pub flush_event : Option Bytes → Handled
flush_event none = record { sent = []; pending = none; status = proceed }
flush_event (some text) =
    if bytes_eq text done_marker
    then record { sent = event done ∷ []; pending = none; status = finish }
    else record { sent = event (payload text) ∷ []; pending = none; status = proceed }

-- A `data:` line with its prefix removed, added to the pending event data.
unfoldable pub add_data : Bytes → Option Bytes → Handled
add_data text pending =
    let before : ℕ = elim pending [ none ↦ 0 | some p ↦ sat_add usize_max (length p) 1 ] in
    let joined : Bytes = elim pending [ none ↦ text | some p ↦ p ++ (10 ∷ text) ] in
    if ltb max_sse_event_bytes (sat_add usize_max before (length text))
    then record { sent = []; pending = pending; status = fail event_too_long }
    else record { sent = []; pending = some joined; status = proceed }

-- A line that is not empty, with its ending removed.
unfoldable pub process_text : Bytes → Option Bytes → Handled
process_text line pending =
    if is_utf8 line
    then elim (strip_prefix data_prefix line) [
      | none ↦ record { sent = []; pending = pending; status = proceed }
      | some rest ↦ add_data (trim_start rest) pending
    ]
    else record { sent = []; pending = pending; status = fail (invalid_utf8 line) }

unfoldable pub process_line : Bytes → Option Bytes → Handled
unfolding flush_event process_text
process_line raw pending =
    let line = strip_last 13 (strip_last 10 raw) in
    if is_empty line then flush_event pending else process_text line pending

-- After a chunk or a part of it: the task has returned, or it goes on with the bytes consumed so
-- far and the pending event data.
pub data Scan : Type 0 where
  returned : List Item → Scan
  scanned : List Item → ℕ → Option Bytes → Scan

abbrev pub send_first : List Item → Scan → Scan
send_first items (returned rest) = returned (items ++ rest)
send_first items (scanned rest consumed pending) = scanned (items ++ rest) consumed pending

-- How the loop goes on after `process_line`.
abbrev pub after_line : Handled → (Option Bytes → Scan) → Scan
after_line h next = elim h.status [
  | proceed ↦ send_first h.sent (next h.pending)
  | finish ↦ returned h.sent
  | fail e ↦ returned (h.sent ++ error e ∷ [])
]

-- The loop over the bytes of a chunk. `position` is `scanned + offset` of the next byte, and
-- `remaining` is the buffer from `consumed` on.
unfoldable pub scan_chunk : Bytes → ℕ → ℕ → Bytes → Option Bytes → Scan
scan_chunk [] position consumed remaining pending = scanned [] consumed pending
scan_chunk (byte ∷ bytes) position consumed remaining pending =
    let line_end = position + 1 in
    let line = take (line_end - consumed) remaining in
    let tail = drop (line_end - consumed) remaining in
    let skipped = scan_chunk bytes line_end consumed remaining pending in
    let next = λ (p : Option Bytes). scan_chunk bytes line_end line_end tail p in
    if not (byte == 10)
    then skipped
    else if ltb max_sse_event_bytes (length line - 1)
    then returned (error line_too_long ∷ [])
    else after_line (process_line line pending) next

pub data Ending : Type 0 where
  finished : Ending  -- the body is complete
  broken : Ending  -- the transport reports an error
  closed : Ending  -- the receiver of the events is gone

abbrev pub items_of : Handled → List Item
items_of h = elim h.status [ proceed ↦ h.sent | finish ↦ h.sent | fail e ↦ h.sent ++ error e ∷ [] ]

-- The code behind the loop over the chunks.
unfoldable pub at_end : Ending → Bytes → Option Bytes → List Item
unfolding flush_event
at_end broken buffer pending = error stream_interrupted ∷ []
at_end closed buffer pending = []
at_end finished [] pending = (flush_event pending).sent
at_end finished (b ∷ bs) pending =
    let h = process_line (b ∷ bs) pending in
    elim h.status [
      | proceed ↦ h.sent ++ (flush_event h.pending).sent
      | finish ↦ h.sent
      | fail e ↦ h.sent ++ error e ∷ []
    ]

-- What follows the scan of one chunk.
abbrev pub after_chunk : Bytes → Scan → (Bytes → Option Bytes → List Item) → List Item
after_chunk buffer (returned items) next = items
after_chunk buffer (scanned items consumed pending) next =
    let left = drop consumed buffer in
    items
    ++ (if ltb max_sse_event_bytes (length left)
        then error line_too_long ∷ []
        else next left pending)

-- `forward_sse_events`: the items that are sent, from a buffer and pending event data.
unfoldable pub forward : Ending → Bytes → Option Bytes → List Bytes → List Item
unfolding scan_chunk at_end
forward ending buffer pending [] = at_end ending buffer pending
forward ending buffer pending (chunk ∷ chunks) =
    let whole = buffer ++ chunk in
    after_chunk whole (scan_chunk chunk (length buffer) 0 whole pending)
      (λ left p. forward ending left p chunks)
