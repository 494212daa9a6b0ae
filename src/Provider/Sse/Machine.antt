-- ===== src/Provider/Sse/Machine.antt =====
-- The forwarding task of sse.rs seen as a machine over the bytes of the whole body, with no chunks,
-- buffer or offsets, and the proof that the task behaves as it does.
use kraai.Base.{
  ℕ, ◌+◌, ◌-◌, ◌≤◌, ◌<◌, ◌≡◌, refl, sym, ◌∙◌, ap, List, [], ◌∷◌, ◌++◌, Option, inl, inr,
  if◌then◌else◌, ltb, ◌==◌, not, Bool-cases, length, take, drop, length-append, drop-drop,
  take-append_length, drop-append_length, append_assoc, append-nil, arith,
}
use kraai.Base.Utf8.{Bytes}
use kraai.Provider.Sse.Task.{
  Item, error, line_too_long, Handled, Status, max_sse_event_bytes, process_line, Scan, returned,
  scanned, send_first, after_line, after_chunk, scan_chunk, Ending, at_end, forward,
}

abbrev pub after_item : Handled → (Option Bytes → List Item) → List Item
after_item h next = elim h.status [
  | Status.proceed ↦ h.sent ++ next h.pending
  | Status.finish ↦ h.sent
  | Status.fail e ↦ h.sent ++ error e ∷ []
]

-- The items for the bytes that are left, behind the part of a line that was read and the pending
-- event data.
unfoldable pub lines : Ending → Bytes → Option Bytes → Bytes → List Item
lines ending part pending [] =
    if ltb max_sse_event_bytes (length part)
    then error line_too_long ∷ []
    else at_end ending part pending
lines ending part pending (byte ∷ bytes) =
    let more = lines ending (part ++ byte ∷ []) pending bytes in
    let next = λ (p : Option Bytes). lines ending [] p bytes in
    if not (byte == 10)
    then more
    else if ltb max_sse_event_bytes (length part)
    then error line_too_long ∷ []
    else after_item (process_line (part ++ byte ∷ []) pending) next

-- A line that is too long is reported whatever follows it.
lines_overlong :
    (ending : Ending) (part : Bytes) (pending : Option Bytes) (bytes : Bytes)
    → max_sse_event_bytes < length part
    → lines ending part pending bytes ≡ error line_too_long ∷ []
unfolding lines
lines_overlong ending part pending [] h = ground arith
lines_overlong ending part pending (byte ∷ bytes) h = ground (
  arith,
  length-append {0} part (byte ∷ []),
  lines_overlong ending (part ++ byte ∷ []) pending bytes,
)

after_chunk-send_first :
    (buffer : Bytes) (items : List Item) (s : Scan) (next : Bytes → Option Bytes → List Item)
    → after_chunk buffer (send_first items s) next ≡ items ++ after_chunk buffer s next
after_chunk-send_first buffer items (returned rest) next = refl
after_chunk-send_first buffer items (scanned rest consumed pending) next = append_assoc items rest _

after_chunk-after_line :
    (buffer : Bytes) (h : Handled) (scan : Option Bytes → Scan)
    (next : Bytes → Option Bytes → List Item) (more : Option Bytes → List Item)
    → ((p : Option Bytes) → after_chunk buffer (scan p) next ≡ more p)
    → after_chunk buffer (after_line h scan) next ≡ after_item h more
after_chunk-after_line buffer h scan next more e = go h.status h.sent h.pending
  where
    go :
        (status : Status) (sent : List Item) (pending : Option Bytes)
        → let h' : Handled = record { sent = sent; pending = pending; status = status } in
          after_chunk buffer (after_line h' scan) next ≡ after_item h' more
    go Status.proceed sent pending =
        after_chunk-send_first buffer sent (scan pending) next ∙ ap (λ l. sent ++ l) (e pending)
    go Status.finish sent pending = refl
    go (Status.fail x) sent pending = refl

-- One step of the buffer: the bytes of a line, and what is left behind it.
split_line :
    (buffer part bytes : Bytes) (byte consumed : ℕ)
    → drop consumed buffer ≡ part ++ (byte ∷ bytes)
    → (take (length part + 1) (part ++ (byte ∷ bytes)) ≡ part ++ (byte ∷ []))
      × (drop (length part + 1) (part ++ (byte ∷ bytes)) ≡ bytes)
      × (drop (consumed + (length part + 1)) buffer ≡ bytes)
split_line buffer part bytes byte consumed h =
    let len = length-append {0} part (byte ∷ []) in
    let whole = append_assoc part (byte ∷ []) bytes in
    let taken = take-append_length (part ++ (byte ∷ [])) bytes in
    let dropped = drop-append_length (part ++ (byte ∷ [])) bytes in
    ground (arith, len, whole, taken, dropped, h, drop-drop consumed (length part + 1) buffer)

module _ (ending : Ending) (buffer rest : Bytes) (next : Bytes → Option Bytes → List Item)
    (goes_on : (left : Bytes) (p : Option Bytes)
      → length left ≤ max_sse_event_bytes
      → next left p ≡ lines ending left p rest) where
  -- At the end of a chunk the limit is checked, or the next chunk takes over.
  end_of_chunk :
      (part : Bytes) (consumed : ℕ) (pending : Option Bytes)
      → drop consumed buffer ≡ part ++ []
      → after_chunk buffer (scanned [] consumed pending) next ≡ lines ending part pending rest
  end_of_chunk part consumed pending h =
      rw (h ∙ append-nil part) (elim (Bool-cases (ltb max_sse_event_bytes (length part))) [
        | inl over ↦ rw over (sym (lines_overlong ending part pending rest (ground arith)))
        | inr fits ↦ rw fits (goes_on part pending (ground arith))
      ])

  scan_chunk-lines :
      (part bytes : Bytes) (position consumed : ℕ) (remaining : Bytes) (pending : Option Bytes)
      → position ≡ consumed + length part
      → remaining ≡ part ++ bytes
      → drop consumed buffer ≡ part ++ bytes
      → after_chunk buffer (scan_chunk bytes position consumed remaining pending) next
        ≡ lines ending part pending (bytes ++ rest)
  unfolding scan_chunk lines
  scan_chunk-lines part [] position consumed remaining pending e r h =
      end_of_chunk part consumed pending h
  scan_chunk-lines part (byte ∷ bytes) position consumed remaining pending e r h =
      elim (Bool-cases (byte == 10)) [
        | inr other ↦
            rw (other, scan_chunk)
              (scan_chunk-lines (part ++ byte ∷ []) bytes (position + 1) consumed remaining pending
                (omega (arith, e, length-append {0} part (byte ∷ [])))
                (r ∙ sym (append_assoc part (byte ∷ []) bytes))
                (h ∙ sym (append_assoc part (byte ∷ []) bytes)))
        | inl newline ↦
            let split = split_line buffer part bytes byte consumed h in
            let width : position + 1 - consumed ≡ length part + 1 = omega arith in
            let line : take (position + 1 - consumed) remaining ≡ part ++ (byte ∷ []) =
              rw (width, r) split.0 in
            let tail : drop (position + 1 - consumed) remaining ≡ bytes = rw (width, r) split.1 in
            let behind : position + 1 ≡ consumed + (length part + 1) = omega arith in
            let size : length (part ++ (byte ∷ [])) - 1 ≡ length part =
              omega (arith, length-append {0} part (byte ∷ [])) in
            rw (newline, line, tail, size)
              (elim (Bool-cases (ltb max_sse_event_bytes (length part))) [
                | inl over ↦ rw (over)
                | inr fits ↦ rw (fits) (
                    after_chunk-after_line buffer (process_line (part ++ (byte ∷ [])) pending)
                      (λ p. scan_chunk bytes (position + 1) (position + 1) bytes p) next
                      (λ p. lines ending [] p (bytes ++ rest))
                      (λ p.
                        scan_chunk-lines [] bytes (position + 1) (position + 1) bytes p
                          (omega arith) refl (rw behind split.2)))
              ])
      ]

abbrev pub flatten : List Bytes → Bytes
flatten [] = []
flatten (s ∷ ss) = s ++ flatten ss

-- The items depend on the bytes of the body and on how it ends, and not on how the transport cuts
-- the body into chunks: whatever part of a line is in the buffer, within the limit, the task sends
-- what the machine sends for the joined chunks.
pub forward-lines :
    (ending : Ending) (buffer : Bytes) (pending : Option Bytes) (chunks : List Bytes)
    → length buffer ≤ max_sse_event_bytes
    → forward ending buffer pending chunks ≡ lines ending buffer pending (flatten chunks)
unfolding forward
forward-lines ending buffer pending [] h = unfold lines in (ground arith)
forward-lines ending buffer pending (chunk ∷ chunks) h =
    scan_chunk-lines ending (buffer ++ chunk) (flatten chunks)
      (λ left p. forward ending left p chunks)
      (λ left p fits. forward-lines ending left p chunks fits) buffer chunk (length buffer) 0
      (buffer ++ chunk) pending (omega arith) refl refl
