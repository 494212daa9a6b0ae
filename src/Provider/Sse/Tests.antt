-- ===== src/Provider/Sse/Tests.antt =====
-- Runs of the forwarding task, and instances of its theorems.
use kraai.Base.{◌≡◌, refl, List, [], ◌∷◌, ◌++◌, none, some, map, arith}
use kraai.Base.Utf8.{Bytes, bytes_eq, is_utf8, trim_start, strip_prefix, strip_last}
use kraai.Provider.Sse.Task.{
  payload, done, event, error, invalid_utf8, data_prefix, done_marker, process_line, process_text,
  add_data, finished, closed, forward,
}
use kraai.Provider.Sse.Machine.{lines, flatten, forward-lines}
use kraai.Provider.Sse.Bounds.{AllFit, forward-fits}
use kraai.Provider.Sse.RoundTrip.{Event, AllEvents, IsLine, join, forward-encode}

abbrev hello : Bytes
hello = b'h' ∷ b'e' ∷ b'y' ∷ []

abbrev two_chunks : List Bytes
two_chunks =
    (data_prefix ++ (32 ∷ b'h' ∷ b'e' ∷ []))
    ∷ (b'y' ∷ 13 ∷ 10 ∷ 10 ∷ [] ++ (data_prefix ++ (done_marker ++ (10 ∷ 10 ∷ 0xff ∷ []))))
    ∷ []

-- Spaces and a return are dropped, and nothing is read behind the end marker.
done_discards_the_rest :
    forward finished [] none two_chunks ≡ event (payload hello) ∷ event done ∷ []
unfolding forward process_line process_text add_data bytes_eq is_utf8 trim_start strip_prefix
    strip_last
done_discards_the_rest = refl

invalid_line :
    forward finished [] none ((b'x' ∷ 0xff ∷ 10 ∷ []) ∷ [])
    ≡ error (invalid_utf8 (b'x' ∷ 0xff ∷ [])) ∷ []
unfolding forward process_line process_text is_utf8 strip_last
invalid_line = refl

forward-lines_example :
    forward finished [] none two_chunks ≡ lines finished [] none (flatten two_chunks)
forward-lines_example = forward-lines finished [] none two_chunks (omega arith)

forward-fits_example : AllFit (forward closed hello (some hello) two_chunks)
forward-fits_example = forward-fits closed hello (some hello) two_chunks (omega arith) (omega arith)

abbrev hello_twice : Event
hello_twice = (hello, hello ∷ [])

hello-IsLine : IsLine hello
unfolding is_utf8 trim_start
hello-IsLine = record {
  no_newline = refl;
  no_return = refl;
  trimmed = refl;
  valid = refl;
  short = omega arith;
}

hello-AllEvents : AllEvents (hello_twice ∷ [])
unfolding bytes_eq
hello-AllEvents = (
  record { all_lines = (hello-IsLine, (hello-IsLine, tt)); fits = omega arith; not_done = refl },
  tt,
)

abbrev cut : List Bytes
cut =
    (data_prefix ++ (b'h' ∷ []))
    ∷ (b'e' ∷ b'y' ∷ 10 ∷ [])
    ∷ (data_prefix ++ (hello ++ (10 ∷ 10 ∷ [])))
    ∷ []

forward-encode_example :
    forward finished [] none cut
    ≡ map (λ (e : Event). event (payload (join e.0 e.1))) (hello_twice ∷ [])
forward-encode_example = forward-encode (hello_twice ∷ []) cut hello-AllEvents refl
