-- ===== src/Agent/Context.antt =====
-- crates/kraai-agent/src/context_state.rs and crates/kraai-types/src/context_state.rs: the files
-- that a session has pinned, and the snapshots of files and instructions that a request shows.
use kraai.Base.{
  ℕ, ◌+◌, Bool, true, false, not, ◌&&◌, List, [], ◌∷◌, ◌++◌, Option, none, some, String, any,
  filter, find, is_empty, if◌then◌else◌, ◌==◌,
}
use kraai.Base.Texts.{str_eq}
use kraai.Base.Results.{Result, ok, err}
use kraai.Base.Utf8.{Bytes, bytes_eq, split_inclusive}
use kraai.Base.Decimal.{decimal}
use kraai.Base.Literals.{utf8}
use kraai.Types.Conversation.{Message}
use kraai.Agent.Assemble.{FileContextSnapshot, RefreshedContextState, is_retained}
pub mod Replay
pub mod Removals

pub data PinnedFileScope : Type 0 where
  workspace : Bytes → PinnedFileScope
  host : PinnedFileScope

pub data ContextStateMutation : Type 0 where
  pin_file : Bytes → PinnedFileScope → ContextStateMutation
  unpin_file : Bytes → Option Bytes → ContextStateMutation

-- The source of an event is left out: a refresh does not read it.
pub record ContextStateEvent : Type 0 where
  pub id : String
  pub mutations : List ContextStateMutation

pub record PinnedFile : Type 0 where
  pub path : Bytes
  pub scope : PinnedFileScope
  pub opened_event : String

abbrev pub has_path : Bytes → PinnedFile → Bool
has_path path f = bytes_eq f.path path

-- `if let Some(existing) = .. { existing.scope = scope } else { push }`: the first with the path.
-- Paths are compared as they are written.
unfoldable pub pin : String → Bytes → PinnedFileScope → List PinnedFile → List PinnedFile
pin event path scope [] = record { path = path; scope = scope; opened_event = event } ∷ []
pin event path scope (f ∷ fs) =
    let rest = pin event path scope fs in
    if has_path path f then record f { scope = scope } ∷ fs else f ∷ rest

-- `ContextState::apply`; the state is its one field.
unfoldable pub apply : String → ContextStateMutation → List PinnedFile → List PinnedFile
unfolding pin
apply event (pin_file path scope) opened = pin event path scope opened
apply event (unpin_file path reason) opened = filter (λ f. not (has_path path f)) opened

unfoldable pub apply_mutations :
    String → List ContextStateMutation → List PinnedFile → List PinnedFile
unfolding apply
apply_mutations event [] opened = opened
apply_mutations event (m ∷ ms) opened = apply_mutations event ms (apply event m opened)

-- The loop over the events.
unfoldable pub apply_events : List ContextStateEvent → List PinnedFile → List PinnedFile
unfolding apply_mutations
apply_events [] opened = opened
apply_events (e ∷ es) opened = apply_events es (apply_mutations e.id e.mutations opened)

pub data ScopedReadError : Type 0 where
  not_found outside_root not_file : ScopedReadError
  open_root : Bool → Bytes → ScopedReadError  -- whether it was not found, and the message
  other : Bytes → ScopedReadError  -- the other errors: the message

-- The answers of the file system.
pub record Disk : Type 0 where
  pub read_scoped_text_file : Bytes → Bytes → Result Bytes ScopedReadError
  -- an error: whether it was not found, and the message
  pub read_regular_text_file : Bytes → Result Bytes (Bool × Bytes)

pub data PinnedReadFailure : Type 0 where
  remove : Bytes → PinnedReadFailure
  unavailable : Bytes → PinnedReadFailure

abbrev scoped_failure : ScopedReadError → PinnedReadFailure
scoped_failure not_found = remove (utf8 "it no longer exists")
scoped_failure outside_root = remove (utf8 "it no longer resolves within its authorized workspace")
scoped_failure not_file = remove (utf8 "it is no longer a regular file")
scoped_failure (open_root true shown) = remove (utf8 "its authorized workspace no longer exists")
scoped_failure (open_root false shown) = unavailable shown
scoped_failure (other shown) = unavailable shown

abbrev host_failure : Bool × Bytes → PinnedReadFailure
host_failure (true, shown) = remove (utf8 "it no longer exists")
host_failure (false, shown) = unavailable shown

unfoldable pub read_pinned_file : Disk → PinnedFile → Result Bytes PinnedReadFailure
read_pinned_file disk f = elim f.scope [
  | workspace root ↦ elim (disk.read_scoped_text_file root f.path) [
    | ok contents ↦ ok contents
    | err e ↦ err (scoped_failure e)
  ]
  | host ↦ elim (disk.read_regular_text_file f.path) [
    | ok contents ↦ ok contents
    | err e ↦ err (host_failure e)
  ]
]

-- `append_text_with_line_numbers`, from the index of the next line.
unfoldable pub number_lines : ℕ → List Bytes → Bytes
number_lines index [] = []
number_lines index (line ∷ lines) =
    decimal (index + 1) ++ 124 ∷ line ++ number_lines (index + 1) lines

-- `contents.ends_with('\n')`.
abbrev ends_line : Bytes → Bool
ends_line [] = false
ends_line (b ∷ []) = b == 10
ends_line (b ∷ c ∷ s) = ends_line (c ∷ s)

unfoldable pub render_file : Bytes → Bytes → Bytes
unfolding number_lines
render_file path contents =
    let unfinished = not (is_empty contents) && not (ends_line contents) in
    utf8 "Opened file: "
    ++ path
    ++ utf8 "\nFormat: <line>|<content>.\n```text\n"
    ++ number_lines 0 (split_inclusive contents)
    ++ (if unfinished then 10 ∷ [] else [])
    ++ utf8 "```"
    ++ (if unfinished then utf8 "\nNo newline at end of file." else [])

-- What a refresh of the pinned files gives: the snapshots, the notifications and the removals.
pub record Pins : Type 0 where
  pub snapshots : List FileContextSnapshot
  pub notifications : List Bytes
  pub removals : List ContextStateMutation

abbrev snapshot_of : String → PinnedFile → Bytes → FileContextSnapshot
snapshot_of anchor f contents = record {
  path = f.path;
  opened_event = f.opened_event;
  anchor = anchor;
  contents = contents;
}

abbrev unpinned : PinnedFile → Bytes → Pins → Pins
unpinned f reason rest = record {
  snapshots = rest.snapshots;
  notifications =
      (f.path ++ utf8 " was automatically unpinned because " ++ reason ++ utf8 ".")
      ∷ rest.notifications;
  removals = unpin_file f.path (some reason) ∷ rest.removals;
}

abbrev shown : FileContextSnapshot → Pins → Pins
shown snapshot rest = record rest { snapshots = snapshot ∷ rest.snapshots }

-- The loop over the pinned files.
unfoldable pub refresh_pins : Disk → String → List PinnedFile → Pins
unfolding read_pinned_file render_file
refresh_pins disk anchor [] = record { snapshots = []; notifications = []; removals = [] }
refresh_pins disk anchor (f ∷ fs) =
    let rest = refresh_pins disk anchor fs in
    elim (read_pinned_file disk f) [
      | ok contents ↦ shown (snapshot_of anchor f (render_file f.path contents)) rest
      | err failure ↦ elim failure [
        | remove reason ↦ unpinned f reason rest
        | unavailable message ↦
            shown
              (snapshot_of anchor f (
                utf8 "Opened file: "
                ++ f.path
                ++ utf8 "\n[temporarily unavailable: "
                ++ message
                ++ utf8 "]"))
              rest
      ]
    ]

unfoldable pub refresh_pinned_files : Disk → List ContextStateEvent → String → Pins
unfolding apply_events refresh_pins
refresh_pinned_files disk events anchor = refresh_pins disk anchor (apply_events events [])
