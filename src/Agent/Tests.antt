-- ===== src/Agent/Tests.antt =====
-- Runs of the agent's request preparation, and instances of its theorems.
use kraai.Base.{
  ℕ, ◌+◌, ◌≤◌, ◌<◌, ◌≡◌, refl, true, false, List, [], ◌∷◌, ◌++◌, map, reverse, Option, none, some,
  length, sat_mul, usize_max, arith,
}
use kraai.Base.Results.{ok, err}
use kraai.Base.Utf8.{Bytes}
use kraai.Types.Conversation.{
  ImageAttachment, text, image, ConversationItem, system, user, assistant, script_call,
  script_result, completed, file_context, Message, omitted_image,
}
use kraai.Agent.Compaction.{
  max_request_images, max_request_image_bytes, limit_request_images, retained_users,
  remove_oldest_exchange,
}
use kraai.Agent.Compaction.Images.{
  request_images, total_bytes, limit_request_images-bounds, limit_request_images-kept,
}
use kraai.Agent.Compaction.Users.{user_texts, as_user, Kept, retained_users_lem, retained_users-all}
use kraai.Agent.Compaction.Exchanges.{WithoutOldest, remove_oldest_exchange-WithoutOldest}
use kraai.Agent.Instructions.{InstructionSection, refresh_instructions}
use kraai.Agent.Stability.{refresh_instructions-stable}
use kraai.Agent.Assemble.{InstructionSnapshot, RefreshedContextState, assemble}
use kraai.Agent.Assemble.Places.{entries, loose, interleaved, assemble-places}
use kraai.Agent.Context.{
  host, workspace, ContextStateEvent, pin_file, unpin_file, PinnedFile, apply_mutations,
  apply_events, Disk, not_found, refresh_pins,
}
use kraai.Agent.Context.Replay.{
  scope_of, rescope_all, mutations_of, distinct_paths, scope_of-apply_events,
  distinct_paths-apply_events,
}
use kraai.Agent.Context.Removals.{refresh_pins-removals}

abbrev picture : ℕ → ImageAttachment
picture bytes = record { id = 49 ∷ []; mime_type = []; width = 2; height = 3; byte_length = bytes }

-- The older image does not fit beside the newer one.
abbrev pictures : List ConversationItem
pictures =
    user (image (picture 30_000_000) ∷ [])
    ∷ user (text (104 ∷ []) ∷ image (picture 20_000_000) ∷ [])
    ∷ []

older_image_omitted : limit_request_images pictures ≡ (
    user (omitted_image (picture 30_000_000) ∷ [])
    ∷ user (text (104 ∷ []) ∷ image (picture 20_000_000) ∷ [])
    ∷ [])
unfolding limit_request_images kraai.Agent.Compaction.limit_messages
    kraai.Agent.Compaction.limit_message omitted_image kraai.Agent.Compaction.limit_part
older_image_omitted = refl

limit_request_images-bounds_example :
    (length (request_images (limit_request_images pictures)) ≤ max_request_images)
    × (total_bytes (request_images (limit_request_images pictures)) ≤ max_request_image_bytes)
limit_request_images-bounds_example = limit_request_images-bounds pictures

abbrev small_pictures : List ConversationItem
small_pictures = user (image (picture 10) ∷ []) ∷ user (image (picture 20) ∷ []) ∷ []

limit_request_images-kept_example : limit_request_images small_pictures ≡ small_pictures
limit_request_images-kept_example =
    limit_request_images-kept small_pictures (omega arith) (omega arith)

-- A text with a character of two bytes, and an older one.
abbrev users : List ConversationItem
users =
    user (text (97 ∷ 98 ∷ 99 ∷ []) ∷ [])
    ∷ system (115 ∷ [])
    ∷ user (text (97 ∷ 98 ∷ 195 ∷ 169 ∷ 99 ∷ []) ∷ [])
    ∷ []

newest_cut_at_a_character :
    retained_users users 1 ≡ user (text (97 ∷ 98 ∷ 195 ∷ 169 ∷ []) ∷ []) ∷ []
unfolding retained_users kraai.Agent.Compaction.retain_users kraai.Types.Conversation.content_text
    kraai.Types.Conversation.as_text kraai.Types.Conversation.without_images
    kraai.Base.Utf8.is_char_boundary
newest_cut_at_a_character = refl

retained_users_lem_example :
    Kept (reverse (retained_users users 1)) (user_texts (reverse users)) (sat_mul usize_max 1 4)
retained_users_lem_example = retained_users_lem users 1

retained_users-all_example :
    reverse (retained_users users 3) ≡ map as_user (user_texts (reverse users))
unfolding kraai.Types.Conversation.content_text kraai.Types.Conversation.as_text
    kraai.Types.Conversation.without_images
retained_users-all_example = retained_users-all users 3 (omega arith)

abbrev call_1 : ConversationItem
call_1 = assistant (
    script_call
      (record { call_id = "a"; name = []; input = []; arguments_error = none; rewrite = none })
    ∷ [])

abbrev result_1 : ConversationItem
result_1 = script_result "a" ([]) (record { status = completed; exit_code = none })

-- A result of a script that another message has called.
abbrev result_2 : ConversationItem
result_2 = script_result "b" ([]) (record { status = completed; exit_code = none })

abbrev exchange : List ConversationItem
exchange = system (115 ∷ []) ∷ call_1 ∷ result_1 ∷ result_2 ∷ user (text (97 ∷ []) ∷ []) ∷ []

remove_oldest_exchange-WithoutOldest_example :
    WithoutOldest exchange (system (115 ∷ []) ∷ result_2 ∷ user (text (97 ∷ []) ∷ []) ∷ [])
unfolding remove_oldest_exchange kraai.Base.Texts.str_eq
remove_oldest_exchange-WithoutOldest_example = remove_oldest_exchange-WithoutOldest exchange refl

abbrev context : RefreshedContextState
context = record {
  snapshots =
      record { path = []; opened_event = "e"; anchor = "1"; contents = 102 ∷ [] }
      ∷ record { path = []; opened_event = "e"; anchor = "gone"; contents = 103 ∷ [] }
      ∷ [];
  instructions =
      record { key = []; label = []; anchor = some "1"; contents = 105 ∷ [] }
      ∷ record { key = []; label = []; anchor = none; contents = 106 ∷ [] }
      ∷ [];
  notifications = [];
}

abbrev history : List Message
history =
    record { id = "1"; content = user (text (97 ∷ []) ∷ []) }
    ∷ record { id = "2"; content = assistant [] }
    ∷ []

placed_behind_their_messages : assemble (112 ∷ []) context none history ≡ (
    system (112 ∷ [])
    ∷ file_context (106 ∷ [])
    ∷ file_context (103 ∷ [])
    ∷ user (text (97 ∷ []) ∷ [])
    ∷ file_context (105 ∷ [])
    ∷ file_context (102 ∷ [])
    ∷ assistant []
    ∷ [])
unfolding assemble limit_request_images kraai.Agent.Compaction.limit_messages
    kraai.Base.Texts.str_eq kraai.Agent.Compaction.limit_message kraai.Agent.Compaction.limit_part
placed_behind_their_messages = refl

assemble-places_example :
    assemble (112 ∷ []) context (some (user [] ∷ [])) history
    ≡ limit_request_images (
        system (112 ∷ []) ∷ (user [] ∷ [])
        ++ loose history (entries context)
        ++ interleaved history (entries context))
unfolding kraai.Base.Texts.str_eq
assemble-places_example = assemble-places (112 ∷ []) context (user [] ∷ []) history refl

abbrev events : List ContextStateEvent
events =
    record { id = "1"; mutations = pin_file (97 ∷ []) host ∷ pin_file (98 ∷ []) host ∷ [] }
    ∷ record {
      id = "2";
      mutations =
          pin_file (97 ∷ []) (workspace (119 ∷ []))
          ∷ unpin_file (98 ∷ []) none
          ∷ pin_file (99 ∷ []) host
          ∷ [];
    }
    ∷ []

scope_of-apply_events_example :
    scope_of (97 ∷ []) (apply_events events [])
    ≡ rescope_all (97 ∷ []) (mutations_of events) (scope_of (97 ∷ []) ([]))
scope_of-apply_events_example = scope_of-apply_events (97 ∷ []) events ([])

distinct_paths-apply_events_example : distinct_paths (apply_events events []) ≡ true
distinct_paths-apply_events_example = distinct_paths-apply_events events ([]) refl

-- Every file can be read but those of a workspace.
abbrev disk : Disk
disk = record {
  read_scoped_text_file = λ root path. err not_found;
  read_regular_text_file = λ path. ok (120 ∷ []);
}

abbrev pinned : List PinnedFile
pinned =
    record { path = 97 ∷ []; scope = host; opened_event = "1" }
    ∷ record { path = 98 ∷ []; scope = workspace ([]); opened_event = "1" }
    ∷ []

refresh_pins-removals_example :
    map (λ f. f.path) (apply_mutations "r" (refresh_pins disk "m" pinned).removals pinned)
    ≡ map (λ s. s.path) (refresh_pins disk "m" pinned).snapshots
unfolding kraai.Base.Utf8.bytes_eq
refresh_pins-removals_example = refresh_pins-removals disk "m" "r" pinned refl

abbrev sections : List InstructionSection
sections =
    record { key = 97 ∷ []; label = 65 ∷ []; contents = 120 ∷ [] }
    ∷ record { key = 98 ∷ []; label = 66 ∷ []; contents = 121 ∷ [] }
    ∷ []

-- The second section is new behind an answer of the model.
abbrev first_section : List InstructionSnapshot
first_section = record { key = 97 ∷ []; label = 65 ∷ []; anchor = none; contents = 120 ∷ [] } ∷ []

refresh_instructions-stable_example :
    refresh_instructions
      ((refresh_instructions first_section sections "2" history []).0)
      sections
      "3"
      history
      ([])
    ≡ ((refresh_instructions first_section sections "2" history []).0, [])
unfolding refresh_instructions kraai.Base.Utf8.bytes_eq kraai.Base.Texts.str_eq
refresh_instructions-stable_example =
    refresh_instructions-stable first_section sections "2" "3" history history ([]) ([]) refl refl
