-- ===== src/Types/Options.antt =====
-- crates/kraai-types/src/model_options.rs: the options of a model, and values for them.
use kraai.Base.{
  Bool, true, false, ◌&&◌, List, [], ◌∷◌, Option, none, some, any, if◌then◌else◌, ◌==◌, ◌||◌, not,
  is_empty, ◌++◌,
}
use kraai.Base.Integers.{ℤ, ltz, eqz}
use kraai.Base.Utf8.{Bytes, bytes_eq}
use kraai.Base.Literals.{utf8}
use kraai.Types.Conversation.{Payload}
pub mod Reconcile
pub mod Validation
pub mod Fixpoint
pub mod Cycles
pub mod Tests

pub data ModelOptionValue : Type 0 where
  choice : Bytes → ModelOptionValue
  boolean : Bool → ModelOptionValue
  integer : ℤ → ModelOptionValue

-- A map from ids: its pairs, in the order of the ids.
abbrev pub ModelOptionValues : Type 0
ModelOptionValues = List (Bytes × ModelOptionValue)

abbrev pub get : Bytes → ModelOptionValues → Option ModelOptionValue
get id [] = none
get id ((key, value) ∷ rest) = if bytes_eq key id then some value else get id rest

abbrev bool_eq : Bool → Bool → Bool
bool_eq true b = b
bool_eq false b = not b

unfoldable pub value_eq : ModelOptionValue → ModelOptionValue → Bool
value_eq (choice a) (choice b) = bytes_eq a b
value_eq (boolean a) (boolean b) = bool_eq a b
value_eq (integer a) (integer b) = eqz a b
value_eq _ _ = false

pub record ModelRequestPatch : Type 0 where
  pub body : List (Bytes × Payload)
  pub headers : List (Bytes × Bytes)

pub record ModelOptionChoice : Type 0 where
  pub id : Bytes
  pub label : Bytes
  pub patch : ModelRequestPatch

pub data ModelOptionKind : Type 0 where
  choices : List ModelOptionChoice → ModelOptionKind
  switch : ModelRequestPatch → ModelRequestPatch → ModelOptionKind
  bounds : Option ℤ → Option ℤ → ModelOptionKind

pub record ModelOptionCondition : Type 0 where
  pub option : Bytes
  pub value : ModelOptionValue

pub data ModelOptionBinding : Type 0 where
  body : Bytes → ModelOptionBinding
  header : Bytes → ModelOptionBinding

pub record ModelOptionDefinition : Type 0 where
  pub id : Bytes
  pub label : Bytes
  pub description : Option Bytes
  pub required : Bool
  pub active_when : Option ModelOptionCondition
  pub binding : Option ModelOptionBinding
  pub kind : ModelOptionKind

pub record ModelOptionError : Type 0 where
  pub option : Bytes
  pub message : Bytes

abbrev pub holds : ModelOptionValue → Option ModelOptionValue → Bool
holds value none = false
holds value (some v) = value_eq v value

-- `ModelOptionDefinition::is_active`.
unfoldable pub is_active : ModelOptionDefinition → ModelOptionValues → Bool
is_active d values = elim d.active_when [
  | none ↦ true
  | some c ↦ holds c.value (get c.option values)
]

-- What the map from ids to definitions holds: the last definition with the id.
unfoldable pub by_id : List ModelOptionDefinition → Bytes → Option ModelOptionDefinition
by_id [] id = none
by_id (d ∷ ds) id = elim (by_id ds id) [
  | some found ↦ some found
  | none ↦ if bytes_eq d.id id then some d else none
]

abbrev has_binding : ModelOptionDefinition → Bool
has_binding d = elim d.binding [ none ↦ false | some b ↦ true ]

abbrev below : ℤ → Option ℤ → Bool
below value none = false
below value (some least) = ltz value least

abbrev above : ℤ → Option ℤ → Bool
above value none = false
above value (some most) = ltz most value

abbrev when : Bool → Bytes → Option Bytes
when b message = if b then some message else none

-- `value_error`.
unfoldable pub value_error : ModelOptionDefinition → ModelOptionValue → Option Bytes
value_error d value = elim d.kind [
  | choices cs ↦ elim value [
    | choice v ↦
        when (is_empty v || (not (any (λ c. bytes_eq c.id v) cs) && not (has_binding d)))
          (utf8 "Unsupported choice '" ++ v ++ utf8 "' for " ++ d.label)
    | boolean b ↦ some (utf8 "Wrong value type for " ++ d.label)
    | integer n ↦ some (utf8 "Wrong value type for " ++ d.label)
  ]
  | switch enabled disabled ↦ elim value [
    | choice v ↦ some (utf8 "Wrong value type for " ++ d.label)
    | boolean b ↦ none
    | integer n ↦ some (utf8 "Wrong value type for " ++ d.label)
  ]
  | bounds least most ↦ elim value [
    | choice v ↦ some (utf8 "Wrong value type for " ++ d.label)
    | boolean b ↦ some (utf8 "Wrong value type for " ++ d.label)
    | integer n ↦
        when (below n least || above n most) (d.label ++ utf8 " is outside its supported bounds")
  ]
]
