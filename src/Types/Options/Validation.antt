-- ===== src/Types/Options/Validation.antt =====
-- crates/kraai-types/src/model_options/validation.rs: what is wrong with definitions and values.
use kraai.Base.{
  ℕ, zero, suc, Bool, true, false, not, ◌&&◌, ◌||◌, List, [], ◌∷◌, ◌++◌, Option, none, some, any,
  all, filter, is_empty, ◌==◌, leb, if◌then◌else◌,
}
use kraai.Base.Results.{Result, ok, err}
use kraai.Base.Integers.{ltz}
use kraai.Base.Utf8.{Bytes, bytes_eq, trim_start}
use kraai.Base.Literals.{utf8}
use kraai.Types.Options.{
  ModelOptionValues, ModelOptionDefinition, ModelOptionChoice, ModelOptionError, body, header,
  choices, switch, bounds, is_active, by_id, value_error, get,
}

-- `push_error` under a condition.
abbrev pub report : Bool → Bytes → Bytes → List ModelOptionError
report b option message = if b then record { option = option; message = message } ∷ [] else []

-- `id.trim().is_empty()`.
abbrev pub is_blank : Bytes → Bool
is_blank id = is_empty (trim_start id)

-- The definitions that are inserted into the map: blank ids are not.
abbrev pub named : List ModelOptionDefinition → List ModelOptionDefinition
named definitions = filter (λ d. not (is_blank d.id)) definitions

-- `any(|choice| .. || !ids.insert(..))`, with the ids inserted so far.
unfoldable pub bad_choices : List Bytes → List ModelOptionChoice → Bool
bad_choices ids [] = false
bad_choices ids (c ∷ cs) = is_blank c.id || any (bytes_eq c.id) ids || bad_choices (c.id ∷ ids) cs

-- `valid_pointer`, behind the first byte.
unfoldable pub valid_escapes : Bytes → Bool
valid_escapes [] = true
valid_escapes (b ∷ []) = not (b == 126)
valid_escapes (b ∷ c ∷ s) =
    let behind = valid_escapes s in
    let next = valid_escapes (c ∷ s) in if b == 126 then (c == 48 || c == 49) && behind else next

abbrev valid_pointer : Bytes → Bool
valid_pointer [] = false
valid_pointer (b ∷ s) = b == 47 && valid_escapes (b ∷ s)

abbrev between : ℕ → ℕ → ℕ → Bool
between lo hi b = leb lo b && leb b hi

unfoldable pub header_character : ℕ → Bool
header_character b =
    between 48 57 b
    || between 65 90 b
    || between 97 122 b
    || any (λ c. c == b) (utf8 "!#$%&'*+-.^_`|~")

unfoldable pub kind_errors : ModelOptionDefinition → List ModelOptionError
unfolding bad_choices
kind_errors d = elim d.kind [
  | choices cs ↦
      report (is_empty cs || bad_choices [] cs) d.id (utf8 "Choices must have nonempty, unique IDs")
  | bounds least most ↦
      report
        (elim least [
          | none ↦ false
          | some low ↦ elim most [ none ↦ false | some high ↦ ltz high low ]
        ])
        d.id (utf8 "Minimum exceeds maximum")
      ++ report (elim d.binding [ none ↦ true | some b ↦ false ]) d.id
          (utf8 "Integer option requires a request binding")
  | switch enabled disabled ↦ []
]

-- `validate_definition`.
unfoldable pub validate_definition : ModelOptionDefinition → List ModelOptionError
unfolding kind_errors valid_escapes header_character
validate_definition d = kind_errors d ++ elim d.binding [
  | none ↦ []
  | some b ↦ elim b [
    | body path ↦
        report (not (valid_pointer path)) d.id
          (utf8 "Body binding requires a nonempty JSON pointer")
    | header name ↦
        report (is_empty name || not (all header_character name)) d.id
          (utf8 "Header binding name is invalid")
  ]
]

-- The ids inserted so far: a blank id is not inserted.
abbrev pub inserted : List Bytes → ModelOptionDefinition → List Bytes
inserted seen d = if is_blank d.id then seen else d.id ∷ seen

abbrev pub id_errors : List Bytes → ModelOptionDefinition → List ModelOptionError
id_errors seen d =
    report (is_blank d.id || any (bytes_eq d.id) seen) d.id
      (utf8 "Option ID is empty or duplicated")

-- The loop over the definitions, with the ids inserted so far.
unfoldable pub definition_errors : List Bytes → List ModelOptionDefinition → List ModelOptionError
unfolding validate_definition
definition_errors seen [] = []
definition_errors seen (d ∷ ds) =
    id_errors seen d ++ validate_definition d ++ definition_errors (inserted seen d) ds

-- The loop over the conditions from `current` on, with the ids visited and a bound on its rounds;
-- `none` where the bound is reached.
unfoldable pub condition_errors :
    ℕ
    → (Bytes → Option ModelOptionDefinition)
    → List Bytes
    → ModelOptionDefinition
    → ModelOptionDefinition
    → Option (List ModelOptionError)
condition_errors zero table visited definition current = none
condition_errors (suc fuel) table visited definition current = elim current.active_when [
  | none ↦ some []
  | some c ↦
      if any (bytes_eq current.id) visited
      then some (report true definition.id (utf8 "Option conditions contain a cycle"))
      else elim (table c.option) [
        | none ↦
            some (report true definition.id (utf8 "Option condition references an unknown option"))
        | some parent ↦ elim (value_error parent c.value) [
          | some message ↦ some (report true definition.id (utf8 "Invalid condition: " ++ message))
          | none ↦ condition_errors fuel table (current.id ∷ visited) definition parent
        ]
      ]
]

-- The loop over the definitions that follows their conditions.
unfoldable pub cycle_errors :
    ℕ
    → (Bytes → Option ModelOptionDefinition)
    → List ModelOptionDefinition
    → Option (List ModelOptionError)
unfolding condition_errors
cycle_errors fuel table [] = some []
cycle_errors fuel table (d ∷ ds) = elim (condition_errors fuel table [] d d) [
  | none ↦ none
  | some here ↦ elim (cycle_errors fuel table ds) [ none ↦ none | some rest ↦ some (here ++ rest) ]
]

-- The loop over the values; `values` is the whole map.
unfoldable pub value_errors :
    List ModelOptionDefinition → ModelOptionValues → ModelOptionValues → List ModelOptionError
value_errors definitions values [] = []
value_errors definitions values ((id, value) ∷ rest) =
    elim (by_id definitions id) [
      | none ↦ report true id (utf8 "Unknown model option")
      | some d ↦
          elim (value_error d value) [ none ↦ [] | some message ↦ report true id message ]
          ++ report (not (is_active d values)) id
              (utf8 "Option is inactive for the selected settings")
    ]
    ++ value_errors definitions values rest

abbrev contains_key : Bytes → ModelOptionValues → Bool
contains_key id values = elim (get id values) [ none ↦ false | some v ↦ true ]

unfoldable pub missing_errors :
    ModelOptionValues → List ModelOptionDefinition → List ModelOptionError
missing_errors values [] = []
missing_errors values (d ∷ ds) =
    report (d.required && is_active d values && not (contains_key d.id values)) d.id
      (utf8 "Choose " ++ d.label ++ utf8 " before generating")
    ++ missing_errors values ds

abbrev pub concluded : List ModelOptionError → Result (Unit {0}) (List ModelOptionError)
concluded [] = ok tt
concluded (e ∷ es) = err (e ∷ es)

-- `validate_model_option_values`, with a bound on the rounds of its inner loop.
unfoldable pub validate_model_option_values :
    ℕ
    → List ModelOptionDefinition
    → ModelOptionValues
    → Bool
    → Option (Result (Unit {0}) (List ModelOptionError))
unfolding definition_errors cycle_errors value_errors missing_errors
validate_model_option_values fuel definitions values require_all =
    elim (cycle_errors fuel (by_id (named definitions)) definitions) [
      | none ↦ none
      | some cycles ↦ some (
          concluded (
            definition_errors [] definitions
            ++ cycles
            ++ value_errors (named definitions) values values
            ++ (if require_all then missing_errors values definitions else [])))
    ]
