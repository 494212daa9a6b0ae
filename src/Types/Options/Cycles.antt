-- ===== src/Types/Options/Cycles.antt =====
-- The validation of options ends, and what it accepts is consistent.
use mathlib.Core.Path.{subst}
use kraai.Base.{
  ℕ, zero, suc, ◌≤◌, ◌<◌, Bool, true, false, not, List, [], ◌∷◌, ◌++◌, Option, none, some, filter,
  all, any, any-append, append_assoc, length, length-filter-le, ==_iff, if◌then◌else◌, ◌≡◌, refl,
  ◌∙◌, Bool-cases, Option-cases, inl, inr, arith,
}
use kraai.Base.Results.{ok}
use kraai.Base.Utf8.{Bytes, bytes_eq, bytes_eq_iff}
use kraai.Types.Options.{
  ModelOptionValues, ModelOptionDefinition, ModelOptionError, by_id, value_error,
}
use kraai.Types.Options.Reconcile.{retains, reconcile_model_option_values}
use kraai.Types.Options.Validation.{
  is_blank, named, concluded, inserted, id_errors, validate_definition, condition_errors,
  cycle_errors, definition_errors, value_errors, missing_errors, validate_model_option_values,
}
use kraai.Types.Options.Fixpoint.{filter-id}

abbrev unvisited : List Bytes → ModelOptionDefinition → Bool
unvisited visited d = not (any (bytes_eq d.id) visited)

-- How many definitions have an id that was not visited.
abbrev left_over : List Bytes → List ModelOptionDefinition → ℕ
left_over visited ds = length (filter (unvisited visited) ds)

abbrev listed : Bytes → List ModelOptionDefinition → Bool
listed id ds = any (λ d. bytes_eq d.id id) ds

left_over-cons :
    (id : Bytes) (visited : List Bytes) (ds : List ModelOptionDefinition)
    → left_over (id ∷ visited) ds ≤ left_over visited ds
left_over-cons id visited [] = omega arith
left_over-cons id visited (d ∷ ds) = let ih = left_over-cons id visited ds in ground (arith, ih)

any-bytes_eq :
    (s t : Bytes) (visited : List Bytes)
    → bytes_eq s t ≡ true
    → any (bytes_eq s) visited ≡ any (bytes_eq t) visited
any-bytes_eq s t visited h = let e = (bytes_eq_iff s t).0 h in rw e refl

-- Visiting an id that is listed leaves fewer over.
left_over-visit :
    (id : Bytes) (visited : List Bytes) (ds : List ModelOptionDefinition)
    → listed id ds ≡ true
    → any (bytes_eq id) visited ≡ false
    → left_over (id ∷ visited) ds < left_over visited ds
left_over-visit id visited [] l h = ground (arith, l)
left_over-visit id visited (d ∷ ds) l h = elim (Bool-cases (bytes_eq d.id id)) [
  | inl e ↦
      let le = left_over-cons id visited ds in
      let same : any (bytes_eq d.id) visited ≡ false = any-bytes_eq d.id id visited e ∙ h in
      ground (arith, e, same, le)
  | inr e ↦ let ih = left_over-visit id visited ds (ground (arith, l, e)) h in ground (arith, e, ih)
]

by_id-listed :
    (ds : List ModelOptionDefinition) (id : Bytes) {d : ModelOptionDefinition}
    → by_id ds id ≡ some d
    → listed d.id ds ≡ true
unfolding by_id
by_id-listed [] id h = ground (arith, h)
by_id-listed (x ∷ ds) id {d} h = elim (Option-cases (by_id ds id)) [
  | inl e ↦
      let self = (bytes_eq_iff d.id d.id).1 refl in
      let hit : some x ≡ some d = ground (arith, h, e) in
      let same : x ≡ d = cc in let here : bytes_eq x.id d.id ≡ true = rw same self in rw here refl
  | inr (y, e) ↦
      let hit : some y ≡ some d = ground (arith, h, e) in
      let same : y ≡ d = cc in
      let found : by_id ds id ≡ some d = rw (← same) e in
      let ih = by_id-listed ds id found in ground (arith, ih)
]

listed-named :
    (id : Bytes) (ds : List ModelOptionDefinition)
    → listed id (named ds) ≡ true
    → listed id ds ≡ true
listed-named id [] h = h
listed-named id (d ∷ ds) h = elim (Bool-cases (is_blank d.id)) [
  | inl e ↦ let ih = listed-named id ds (ground (arith, h, e)) in ground (arith, ih)
  | inr e ↦ elim (Bool-cases (bytes_eq d.id id)) [
    | inl k ↦ rw k refl
    | inr k ↦ let ih = listed-named id ds (ground (arith, h, e, k)) in rw k ih
  ]
]

abbrev pub returns {ℓ} : {A : Type ℓ} → Option A → Bool
returns none = false
returns (some a) = true

module _ (definitions : List ModelOptionDefinition) where
  abbrev table : Bytes → Option ModelOptionDefinition
  table = by_id (named definitions)

  condition_errors-returns :
      (fuel : ℕ) (visited : List Bytes) (definition current : ModelOptionDefinition)
      → listed current.id definitions ≡ true
      → left_over visited definitions < fuel
      → returns (condition_errors fuel table visited definition current) ≡ true
  unfolding condition_errors
  condition_errors-returns zero visited definition current l h = ground (arith, h)
  condition_errors-returns (suc fuel) visited definition current l h =
      elim (Option-cases current.active_when) [
        | inl e ↦ rw e refl
        | inr (c, e) ↦ elim (Bool-cases (any (bytes_eq current.id) visited)) [
          | inl v ↦ rw (e, v) refl
          | inr v ↦ elim (Option-cases (table c.option)) [
            | inl t ↦ rw (e, v, t) refl
            | inr (parent, t) ↦ elim (Option-cases (value_error parent c.value)) [
              | inr (m, x) ↦ rw (e, v, t, x) refl
              | inl x ↦
                  let fewer = left_over-visit current.id visited definitions l v in
                  let known =
                    listed-named parent.id definitions
                      (by_id-listed (named definitions) c.option t) in
                  rw (e, v, t, x)
                    (condition_errors-returns fuel (current.id ∷ visited) definition parent known
                      (omega (arith, h, fewer)))
            ]
          ]
        ]
      ]

  cycle_errors-returns :
      (fuel : ℕ) (ds : List ModelOptionDefinition)
      → all (λ d. listed d.id definitions) ds ≡ true
      → length definitions < fuel
      → returns (cycle_errors fuel table ds) ≡ true
  unfolding cycle_errors
  cycle_errors-returns fuel [] l h = refl
  cycle_errors-returns fuel (d ∷ ds) l h =
      let here : listed d.id definitions ≡ true = ground (arith, l) in
      let le = length-filter-le (unvisited []) definitions in
      let a = condition_errors-returns fuel ([]) d d here (omega (arith, h, le)) in
      let b = cycle_errors-returns fuel ds (ground (arith, l)) h in ground (arith, a, b)

all-listed :
    (before ds : List ModelOptionDefinition) → all (λ d. listed d.id (before ++ ds)) ds ≡ true
all-listed before [] = refl
all-listed before (d ∷ ds) =
    let self = (bytes_eq_iff d.id d.id).1 refl in
    let here : listed d.id (before ++ d ∷ ds) ≡ true =
      any-append (λ n. bytes_eq n.id d.id) before (d ∷ ds) ∙ rw self (ground arith) in
    let rest : all (λ n. listed n.id (before ++ d ∷ ds)) ds ≡ true =
      subst (λ l. all (λ n. listed n.id l) ds ≡ true) (append_assoc before (d ∷ []) ds)
        (all-listed (before ++ d ∷ []) ds) in
    rw (here, rest) refl

-- With a bound above the number of definitions, the validation returns: no chain of conditions is
-- followed for more rounds, whether it ends or runs in a cycle.
pub validate_model_option_values-returns :
    (fuel : ℕ) (definitions : List ModelOptionDefinition) (values : ModelOptionValues)
    (require_all : Bool)
    → length definitions < fuel
    → returns (validate_model_option_values fuel definitions values require_all) ≡ true
unfolding validate_model_option_values
validate_model_option_values-returns fuel definitions values require_all h =
    let a = cycle_errors-returns definitions fuel definitions (all-listed ([]) definitions) h in
    ground (arith, a)

append-nil_left {ℓ} : {A : Type ℓ} (xs ys : List A) → xs ++ ys ≡ [] → (xs ≡ []) × (ys ≡ [])
append-nil_left [] ys h = (refl, h)
append-nil_left (x ∷ xs) ys h = cc

definition_errors-named :
    (seen : List Bytes) (ds : List ModelOptionDefinition)
    → definition_errors seen ds ≡ []
    → all (λ d. not (is_blank d.id)) ds ≡ true
unfolding definition_errors
definition_errors-named seen [] h = refl
definition_errors-named seen (d ∷ ds) h = elim (Bool-cases (is_blank d.id)) [
  | inl e ↦ ground (arith, h, e)
  | inr e ↦
      let behind =
        append-nil_left (id_errors seen d ++ validate_definition d)
          (definition_errors (inserted seen d) ds) h in
      let ih = definition_errors-named (inserted seen d) ds (behind.1) in rw (e, ih) refl
]

value_errors-retains :
    (definitions : List ModelOptionDefinition) (values rest : ModelOptionValues)
    → value_errors definitions values rest ≡ []
    → all (retains definitions values) rest ≡ true
unfolding value_errors retains
value_errors-retains definitions values [] h = refl
value_errors-retains definitions values ((id, v) ∷ rest) h =
    let tail = append-nil_left _ (value_errors definitions values rest) h in
    let ih = value_errors-retains definitions values rest (tail.1) in
    elim (Option-cases (by_id definitions id)) [
      | inl e ↦ ground (arith, h, e, ih)
      | inr (d, e) ↦ ground (arith, h, e, ih)
    ]

concluded-ok : (errors : List ModelOptionError) → concluded errors ≡ ok tt → errors ≡ []
concluded-ok [] h = refl
concluded-ok (e ∷ errors) h = cc

-- Values that the validation accepts are left as they are by the loop that reconciles values with
-- the options, which ends in its first round.
pub reconcile-validate :
    (fuel : ℕ) (definitions : List ModelOptionDefinition) (values : ModelOptionValues)
    (require_all : Bool) (rounds : ℕ)
    → validate_model_option_values fuel definitions values require_all ≡ some (ok tt)
    → reconcile_model_option_values (suc rounds) definitions values ≡ some values
unfolding validate_model_option_values reconcile_model_option_values
reconcile-validate fuel definitions values require_all rounds h =
    elim (Option-cases (cycle_errors fuel (by_id (named definitions)) definitions)) [
      | inl e ↦ ground (arith, h, e)
      | inr (cycles, e) ↦
          let given = definition_errors ([]) definitions in
          let found = value_errors (named definitions) values values in
          let missing : List ModelOptionError =
            if require_all then missing_errors values definitions else [] in
          let answer : some (concluded (given ++ cycles ++ found ++ missing)) ≡ some (ok tt) =
            rw (← h) (rw (e, validate_model_option_values) refl) in
          let clean = concluded-ok (given ++ cycles ++ found ++ missing) cc in
          let first = append-nil_left (given ++ cycles ++ found) missing clean in
          let second = append-nil_left (given ++ cycles) found (first.0) in
          let third = append-nil_left given cycles (second.0) in
          let all_named : named definitions ≡ definitions =
            filter-id (λ d. not (is_blank d.id)) definitions
              (definition_errors-named ([]) definitions (third.0)) in
          let none_found : value_errors definitions values values ≡ [] =
            subst (λ l. value_errors l values values ≡ []) all_named (second.1) in
          let full = value_errors-retains definitions values values none_found in
          let same = filter-id (retains definitions values) values full in
          let size = (==_iff (length values) (length values)).1 refl in rw (same, size) refl
    ]
