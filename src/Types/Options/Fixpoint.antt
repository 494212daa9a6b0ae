-- ===== src/Types/Options/Fixpoint.antt =====
-- What `reconcile_model_option_values` keeps of the values.
use mathlib.Core.Path.{subst}
use kraai.Base.{
  ℕ, zero, suc, ◌<◌, Bool, true, false, not, ◌&&◌, List, [], ◌∷◌, Option, none, some, filter, all,
  length, length-filter-le, ◌==◌, ==_iff, ◌≡◌, refl, sym, ap, ◌∙◌, Bool-cases, Option-cases, inl,
  inr, arith,
}
use kraai.Base.Utf8.{Bytes, bytes_eq, bytes_eq_iff}
use kraai.Types.Options.{
  ModelOptionValue, ModelOptionValues, ModelOptionDefinition, ModelOptionCondition, holds, get,
  is_active, by_id, value_error,
}
use kraai.Types.Options.Reconcile.{retains, reconcile_model_option_values}
use kraai.Types.Options.Validation.{is_blank, named, value_errors}

-- One map holds all that another holds.
abbrev pub Included : ModelOptionValues → ModelOptionValues → Type 0
Included sub values =
    (id : Bytes) (v : ModelOptionValue) → get id sub ≡ some v → get id values ≡ some v

pub filter-all {ℓ} :
    {A : Type ℓ} (p : A → Bool) (xs : List A) → length (filter p xs) ≡ length xs → all p xs ≡ true
filter-all p [] h = refl
filter-all p (x ∷ xs) h = elim (Bool-cases (p x)) [
  | inl e ↦
      let k : length (filter p xs) ≡ length xs = ground (arith, h, e) in rw e (filter-all p xs k)
  | inr e ↦ let le = length-filter-le p xs in ground (arith, h, e, le)
]

pub filter-id {ℓ} : {A : Type ℓ} (p : A → Bool) (xs : List A) → all p xs ≡ true → filter p xs ≡ xs
filter-id p [] h = refl
filter-id p (x ∷ xs) h =
    let e : p x ≡ true = ground (arith, h) in
    let k : all p xs ≡ true = ground (arith, h) in rw e (ap (λ l. x ∷ l) (filter-id p xs k))

filter-all_true {ℓ} : {A : Type ℓ} (xs : List A) → filter (λ x. true) xs ≡ xs
filter-all_true [] = refl
filter-all_true (x ∷ xs) = ap (λ l. x ∷ l) (filter-all_true xs)

filter-filter {ℓ} :
    {A : Type ℓ} (p q : A → Bool) (xs : List A)
    → filter p (filter q xs) ≡ filter (λ x. q x && p x) xs
filter-filter p q [] = refl
filter-filter p q (x ∷ xs) = elim (Bool-cases (q x)) [
  | inl e ↦ elim (Bool-cases (p x)) [
    | inl k ↦ rw (e, k) (ap (λ l. x ∷ l) (filter-filter p q xs))
    | inr k ↦ rw (e, k) (filter-filter p q xs)
  ]
  | inr e ↦ rw e (filter-filter p q xs)
]

module _ (definitions : List ModelOptionDefinition) where
  -- The id has an option, which accepts the value and is active under the selected values.
  abbrev pub accepted : ModelOptionValues → Bytes × ModelOptionValue → Bool
  accepted selected (id, value) = elim (by_id definitions id) [
    | none ↦ false
    | some d ↦ elim (value_error d value) [ none ↦ is_active d selected | some message ↦ false ]
  ]

  retains-accepted :
      (selected : ModelOptionValues) (e : Bytes × ModelOptionValue)
      → retains definitions selected e ≡ accepted selected e
  unfolding retains
  retains-accepted selected (id, value) = elim (Option-cases (by_id definitions id)) [
    | inl e ↦ ground (arith, e)
    | inr (d, e) ↦ elim (Option-cases (value_error d value)) [
      | inl v ↦ ground (arith, e, v)
      | inr (message, v) ↦ ground (arith, e, v)
    ]
  ]

  all-accepted :
      (selected values : ModelOptionValues)
      → all (retains definitions selected) values ≡ true
      → all (accepted selected) values ≡ true
  all-accepted selected [] h = refl
  all-accepted selected (e ∷ values) h =
      let here : retains definitions selected e ≡ true = ground (arith, h) in
      let rest : all (retains definitions selected) values ≡ true = ground (arith, h) in
      let a : accepted selected e ≡ true = sym (retains-accepted selected e) ∙ here in
      rw (a, all-accepted selected values rest) refl

  -- Every value is accepted by its option, which is active under the values.
  abbrev pub Consistent : ModelOptionValues → Type 0
  Consistent sub =
      (id : Bytes) (v : ModelOptionValue) → get id sub ≡ some v → accepted sub (id, v) ≡ true

  -- The result is a part of the values, consistent, and includes every consistent part.
  pub record Reconciled (values result : ModelOptionValues) : Type 0 where
    pub chosen : Bytes × ModelOptionValue → Bool
    pub part : result ≡ filter chosen values
    pub settled : all (accepted result) result ≡ true
    pub greatest :
        (sub : ModelOptionValues) → Consistent sub → Included sub values → Included sub result

  holds_mono :
      (wanted : ModelOptionValue) (id : Bytes) (sub values : ModelOptionValues)
      → Included sub values
      → holds wanted (get id sub) ≡ true
      → holds wanted (get id values) ≡ true
  holds_mono wanted id sub values h a = elim (Option-cases (get id sub)) [
    | inl e ↦ ground (arith, a, e)
    | inr (v, e) ↦ let b = h id v e in ground (arith, a, e, b)
  ]

  is_active_mono :
      (d : ModelOptionDefinition) (sub values : ModelOptionValues)
      → Included sub values
      → is_active d sub ≡ true
      → is_active d values ≡ true
  unfolding is_active
  is_active_mono d sub values h a = go d.active_when refl
    where
      go : (w : Option ModelOptionCondition) → d.active_when ≡ w → is_active d values ≡ true
      go none e = rw (e, is_active) refl
      go (some c) e =
          let b : holds c.value (get c.option sub) ≡ true = ground (arith, a, e) in
          rw (e, is_active) (holds_mono c.value c.option sub values h b)

  retains_mono :
      (sub values : ModelOptionValues) (id : Bytes) (v : ModelOptionValue)
      → Included sub values
      → retains definitions sub (id, v) ≡ true
      → retains definitions values (id, v) ≡ true
  unfolding retains
  retains_mono sub values id v h a = elim (Option-cases (by_id definitions id)) [
    | inl e ↦ ground (arith, a, e)
    | inr (d, e) ↦
        let active : is_active d sub ≡ true = ground (arith, a, e) in
        let b = is_active_mono d sub values h active in ground (arith, a, e, b)
  ]

  get-filter :
      (p : Bytes × ModelOptionValue → Bool) (values : ModelOptionValues) (id : Bytes)
      {v : ModelOptionValue}
      → p (id, v) ≡ true
      → get id values ≡ some v
      → get id (filter p values) ≡ some v
  get-filter p [] id a h = h
  get-filter p ((key, value) ∷ values) id {v} a h = elim (Bool-cases (bytes_eq key id)) [
    | inl e ↦
        let same : key ≡ id = (bytes_eq_iff key id).0 e in
        let here : value ≡ v = ground (arith, h, e) in
        let kept : p (key, value) ≡ true = rw (same, here) a in rw (kept, e) (ap some here)
    | inr e ↦
        let rest : get id values ≡ some v = ground (arith, h, e) in
        let ih = get-filter p values id a rest in
        elim (Bool-cases (p (key, value))) [ inl k ↦ rw (k, e) ih | inr k ↦ rw k ih ]
  ]

  -- A round of the loop keeps every consistent part of the values.
  Included-filter :
      (sub values : ModelOptionValues)
      → Consistent sub
      → Included sub values
      → Included sub (filter (retains definitions values) values)
  Included-filter sub values c h id v e =
      get-filter (retains definitions values) values id
        (retains_mono sub values id v h (retains-accepted sub (id, v) ∙ c id v e)) (h id v e)

  -- With a bound above the number of values, the loop ends with the greatest part of the values that
  -- is consistent: what it keeps are some of the values, in their order, each is accepted by an
  -- active option, and every consistent part of the values is kept whole.
  pub reconcile_model_option_values-Reconciled :
      (fuel : ℕ) (values : ModelOptionValues)
      → length values < fuel
      → (result : ModelOptionValues) × (reconcile_model_option_values fuel definitions values
          ≡ some result)
        × Reconciled values result
  unfolding reconcile_model_option_values
  reconcile_model_option_values-Reconciled zero values h = ground (arith, h)
  reconcile_model_option_values-Reconciled (suc fuel) values h =
      let kept = filter (retains definitions values) values in
      let le = length-filter-le (retains definitions values) values in
      elim (Bool-cases (length kept == length values)) [
        | inl e ↦
            let full =
              filter-all (retains definitions values) values
                ((==_iff (length kept) (length values)).0 e) in
            let same : kept ≡ values = filter-id (retains definitions values) values full in
            (
              values,
              rw e (ap some same),
              record {
                chosen = λ e. true;
                part = sym (filter-all_true values);
                settled = all-accepted values values full;
                greatest = λ sub c i. i;
              },
            )
        | inr e ↦
            let fewer : length kept < fuel = ground (arith, h, e, le) in
            let r = reconcile_model_option_values-Reconciled fuel kept fewer in
            (
              r.0,
              rw e (r.1),
              record {
                chosen = λ e. retains definitions values e && r.2.chosen e;
                part = r.2.part ∙ filter-filter r.2.chosen (retains definitions values) values;
                settled = r.2.settled;
                greatest = λ sub c i. r.2.greatest sub c (Included-filter sub values c i);
              },
            )
      ]

  value_errors-settled :
      (values rest : ModelOptionValues)
      → all (accepted values) rest ≡ true
      → value_errors definitions values rest ≡ []
  unfolding value_errors
  value_errors-settled values [] h = refl
  value_errors-settled values ((id, v) ∷ rest) h =
      let ih = value_errors-settled values rest (ground (arith, h)) in
      elim (Option-cases (by_id definitions id)) [
        | inl e ↦ ground (arith, h, e, ih)
        | inr (d, e) ↦ ground (arith, h, e, ih)
      ]

-- Where no id is blank, the validation of values finds nothing to report on what the loop keeps.
pub value_errors-reconcile :
    (definitions : List ModelOptionDefinition) (fuel : ℕ) (values : ModelOptionValues)
    {result : ModelOptionValues}
    → all (λ d. not (is_blank d.id)) definitions ≡ true
    → length values < fuel
    → reconcile_model_option_values fuel definitions values ≡ some result
    → value_errors (named definitions) result result ≡ []
value_errors-reconcile definitions fuel values {result} n h e =
    let r = reconcile_model_option_values-Reconciled definitions fuel values h in
    let f : some (r.0) ≡ some result = sym (r.1) ∙ e in
    let same : r.0 ≡ result = cc in
    let all_named : named definitions ≡ definitions =
      filter-id (λ d. not (is_blank d.id)) definitions n in
    rw all_named (
      subst (λ l. value_errors definitions l l ≡ []) same
        (value_errors-settled definitions (r.0) (r.0) r.2.settled))
