-- ===== src/Types/Options/Reconcile.antt =====
-- crates/kraai-types/src/model_options/validation.rs, `reconcile_model_option_values`.
use kraai.Base.{
  ℕ, zero, suc, Bool, true, false, ◌&&◌, List, Option, none, some, filter, length, ◌==◌,
  if◌then◌else◌,
}
use kraai.Base.Utf8.{Bytes}
use kraai.Types.Options.{
  ModelOptionValue, ModelOptionValues, ModelOptionDefinition, is_active, by_id, value_error,
}

abbrev pub is_valid : ModelOptionDefinition → ModelOptionValue → Bool
is_valid d value = elim (value_error d value) [ none ↦ true | some message ↦ false ]

-- The test of `retain`, on the values before it.
unfoldable pub retains :
    List ModelOptionDefinition → ModelOptionValues → Bytes × ModelOptionValue → Bool
retains definitions selected (id, value) = elim (by_id definitions id) [
  | none ↦ false
  | some d ↦ is_valid d value && is_active d selected
]

-- The loop, with a bound on its rounds; `none` where the bound is reached.
unfoldable pub reconcile_model_option_values :
    ℕ → List ModelOptionDefinition → ModelOptionValues → Option ModelOptionValues
unfolding retains
reconcile_model_option_values zero definitions values = none
reconcile_model_option_values (suc fuel) definitions values =
    let kept = filter (retains definitions values) values in
    let again = reconcile_model_option_values fuel definitions kept in
    if length kept == length values then some kept else again
