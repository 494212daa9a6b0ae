-- ===== src/Types/Options/Tests.antt =====
-- Runs of the validation of options, and instances of its theorems.
use kraai.Base.{
  ℕ, suc, ◌<◌, Bool, true, false, ◌≡◌, refl, List, [], ◌∷◌, Option, none, some, length, arith,
}
use kraai.Base.Results.{ok}
use kraai.Base.Utf8.{Bytes}
use kraai.Types.Options.{
  ModelOptionValue, choice, boolean, ModelOptionValues, ModelRequestPatch, ModelOptionDefinition,
  choices, switch, by_id,
}
use kraai.Types.Options.Reconcile.{reconcile_model_option_values}
use kraai.Types.Options.Validation.{named, value_errors, validate_model_option_values}
use kraai.Types.Options.Fixpoint.{
  Reconciled, reconcile_model_option_values-Reconciled, value_errors-reconcile,
}
use kraai.Types.Options.Cycles.{returns, validate_model_option_values-returns, reconcile-validate}

abbrev no_patch : ModelRequestPatch
no_patch = record { body = []; headers = [] }

-- An option `m` with the choice `a`, a switch `b` under it and a switch `c` under that.
abbrev options : List ModelOptionDefinition
options =
    record {
      id = 109 ∷ [];
      label = [];
      description = none;
      required = false;
      active_when = none;
      binding = none;
      kind = choices (record { id = 97 ∷ []; label = []; patch = no_patch } ∷ []);
    }
    ∷ record {
      id = 98 ∷ [];
      label = [];
      description = none;
      required = false;
      active_when = some (record { option = 109 ∷ []; value = choice (97 ∷ []) });
      binding = none;
      kind = switch no_patch no_patch;
    }
    ∷ record {
      id = 99 ∷ [];
      label = [];
      description = none;
      required = false;
      active_when = some (record { option = 98 ∷ []; value = boolean true });
      binding = none;
      kind = switch no_patch no_patch;
    }
    ∷ []

-- The choice is unknown, so that the two switches are dropped one round after the other.
abbrev stale : ModelOptionValues
stale = (98 ∷ [], boolean true) ∷ (99 ∷ [], boolean true) ∷ (109 ∷ [], choice (120 ∷ [])) ∷ []

abbrev fresh : ModelOptionValues
fresh = (98 ∷ [], boolean true) ∷ (109 ∷ [], choice (97 ∷ [])) ∷ []

drops_what_depends_on_an_unknown_choice : reconcile_model_option_values 4 options stale ≡ some []
unfolding reconcile_model_option_values by_id kraai.Base.Utf8.bytes_eq
    kraai.Types.Options.value_error kraai.Types.Options.is_active kraai.Types.Options.value_eq
drops_what_depends_on_an_unknown_choice = refl

accepts_what_is_active : validate_model_option_values 4 options fresh true ≡ some (ok tt)
unfolding validate_model_option_values by_id kraai.Base.Utf8.trim_start kraai.Base.Utf8.bytes_eq
    kraai.Types.Options.value_error kraai.Types.Options.is_active kraai.Types.Options.value_eq
accepts_what_is_active = refl

reconcile_model_option_values-Reconciled_example :
    (result : ModelOptionValues) × (reconcile_model_option_values 4 options stale ≡ some result)
    × Reconciled options stale result
reconcile_model_option_values-Reconciled_example =
    reconcile_model_option_values-Reconciled options 4 stale (omega arith)

value_errors-reconcile_example : value_errors (named options) ([]) ([]) ≡ []
unfolding reconcile_model_option_values kraai.Base.Utf8.trim_start by_id kraai.Base.Utf8.bytes_eq
    kraai.Types.Options.value_error kraai.Types.Options.is_active kraai.Types.Options.value_eq
value_errors-reconcile_example = value_errors-reconcile options 4 stale refl (omega arith) refl

validate_model_option_values-returns_example :
    returns (validate_model_option_values 4 options stale true) ≡ true
validate_model_option_values-returns_example =
    validate_model_option_values-returns 4 options stale true (omega arith)

reconcile-validate_example : reconcile_model_option_values 1 options fresh ≡ some fresh
unfolding validate_model_option_values by_id kraai.Base.Utf8.trim_start kraai.Base.Utf8.bytes_eq
    kraai.Types.Options.value_error kraai.Types.Options.is_active kraai.Types.Options.value_eq
reconcile-validate_example = reconcile-validate 4 options fresh true 0 refl
