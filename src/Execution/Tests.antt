-- ===== src/Execution/Tests.antt =====
-- Runs of the capability policy, and instances of its theorems.
use kraai.Base.{◌≢◌, ◌↔◌, inl, any, filter, ◌≡◌, refl, true, [], ◌∷◌}
use kraai.Execution.Capability.{
  SandboxCapabilities, workspace_read, host_read, workspace_write, host_write, network, contains,
  new, iter, is_unsandboxed,
}
use kraai.Execution.Entails.{entails, contains-new, contains-new-iter}
use kraai.Execution.Verdicts.{
  is_deny, is_prompt, Justified, resolve-denied, resolve-prompted, resolve_no_escalation,
  resolve_covers,
}
use kraai.Execution.Policy.{
  CapabilityPermissionRules, ResolvedPermissions, deny, prompt, allow, new_rules, resolve, denied,
  prompted, allowed, requested_additions, merge_capabilities, rule_for, judge_all,
}

host_write_closure :
    iter (new (host_write ∷ [])) ≡ workspace_read ∷ host_read ∷ workspace_write ∷ host_write ∷ []
unfolding iter new
host_write_closure = refl

denial_precedes_prompt :
    resolve
      (new (workspace_read ∷ []))
      (new (workspace_write ∷ network ∷ []))
      (new_rules ((workspace_write, prompt) ∷ (network, deny) ∷ []))
      allow
    ≡ denied (network ∷ [])
unfolding resolve new new_rules requested_additions iter contains is_unsandboxed judge_all rule_for
    merge_capabilities
denial_precedes_prompt = refl

abbrev reader : SandboxCapabilities
reader = new (workspace_read ∷ [])

abbrev writer : SandboxCapabilities
writer = new (host_write ∷ [])

abbrev lenient : CapabilityPermissionRules
lenient = new_rules ((network, deny) ∷ (workspace_write, prompt) ∷ [])

contains-new_example :
    contains (new (host_write ∷ [])) host_read ≡ any (λ x. entails x host_read) (host_write ∷ [])
contains-new_example = contains-new (host_write ∷ []) host_read

contains-new-iter_example :
    contains (new (iter (new (host_write ∷ [])))) network ≡ contains (new (host_write ∷ [])) network
contains-new-iter_example = contains-new-iter (host_write ∷ []) network

resolve-denied_example :
    (resolve reader (new (network ∷ [])) lenient allow ≡ denied (network ∷ [])) ↔ (
      (network ∷ []
        ≡ filter
            (λ c. is_deny (rule_for lenient allow c))
            (requested_additions reader (new (network ∷ []))))
      × (network ∷ [] ≢ []))
resolve-denied_example = resolve-denied reader (new (network ∷ [])) lenient allow (network ∷ [])

resolve-prompted_example :
    ((p : ResolvedPermissions) × (resolve reader writer lenient allow ≡ prompted p)) ↔ (
      (filter (λ c. is_deny (rule_for lenient allow c)) (requested_additions reader writer) ≡ [])
      × (any (λ c. is_prompt (rule_for lenient allow c)) (requested_additions reader writer)
          ≡ true))
resolve-prompted_example = resolve-prompted reader writer lenient allow

abbrev given : ResolvedPermissions
given = record {
  effective = merge_capabilities reader writer;
  additions = requested_additions reader writer;
}

host_write_is_allowed : resolve reader writer (new_rules []) allow ≡ allowed given
unfolding resolve new new_rules requested_additions iter contains is_unsandboxed judge_all rule_for
host_write_is_allowed = refl

resolve_no_escalation_example : Justified reader (rule_for (new_rules []) allow) host_read
resolve_no_escalation_example =
    resolve_no_escalation reader writer (new_rules []) allow given host_read host_write_is_allowed
      (unfold merge_capabilities new iter contains in refl)

resolve_covers_example : contains (merge_capabilities reader writer) host_write ≡ true
resolve_covers_example =
    resolve_covers reader writer (new_rules []) allow given host_write (inl host_write_is_allowed)
      (unfold new contains in refl)
