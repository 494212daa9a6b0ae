-- ===== src/Execution/Policy.antt =====
-- crates/kraai-execution-types/src/policy.rs: how a request for capabilities is decided.
use kraai.Base.{
  Bool, true, false, not, ◌&&◌, List, [], ◌∷◌, ◌++◌, Option, none, some, if◌then◌else◌, filter,
  is_empty,
}
use kraai.Execution.Capability.{
  SandboxCapability, no_sandbox, SandboxCapabilities, cap_eq, new, contains, is_unsandboxed, iter,
}

pub data EscalationPolicy : Type 0 where
  deny prompt allow : EscalationPolicy

-- `BTreeMap<SandboxCapability, EscalationPolicy>`.
abbrev pub CapabilityPermissionRules : Type 0
CapabilityPermissionRules = SandboxCapability → Option EscalationPolicy

set_rule :
    CapabilityPermissionRules → SandboxCapability → EscalationPolicy → CapabilityPermissionRules
set_rule rules c p d = if cap_eq c d then some p else rules d

collect_rules :
    CapabilityPermissionRules
    → List (SandboxCapability × EscalationPolicy)
    → CapabilityPermissionRules
unfolding set_rule
collect_rules rules [] = rules
collect_rules rules ((c, p) ∷ rest) = collect_rules (set_rule rules c p) rest

-- A later rule for a capability replaces an earlier one.
unfoldable pub new_rules : List (SandboxCapability × EscalationPolicy) → CapabilityPermissionRules
unfolding collect_rules
new_rules = collect_rules (λ _. none)

-- `rules.get(capability).unwrap_or(fallback)`.
unfoldable pub rule_for :
    CapabilityPermissionRules → EscalationPolicy → SandboxCapability → EscalationPolicy
rule_for rules fallback c = elim (rules c) [ some p ↦ p | none ↦ fallback ]

pub record ResolvedPermissions : Type 0 where
  pub effective : SandboxCapabilities
  pub additions : List SandboxCapability

pub data PermissionResolution : Type 0 where
  denied : List SandboxCapability → PermissionResolution
  prompted : ResolvedPermissions → PermissionResolution
  allowed : ResolvedPermissions → PermissionResolution

unfoldable pub requested_additions :
    SandboxCapabilities → SandboxCapabilities → List SandboxCapability
requested_additions defaults requested =
    if is_unsandboxed requested && not (is_unsandboxed defaults)
    then no_sandbox ∷ []
    else filter (λ c. not (contains defaults c)) (iter requested)

unfoldable pub merge_capabilities : SandboxCapabilities → SandboxCapabilities → SandboxCapabilities
merge_capabilities defaults requested = new (iter defaults ++ iter requested)

-- The state of the loop over the additions: the denied ones so far, and whether to prompt.
abbrev pub Verdict : Type 0
Verdict = List SandboxCapability × Bool

unfoldable pub judge : EscalationPolicy → SandboxCapability → Verdict → Verdict
judge deny c (refused, ask) = (refused ++ c ∷ [], ask)
judge prompt c (refused, ask) = (refused, true)
judge allow c (refused, ask) = (refused, ask)

unfoldable pub judge_all :
    (SandboxCapability → EscalationPolicy) → List SandboxCapability → Verdict → Verdict
unfolding judge
judge_all rule [] v = v
judge_all rule (c ∷ cs) v = judge_all rule cs (judge (rule c) c v)

-- What follows the loop.
unfoldable pub conclude : Verdict → ResolvedPermissions → PermissionResolution
conclude (c ∷ cs, ask) resolved = denied (c ∷ cs)
conclude ([], ask) resolved = if ask then prompted resolved else allowed resolved

-- `SandboxPermissionSet::resolve`; `defaults` is the set's one field.
unfoldable pub resolve :
    SandboxCapabilities
    → SandboxCapabilities
    → CapabilityPermissionRules
    → EscalationPolicy
    → PermissionResolution
unfolding conclude
resolve defaults requested rules fallback =
    let additions = requested_additions defaults requested in
    let verdict = judge_all (rule_for rules fallback) additions ([], false) in
    if is_empty additions
    then allowed (record { effective = defaults; additions = additions })
    else conclude verdict
        (record { effective = merge_capabilities defaults requested; additions = additions })
