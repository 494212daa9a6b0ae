-- ===== src/Execution/Verdicts.antt =====
-- What a resolution of policy.rs tells of the request: how the loop over the additions ends, when
-- each answer is given, and that no capability is gained which the policy does not allow.
use kraai.Base.{
  ◌≡◌, refl, sym, ◌∙◌, ◌≢◌, ◌↔◌, ◌⊎◌, inl, inr, Bool, true, false, not, ◌&&◌, ◌||◌, List, [], ◌∷◌,
  ◌++◌, append_assoc, append-nil, filter, any, all, is_empty, any-append, all-filter, Bool-cases,
  arith,
}
use kraai.Execution.Capability.{
  SandboxCapability, workspace_read, no_sandbox, SandboxCapabilities, every_capability, contains,
  is_unsandboxed, iter,
}
use kraai.Execution.Entails.{entails, granted, contains-new, any-iter, granted_of_contains}
use kraai.Execution.Policy.{
  EscalationPolicy, deny, prompt, allow, CapabilityPermissionRules, rule_for, ResolvedPermissions,
  denied, prompted, allowed, requested_additions, merge_capabilities, judge_all, resolve,
}

abbrev pub is_deny : EscalationPolicy → Bool
is_deny deny = true
is_deny _ = false

abbrev pub is_prompt : EscalationPolicy → Bool
is_prompt prompt = true
is_prompt _ = false

abbrev pub is_allow : EscalationPolicy → Bool
is_allow allow = true
is_allow _ = false

judge_all_lem :
    (rule : SandboxCapability → EscalationPolicy) (cs refused : List SandboxCapability) (ask : Bool)
    → judge_all rule cs (refused, ask)
      ≡ (refused ++ filter (λ c. is_deny (rule c)) cs, ask || any (λ c. is_prompt (rule c)) cs)
unfolding judge_all
judge_all_lem rule [] refused ask = ground (arith, append-nil refused)
judge_all_lem rule (c ∷ cs) refused ask = ground (
  arith,
  judge_all_lem rule cs (refused ++ c ∷ []) ask,
  judge_all_lem rule cs refused true,
  judge_all_lem rule cs refused ask,
  append_assoc refused (c ∷ []) (filter (λ c. is_deny (rule c)) cs),
)

-- With none denied and none to prompt for, all are allowed.
all_allowed :
    (rule : SandboxCapability → EscalationPolicy) (cs : List SandboxCapability)
    → filter (λ c. is_deny (rule c)) cs ≡ []
    → any (λ c. is_prompt (rule c)) cs ≡ false
    → all (λ c. is_allow (rule c)) cs ≡ true
all_allowed rule [] h k = refl
all_allowed rule (c ∷ cs) h k = ground (arith, all_allowed rule cs)

any_witness {ℓ} :
    {A : Type ℓ} (p : A → Bool) (xs : List A) → any p xs ≡ true → (x : A) × (p x ≡ true)
any_witness p [] h = cc
any_witness p (x ∷ xs) h = elim (Bool-cases (p x)) [
  | inl e ↦ (x, e)
  | inr e ↦ any_witness p xs (ground arith)
]

and_split : (a b : Bool) → a && b ≡ true → (a ≡ true) × (b ≡ true)
and_split a b h = ground arith

or_split : (a b : Bool) → a || b ≡ true → (a ≡ true) ⊎ (b ≡ true)
or_split a b h = ground arith

all_every :
    (q : SandboxCapability → Bool) (c : SandboxCapability)
    → all q every_capability ≡ true
    → q c ≡ true
all_every q workspace_read h = ground arith
all_every q _ h = ground arith

unsandboxed_contains :
    (s : SandboxCapabilities) (c : SandboxCapability)
    → contains s no_sandbox ≡ true
    → contains s c ≡ true
unfolding contains
unsandboxed_contains s c h = ground arith

all-iter :
    (q f : SandboxCapability → Bool) (s : SandboxCapabilities) (x : SandboxCapability)
    → all q (filter f (iter s)) ≡ true
    → s x ≡ true
    → f x ≡ true
    → q x ≡ true
unfolding iter
all-iter q f s x h r e =
    let flat =
      all_every (λ y. not (s y) || (not (f y) || q y)) x
        (sym (all-filter q f (iter s) ∙ all-filter (λ y. not (f y) || q y) s every_capability)
          ∙ h) in
    ground arith

granted_through :
    (s : SandboxCapabilities) (x c : SandboxCapability)
    → contains s x ≡ true
    → entails x c ≡ true
    → granted s c ≡ true
unfolding contains granted
granted_through s workspace_read c h k = ground arith
granted_through s _ c h k = ground arith

contains-merge :
    (s t : SandboxCapabilities) (c : SandboxCapability)
    → contains (merge_capabilities s t) c ≡ granted s c || granted t c
unfolding merge_capabilities
contains-merge s t c = ground (
  arith,
  contains-new (iter s ++ iter t) c,
  any-append (λ x. entails x c) (iter s) (iter t),
  any-iter s c,
  any-iter t c,
)

-- Why a capability may be used: the defaults grant it, or an addition entails it whose rule, or
-- else the fallback, is to allow.
abbrev pub Justified :
    SandboxCapabilities → (SandboxCapability → EscalationPolicy) → SandboxCapability → Type 0
Justified defaults rule c =
    (granted defaults c ≡ true)
    ⊎ ((x : SandboxCapability) × (contains defaults x ≡ false)
        × (rule x ≡ allow)
        × (entails x c ≡ true))

allow_of_is_allow : (p : EscalationPolicy) → is_allow p ≡ true → p ≡ allow
allow_of_is_allow p h = ground arith

-- An addition of an allowed request is allowed, or the request is for no sandbox at all.
Justified-addition :
    (defaults requested : SandboxCapabilities) (rule : SandboxCapability → EscalationPolicy)
    (x c : SandboxCapability)
    → all (λ y. is_allow (rule y)) (requested_additions defaults requested) ≡ true
    → requested x ≡ true
    → contains defaults x ≡ false
    → entails x c ≡ true
    → Justified defaults rule c
unfolding requested_additions is_unsandboxed
Justified-addition defaults requested rule x c h r d e =
    elim (Bool-cases (is_unsandboxed requested && not (is_unsandboxed defaults))) [
      | inl bare ↦
          inr (no_sandbox, ground arith, allow_of_is_allow (rule no_sandbox) (ground arith), refl)
      | inr kept ↦
          let passed =
            all-iter (λ y. is_allow (rule y)) (λ y. not (contains defaults y)) requested x
              (ground arith) r (ground arith) in
          inr (x, d, allow_of_is_allow (rule x) passed, e)
    ]

-- No capability of an iterated set fails the test.
none_left :
    (f : SandboxCapability → Bool) (s : SandboxCapabilities) (x : SandboxCapability)
    → is_empty (filter f (iter s)) ≡ true
    → s x ≡ true
    → f x ≡ false
unfolding iter
none_left f s workspace_read h r = ground arith
none_left f s _ h r = ground arith

additions_empty :
    (defaults requested : SandboxCapabilities) (c : SandboxCapability)
    → is_empty (requested_additions defaults requested) ≡ true
    → contains requested c ≡ true
    → contains defaults c ≡ true
unfolding requested_additions is_unsandboxed
additions_empty defaults requested c h k = elim (Bool-cases (contains defaults no_sandbox)) [
  | inl bare ↦ unsandboxed_contains defaults c bare
  | inr boxed ↦
      let kept : contains requested no_sandbox ≡ false = ground arith in
      let member : requested c ≡ true = unfold contains in ground arith in
      let left = none_left (λ x. not (contains defaults x)) requested c (ground arith) member in
      ground arith
]

module _ (defaults requested : SandboxCapabilities) (rules : CapabilityPermissionRules)
    (fallback : EscalationPolicy) where
  abbrev rule : SandboxCapability → EscalationPolicy
  rule = rule_for rules fallback

  abbrev added : List SandboxCapability
  added = requested_additions defaults requested

  -- A request is denied exactly if the policy denies some of its additions, and then the answer
  -- names all of those, in order, and nothing else.
  pub resolve-denied :
      (cs : List SandboxCapability)
      → (resolve defaults requested rules fallback ≡ denied cs) ↔ (
          (cs
            ≡ filter
                (λ c. is_deny (rule_for rules fallback c))
                (requested_additions defaults requested))
          × (cs ≢ []))
  unfolding resolve
  resolve-denied cs = (
    λ h. ground (arith, judge_all_lem rule added [] false),
    λ h. ground (arith, judge_all_lem rule added [] false),
  )

  resolve_allowed_rules :
      (p : ResolvedPermissions)
      → resolve defaults requested rules fallback ≡ allowed p
      → all (λ c. is_allow (rule c)) added ≡ true
  unfolding resolve
  resolve_allowed_rules p h =
      ground (arith, judge_all_lem rule added [] false, all_allowed rule added)

  effective_of_allowed :
      (p : ResolvedPermissions)
      → resolve defaults requested rules fallback ≡ allowed p
      → (p.effective ≡ defaults) ⊎ (p.effective ≡ merge_capabilities defaults requested)
  unfolding resolve
  effective_of_allowed p h = ground arith

  -- Whatever an addition is needed for, its rule allows it.
  Justified-request :
      (p : ResolvedPermissions) (c : SandboxCapability)
      → resolve defaults requested rules fallback ≡ allowed p
      → granted requested c ≡ true
      → Justified defaults (rule_for rules fallback) c
  unfolding granted
  Justified-request p c h k =
      let (x, e) = any_witness (λ x. requested x && entails x c) every_capability k in
      let member : requested x ≡ true = (and_split (requested x) (entails x c) e).0 in
      let reaches : entails x c ≡ true = (and_split (requested x) (entails x c) e).1 in
      elim (Bool-cases (contains defaults x)) [
        | inl held ↦ inl (granted_through defaults x c held reaches)
        | inr lacking ↦
            Justified-addition defaults requested rule x c (resolve_allowed_rules p h) member
              lacking reaches
      ]

  -- A request that is allowed without asking gives the script no capability but those that its
  -- defaults grant and those that an allowed addition entails. The sets are any sets at all.
  pub resolve_no_escalation :
      (p : ResolvedPermissions) (c : SandboxCapability)
      → resolve defaults requested rules fallback ≡ allowed p
      → contains p.effective c ≡ true
      → Justified defaults (rule_for rules fallback) c
  resolve_no_escalation p c h k = elim (effective_of_allowed p h) [
    | inl same ↦ inl (granted_of_contains defaults c (rw same at k))
    | inr merged ↦
        elim (or_split (granted defaults c) (granted requested c)
          (sym (contains-merge defaults requested c) ∙ (rw merged at k))) [
            | inl held ↦ inl held
            | inr wanted ↦ Justified-request p c h wanted
          ]
  ]

  -- The resolution offers the permissions `p`, at once or if the user agrees.
  abbrev pub Offers : ResolvedPermissions → Type 0
  Offers p =
      (resolve defaults requested rules fallback ≡ allowed p)
      ⊎ (resolve defaults requested rules fallback ≡ prompted p)

  effective_of_offer :
      (p : ResolvedPermissions)
      → Offers p
      → ((p.effective ≡ defaults) × (is_empty (requested_additions defaults requested) ≡ true))
        ⊎ (p.effective ≡ merge_capabilities defaults requested)
  unfolding resolve
  effective_of_offer p h = ground arith

  -- Permissions that are offered contain the defaults and all that was requested.
  pub resolve_covers :
      (p : ResolvedPermissions) (c : SandboxCapability)
      → Offers p
      → contains defaults c || contains requested c ≡ true
      → contains p.effective c ≡ true
  resolve_covers p c h k = elim (effective_of_offer p h) [
    | inl (same, nothing) ↦ rw same (ground (arith, additions_empty defaults requested c nothing))
    | inr merged ↦ rw merged (
        ground (
          arith,
          contains-merge defaults requested c,
          granted_of_contains defaults c,
          granted_of_contains requested c,
        ))
  ]

  -- The user is asked exactly if no addition is denied and some addition's rule is to prompt.
  pub resolve-prompted :
      let rule = rule_for rules fallback in
      let added = requested_additions defaults requested in
      ((p : ResolvedPermissions) × (resolve defaults requested rules fallback ≡ prompted p))
      ↔ ((filter (λ c. is_deny (rule c)) added ≡ []) × (any (λ c. is_prompt (rule c)) added ≡ true))
  unfolding resolve
  resolve-prompted = (
    λ asked. ground (arith, asked.1, judge_all_lem rule added [] false),
    λ h. (
      record { effective = merge_capabilities defaults requested; additions = added },
      ground (arith, judge_all_lem rule added [] false),
    ),
  )
