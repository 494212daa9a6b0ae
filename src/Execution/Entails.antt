-- ===== src/Execution/Entails.antt =====
-- What a capability grants, described apart from the code of permissions.rs, and the sets that
-- `new` builds in these terms.
use kraai.Base.{◌≡◌, refl, Bool, true, false, ◌&&◌, ◌||◌, List, [], ◌∷◌, any, any-filter, arith}
use kraai.Execution.Capability.{
  SandboxCapability, workspace_read, host_read, workspace_write, host_write, no_sandbox,
  SandboxCapabilities, every_capability, cap_eq, empty, insert, extend, close, new, contains, iter,
}

-- `entails x c`: holding `x` is enough to do what `c` allows.
abbrev pub entails : SandboxCapability → SandboxCapability → Bool
entails no_sandbox c = true
entails host_write host_read = true
entails host_write workspace_write = true
entails host_write workspace_read = true
entails workspace_write workspace_read = true
entails host_read workspace_read = true
entails x c = cap_eq x c

-- Some member of the set entails `c`.
unfoldable pub granted : SandboxCapabilities → SandboxCapability → Bool
granted s c = any (λ x. s x && entails x c) every_capability

pub contains-close :
    (s : SandboxCapabilities) (c : SandboxCapability) → contains (close s) c ≡ granted s c
unfolding contains close granted
contains-close s workspace_read = ground arith
contains-close s _ = ground arith

extend_lem :
    (s : SandboxCapabilities) (xs : List SandboxCapability) (c : SandboxCapability)
    → extend s xs c ≡ any (λ x. cap_eq x c) xs || s c
unfolding extend
extend_lem s [] c = refl
extend_lem s (x ∷ xs) c = ground (arith, extend_lem (insert s x) xs c)

granted-insert :
    (s : SandboxCapabilities) (x c : SandboxCapability)
    → granted (insert s x) c ≡ entails x c || granted s c
unfolding insert granted
granted-insert s workspace_read c = ground arith
granted-insert s _ c = ground arith

granted-extend :
    (s : SandboxCapabilities) (xs : List SandboxCapability) (c : SandboxCapability)
    → granted (extend s xs) c ≡ any (λ x. entails x c) xs || granted s c
unfolding extend
granted-extend s [] c = refl
granted-extend s (x ∷ xs) c = ground (arith, granted-extend (insert s x) xs c, granted-insert s x c)

granted-empty : (c : SandboxCapability) → granted empty c ≡ false
unfolding granted
granted-empty c = refl

-- A set that `new` builds contains `c` exactly if a listed capability entails `c`.
pub contains-new :
    (xs : List SandboxCapability) (c : SandboxCapability)
    → contains (new xs) c ≡ any (λ x. entails x c) xs
unfolding new
contains-new xs c =
    ground (arith, contains-close (extend empty xs) c, granted-extend empty xs c, granted-empty c)

pub any-iter :
    (s : SandboxCapabilities) (c : SandboxCapability)
    → any (λ x. entails x c) (iter s) ≡ granted s c
unfolding iter granted
any-iter s c = any-filter (λ x. entails x c) s every_capability

-- What a set contains by the code's test, it grants.
pub granted_of_contains :
    (s : SandboxCapabilities) (c : SandboxCapability) → contains s c ≡ true → granted s c ≡ true
unfolding contains granted
granted_of_contains s workspace_read h = ground arith
granted_of_contains s _ h = ground arith

pub entails_refl : (c : SandboxCapability) → entails c c ≡ true
entails_refl workspace_read = refl
entails_refl _ = refl

granted-close :
    (s : SandboxCapabilities) (c : SandboxCapability) → granted (close s) c ≡ granted s c
unfolding close granted
granted-close s workspace_read = ground arith
granted-close s _ = ground arith

-- Building a set again from its own members changes nothing that it contains.
pub contains-new-iter :
    (xs : List SandboxCapability) (c : SandboxCapability)
    → contains (new (iter (new xs))) c ≡ contains (new xs) c
unfolding new
contains-new-iter xs c = ground (
  arith,
  contains-new (iter (new xs)) c,
  any-iter (new xs) c,
  granted-close (extend empty xs) c,
  contains-close (extend empty xs) c,
)
