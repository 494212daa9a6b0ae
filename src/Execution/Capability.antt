-- ===== src/Execution/Capability.antt =====
-- crates/kraai-execution-types/src/permissions.rs. A `BTreeSet` over the six capabilities is its
-- characteristic function; it is iterated in the order of the enum's declaration.
use kraai.Base.{Bool, true, false, ◌||◌, List, [], ◌∷◌, if◌then◌else◌, filter, String}

pub data SandboxCapability : Type 0 where
  workspace_read host_read workspace_write host_write network no_sandbox : SandboxCapability

abbrev pub cap_eq : SandboxCapability → SandboxCapability → Bool
cap_eq workspace_read workspace_read = true
cap_eq host_read host_read = true
cap_eq workspace_write workspace_write = true
cap_eq host_write host_write = true
cap_eq network network = true
cap_eq no_sandbox no_sandbox = true
cap_eq _ _ = false

abbrev pub every_capability : List SandboxCapability
every_capability =
    workspace_read ∷ host_read ∷ workspace_write ∷ host_write ∷ network ∷ no_sandbox ∷ []

abbrev pub SandboxCapabilities : Type 0
SandboxCapabilities = SandboxCapability → Bool

abbrev pub empty : SandboxCapabilities
empty c = false

unfoldable pub insert : SandboxCapabilities → SandboxCapability → SandboxCapabilities
insert s c d = cap_eq c d || s d

-- `BTreeSet::extend`, and `collect` from the empty set.
unfoldable pub extend : SandboxCapabilities → List SandboxCapability → SandboxCapabilities
unfolding insert
extend s [] = s
extend s (c ∷ cs) = extend (insert s c) cs

unfoldable pub default_workspace_read : SandboxCapabilities
unfolding extend
default_workspace_read = extend empty (workspace_read ∷ network ∷ [])

unfoldable pub default_workspace_write : SandboxCapabilities
unfolding extend
default_workspace_write = extend empty (workspace_read ∷ workspace_write ∷ network ∷ [])

-- The implied capabilities of a set, in the order in which `new` adds them.
unfoldable pub close : SandboxCapabilities → SandboxCapabilities
unfolding extend
close effective =
    let host =
      if effective host_write
      then extend effective (host_read ∷ workspace_write ∷ workspace_read ∷ [])
      else effective in
    let writable = if host workspace_write then insert host workspace_read else host in
    let readable = if writable host_read then insert writable workspace_read else writable in
    if effective no_sandbox then insert empty no_sandbox else readable

unfoldable pub new : List SandboxCapability → SandboxCapabilities
unfolding close
new capabilities = close (extend empty capabilities)

unfoldable pub contains : SandboxCapabilities → SandboxCapability → Bool
contains s c = s no_sandbox || s c

unfoldable pub is_unsandboxed : SandboxCapabilities → Bool
unfolding contains
is_unsandboxed s = contains s no_sandbox

unfoldable pub iter : SandboxCapabilities → List SandboxCapability
iter s = filter s every_capability

-- `SandboxCapability::as_str`.
unfoldable pub as_str : SandboxCapability → String
as_str workspace_read = "workspace-read"
as_str host_read = "host-read"
as_str workspace_write = "workspace-write"
as_str host_write = "host-write"
as_str network = "network"
as_str no_sandbox = "no-sandbox"
