-- ===== src/Session/Permission.antt =====
-- Which scripts a session runs, for crates/kraai-runtime/src/runtime/session: those that the policy
-- allows, and those that it puts to the user and the user approves.
use kraai.Base.{
  ℕ, Bool, true, false, not, ◌&&◌, ◌||◌, List, [], ◌∷◌, ◌++◌, Option, none, some, if◌then◌else◌,
  ◌==◌, ltb, ◌+◌, length, is_empty, map, any, ◌≡◌, refl, arith, ◌∙◌, sym, ap, Bool-cases, inl, inr,
  ◌⊎◌,
}
use kraai.Base.Utf8.{Bytes, bytes_eq}
use kraai.Base.Literals.{utf8}
use kraai.Base.Integers.{ℤ}
use kraai.Base.Results.{Result, ok, err}
use kraai.Session.Errors.{
  RuntimeError, RuntimeResult, invalid_argument, not_found, conflict, unavailable, internal,
  failure,
}
use kraai.Session.Runtime.{
  Runtime, ModelSelection, QueuedMessage, QueuedEntry, StreamedItem, Observed,
}
use kraai.Session.Steady.{
  Calm, Steady, Keeps, waiting, holds_script, origin_waiters, IsDecided, Keeps-bind, Keeps-pure,
  Keeps-gets, Keeps-ask, Keeps-call, Keeps-run, Keeps-event, Keeps-cancel_token, Keeps-idle,
  Keeps-take_state, Keeps-generation, Keeps-if, Keeps-when, Keeps-bind_result, Keeps-bind_option,
  Keeps-attempt, cancel_waiters,
}
use kraai.Types.Conversation.{ScriptExecutionStatus}
use kraai.Session.Scripting.{
  EffectiveScriptRequest, PendingScriptApproval, CompletedScriptExecution,
}
use kraai.Session.Messages.{
  Responder, SessionMessage, send, cancel, approve, deny, pending_script, snapshot, set_mcp_servers,
  undo, delete, stop, prepared, stream, stream_ended, script_ended, TurnState, idle, preparing,
  streaming, awaiting_approval, running_script, StreamJob, StreamEvent, StreamDriveResult,
  CancelRequest, Preparation, spawn_script, Effect,
}
use kraai.Session.Actor.{
  Actor, Act, pure, gets, call, ask, run, emit, set_state, take_state, ◌>>=◌, ◌>>◌, attempt, when,
  reply, send_event, cancel_job, is_idle, generation,
}
use kraai.Session.Scripts.{start_prepared_script, ScriptDecision, decide, resolve_request}
use kraai.Session.Approvals.{
  extend, take_from, take_pending_script, pending_script_info, approve_script, deny_script,
  cancel_running_in, cancel_running_script, script_ended_in,
}
use kraai.Session.Approvals
use kraai.Session.Cancel.{
  cancel_request, merge, answer_option, discard_queue, cancel_idle, cancel_turn, cancel_session,
}
use kraai.Session.Deletion.{
  delete_now, defer, script_active, delete_in, delete_session, replace_servers, change_servers,
}
use kraai.Session.Prepared.{preparation_ended}
use kraai.Session.Stream.{stream_event, stream_event_in, stream_ended_in}
use kraai.Session.Stream
use kraai.Session.Run.{mark_stopping, cancel_child, stop_actor, take_snapshot, handle}
use kraai.Session.Steady.Turns.{finish_turn-Keeps, drain-Keeps, release_turn-Keeps}
use kraai.Session.Steady.Decisions.{end_pending_script-Keeps, script_ended_with-Keeps}
use kraai.Session.Steady.Streams.{stream_event_of-Keeps, stream_ended_with-Keeps}
use kraai.Execution.Policy.{PermissionResolution, ResolvedPermissions, denied, prompted, allowed}
use kraai.Session.Scripts
use kraai.Session.Blocks.{Prepared}
use kraai.Execution.Capability.{SandboxCapability, SandboxCapabilities}
pub mod Streams
pub mod Handlers
pub mod Submissions
pub mod Deletions
pub mod Requests
pub mod Loop

-- The policy's decision on what a script asks for, and the capabilities it is to have.
abbrev pub resolution : EffectiveScriptRequest → PermissionResolution
resolution q = resolve_request q.profile q.requested_capabilities

unfoldable pub IsAllowed : EffectiveScriptRequest → Type 0
IsAllowed q =
    (c : ResolvedPermissions) × (resolution q ≡ allowed c)
    × (q.effective_capabilities ≡ c.effective)

unfoldable pub IsPrompted : EffectiveScriptRequest → Type 0
IsPrompted q =
    (c : ResolvedPermissions) × (resolution q ≡ prompted c)
    × (q.effective_capabilities ≡ c.effective)

-- `approved` tells the executions that the user has approved.
unfoldable pub IsGranted : (Bytes → Bool) → EffectiveScriptRequest → Type 0
unfolding IsAllowed IsPrompted
IsGranted approved q = IsAllowed q ⊎ (IsPrompted q × (approved q.id ≡ true))

-- Every script that the log starts.
unfoldable pub AreGranted : (Bytes → Bool) → List Effect → Type 0
unfolding IsGranted
AreGranted approved [] = Unit {0}
AreGranted approved (spawn_script g q ∷ log) = IsGranted approved q × AreGranted approved log
AreGranted approved (_ ∷ log) = AreGranted approved log

unfoldable pub IsPending : TurnState → Type 0
unfolding IsPrompted
IsPending (awaiting_approval p) = IsPrompted p.request
IsPending _ = Unit {0}

-- Whether a message approves an execution.
unfoldable pub approves : List SessionMessage → Bytes → Bool
approves [] x = false
approves (approve id r ∷ ms) x = bytes_eq x id || approves ms x
approves (_ ∷ ms) x = approves ms x

-- The decision of a request that is prepared is that of its resolution.
prompted_of :
    (own : SandboxCapabilities) (res : PermissionResolution) (eff : SandboxCapabilities)
    (adds : List SandboxCapability) (d : ScriptDecision)
    → (eff, adds, d) ≡ decide own res
    → d ≡ Scripts.prompt
    → (c : ResolvedPermissions) × (res ≡ prompted c) × (eff ≡ c.effective)
unfolding decide
prompted_of own (denied x) eff adds d h e = absurd (cc (ap (λ t. t.2) h, e))
prompted_of own (allowed c) eff adds d h e = absurd (cc (ap (λ t. t.2) h, e))
prompted_of own (prompted c) eff adds d h e = (c, refl, ap (λ t. t.0) h)

allowed_of :
    (own : SandboxCapabilities) (res : PermissionResolution) (eff : SandboxCapabilities)
    (adds : List SandboxCapability) (d : ScriptDecision)
    → (eff, adds, d) ≡ decide own res
    → d ≡ Scripts.allow
    → (c : ResolvedPermissions) × (res ≡ allowed c) × (eff ≡ c.effective)
unfolding decide
allowed_of own (denied x) eff adds d h e = absurd (cc (ap (λ t. t.2) h, e))
allowed_of own (prompted c) eff adds d h e = absurd (cc (ap (λ t. t.2) h, e))
allowed_of own (allowed c) eff adds d h e = (c, refl, ap (λ t. t.0) h)

pub IsPending-free : (s : TurnState) → holds_script s ≡ false → IsPending s
unfolding IsPending holds_script
IsPending-free idle e = tt
IsPending-free (preparing p) e = tt
IsPending-free (streaming j) e = tt
IsPending-free (awaiting_approval p) e = absurd (cc e)
IsPending-free (running_script j) e = absurd (cc e)

module _ {W : Type 0} (approved : Bytes → Bool) where
  pub record IsPermitted (a : Actor W) : Type 0 where
    pub granted : AreGranted approved a.log
    pub pending_ : IsPending a.state
    pub deferred_ : (x : Bytes) → approves a.deferred x ≡ true → approved x ≡ true

  abbrev pub Permits : Actor W → Actor W → Type 0
  Permits a b = IsPermitted a → IsPermitted b

  pub Permits-Calm : Calm Permits
  unfolding AreGranted
  Permits-Calm = record {
    rest = λ a h. h;
    then_ = λ p q h. q (p h);
    world_ =
        λ a w h. record { granted = h.granted; pending_ = h.pending_; deferred_ = h.deferred_ };
    number =
        λ a g h. record { granted = h.granted; pending_ = h.pending_; deferred_ = h.deferred_ };
    tell = λ a e h. record { granted = h.granted; pending_ = h.pending_; deferred_ = h.deferred_ };
    cancels =
        λ a g h. record { granted = h.granted; pending_ = h.pending_; deferred_ = h.deferred_ };
  }

  pub Permits-Steady : Steady Permits
  unfolding AreGranted IsGranted IsPending
  Permits-Steady = record {
    calm = Permits-Calm;
    prepares =
        λ a g q h. record { granted = h.granted; pending_ = h.pending_; deferred_ = h.deferred_ };
    streams =
        λ a g q h. record { granted = h.granted; pending_ = h.pending_; deferred_ = h.deferred_ };
    turns = λ a s w n h. record {
      granted = h.granted;
      pending_ = IsPending-free s n;
      deferred_ = h.deferred_;
    };
    awaits = λ a p d e h. record {
      granted = h.granted;
      pending_ = prompted_of _ _ _ p.additions p.decision d e;
      deferred_ = h.deferred_;
    };
    begins = λ a p g d e h. record {
      granted = (inl (allowed_of _ _ _ p.additions p.decision d e), h.granted);
      pending_ = tt;
      deferred_ = h.deferred_;
    };
  }
