-- ===== src/Session/Steady/Decisions.antt =====
-- crates/kraai-runtime/src/runtime/session/scripts.rs: the methods that decide on a script and those
-- that end one keep a steady relation.
use kraai.Base.{not, ◌||◌, List, Option, none, some, ◌≡◌, refl}
use kraai.Base.Utf8.{Bytes}
use kraai.Session.Errors.{RuntimeError, RuntimeResult}
use kraai.Session.Runtime.{Runtime}
use kraai.Session.Steady.{
  Steady, Keeps, IsDecided, Keeps-bind, Keeps-pure, Keeps-gets, Keeps-ask, Keeps-call, Keeps-event,
  Keeps-idle, Keeps-if, Keeps-bind_result, Keeps-attempt, Keeps-attempt_with, Yields, Yields-ok,
  Yields-bind, Yields-attempt,
}
use kraai.Types.Conversation.{ScriptExecutionStatus}
use kraai.Session.Scripting.{
  ScriptBlock, InvalidScriptBlock, PendingScriptApproval, CompletedScriptExecution,
}
use kraai.Session.Actor.{Actor, run, emit, set_state, ◌>>=◌, generation}
use kraai.Session.Scripts.{
  ScriptDecision, allow, deny, prompt, fail_script_turn, finish_prepared_execution, after_script,
  finalize_script_turn, host_failure, start_prepared_script, is_cancelled, is_host_unavailable,
}
use kraai.Session.Blocks.{
  Prepared, gather_roots, build_request, carry_by, prepare_or_execute_script, finish_invalid_script,
  process_call, complete_turn, process_completed_stream_output, no_call_id,
}
use kraai.Session.Approvals.{end_pending_script, script_ended_with}
use kraai.Session.Steady.Turns.{finish_turn-Keeps, continue_turn-Keeps, drain-Keeps}

module _ {W : Type 0} ⦃rt : Runtime W⦄ where
  -- The request that is built stands on the policy's decision.
  pub build_request-IsDecided :
      (m c : Bytes) (b : ScriptBlock) (ws : List Bytes)
      → Yields {W = W} IsDecided (build_request m c b ws)
  unfolding build_request
  build_request-IsDecided m c b ws = Yields-attempt _ λ turn.
      Yields-attempt _ λ roots. Yields-bind _ λ id. Yields-attempt _ λ environment. Yields-ok _ refl

module _ {W : Type 0} ⦃rt : Runtime W⦄ {R : Actor W → Actor W → Type 0} (s : Steady R) where
  pub fail_script_turn-Keeps : (e : RuntimeError) → Keeps R (fail_script_turn e)
  unfolding fail_script_turn
  fail_script_turn-Keeps e =
      Keeps-bind s.calm (finish_turn-Keeps s)
        λ _. Keeps-bind s.calm (drain-Keeps s) λ _. Keeps-event s.calm _

  pub finish_prepared_execution-Keeps :
      (id : Bytes) (status : ScriptExecutionStatus) (e : Option Bytes)
      → Keeps R (finish_prepared_execution id status e)
  unfolding finish_prepared_execution
  finish_prepared_execution-Keeps id status e =
      Keeps-attempt s.calm (Keeps-call s.calm _)
        λ r. Keeps-attempt s.calm (Keeps-call s.calm _) λ output. Keeps-pure s.calm _

  after_script-Keeps :
      (c : CompletedScriptExecution) (status : ScriptExecutionStatus)
      → Keeps R (after_script c status)
  unfolding after_script
  after_script-Keeps c status = Keeps-bind s.calm (Keeps-ask s.calm _) λ active.
      Keeps-bind s.calm (Keeps-idle s) λ _. Keeps-bind s.calm (Keeps-gets s.calm _) λ stopping.
        Keeps-if s.calm (is_host_unavailable status) (fail_script_turn-Keeps (host_failure c)) (
          Keeps-if s.calm (is_cancelled status || not active || stopping)
            (Keeps-bind s.calm (finish_turn-Keeps s) λ _. drain-Keeps s) (continue_turn-Keeps s))

  pub finalize_script_turn-Keeps : (c : CompletedScriptExecution) → Keeps R (finalize_script_turn c)
  unfolding finalize_script_turn
  finalize_script_turn-Keeps c = Keeps-attempt s.calm (Keeps-pure s.calm _) λ outcome.
      Keeps-attempt s.calm (Keeps-call s.calm _) λ result.
        Keeps-attempt s.calm (Keeps-call s.calm _) λ _.
          Keeps-bind s.calm (Keeps-event s.calm _)
            λ _. Keeps-bind s.calm (after_script-Keeps c outcome.status) λ _. Keeps-pure s.calm _

  pub end_pending_script-Keeps :
      (p : PendingScriptApproval) (status : ScriptExecutionStatus) (reason : Bytes)
      → Keeps R (end_pending_script p status reason)
  unfolding end_pending_script
  end_pending_script-Keeps p status reason =
      Keeps-bind_result s.calm
        (Keeps-attempt s.calm (finish_prepared_execution-Keeps _ _ _) finalize_script_turn-Keeps)
        (λ _. Keeps-pure s.calm _)
        (λ e. Keeps-bind s.calm (fail_script_turn-Keeps e) λ _. Keeps-pure s.calm _)

  pub script_ended_with-Keeps :
      (result : RuntimeResult CompletedScriptExecution) → Keeps R (script_ended_with result)
  unfolding script_ended_with
  script_ended_with-Keeps result =
      Keeps-bind_result s.calm
        (Keeps-attempt s.calm (Keeps-pure s.calm _) finalize_script_turn-Keeps)
        (λ _. Keeps-pure s.calm _) fail_script_turn-Keeps

  gather_roots-Keeps : (workspace : Bytes) → Keeps R (gather_roots workspace)
  unfolding gather_roots
  gather_roots-Keeps workspace = Keeps-attempt s.calm (Keeps-call s.calm _) λ skills.
      Keeps-bind s.calm (Keeps-ask s.calm _)
        λ configured. Keeps-attempt s.calm (Keeps-call s.calm _) λ output. Keeps-pure s.calm _

  build_request-Keeps :
      (m c : Bytes) (b : ScriptBlock) (ws : List Bytes) → Keeps R (build_request m c b ws)
  unfolding build_request
  build_request-Keeps m c b ws = Keeps-attempt s.calm (Keeps-call s.calm _) λ turn.
      Keeps-attempt s.calm (gather_roots-Keeps _) λ roots.
        Keeps-bind s.calm (Keeps-call s.calm _)
          λ id. Keeps-attempt s.calm (Keeps-pure s.calm _) λ environment. Keeps-pure s.calm _

  start-Keeps :
      (p : Prepared) → IsDecided p → p.decision ≡ allow → Keeps R (start_prepared_script p.request)
  unfolding start_prepared_script generation run ◌>>=◌ emit set_state
  start-Keeps p d h = record {
    kept = λ a.
        s.calm.then_ (s.calm.then_ (s.calm.world_ a _) (s.calm.number _ _)) (s.begins _ p _ d h);
  }

  carry_by-Keeps :
      (d : ScriptDecision) (p : Prepared) → IsDecided p → p.decision ≡ d → Keeps R (carry_by d p)
  unfolding carry_by set_state
  carry_by-Keeps deny p d h =
      Keeps-attempt s.calm (finish_prepared_execution-Keeps _ _ _) finalize_script_turn-Keeps
  carry_by-Keeps prompt p d h = Keeps-attempt s.calm (Keeps-call s.calm _) λ _.
      Keeps-bind s.calm (record { kept = λ a. s.awaits a p d h })
        λ _. Keeps-bind s.calm (Keeps-event s.calm _) λ _. Keeps-pure s.calm _
  carry_by-Keeps allow p d h = Keeps-bind s.calm (start-Keeps p d h) λ _. Keeps-pure s.calm _

  prepare_or_execute_script-Keeps :
      (m c : Bytes) (b : ScriptBlock) (ws : List Bytes)
      → Keeps R (prepare_or_execute_script m c b ws)
  unfolding prepare_or_execute_script
  prepare_or_execute_script-Keeps m c b ws =
      Keeps-attempt_with s.calm (build_request-Keeps m c b ws) (build_request-IsDecided m c b ws)
        λ p d.
          Keeps-attempt s.calm (Keeps-call s.calm _)
            λ _. Keeps-bind s.calm (Keeps-event s.calm _) λ _. carry_by-Keeps p.decision p d refl

  finish_invalid_script-Keeps :
      (m c : Bytes) (b : InvalidScriptBlock) (e : Bytes) → Keeps R (finish_invalid_script m c b e)
  unfolding finish_invalid_script
  finish_invalid_script-Keeps m c b e = Keeps-attempt s.calm (Keeps-call s.calm _) λ turn.
      Keeps-bind s.calm (Keeps-call s.calm _) λ id. Keeps-attempt s.calm (Keeps-call s.calm _) λ _.
        Keeps-bind s.calm (Keeps-event s.calm _) λ _.
          Keeps-attempt s.calm (finish_prepared_execution-Keeps _ _ _) finalize_script_turn-Keeps

  process_call-Keeps :
      (m c : Bytes) (b : Option ScriptBlock) (i : Option InvalidScriptBlock) (e : Option Bytes)
      (ws : List Bytes)
      → Keeps R (process_call m c b i e ws)
  unfolding process_call
  process_call-Keeps m c b i (some e) ws = finish_invalid_script-Keeps m c _ e
  process_call-Keeps m c (some b) i none ws = prepare_or_execute_script-Keeps m c b ws
  process_call-Keeps m c none i none ws = Keeps-pure s.calm _

  pub process_completed_stream_output-Keeps :
      (m : Bytes) (c : Option Bytes) (b : Option ScriptBlock) (i : Option InvalidScriptBlock)
      (e : Option Bytes) (ws : List Bytes)
      → Keeps R (process_completed_stream_output m c b i e ws)
  unfolding process_completed_stream_output complete_turn
  process_completed_stream_output-Keeps m none none i none ws =
      Keeps-bind s.calm (finish_turn-Keeps s)
        λ _. Keeps-bind s.calm (Keeps-event s.calm _) λ _. drain-Keeps s
  process_completed_stream_output-Keeps m none none i (some e) ws =
      fail_script_turn-Keeps no_call_id
  process_completed_stream_output-Keeps m none (some b) i e ws = fail_script_turn-Keeps no_call_id
  process_completed_stream_output-Keeps m (some c) b i e ws =
      Keeps-bind_result s.calm (process_call-Keeps m c b i e ws) (λ _. Keeps-pure s.calm tt)
        fail_script_turn-Keeps
