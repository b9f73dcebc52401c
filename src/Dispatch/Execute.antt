-- ===== src/Dispatch/Execute.antt =====
-- crates/murl-core/src/dispatch.rs: `execute`, `dispatch_one`, `launch`, `aggregate`.
use m_url.Base.{
  ℕ, Bool, true, false, not, ◌&&◌, ◌||◌, List, [], ◌∷◌, Option, none, some, Result, ok, err, ◌==◌,
  ltb, if◌then◌else◌, length,
}
use m_url.Base.Text.{Bytes}
use m_url.Kind.{
  Kind, https, file, dir, murl, terminal, ssh, remote_desktop, geo, mailto, custom, show_kind,
}
use m_url.Resolver.Types.{PlannedResource, display_label}
use m_url.Dispatch.Types.{
  OpenerConfig, Call, launched, slept, Launcher, PathRules, Approval, OutcomeStatus, Detail, reason,
  launch_error, path_fault, does_not_exist, no_terminal_handler, no_ssh_handler,
  no_remote_desktop_handler, no_custom_handler, container_resource, empty_program, ResourceOutcome,
  AggregateStatus, ExecutionReport, find_handler,
}
use m_url.Dispatch.Paths.{expand_path}
use m_url.Dispatch.Argv.{open_with, substitute, has_no_program}

-- A status with its detail, and the calls made so far, the last one first.
abbrev pub Dispatched : Type 0
Dispatched = (OutcomeStatus × Option Detail) × List Call

abbrev pub failed_with : Detail → List Call → Dispatched
failed_with detail calls = ((OutcomeStatus.failed, some detail), calls)

module _ (rules : PathRules) (launcher : Launcher) (opener : OpenerConfig) where
  unfoldable pub launch : List Bytes → Option Bytes → List Call → Dispatched
  launch argv cwd calls =
      if has_no_program argv
      then failed_with empty_program calls
      else elim (launcher.launch calls argv cwd) [
        | ok u ↦ ((OutcomeStatus.opened, none), launched argv cwd ∷ calls)
        | err e ↦ failed_with (launch_error e) (launched argv cwd ∷ calls)
      ]

  -- The arms for paths: what runs on the expanded path, if it exists.
  unfoldable pub with_path : Bytes → (Bytes → List Call → Dispatched) → List Call → Dispatched
  with_path target run calls = elim (expand_path rules opener.home_dir target) [
    | err e ↦ failed_with (path_fault e) calls
    | ok path ↦
        if launcher.path_exists calls path
        then run path calls
        else ((OutcomeStatus.unavailable, some (does_not_exist path)), calls)
  ]

  -- The arms for handlers that have to be configured.
  unfoldable pub with_handler :
      Option (List Bytes) → Detail → Bytes → Option Bytes → List Call → Dispatched
  with_handler none missing target cwd calls = failed_with missing calls
  with_handler (some template) missing target cwd calls =
      launch (substitute template target) cwd calls

  unfoldable pub dispatch_kind : Kind → Bytes → List Call → Dispatched
  dispatch_kind https target calls = launch (open_with opener.open_argv target) none calls
  dispatch_kind file target calls =
      with_path target (λ path. launch (open_with opener.open_argv path) none) calls
  dispatch_kind dir target calls =
      with_path target (λ path. launch (open_with opener.open_argv path) none) calls
  dispatch_kind terminal target calls =
      with_path target
        (λ path. with_handler opener.terminal_argv no_terminal_handler path (some path)) calls
  dispatch_kind ssh target calls = with_handler opener.ssh_argv no_ssh_handler target none calls
  dispatch_kind remote_desktop target calls =
      with_handler opener.remote_desktop_argv no_remote_desktop_handler target none calls
  dispatch_kind geo target calls = launch (open_with opener.open_argv target) none calls
  dispatch_kind mailto target calls = launch (open_with opener.open_argv target) none calls
  dispatch_kind murl target calls = ((OutcomeStatus.skipped, some container_resource), calls)
  dispatch_kind (custom name) target calls =
      with_handler (find_handler name opener.custom) (no_custom_handler name) target none calls

  unfoldable pub dispatch_one : PlannedResource → List Call → Dispatched
  dispatch_one pr calls = dispatch_kind pr.kind pr.resource.target calls

  -- `if launched_any && limits.dispatch_stagger_ms > 0 { launcher.sleep_ms(…) }`
  abbrev pub stagger : ℕ → Bool → List Call → List Call
  stagger ms launched_any calls = if launched_any && ltb 0 ms then slept ms ∷ calls else calls

  -- The verdict's arm of the loop body.
  unfoldable pub settle : ℕ → Bool → PlannedResource → Approval → List Call → Dispatched
  settle ms launched_any pr (Approval.denied r) calls =
      ((OutcomeStatus.denied, some (reason r)), calls)
  settle ms launched_any pr (Approval.skipped r) calls =
      ((OutcomeStatus.skipped, some (reason r)), calls)
  settle ms launched_any pr Approval.approved calls =
      dispatch_one pr (stagger ms launched_any calls)

abbrev pub is_opened : OutcomeStatus → Bool
is_opened OutcomeStatus.opened = true
is_opened _ = false

-- Whether the round sets `launched_any`.
abbrev pub opens : Approval → OutcomeStatus → Bool
opens Approval.approved status = is_opened status
opens _ status = false

abbrev pub outcome : PlannedResource → OutcomeStatus → Option Detail → ResourceOutcome
outcome pr status detail = record {
  id = pr.resource.id;
  label = display_label pr;
  kind = show_kind pr.kind;
  tier = pr.tier;
  status = status;
  detail = detail;
}

abbrev pub cons_outcome :
    ResourceOutcome → List ResourceOutcome × List Call → List ResourceOutcome × List Call
cons_outcome out (outs, calls) = (out ∷ outs, calls)

module _ (rules : PathRules) (launcher : Launcher) (opener : OpenerConfig) (ms : ℕ) where
  -- The loop over `resources.iter().zip(approvals)`.
  unfoldable pub execute_loop :
      List PlannedResource → List Approval → Bool → List Call → List ResourceOutcome × List Call
  execute_loop [] approvals launched_any calls = ([], calls)
  execute_loop (pr ∷ prs) [] launched_any calls = ([], calls)
  execute_loop (pr ∷ prs) (a ∷ approvals) launched_any calls =
      let ((status, detail), calls_after) =
        settle rules launcher opener ms launched_any pr a calls in
      let any_launched = launched_any || opens a status in
      cons_outcome (outcome pr status detail) (execute_loop prs approvals any_launched calls_after)

-- The flags of `aggregate`.
pub record Flags : Type 0 where
  pub any_opened : Bool
  pub any_bad : Bool
  pub any_denied : Bool
  pub required_missed : Bool

unfoldable pub note_outcome : Bool → OutcomeStatus → Flags → Flags
note_outcome required OutcomeStatus.opened f = record f { any_opened = true }
note_outcome required OutcomeStatus.skipped f = f
note_outcome required OutcomeStatus.denied f = record f {
  any_denied = true;
  required_missed = required || f.required_missed;
}
note_outcome required OutcomeStatus.failed f = record f {
  any_bad = true;
  required_missed = required || f.required_missed;
}
note_outcome required OutcomeStatus.unavailable f = record f {
  any_bad = true;
  required_missed = required || f.required_missed;
}

unfoldable pub aggregate_loop : List PlannedResource → List ResourceOutcome → Flags → Flags
aggregate_loop [] outs f = f
aggregate_loop (pr ∷ prs) [] f = f
aggregate_loop (pr ∷ prs) (out ∷ outs) f =
    aggregate_loop prs outs (note_outcome pr.resource.required out.status f)

unfoldable pub conclude : Flags → AggregateStatus
conclude f =
    if f.required_missed
    then AggregateStatus.failed
    else if f.any_opened && not f.any_bad && not f.any_denied
    then AggregateStatus.success
    else if f.any_opened
    then AggregateStatus.partial
    else if f.any_bad
    then AggregateStatus.failed
    else if f.any_denied
    then AggregateStatus.denied
    else AggregateStatus.success

abbrev pub no_flags : Flags
no_flags = record {
  any_opened = false;
  any_bad = false;
  any_denied = false;
  required_missed = false;
}

unfoldable pub aggregate : List PlannedResource → List ResourceOutcome → AggregateStatus
aggregate prs outs = conclude (aggregate_loop prs outs no_flags)

abbrev pub report :
    List PlannedResource → List ResourceOutcome × List Call → ExecutionReport × List Call
report prs (outs, calls) = (record { outcomes = outs; aggregate = aggregate prs outs }, calls)

-- The resources of the resolution, and `limits.dispatch_stagger_ms`. The error carries the two lengths.
unfoldable pub execute :
    PathRules
    → Launcher
    → OpenerConfig
    → ℕ
    → List PlannedResource
    → List Approval
    → Result (ℕ × ℕ) (ExecutionReport × List Call)
execute rules launcher opener ms prs approvals =
    if length approvals == length prs
    then ok (report prs (execute_loop rules launcher opener ms prs approvals false []))
    else err (length approvals, length prs)
