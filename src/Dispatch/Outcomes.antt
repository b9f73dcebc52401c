-- ===== src/Dispatch/Outcomes.antt =====
-- The outcomes of an execution and their aggregate.
use m_url.Base.{
  ℕ, ◌≡◌, ◌≢◌, inl, inr, refl, sym, subst, ap, Bool, false, List, [], ◌∷◌, Option, none, some, ok,
  err, Result-cases, Bool-cases, ◌==◌, ==_iff, length, arith,
}
use m_url.Base.Text.{Bytes}
use m_url.Kind.{Kind, terminal, custom}
use m_url.Resolver.Types.{PlannedResource}
use m_url.Dispatch.Types.{
  OpenerConfig, Call, Launcher, PathRules, Approval, OutcomeStatus, Detail, reason, ResourceOutcome,
  AggregateStatus, ExecutionReport,
}
use m_url.Dispatch.Paths.{expand_path}
use m_url.Dispatch.Argv.{has_no_program}
use m_url.Dispatch.Execute.{
  launch, with_path, with_handler, dispatch_kind, dispatch_one, settle, outcome, execute_loop,
  execute, aggregate, Dispatched,
}

-- The outcome that a verdict calls for.
abbrev pub Answers : PlannedResource → Approval → ResourceOutcome → Type 0
Answers pr (Approval.denied r) out = out ≡ outcome pr OutcomeStatus.denied (some (reason r))
Answers pr (Approval.skipped r) out = out ≡ outcome pr OutcomeStatus.skipped (some (reason r))
Answers pr Approval.approved out =
    (status : OutcomeStatus) × (detail : Option Detail) × (out ≡ outcome pr status detail)
    × (status ≢ OutcomeStatus.denied)

abbrev pub IsParallel : List PlannedResource → List Approval → List ResourceOutcome → Type 0
IsParallel (pr ∷ prs) (a ∷ approvals) (out ∷ outs) =
    Answers pr a out × IsParallel prs approvals outs
IsParallel [] [] [] = Unit
IsParallel _ _ _ = ⊥

module _ (rules : PathRules) (launcher : Launcher) (opener : OpenerConfig) where
  -- Dispatch itself never denies.
  launch-not_denied :
      (argv : List Bytes) (cwd : Option Bytes) (calls : List Call)
      → (launch rules launcher opener argv cwd calls).0.0 ≢ OutcomeStatus.denied
  unfolding launch
  launch-not_denied argv cwd calls h = elim (Bool-cases (has_no_program argv)) [
    | inl e ↦ (let h' = rw e at h in cc)
    | inr e ↦
        let h' = rw e at h in
        elim (Result-cases (launcher.launch calls argv cwd)) [
          | inl (u, r) ↦ (let h'' = rw r at h' in cc)
          | inr (x, r) ↦ (let h'' = rw r at h' in cc)
        ]
  ]

  with_handler-not_denied :
      (handler : Option (List Bytes)) (missing : Detail) (text : Bytes) (cwd : Option Bytes)
      (calls : List Call)
      → (with_handler rules launcher opener handler missing text cwd calls).0.0
        ≢ OutcomeStatus.denied
  unfolding with_handler
  with_handler-not_denied none missing text cwd calls h = cc
  with_handler-not_denied (some template) missing text cwd calls h = launch-not_denied _ cwd calls h

  with_path-not_denied :
      (target : Bytes) (run : Bytes → List Call → Dispatched) (calls : List Call)
      → ((path : Bytes) → (run path calls).0.0 ≢ OutcomeStatus.denied)
      → (with_path rules launcher opener target run calls).0.0 ≢ OutcomeStatus.denied
  unfolding with_path
  with_path-not_denied target run calls p h =
      elim (Result-cases (expand_path rules opener.home_dir target)) [
        | inr (x, r) ↦ (let h' = rw (r, with_path) at h in cc)
        | inl (path, r) ↦
            let h' = rw (r, with_path) at h in
            elim (Bool-cases (launcher.path_exists calls path)) [
              | inl e ↦ p path (rw e at h')
              | inr e ↦ (let h'' = rw e at h' in cc)
            ]
      ]

  dispatch_kind-not_denied :
      (kind : Kind) (target : Bytes) (calls : List Call)
      → (dispatch_kind rules launcher opener kind target calls).0.0 ≢ OutcomeStatus.denied
  unfolding dispatch_kind
  dispatch_kind-not_denied Kind.https target calls = launch-not_denied _ none calls
  dispatch_kind-not_denied Kind.geo target calls = launch-not_denied _ none calls
  dispatch_kind-not_denied Kind.mailto target calls = launch-not_denied _ none calls
  dispatch_kind-not_denied Kind.file target calls =
      with_path-not_denied target _ calls (λ path. launch-not_denied _ none calls)
  dispatch_kind-not_denied Kind.dir target calls =
      with_path-not_denied target _ calls (λ path. launch-not_denied _ none calls)
  dispatch_kind-not_denied terminal target calls =
      with_path-not_denied target _ calls
        (λ path. with_handler-not_denied _ _ path (some path) calls)
  dispatch_kind-not_denied Kind.ssh target calls = with_handler-not_denied _ _ target none calls
  dispatch_kind-not_denied Kind.remote_desktop target calls =
      with_handler-not_denied _ _ target none calls
  dispatch_kind-not_denied (custom name) target calls =
      with_handler-not_denied _ _ target none calls
  dispatch_kind-not_denied Kind.murl target calls = λ h. cc

  module _ (ms : ℕ) where
    settle-Answers :
        (b : Bool) (pr : PlannedResource) (a : Approval) (calls : List Call)
        → Answers pr a (
            outcome pr
              (settle rules launcher opener ms b pr a calls).0.0
              (settle rules launcher opener ms b pr a calls).0.1)
    unfolding settle dispatch_one
    settle-Answers b pr (Approval.denied r) calls = refl
    settle-Answers b pr (Approval.skipped r) calls = refl
    settle-Answers b pr Approval.approved calls =
        (_, _, refl, dispatch_kind-not_denied pr.kind pr.resource.target _)

    execute_loop-IsParallel :
        (prs : List PlannedResource) (approvals : List Approval) (b : Bool) (calls : List Call)
        → length approvals ≡ length prs
        → IsParallel prs approvals (execute_loop rules launcher opener ms prs approvals b calls).0
    unfolding execute_loop
    execute_loop-IsParallel [] [] b calls e = tt
    execute_loop-IsParallel [] (a ∷ approvals) b calls e = absurd (omega arith)
    execute_loop-IsParallel (pr ∷ prs) [] b calls e = absurd (omega arith)
    execute_loop-IsParallel (pr ∷ prs) (a ∷ approvals) b calls e =
        (settle-Answers b pr a calls, execute_loop-IsParallel prs approvals _ _ (omega arith))

-- An execution that returns a report has one outcome for each resource, in the order of the plan
-- and with the resource's fields: a denial or a skip keeps its reason, and an approved resource
-- is never reported as denied; its aggregate is the aggregate of these outcomes.
pub execute-IsParallel :
    (rules : PathRules) (launcher : Launcher) (opener : OpenerConfig) (ms : ℕ)
    (prs : List PlannedResource) (approvals : List Approval) (rep : ExecutionReport)
    (calls : List Call)
    → execute rules launcher opener ms prs approvals ≡ ok (rep, calls)
    → IsParallel prs approvals rep.outcomes × (rep.aggregate ≡ aggregate prs rep.outcomes)
unfolding execute
execute-IsParallel rules launcher opener ms prs approvals rep calls h =
    elim (Bool-cases (length approvals == length prs)) [
      | inr e ↦ absurd (let h' = rw e at h in cc)
      | inl e ↦
          let h' = rw e at h in
          let run = (execute_loop rules launcher opener ms prs approvals false []).0 in
          let same : run ≡ rep.outcomes =
            ap (λ r. elim r as (λ _. List ResourceOutcome) [ ok (q, c) ↦ q.outcomes | err x ↦ run ])
              h' in
          let total : aggregate prs run ≡ rep.aggregate =
            ap
              (λ r. elim r as (λ _. AggregateStatus) [
                | ok (q, c) ↦ q.aggregate
                | err x ↦ aggregate prs run
              ])
              h' in
          (
            subst (λ o. IsParallel prs approvals o) same
                (execute_loop-IsParallel rules launcher opener ms prs approvals false []
                  ((==_iff (length approvals) (length prs)).0 e)),
            subst (λ o. rep.aggregate ≡ aggregate prs o) same (sym total),
          )
    ]
