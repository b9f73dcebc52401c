-- ===== src/Dispatch/Safety.antt =====
-- What the dispatch engine may launch.
use m_url.Base.{
  ℕ, ◌≡◌, ◌⊎◌, inl, inr, refl, subst, Bool, false, ◌&&◌, List, [], ◌∷◌, Option, none, some, ok,
  Result-cases, ltb, Bool-cases, ◌==◌, length, All,
}
use m_url.Base.Text.{Bytes}
use m_url.Kind.{Kind, https, file, dir, murl, terminal, ssh, remote_desktop, geo, mailto, custom}
use m_url.Resolver.Types.{PlannedResource}
use m_url.Dispatch.Types.{
  OpenerConfig, Call, launched, slept, Launcher, PathRules, Approval, Detail, ExecutionReport,
  find_handler,
}
use m_url.Dispatch.Paths.{expand_path}
use m_url.Dispatch.Argv.{open_with, substitute, has_no_program}
use m_url.Dispatch.Execute.{
  Dispatched, launch, with_path, with_handler, dispatch_kind, dispatch_one, stagger, settle,
  execute_loop, execute,
}

-- The handler that the configuration has for a kind.
abbrev pub handler_for : OpenerConfig → Kind → Option (List Bytes)
handler_for opener terminal = opener.terminal_argv
handler_for opener ssh = opener.ssh_argv
handler_for opener remote_desktop = opener.remote_desktop_argv
handler_for opener (custom name) = find_handler name opener.custom
handler_for opener murl = none
handler_for opener _ = some opener.open_argv

-- The resource has a verdict, and it is an approval.
abbrev pub IsApproved : PlannedResource → List PlannedResource → List Approval → Type 0
IsApproved pr (q ∷ prs) (a ∷ approvals) =
    (q ≡ pr) × (a ≡ Approval.approved) ⊎ IsApproved pr prs approvals
IsApproved pr _ _ = ⊥

module _ (rules : PathRules) (launcher : Launcher) (opener : OpenerConfig) where
  -- The handler of the resource's kind with the target, or the path it expands to, put into it; the
  -- program is not blank.
  pub record IsCommand (kind : Kind) (target : Bytes) (argv : List Bytes) : Type 0 where
    pub handler : List Bytes
    pub configured : handler_for opener kind ≡ some handler
    pub text : Bytes
    pub subject : (text ≡ target) ⊎ (expand_path rules opener.home_dir target ≡ ok text)
    pub filled : (argv ≡ open_with handler text) ⊎ (argv ≡ substitute handler text)
    pub has_program : has_no_program argv ≡ false

  module _ (P : Call → Type 0) where
    launch-All :
        (argv : List Bytes) (cwd : Option Bytes) (calls : List Call)
        → (has_no_program argv ≡ false → P (launched argv cwd))
        → All P calls
        → All P (launch rules launcher opener argv cwd calls).1
    unfolding launch
    launch-All argv cwd calls p h = elim (Bool-cases (has_no_program argv)) [
      | inl e ↦ rw e h
      | inr e ↦ rw e (elim (Result-cases (launcher.launch calls argv cwd)) [
        | inl (u, r) ↦ rw r (p e, h)
        | inr (x, r) ↦ rw r (p e, h)
      ])
    ]

    with_path-All :
        (target : Bytes) (run : Bytes → List Call → Dispatched) (calls : List Call)
        → ((path : Bytes)
            → expand_path rules opener.home_dir target ≡ ok path
            → All P (run path calls).1)
        → All P calls
        → All P (with_path rules launcher opener target run calls).1
    unfolding with_path
    with_path-All target run calls p h =
        elim (Result-cases (expand_path rules opener.home_dir target)) [
          | inr (x, r) ↦ rw (r, with_path) h
          | inl (path, r) ↦
              rw (r, with_path)
                (elim (Bool-cases (launcher.path_exists calls path)) [
                  | inl e ↦ rw e (p path r)
                  | inr e ↦ rw e h
                ])
        ]

    with_handler-All :
        (handler : Option (List Bytes)) (missing : Detail) (text : Bytes) (cwd : Option Bytes)
        (calls : List Call)
        → ((template : List Bytes)
            → handler ≡ some template
            → has_no_program (substitute template text) ≡ false
            → P (launched (substitute template text) cwd))
        → All P calls
        → All P (with_handler rules launcher opener handler missing text cwd calls).1
    unfolding with_handler
    with_handler-All none missing text cwd calls p h = h
    with_handler-All (some template) missing text cwd calls p h =
        launch-All (substitute template text) cwd calls (p template refl) h

    -- One resource, dispatched by its kind.
    module _ (kind : Kind) (target : Bytes) (calls : List Call)
        (p : (argv : List Bytes) (cwd : Option Bytes)
          → IsCommand kind target argv
          → P (launched argv cwd))
        (h : All P calls) where
      opened-All :
          (text : Bytes)
          → (text ≡ target) ⊎ (expand_path rules opener.home_dir target ≡ ok text)
          → handler_for opener kind ≡ some opener.open_argv
          → All P (launch rules launcher opener (open_with opener.open_argv text) none calls).1
      opened-All text subject configured =
          launch-All (open_with opener.open_argv text) none calls
            (λ e. p (open_with opener.open_argv text) none (record {
              handler = opener.open_argv;
              configured = configured;
              text = text;
              subject = subject;
              filled = inl refl;
              has_program = e;
            }))
            h

      handled-All :
          (missing : Detail) (text : Bytes) (cwd : Option Bytes)
          → (text ≡ target) ⊎ (expand_path rules opener.home_dir target ≡ ok text)
          → All P
              (with_handler rules launcher opener
                (handler_for opener kind)
                missing
                text
                cwd
                calls).1
      handled-All missing text cwd subject =
          with_handler-All (handler_for opener kind) missing text cwd calls
            (λ template configured e. p (substitute template text) cwd (record {
              handler = template;
              configured = configured;
              text = text;
              subject = subject;
              filled = inr refl;
              has_program = e;
            }))
            h

    module _ (target : Bytes) (calls : List Call) (h : All P calls) where
      dispatch_kind-All :
          (kind : Kind)
          → ((argv : List Bytes) (cwd : Option Bytes)
              → IsCommand kind target argv
              → P (launched argv cwd))
          → All P (dispatch_kind rules launcher opener kind target calls).1
      unfolding dispatch_kind
      dispatch_kind-All https p = opened-All https target calls p h target (inl refl) refl
      dispatch_kind-All geo p = opened-All geo target calls p h target (inl refl) refl
      dispatch_kind-All mailto p = opened-All mailto target calls p h target (inl refl) refl
      dispatch_kind-All file p =
          with_path-All target _ calls
            (λ path e. opened-All file target calls p h path (inr e) refl) h
      dispatch_kind-All dir p =
          with_path-All target _ calls (λ path e. opened-All dir target calls p h path (inr e) refl)
            h
      dispatch_kind-All terminal p =
          with_path-All target _ calls
            (λ path e. handled-All terminal target calls p h _ path (some path) (inr e)) h
      dispatch_kind-All ssh p = handled-All ssh target calls p h _ target none (inl refl)
      dispatch_kind-All remote_desktop p =
          handled-All remote_desktop target calls p h _ target none (inl refl)
      dispatch_kind-All (custom name) p =
          handled-All (custom name) target calls p h _ target none (inl refl)
      dispatch_kind-All murl p = h

  module _ (ms : ℕ) (P : Call → Type 0) (waits : P (slept ms)) where
    stagger-All :
        (b : Bool) (calls : List Call)
        → All P calls
        → All P (stagger rules launcher opener ms b calls)
    stagger-All b calls h = elim (Bool-cases (b && ltb 0 ms)) [
      | inl e ↦ rw e (waits, h)
      | inr e ↦ rw e h
    ]

    settle-All :
        (b : Bool) (pr : PlannedResource) (a : Approval) (calls : List Call)
        → (a ≡ Approval.approved
            → (argv : List Bytes) (cwd : Option Bytes) → IsCommand pr.kind pr.resource.target argv
            → P (launched argv cwd))
        → All P calls
        → All P (settle rules launcher opener ms b pr a calls).1
    unfolding settle dispatch_one
    settle-All b pr (Approval.denied r) calls p h = h
    settle-All b pr (Approval.skipped r) calls p h = h
    settle-All b pr Approval.approved calls p h =
        dispatch_kind-All P pr.resource.target _ (stagger-All b calls h) pr.kind (p refl)

    execute_loop-All :
        (prs : List PlannedResource) (approvals : List Approval) (b : Bool) (calls : List Call)
        → ((pr : PlannedResource)
            → IsApproved pr prs approvals
            → (argv : List Bytes) (cwd : Option Bytes) → IsCommand pr.kind pr.resource.target argv
            → P (launched argv cwd))
        → All P calls
        → All P (execute_loop rules launcher opener ms prs approvals b calls).1
    unfolding execute_loop
    execute_loop-All [] approvals b calls p h = h
    execute_loop-All (pr ∷ prs) [] b calls p h = h
    execute_loop-All (pr ∷ prs) (a ∷ approvals) b calls p h =
        execute_loop-All prs approvals _ _ (λ q later. p q (inr later))
          (settle-All b pr a calls (λ e. p pr (inl (refl, e))) h)

  -- Where a call comes from.
  abbrev pub IsAllowed : List PlannedResource → List Approval → Call → Type 0
  IsAllowed prs approvals (slept ms) = Unit
  IsAllowed prs approvals (launched argv cwd) =
      (pr : PlannedResource) × IsApproved pr prs approvals
      × IsCommand pr.kind pr.resource.target argv

-- Every process that an execution starts is the configured handler of an approved resource, filled
-- with the resource's target or the path that it expands to, and its program is not blank.
pub execute-IsAllowed :
    (rules : PathRules) (launcher : Launcher) (opener : OpenerConfig) (ms : ℕ)
    (prs : List PlannedResource) (approvals : List Approval) (rep : ExecutionReport)
    (calls : List Call)
    → execute rules launcher opener ms prs approvals ≡ ok (rep, calls)
    → All (IsAllowed rules launcher opener prs approvals) calls
unfolding execute
execute-IsAllowed rules launcher opener ms prs approvals rep calls h =
    elim (Bool-cases (length approvals == length prs)) [
      | inr e ↦ absurd (let h' = rw e at h in cc)
      | inl e ↦
          let h' = rw e at h in
          let same : (execute_loop rules launcher opener ms prs approvals false []).1 ≡ calls =
            cc in
          subst (λ c. All (IsAllowed rules launcher opener prs approvals) c) same
            (execute_loop-All rules launcher opener ms
              (IsAllowed rules launcher opener prs approvals) tt prs approvals false []
              (λ pr ok argv cwd c. (pr, ok, c)) tt)
    ]
