-- ===== src/Dispatch/Tests.antt =====
-- Runs of the dispatch engine, and its properties at such inputs.
use m_url.Base.{
  ℕ, ◌≡◌, ◌↔◌, refl, Bool, true, false, List, [], ◌∷◌, ◌++◌, map, none, some, Result, ok, err, any,
  All,
}
use m_url.Base.Int.{pos}
use m_url.Base.Text.{Bytes, codes, bytes_eq, contains, strip_prefix, split, split_by}
use m_url.Kind.{Kind, show_kind}
use m_url.Murl.Utf8.{chars, decode_from, feed, lead, continue}
use m_url.Policy.{Tier}
use m_url.Resolver.Types.{PlannedResource, display_label}
use m_url.Dispatch.Types.{
  OpenerConfig, Call, launched, slept, Launcher, PathRules, Approval, ExecutionReport,
  AggregateStatus, find_handler,
}
use m_url.Dispatch.Paths.{drop_last_slash, push_segments, expand_below, expand_rest, expand_path}
use m_url.Dispatch.Argv.{
  explorer_argument, open_with, mentions, replace_from, fill, substitute_loop, substitute, is_blank,
  has_no_program,
}
use m_url.Dispatch.Execute.{
  launch, with_path, with_handler, dispatch_kind, dispatch_one, settle, execute_loop, note_outcome,
  aggregate_loop, conclude, aggregate, execute,
}
use m_url.Dispatch.Safety.{IsAllowed, execute-IsAllowed}
use m_url.Dispatch.Outcomes.{IsParallel, execute-IsParallel}
use m_url.Dispatch.Aggregate.{some_required_skip, IsDocumented, aggregate-IsDocumented}
use m_url.Dispatch.Home.{IsBelow, expand_path-IsBelow}
use m_url.Dispatch.Accepted.{validate_path_target-expand_path}
use m_url.Manifest.Target.Paths.{
  is_network_path, starts_with_drive, drop_last_separator, check_home_segments, check_dots,
  path_body, check_body, validate_path_target,
}
use m_url.Dispatch.Explorer.{split-explorer_argument}
use m_url.Dispatch.Template.{trailer, substitute-map}

program : Unit {0}
unfolding bytes_eq strip_prefix split split_by show_kind chars decode_from feed lead continue
    display_label find_handler drop_last_slash push_segments expand_below expand_rest expand_path
    open_with mentions replace_from substitute_loop substitute is_blank has_no_program launch
    with_path with_handler dispatch_kind dispatch_one settle execute_loop note_outcome
    aggregate_loop conclude aggregate execute is_network_path starts_with_drive drop_last_separator
    check_home_segments check_dots path_body check_body validate_path_target
program = tt

-- Paths as Unix has them.
abbrev unix : PathRules
unix = record { is_plain = λ segment. true; push = λ path segment. path ++ b'/' ∷ segment }

-- A launcher for which every path exists and every launch succeeds.
abbrev willing : Launcher
willing = record { launch = λ calls argv cwd. ok tt; path_exists = λ calls path. true }

abbrev opener : OpenerConfig
opener = record {
  open_argv = codes "xdg-open" ∷ [];
  terminal_argv = some (codes "term" ∷ codes "--dir={target}" ∷ []);
  ssh_argv = none;
  remote_desktop_argv = none;
  custom = [];
  home_dir = some (codes "/home/me");
}

abbrev planned : Kind → Bytes → Bool → PlannedResource
planned kind target required = record {
  resource = record {
    id = codes "r";
    kind = show_kind kind;
    target = target;
    label = none;
    role = none;
    required = required;
    order = pos 0;
    depends_on = [];
    tags = [];
    integrity = none;
    meta = none;
  };
  kind = kind;
  tier = Tier.sensitive;
  node = 0;
  root_anchor = codes "r";
  decision = none;
}

abbrev plan : List PlannedResource
plan =
    planned Kind.terminal (codes "~/src/") true
    ∷ planned Kind.https (codes "https://a.example") false
    ∷ planned Kind.ssh (codes "ssh://b.example") false
    ∷ []

abbrev verdicts : List Approval
verdicts = Approval.approved ∷ Approval.denied (codes "no") ∷ Approval.approved ∷ []

abbrev run : Result (ℕ × ℕ) (ExecutionReport × List Call)
run = execute unix willing opener 150 plan verdicts

abbrev calls : List Call
calls =
    slept 150
    ∷ launched (codes "term" ∷ codes "--dir=/home/me/src" ∷ []) (some (codes "/home/me/src"))
    ∷ []

abbrev calls_of : Result (ℕ × ℕ) (ExecutionReport × List Call) → List Call
calls_of (ok (r, cs)) = cs
calls_of (err e) = []

abbrev report_of : Result (ℕ × ℕ) (ExecutionReport × List Call) → ExecutionReport
report_of (ok (r, cs)) = r
report_of (err e) = record { outcomes = []; aggregate = AggregateStatus.failed }

execute_plan : run ≡ ok (report_of run, calls)
unfolding program
execute_plan = refl

execute_plan_status : (report_of run).aggregate ≡ AggregateStatus.partial
unfolding program
execute_plan_status = refl

execute-IsAllowed_example : All (IsAllowed unix willing opener plan verdicts) calls
execute-IsAllowed_example =
    execute-IsAllowed unix willing opener 150 plan verdicts (report_of run) calls execute_plan

execute-IsParallel_example :
    IsParallel plan verdicts (report_of run).outcomes
    × ((report_of run).aggregate ≡ aggregate plan (report_of run).outcomes)
execute-IsParallel_example =
    execute-IsParallel unix willing opener 150 plan verdicts (report_of run) calls execute_plan

none_skipped : some_required_skip plan (report_of run).outcomes ≡ false
unfolding program
none_skipped = refl

aggregate-IsDocumented_example :
    (aggregate plan (report_of run).outcomes ≡ AggregateStatus.partial)
    ↔ IsDocumented plan (report_of run).outcomes AggregateStatus.partial
aggregate-IsDocumented_example =
    aggregate-IsDocumented plan (report_of run).outcomes AggregateStatus.partial none_skipped

expand_home :
    expand_path unix (some (codes "/home/me")) (codes "~/src/x/") ≡ ok (codes "/home/me/src/x")
unfolding program
expand_home = refl

expand_path-IsBelow_example : IsBelow unix (codes "/home/me") (codes "/home/me/src/x")
expand_path-IsBelow_example =
    expand_path-IsBelow unix (codes "/home/me") (codes "/src/x/") (codes "/home/me/src/x")
      expand_home

substitute-map_example :
    substitute (codes "term" ∷ codes "--dir={target}" ∷ []) (codes "a b")
    ≡ map (fill (codes "a b")) (codes "term" ∷ codes "--dir={target}" ∷ [])
      ++ trailer (any mentions (codes "term" ∷ codes "--dir={target}" ∷ [])) (codes "a b")
substitute-map_example = substitute-map (codes "term") (codes "--dir={target}" ∷ []) (codes "a b")

accept_home : validate_path_target (codes "~/a\\b/") ≡ ok tt
unfolding program
accept_home = refl

validate_path_target-expand_path_example :
    (out : Bytes) × (expand_path unix (some (codes "/home/me")) (codes "~/a\\b/") ≡ ok out)
validate_path_target-expand_path_example =
    validate_path_target-expand_path unix (λ s n. refl) (codes "/home/me") (codes "~/a\\b/")
      accept_home

split-explorer_argument_example :
    split b'"' (codes "\"https://a.example/x,/root\"")
    ≡ [] ∷ codes "https://a.example/x,/root" ∷ [] ∷ []
split-explorer_argument_example =
    split-explorer_argument (codes "https://a.example/x,/root")
      (codes "\"https://a.example/x,/root\"") (unfold explorer_argument contains in refl)
