-- ===== src/Dispatch/Types.antt =====
-- crates/murl-core/src/dispatch.rs: configuration, verdicts, outcomes, and the launcher that the
-- embedder supplies. A detail that the source gives as a text is a constructor here.
use m_url.Base.{ℕ, Bool, List, [], ◌∷◌, Option, none, some, Result, if◌then◌else◌}
use m_url.Base.Text.{Bytes, codes, bytes_eq}
use m_url.Policy.{Tier}

pub record OpenerConfig : Type 0 where
  pub open_argv : List Bytes
  pub terminal_argv : Option (List Bytes)
  pub ssh_argv : Option (List Bytes)
  pub remote_desktop_argv : Option (List Bytes)
  pub custom : List (Bytes × List Bytes)
  pub home_dir : Option Bytes

-- The branches on the platform's name.
unfoldable pub default_open_argv : Bytes → List Bytes
default_open_argv os =
    if bytes_eq os (codes "macos")
    then codes "open" ∷ []
    else if bytes_eq os (codes "windows")
    then codes "explorer.exe" ∷ []
    else codes "xdg-open" ∷ []

unfoldable pub platform_default : Bytes → Option Bytes → OpenerConfig
platform_default os home_dir = record {
  open_argv = default_open_argv os;
  terminal_argv = none;
  ssh_argv = none;
  remote_desktop_argv = none;
  custom = [];
  home_dir = home_dir;
}

-- `opener.custom.get(name)`
unfoldable pub find_handler : Bytes → List (Bytes × List Bytes) → Option (List Bytes)
find_handler name [] = none
find_handler name ((key, argv) ∷ rest) =
    let later = find_handler name rest in if bytes_eq key name then some argv else later

-- A call of the launcher that has an effect.
pub data Call : Type 0 where
  launched : (argv : List Bytes) (cwd : Option Bytes) → Call
  slept : (ms : ℕ) → Call

-- The embedder's launcher. Its answers may depend on all calls before, the last one first.
pub record Launcher : Type 0 where
  pub launch : List Call → List Bytes → Option Bytes → Result Bytes (Unit {0})
  pub path_exists : List Call → Bytes → Bool

-- What the platform's paths do with one segment: whether all its components are plain names, and
-- the path after the segment is pushed.
pub record PathRules : Type 0 where
  pub is_plain : Bytes → Bool
  pub push : Bytes → Bytes → Bytes

pub data Approval : Type 0 where
  approved : Approval
  denied skipped : (reason : Bytes) → Approval

pub data OutcomeStatus : Type 0 where
  opened skipped denied failed unavailable : OutcomeStatus

pub data PathFault : Type 0 where
  no_home not_home_path empty_path_segment dot_path_segment not_plain : PathFault

pub data Detail : Type 0 where
  reason launch_error : Bytes → Detail
  path_fault : PathFault → Detail
  does_not_exist : Bytes → Detail
  no_terminal_handler no_ssh_handler no_remote_desktop_handler : Detail
  no_custom_handler : Bytes → Detail
  container_resource empty_program : Detail

pub record ResourceOutcome : Type 0 where
  pub id : Bytes
  pub label : Bytes
  pub kind : Bytes
  pub tier : Tier
  pub status : OutcomeStatus
  pub detail : Option Detail

pub data AggregateStatus : Type 0 where
  success partial failed denied : AggregateStatus

pub record ExecutionReport : Type 0 where
  pub outcomes : List ResourceOutcome
  pub aggregate : AggregateStatus
