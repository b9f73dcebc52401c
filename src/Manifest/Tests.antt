-- ===== src/Manifest/Tests.antt =====
-- Runs of the checks of targets, and their properties at such inputs.
use m_url.Base.{ℕ, ◌≡◌, refl, true, none, ok, err}
use m_url.Base.Text.{
  codes, bytes_eq, lowercase, contains, strip_prefix, starts_with, ends_with_text, split_by, split,
  split_once, rsplit_once, first_piece,
}
use m_url.Base.Decimal.{digits_value}
use m_url.Kind.{https, ssh, file}
use m_url.Manifest.Target.Types.{user_dash, plain_http, empty_segments}
use m_url.Manifest.Target.Hosts.{
  is_valid_port, check_port, validate_hostport, check_user, check_ssh_authority,
  validate_ssh_target,
}
use m_url.Manifest.Target.Messages.{Floats}
use m_url.Manifest.Target.Paths.{
  is_network_path, starts_with_drive, is_loopback_host, check_web, check_web_scheme,
  validate_web_target, drop_last_separator, check_home_segments, check_dots, path_body, check_body,
  validate_path_target,
}
use m_url.Manifest.Target.Check.{validate_target}
use m_url.Manifest.Target.Safety.{IsInert, validate_target-IsInert}

program : Unit {0}
unfolding bytes_eq lowercase contains strip_prefix starts_with ends_with_text split_by split
    split_once rsplit_once first_piece digits_value is_valid_port check_port validate_hostport
    check_user check_ssh_authority validate_ssh_target is_network_path starts_with_drive
    is_loopback_host check_web check_web_scheme validate_web_target drop_last_separator
    check_home_segments check_dots path_body check_body validate_path_target validate_target
program = tt

-- No text is a number.
abbrev no_floats : Floats
no_floats = record {
  F = ℕ;
  parse_float = λ s. none;
  is_finite = λ n. true;
  is_within = λ bound n. true;
}

ssh_target : validate_target no_floats ssh (codes "ssh://me@host.example:22/x") ≡ ok tt
unfolding program
ssh_target = refl

ssh_option : validate_target no_floats ssh (codes "ssh://-oProxyCommand@host") ≡ err user_dash
unfolding program
ssh_option = refl

web_plain : validate_target no_floats https (codes "http://example.com/") ≡ err plain_http
unfolding program
web_plain = refl

path_inside : validate_target no_floats file (codes "~//etc/passwd") ≡ err empty_segments
unfolding program
path_inside = refl

validate_target-IsInert_example : IsInert (codes "ssh://me@host.example:22/x")
validate_target-IsInert_example =
    validate_target-IsInert no_floats ssh (codes "ssh://me@host.example:22/x") ssh_target
