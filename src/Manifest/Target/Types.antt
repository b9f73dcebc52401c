-- ===== src/Manifest/Target/Types.antt =====
-- crates/murl-core/src/manifest.rs: why a target is refused, and byte classes that the checks share.
use m_url.Base.{ℕ, Bool, ◌||◌, Result, ◌==◌}
use m_url.Base.Text.{is_alphanumeric}
use m_url.Murl.Types.{MurlParseError}

pub data TargetFault : Type 0 where
  bad_scheme empty_host : TargetFault
  two_ats user_length user_bytes user_dash : TargetFault
  userinfo : TargetFault
  bad_port host_length host_dash host_bytes : TargetFault
  bad_coordinates not_number not_finite latitude_range longitude_range bad_param : TargetFault
  no_address bad_address bad_domain bad_header header_forbidden : TargetFault
  has_space plain_http : TargetFault
  network_path empty_segments drive_letter relative_path dot_segments option_like : TargetFault
  bad_murl : MurlParseError → TargetFault

abbrev pub Checked : Type 0
Checked = Result TargetFault (Unit {0})

abbrev pub is_host_byte : ℕ → Bool
is_host_byte b = is_alphanumeric b || (b == b'.' || b == b'-')
