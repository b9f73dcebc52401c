-- ===== src/Manifest/Target/Check.antt =====
-- crates/murl-core/src/manifest.rs: `validate_target` and `is_valid_integrity`.
use m_url.Base.{Bool, false, ◌&&◌, ◌||◌, Option, none, some, Result, ok, err, ◌==◌, length, all}
use m_url.Base.Text.{Bytes, codes, is_alphanumeric, strip_prefix}
use m_url.Kind.{Kind, https, file, dir, murl, terminal, ssh, remote_desktop, geo, mailto, custom}
use m_url.Murl.Types.{Murl, MurlParseError}
use m_url.Murl.Parse.{parse}
use m_url.Manifest.Target.Types.{bad_murl, Checked}
use m_url.Manifest.Target.Hosts.{validate_ssh_target, validate_remote_desktop_target}
use m_url.Manifest.Target.Messages.{Floats, validate_geo_target, validate_mailto_target}
use m_url.Manifest.Target.Paths.{validate_web_target, validate_path_target, validate_custom_target}

unfoldable pub is_integrity_text : Option Bytes → Bool
is_integrity_text none = false
is_integrity_text (some b64) =
    length b64 == 44 && all (λ b. is_alphanumeric b || (b == b'+' || b == b'/' || b == b'=')) b64

unfoldable pub is_valid_integrity : Bytes → Bool
is_valid_integrity s = is_integrity_text (strip_prefix (codes "sha256-") s)

unfoldable pub check_murl : Result MurlParseError Murl → Checked
check_murl (ok m) = ok tt
check_murl (err e) = err (bad_murl e)

unfoldable pub validate_target : Floats → Kind → Bytes → Checked
validate_target floats https target = validate_web_target target
validate_target floats file target = validate_path_target target
validate_target floats dir target = validate_path_target target
validate_target floats terminal target = validate_path_target target
validate_target floats murl target = check_murl (parse target)
validate_target floats ssh target = validate_ssh_target target
validate_target floats remote_desktop target = validate_remote_desktop_target target
validate_target floats geo target = validate_geo_target floats target
validate_target floats mailto target = validate_mailto_target target
validate_target floats (custom name) target = validate_custom_target target
