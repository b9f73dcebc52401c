-- ===== src/Policy/Tests.antt =====
-- Runs of the policy engine, and its properties at such inputs.
use m_url.Base.{◌≡◌, ◌≤◌, ◌↔◌, inr, refl, true, false, [], ◌∷◌, arith}
use m_url.Base.Text.{codes, lowercase, last_piece, rsplit_once, bytes_eq}
use m_url.Kind.{
  file, terminal, is_filesystem, trim_end, is_listed_extension, has_executable_extension,
}
use m_url.Trust.Status.{unsigned_remote}
use m_url.Policy.{
  safe, dangerous, ConsentMode, Policy, EvalContext, Decision, is_safe, is_dangerous, mode_for,
  is_prompt, decide_reasons, early_reasons, late_reasons, check_filesystem, consult, classify,
  default_policy, evaluate, tier_resource, remote_filesystem_reference,
}
use m_url.Policy.Gates.{OpensSilently, IsRefused, is_deny, evaluate-allow_iff, evaluate-deny_iff}
use m_url.Policy.Strictness.{IsTighter, strictness, evaluate_mono}

abbrev unsigned_context : EvalContext
unsigned_context = record {
  trust = unsigned_remote;
  manifest_expired = false;
  manifest_premature = false;
  remote_origin = true;
}

abbrev trusting : Policy
trusting = record default_policy { dangerous_requires_trust = false; sensitive = ConsentMode.allow }

evaluate_sensitive :
    evaluate trusting terminal safe unsigned_context
    ≡ Decision.prompt (tier_resource safe ∷ remote_filesystem_reference ∷ [])
unfolding evaluate consult check_filesystem decide_reasons early_reasons late_reasons mode_for
    is_safe is_dangerous is_prompt is_filesystem
evaluate_sensitive = refl

classify_script : classify file (codes "/home/me/run.sh") ≡ dangerous
unfolding classify has_executable_extension lowercase last_piece rsplit_once bytes_eq trim_end
    is_listed_extension
classify_script = refl

evaluate-allow_iff_example :
    (evaluate trusting terminal dangerous unsigned_context ≡ Decision.allow)
    ↔ OpensSilently trusting terminal dangerous unsigned_context
evaluate-allow_iff_example = evaluate-allow_iff trusting terminal dangerous unsigned_context

evaluate-deny_iff_example :
    (is_deny (evaluate default_policy terminal dangerous unsigned_context) ≡ true)
    ↔ IsRefused default_policy terminal dangerous unsigned_context
evaluate-deny_iff_example = evaluate-deny_iff default_policy terminal dangerous unsigned_context

tighter : IsTighter trusting default_policy
tighter = record {
  safe = omega arith;
  sensitive = omega arith;
  dangerous = omega arith;
  trust = inr refl;
  files = omega arith;
}

evaluate_mono_example :
    strictness (evaluate trusting terminal dangerous unsigned_context)
    ≤ strictness (evaluate default_policy terminal dangerous unsigned_context)
evaluate_mono_example =
    evaluate_mono trusting default_policy terminal dangerous unsigned_context tighter
