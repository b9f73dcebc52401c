-- ===== src/Policy.antt =====
-- crates/murl-core/src/policy.rs: classification of resources and consent decisions. A reason that
-- the source gives as a text is a constructor here.
mod Tests
pub mod Gates
pub mod Strictness
use m_url.Base.{
  Bool, true, false, not, ◌&&◌, List, [], ◌∷◌, ◌++◌, if◌then◌else◌, Option, none, some,
}
use m_url.Base.Text.{Bytes, codes}
use m_url.Kind.{
  Kind, https, file, dir, murl, terminal, ssh, remote_desktop, geo, mailto, custom, is_filesystem,
  has_executable_extension,
}
use m_url.Trust.Status.{TrustStatus, is_trusted}

pub data Tier : Type 0 where
  safe sensitive dangerous : Tier

-- The `Display` of a tier.
unfoldable pub show_tier : Tier → Bytes
show_tier safe = codes "SAFE"
show_tier sensitive = codes "SENSITIVE"
show_tier dangerous = codes "DANGEROUS"

unfoldable pub classify : Kind → Bytes → Tier
classify https target = safe
classify murl target = safe
classify dir target = sensitive
classify file target = if has_executable_extension target then dangerous else sensitive
classify terminal target = dangerous
classify ssh target = dangerous
classify remote_desktop target = dangerous
classify geo target = safe
classify mailto target = safe
classify (custom name) target = dangerous

pub data ConsentMode : Type 0 where
  allow prompt deny : ConsentMode

pub record Policy : Type 0 where
  pub safe : ConsentMode
  pub sensitive : ConsentMode
  pub dangerous : ConsentMode
  pub dangerous_requires_trust : Bool
  pub remote_filesystem_refs : ConsentMode

abbrev pub default_policy : Policy
default_policy = record {
  safe = prompt;
  sensitive = prompt;
  dangerous = prompt;
  dangerous_requires_trust = true;
  remote_filesystem_refs = prompt;
}

pub record EvalContext : Type 0 where
  pub trust : TrustStatus
  pub manifest_expired : Bool
  pub manifest_premature : Bool
  pub remote_origin : Bool

pub data PromptReason : Type 0 where
  tier_resource : Tier → PromptReason
  expired_manifest premature_manifest remote_filesystem_reference untrusted_dangerous : PromptReason

pub data DenyReason : Type 0 where
  untrusted_manifest : TrustStatus → DenyReason
  manifest_is_expired manifest_not_yet_valid : DenyReason
  tier_disabled : Tier → DenyReason
  remote_filesystem_forbidden : DenyReason

pub data Decision : Type 0 where
  allow : Decision
  prompt : List PromptReason → Decision
  deny : DenyReason → Decision

unfoldable pub is_safe : Tier → Bool
is_safe safe = true
is_safe _ = false

unfoldable pub is_dangerous : Tier → Bool
is_dangerous dangerous = true
is_dangerous _ = false

unfoldable pub mode_for : Policy → Tier → ConsentMode
mode_for p safe = p.safe
mode_for p sensitive = p.sensitive
mode_for p dangerous = p.dangerous

abbrev pub push_if : Bool → PromptReason → List PromptReason
push_if true r = r ∷ []
push_if false r = []

unfoldable pub is_prompt : ConsentMode → Bool
is_prompt ConsentMode.prompt = true
is_prompt _ = false

-- `if reasons.is_empty() { Allow } else { Prompt(reasons) }`
unfoldable pub decide_reasons : List PromptReason → Decision
decide_reasons [] = Decision.allow
decide_reasons (r ∷ rs) = Decision.prompt (r ∷ rs)

-- The reasons that are pushed before and after the check of file system references.
unfoldable pub early_reasons : ConsentMode → Tier → EvalContext → List PromptReason
early_reasons mode tier ctx =
    push_if (is_prompt mode) (tier_resource tier)
    ++ (push_if ctx.manifest_expired expired_manifest
        ++ push_if ctx.manifest_premature premature_manifest)

unfoldable pub late_reasons : Tier → EvalContext → List PromptReason
late_reasons tier ctx =
    push_if (is_dangerous tier && not (is_trusted ctx.trust)) untrusted_dangerous

-- The check of file system references; the last argument is `remote_filesystem_refs`.
unfoldable pub check_filesystem :
    Bool → List PromptReason → List PromptReason → ConsentMode → Decision
check_filesystem false early late refs = decide_reasons (early ++ late)
check_filesystem true early late ConsentMode.deny = Decision.deny remote_filesystem_forbidden
check_filesystem true early late ConsentMode.prompt =
    decide_reasons (early ++ (remote_filesystem_reference ∷ late))
check_filesystem true early late ConsentMode.allow = decide_reasons (early ++ late)

-- `evaluate` after the hard gates.
unfoldable pub consult : Policy → Kind → Tier → EvalContext → ConsentMode → Decision
consult p kind tier ctx ConsentMode.deny = Decision.deny (tier_disabled tier)
consult p kind tier ctx mode =
    check_filesystem (ctx.remote_origin && is_filesystem kind) (early_reasons mode tier ctx)
      (late_reasons tier ctx) p.remote_filesystem_refs

unfoldable pub evaluate : Policy → Kind → Tier → EvalContext → Decision
evaluate p kind tier ctx =
    if is_dangerous tier && p.dangerous_requires_trust && not (is_trusted ctx.trust)
    then Decision.deny (untrusted_manifest ctx.trust)
    else if ctx.manifest_expired && not (is_safe tier)
    then Decision.deny manifest_is_expired
    else if ctx.manifest_premature && not (is_safe tier)
    then Decision.deny manifest_not_yet_valid
    else consult p kind tier ctx (mode_for p tier)
