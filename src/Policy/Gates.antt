-- ===== src/Policy/Gates.antt =====
-- Which decisions the policy engine can reach.
use m_url.Base.{◌≡◌, ◌↔◌, ◌⊎◌, Bool, true, false, ◌&&◌, arith}
use m_url.Kind.{Kind, is_filesystem}
use m_url.Trust.Status.{is_trusted}
use m_url.Policy.{
  Tier, safe, ConsentMode, Policy, EvalContext, Decision, is_safe, is_dangerous, mode_for,
  is_prompt, decide_reasons, early_reasons, late_reasons, check_filesystem, consult, evaluate,
}

-- What has to hold for a resource to open without a question.
pub record OpensSilently (p : Policy) (kind : Kind) (tier : Tier) (ctx : EvalContext) : Type 0 where
  pub mode_allows : mode_for p tier ≡ ConsentMode.allow
  pub current : ctx.manifest_expired ≡ false
  pub started : ctx.manifest_premature ≡ false
  pub files_allowed :
      ((ctx.remote_origin && is_filesystem kind) ≡ false)
      ⊎ (p.remote_filesystem_refs ≡ ConsentMode.allow)
  pub trusted : (is_dangerous tier ≡ false) ⊎ (is_trusted ctx.trust ≡ true)

module _ (p : Policy) (kind : Kind) where
  allow-OpensSilently :
      (tier : Tier) (ctx : EvalContext)
      → evaluate p kind tier ctx ≡ Decision.allow
      → OpensSilently p kind tier ctx
  unfolding evaluate consult check_filesystem decide_reasons early_reasons late_reasons mode_for
      is_safe is_dangerous is_prompt
  allow-OpensSilently safe ctx h = ground arith
  allow-OpensSilently _ ctx h = ground arith

  OpensSilently-allow :
      (tier : Tier) (ctx : EvalContext)
      → OpensSilently p kind tier ctx
      → evaluate p kind tier ctx ≡ Decision.allow
  unfolding evaluate consult check_filesystem decide_reasons early_reasons late_reasons mode_for
      is_safe is_dangerous is_prompt
  OpensSilently-allow safe ctx h = ground arith
  OpensSilently-allow _ ctx h = ground arith

-- A resource opens without a question exactly if the mode of its tier is allow, the manifest is
-- neither expired nor premature, a remote manifest's reference to the file system is allowed, and
-- a dangerous resource comes from a trusted manifest.
pub evaluate-allow_iff :
    (p : Policy) (kind : Kind) (tier : Tier) (ctx : EvalContext)
    → (evaluate p kind tier ctx ≡ Decision.allow) ↔ OpensSilently p kind tier ctx
evaluate-allow_iff p kind tier ctx =
    (allow-OpensSilently p kind tier ctx, OpensSilently-allow p kind tier ctx)

-- The grounds for a refusal that consent cannot override.
abbrev pub IsRefused : Policy → Kind → Tier → EvalContext → Type 0
IsRefused p kind tier ctx =
    (is_dangerous tier ≡ true)
      × (p.dangerous_requires_trust ≡ true)
      × (is_trusted ctx.trust ≡ false)
    ⊎ ((is_safe tier ≡ false) × ((ctx.manifest_expired ≡ true) ⊎ (ctx.manifest_premature ≡ true))
        ⊎ ((mode_for p tier ≡ ConsentMode.deny)
            ⊎ ((ctx.remote_origin && is_filesystem kind) ≡ true)
              × (p.remote_filesystem_refs ≡ ConsentMode.deny)))

abbrev pub is_deny : Decision → Bool
is_deny (Decision.deny r) = true
is_deny _ = false

module _ (p : Policy) (kind : Kind) where
  deny-IsRefused :
      (tier : Tier) (ctx : EvalContext)
      → is_deny (evaluate p kind tier ctx) ≡ true
      → IsRefused p kind tier ctx
  unfolding evaluate consult check_filesystem decide_reasons early_reasons late_reasons mode_for
      is_safe is_dangerous is_prompt
  deny-IsRefused safe ctx h = ground arith
  deny-IsRefused _ ctx h = ground arith

  IsRefused-deny :
      (tier : Tier) (ctx : EvalContext)
      → IsRefused p kind tier ctx
      → is_deny (evaluate p kind tier ctx) ≡ true
  unfolding evaluate consult check_filesystem decide_reasons early_reasons late_reasons mode_for
      is_safe is_dangerous is_prompt
  IsRefused-deny safe ctx h = ground arith
  IsRefused-deny _ ctx h = ground arith

-- A resource is refused exactly if it is dangerous, trust is required for that and the manifest
-- is not trusted; or it is not safe and the manifest is expired or premature; or the mode of its
-- tier is deny; or it is a remote manifest's reference to the file system and these are denied.
pub evaluate-deny_iff :
    (p : Policy) (kind : Kind) (tier : Tier) (ctx : EvalContext)
    → (is_deny (evaluate p kind tier ctx) ≡ true) ↔ IsRefused p kind tier ctx
evaluate-deny_iff p kind tier ctx = (deny-IsRefused p kind tier ctx, IsRefused-deny p kind tier ctx)
