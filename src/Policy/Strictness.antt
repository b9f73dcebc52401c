-- ===== src/Policy/Strictness.antt =====
-- Tightening a policy never loosens a decision.
use m_url.Base.{ℕ, ◌≤◌, ◌≡◌, ◌⊎◌, true, false, arith}
use m_url.Kind.{Kind}
use m_url.Policy.{
  Tier, safe, sensitive, dangerous, ConsentMode, Policy, EvalContext, Decision, mode_for, is_prompt,
  decide_reasons, early_reasons, check_filesystem, consult, evaluate,
}

abbrev pub mode_rank : ConsentMode → ℕ
mode_rank ConsentMode.allow = 0
mode_rank ConsentMode.prompt = 1
mode_rank ConsentMode.deny = 2

-- How much a decision stands in the way of opening a resource.
abbrev pub strictness : Decision → ℕ
strictness Decision.allow = 0
strictness (Decision.prompt rs) = 1
strictness (Decision.deny r) = 2

-- `q` is at least as strict as `p` in every setting.
pub record IsTighter (p q : Policy) : Type 0 where
  pub safe : mode_rank p.safe ≤ mode_rank q.safe
  pub sensitive : mode_rank p.sensitive ≤ mode_rank q.sensitive
  pub dangerous : mode_rank p.dangerous ≤ mode_rank q.dangerous
  pub trust : (p.dangerous_requires_trust ≡ false) ⊎ (q.dangerous_requires_trust ≡ true)
  pub files : mode_rank p.remote_filesystem_refs ≤ mode_rank q.remote_filesystem_refs

mode_for_mono :
    (p q : Policy) (tier : Tier)
    → IsTighter p q
    → mode_rank (mode_for p tier) ≤ mode_rank (mode_for q tier)
unfolding mode_for
mode_for_mono p q safe t = t.safe
mode_for_mono p q sensitive t = t.sensitive
mode_for_mono p q dangerous t = t.dangerous

-- The decision behind the gates, as a rank.
consult_mono :
    (p q : Policy) (kind : Kind) (tier : Tier) (ctx : EvalContext) (a b : ConsentMode)
    → mode_rank p.remote_filesystem_refs ≤ mode_rank q.remote_filesystem_refs
    → mode_rank a ≤ mode_rank b
    → strictness (consult p kind tier ctx a) ≤ strictness (consult q kind tier ctx b)
unfolding consult check_filesystem decide_reasons early_reasons is_prompt
consult_mono p q kind tier ctx ConsentMode.deny ConsentMode.deny f m = ground arith
consult_mono p q kind tier ctx a b f m = ground arith

strictness-le : (d : Decision) → strictness d ≤ 2
strictness-le Decision.allow = omega arith
strictness-le (Decision.prompt rs) = omega arith
strictness-le (Decision.deny r) = omega arith

-- Under a tighter policy no decision is looser.
pub evaluate_mono :
    (p q : Policy) (kind : Kind) (tier : Tier) (ctx : EvalContext)
    → IsTighter p q
    → strictness (evaluate p kind tier ctx) ≤ strictness (evaluate q kind tier ctx)
unfolding evaluate
evaluate_mono p q kind tier ctx t = ground (
  arith,
  consult_mono p q kind tier ctx (mode_for p tier) (mode_for q tier) t.files
      (mode_for_mono p q tier t),
  strictness-le (consult p kind tier ctx (mode_for p tier)),
)
