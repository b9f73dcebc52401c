-- ===== src/Consent/Tests.antt =====
-- Answers to a plan, and the property there.
use m_url.Base.Text.{
  bytes_eq, lowercase, contains, strip_prefix, starts_with, ends_with, ends_with_text, split_once,
  rsplit_once, split_by, split, first_piece, last_piece, join,
}
use m_url.Consent.{
  is_left_out, is_skipped, flag_approved, trim_start, trim_end_of, answer_of, fill_all,
  fill_selected, prompt_for, settle_slots, slot_by_decision, slot_of, slots_of, decide,
}
use m_url.Base.{◌≡◌, refl, true, false, List, [], ◌∷◌, none, some}
use m_url.Base.Int.{pos}
use m_url.Base.Text.{Bytes, codes}
use m_url.Kind.{https}
use m_url.Policy.{Tier, safe, dangerous, Decision, allow, prompt, DenyReason, tier_resource}
use m_url.Resolver.Types.{PlannedResource}
use m_url.Dispatch.Types.{approved, skipped}
use m_url.Consent.{OpenOptions, declined, needs_consent}
use m_url.Consent.Closed.{AreConsented, decide-AreConsented}

program : Unit {0}
unfolding bytes_eq lowercase contains strip_prefix starts_with ends_with ends_with_text split_once
    rsplit_once split_by split first_piece last_piece join is_left_out is_skipped flag_approved
    trim_start trim_end_of answer_of fill_all fill_selected prompt_for settle_slots slot_by_decision
    slot_of slots_of decide
program = tt

abbrev planned : Bytes → Tier → Decision → PlannedResource
planned id tier decision = record {
  resource = record {
    id = id;
    kind = codes "https";
    target = codes "https://a.example/";
    label = none;
    role = none;
    required = true;
    order = pos 0;
    depends_on = [];
    tags = [];
    integrity = none;
    meta = none;
  };
  kind = https;
  tier = tier;
  node = 0;
  root_anchor = id;
  decision = some decision;
}

abbrev plan : List PlannedResource
plan =
    planned (codes "a") safe allow
    ∷ planned (codes "b") dangerous (prompt (tier_resource dangerous ∷ []))
    ∷ planned (codes "c") safe (prompt [])
    ∷ planned (codes "d") safe allow
    ∷ []

abbrev no_text : DenyReason → Bytes
no_text reason = codes "no"

abbrev options : OpenOptions
options = record {
  yes = true;
  allow_sensitive = false;
  allow_dangerous = false;
  only = [];
  skip = codes "d" ∷ [];
}

abbrev skip_text : Bytes
skip_text = codes "skipped (--skip)"

-- Without a terminal, what no flag covers is denied.
closed_sample :
    decide no_text options false [] plan
    ≡ some (approved ∷ needs_consent ∷ approved ∷ skipped skip_text ∷ [])
unfolding program
closed_sample = refl

-- At a terminal the user selects, and says no to the one question.
selected_sample :
    decide no_text options true (codes " S\n" ∷ codes "n\n" ∷ []) plan
    ≡ some (approved ∷ declined ∷ approved ∷ skipped skip_text ∷ [])
unfolding program
selected_sample = refl

all_sample :
    decide no_text options true (codes "All\n" ∷ []) plan
    ≡ some (approved ∷ approved ∷ approved ∷ skipped skip_text ∷ [])
unfolding program
all_sample = refl

decide-AreConsented_example :
    AreConsented options false plan (approved ∷ needs_consent ∷ approved ∷ skipped skip_text ∷ [])
decide-AreConsented_example =
    decide-AreConsented no_text options false [] plan
      (approved ∷ needs_consent ∷ approved ∷ skipped skip_text ∷ []) closed_sample
