-- ===== src/Consent/Closed.antt =====
-- Consent fails closed: what is approved was allowed by the policy, or consented to.
use m_url.Base.{
  ℕ, ◌≡◌, ◌⊎◌, refl, subst, inl, inr, Bool, true, false, List, [], ◌∷◌, Option, none, some,
  Bool-cases, if◌then◌else◌, any,
}
use m_url.Base.Text.{Bytes}
use m_url.Policy.{Decision, allow, prompt, deny, PromptReason, DenyReason}
use m_url.Resolver.Types.{PlannedResource}
use m_url.Dispatch.Types.{Approval, approved, denied, skipped}
use m_url.Consent.{
  OpenOptions, is_left_out, is_skipped, flag_approved, slot_if, answer_of, is_all, is_select,
  is_yes, next_line, later_lines, declined, needs_consent, fill_all, fill_selected, prompt_for,
  is_pending, settle_slots, slot_by_decision, slot_of, cons_slot, slots_of, settle_some, decide,
}

-- The resource is not left out by the options, and its approval is earned: the policy allows it, or asks
-- and either a flag covers its tier or the user can answer at a terminal.
abbrev pub IsEarned : OpenOptions → Bool → PlannedResource → Type 0
IsEarned opts interactive pr =
    (is_left_out opts pr ≡ false)
    × (is_skipped opts pr ≡ false)
    × ((pr.decision ≡ some allow)
        ⊎ ((reasons : List PromptReason) × (pr.decision ≡ some (prompt reasons))
            × ((flag_approved opts pr.tier ≡ true) ⊎ (interactive ≡ true))))

abbrev pub IsConsented : OpenOptions → Bool → PlannedResource → Approval → Type 0
IsConsented opts interactive pr approved = IsEarned opts interactive pr
IsConsented opts interactive pr (denied reason) = Unit
IsConsented opts interactive pr (skipped reason) = Unit

-- One approval for each resource, in order.
abbrev pub AreConsented : OpenOptions → Bool → List PlannedResource → List Approval → Type 0
AreConsented opts interactive [] [] = Unit
AreConsented opts interactive [] (a ∷ as') = ⊥
AreConsented opts interactive (pr ∷ prs) [] = ⊥
AreConsented opts interactive (pr ∷ prs) (a ∷ as') =
    IsConsented opts interactive pr a × AreConsented opts interactive prs as'

-- What a slot of the first loop promises; a pending one may be approved at a terminal.
abbrev IsSlot : OpenOptions → PlannedResource → Option Approval → Type 0
IsSlot opts pr none = IsEarned opts true pr
IsSlot opts pr (some a) = IsConsented opts false pr a

abbrev AreSlots : OpenOptions → List PlannedResource → List (Option Approval) → Type 0
AreSlots opts [] [] = Unit
AreSlots opts [] (s ∷ ss) = ⊥
AreSlots opts (pr ∷ prs) [] = ⊥
AreSlots opts (pr ∷ prs) (s ∷ ss) = IsSlot opts pr s × AreSlots opts prs ss

IsEarned-interactive :
    (opts : OpenOptions) (b : Bool) (pr : PlannedResource)
    → IsEarned opts false pr
    → IsEarned opts b pr
IsEarned-interactive opts b pr (kept, unskipped, inl h) = (kept, unskipped, inl h)
IsEarned-interactive opts b pr (kept, unskipped, inr (reasons, e, inl flag)) =
    (kept, unskipped, inr (reasons, e, inl flag))
IsEarned-interactive opts b pr (kept, unskipped, inr (reasons, e, inr there)) = absurd cc

IsConsented-interactive :
    (opts : OpenOptions) (b : Bool) (pr : PlannedResource) (a : Approval)
    → IsConsented opts false pr a
    → IsConsented opts b pr a
IsConsented-interactive opts b pr approved h = IsEarned-interactive opts b pr h
IsConsented-interactive opts b pr (denied reason) h = tt
IsConsented-interactive opts b pr (skipped reason) h = tt

some_eq : {A : Type 0} {a b : A} → ◌≡◌ {A = Option A} (some a) (some b) → a ≡ b
some_eq h = cc

-- Filling pending slots with an approval that is earned, or that is none.
fill_all-AreConsented :
    (opts : OpenOptions) (b : Bool) (a : Approval) (prs : List PlannedResource)
    (slots : List (Option Approval))
    → ((pr : PlannedResource) → IsEarned opts true pr → IsConsented opts b pr a)
    → AreSlots opts prs slots
    → AreConsented opts b prs (fill_all a slots)
unfolding fill_all
fill_all-AreConsented opts b a [] [] f h = tt
fill_all-AreConsented opts b a [] (s ∷ slots) f h = absurd h
fill_all-AreConsented opts b a (pr ∷ prs) [] f h = absurd h
fill_all-AreConsented opts b a (pr ∷ prs) (none ∷ slots) f (h, hs) =
    (f pr h, fill_all-AreConsented opts b a prs slots f hs)
fill_all-AreConsented opts b a (pr ∷ prs) (some c ∷ slots) f (h, hs) =
    (IsConsented-interactive opts b pr c h, fill_all-AreConsented opts b a prs slots f hs)

answer-IsConsented :
    (opts : OpenOptions) (pr : PlannedResource) (c : Bool)
    → IsEarned opts true pr
    → IsConsented opts true pr (if c then approved else declined)
answer-IsConsented opts pr true h = h
answer-IsConsented opts pr false h = tt

fill_selected-AreConsented :
    (opts : OpenOptions) (lines : List (List ℕ)) (prs : List PlannedResource)
    (slots : List (Option Approval))
    → AreSlots opts prs slots
    → AreConsented opts true prs (fill_selected lines slots)
unfolding fill_selected
fill_selected-AreConsented opts lines [] [] h = tt
fill_selected-AreConsented opts lines [] (s ∷ slots) h = absurd h
fill_selected-AreConsented opts lines (pr ∷ prs) [] h = absurd h
fill_selected-AreConsented opts lines (pr ∷ prs) (none ∷ slots) (h, hs) = (
  answer-IsConsented opts pr (is_yes (answer_of (next_line lines))) h,
  fill_selected-AreConsented opts (later_lines lines) prs slots hs,
)
fill_selected-AreConsented opts lines (pr ∷ prs) (some c ∷ slots) (h, hs) =
    (IsConsented-interactive opts true pr c h, fill_selected-AreConsented opts lines prs slots hs)

prompt_for-AreConsented :
    (opts : OpenOptions) (lines : List (List ℕ)) (prs : List PlannedResource)
    (slots : List (Option Approval))
    → AreSlots opts prs slots
    → AreConsented opts true prs (prompt_for lines slots)
unfolding prompt_for
prompt_for-AreConsented opts lines prs slots h =
    elim (Bool-cases (is_all (answer_of (next_line lines)))) [
      | inl e ↦ rw e (fill_all-AreConsented opts true approved prs slots (λ pr earned. earned) h)
      | inr e ↦ elim (Bool-cases (is_select (answer_of (next_line lines)))) [
        | inl c ↦ rw e (rw c (fill_selected-AreConsented opts (later_lines lines) prs slots h))
        | inr c ↦
            rw e (rw c (fill_all-AreConsented opts true declined prs slots (λ pr earned. tt) h))
      ]
    ]

settle_slots-AreConsented :
    (opts : OpenOptions) (interactive : Bool) (lines : List (List ℕ)) (prs : List PlannedResource)
    (slots : List (Option Approval))
    → AreSlots opts prs slots
    → AreConsented opts interactive prs (settle_slots interactive lines slots)
unfolding settle_slots
settle_slots-AreConsented opts interactive lines prs slots h =
    elim (Bool-cases (any is_pending slots)) [
      | inr e ↦ rw e (fill_all-AreConsented opts interactive declined prs slots (λ pr earned. tt) h)
      | inl e ↦ rw e (asked interactive)
    ]
  where
    asked :
        (b : Bool)
        → AreConsented opts b prs
            (if b then prompt_for lines slots else fill_all needs_consent slots)
    asked true = prompt_for-AreConsented opts lines prs slots h
    asked false = fill_all-AreConsented opts false needs_consent prs slots (λ pr earned. tt) h

module _ (show_deny : DenyReason → Bytes) (opts : OpenOptions) where
  slot_by_decision-IsSlot :
      (pr : PlannedResource) (slot : Option Approval)
      → is_left_out opts pr ≡ false
      → is_skipped opts pr ≡ false
      → slot_by_decision show_deny opts pr.tier pr.decision ≡ some slot
      → IsSlot opts pr slot
  unfolding slot_by_decision
  slot_by_decision-IsSlot pr slot kept unskipped h = go pr.decision refl h
    where
      flagged :
          (c : Bool) (reasons : List PromptReason)
          → pr.decision ≡ some (prompt reasons)
          → flag_approved opts pr.tier ≡ c
          → IsSlot opts pr (slot_if c)
      flagged true reasons e f = (kept, unskipped, inr (reasons, e, inl f))
      flagged false reasons e f = (kept, unskipped, inr (reasons, e, inr refl))

      go :
          (d : Option Decision)
          → pr.decision ≡ d
          → slot_by_decision show_deny opts pr.tier d ≡ some slot
          → IsSlot opts pr slot
      go none e h = absurd cc
      go (some allow) e h = subst (IsSlot opts pr) (some_eq h) (kept, unskipped, inl e)
      go (some (deny reason)) e h = subst (IsSlot opts pr) (some_eq h) tt
      go (some (prompt reasons)) e h =
          subst (IsSlot opts pr) (some_eq h) (flagged (flag_approved opts pr.tier) reasons e refl)

  slot_of-IsSlot :
      (pr : PlannedResource) (slot : Option Approval)
      → slot_of show_deny opts pr ≡ some slot
      → IsSlot opts pr slot
  unfolding slot_of
  slot_of-IsSlot pr slot h = elim (Bool-cases (is_left_out opts pr)) [
    | inl e ↦ subst (IsSlot opts pr) (some_eq (rw e at h)) tt
    | inr e ↦ elim (Bool-cases (is_skipped opts pr)) [
      | inl c ↦ subst (IsSlot opts pr) (some_eq (rw c at (rw e at h))) tt
      | inr c ↦ slot_by_decision-IsSlot pr slot e c (rw c at (rw e at h))
    ]
  ]

  slots_of-AreSlots :
      (prs : List PlannedResource) (slots : List (Option Approval))
      → slots_of show_deny opts prs ≡ some slots
      → AreSlots opts prs slots
  unfolding slots_of
  slots_of-AreSlots [] slots h = subst (AreSlots opts []) (some_eq h) tt
  slots_of-AreSlots (pr ∷ prs) slots h =
      go (slot_of show_deny opts pr) (slots_of show_deny opts prs) refl refl
        (λ ss e. slots_of-AreSlots prs ss e) h
    where
      go :
          (s : Option (Option Approval)) (ss : Option (List (Option Approval)))
          → slot_of show_deny opts pr ≡ s
          → slots_of show_deny opts prs ≡ ss
          → ((ss : List (Option Approval))
              → slots_of show_deny opts prs ≡ some ss
              → AreSlots opts prs ss)
          → cons_slot show_deny s ss ≡ some slots
          → AreSlots opts (pr ∷ prs) slots
      go none ss e es ih h = absurd cc
      go (some s) none e es ih h = absurd cc
      go (some s) (some ss) e es ih h =
          subst (AreSlots opts (pr ∷ prs)) (some_eq h) (slot_of-IsSlot pr s e, ih ss es)

-- Consent gives one answer for each resource of the plan, in order, and approves a resource only if the
-- options leave it in, and the policy allows it, or the policy asks and either a flag covers its tier
-- or there is a terminal to answer at. What the policy denies is never approved.
pub decide-AreConsented :
    (show_deny : DenyReason → Bytes) (opts : OpenOptions) (interactive : Bool)
    (lines : List (List ℕ)) (prs : List PlannedResource) (approvals : List Approval)
    → decide show_deny opts interactive lines prs ≡ some approvals
    → AreConsented opts interactive prs approvals
unfolding decide
decide-AreConsented show_deny opts interactive lines prs approvals h =
    go (slots_of show_deny opts prs) refl h
  where
    go :
        (slots : Option (List (Option Approval)))
        → slots_of show_deny opts prs ≡ slots
        → settle_some show_deny interactive lines slots ≡ some approvals
        → AreConsented opts interactive prs approvals
    go none e h = absurd cc
    go (some slots) e h = subst (AreConsented opts interactive prs) (some_eq h) (
        settle_slots-AreConsented opts interactive lines prs slots
          (slots_of-AreSlots show_deny opts prs slots e))
