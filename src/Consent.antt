-- ===== src/Consent.antt =====
-- crates/murl-cli/src/consent.rs: which resources of a plan the user consents to. The text of a refusal, what
-- the terminal's lines are, and whether there is a terminal, are parameters. A line is the list of its
-- characters.
pub mod Closed
mod Tests
use m_url.Base.{
  ℕ, Bool, true, false, not, ◌&&◌, ◌||◌, List, [], ◌∷◌, Option, none, some, leb, ◌==◌,
  if◌then◌else◌, any,
}
use m_url.Base.Text.{Bytes, codes, bytes_eq, lowercase}
use m_url.Policy.{Tier, safe, sensitive, dangerous, Decision, allow, prompt, deny, DenyReason}
use m_url.Resolver.Types.{PlannedResource}
use m_url.Dispatch.Types.{Approval, approved, denied, skipped}

-- The options of `murl open` that the consent depends on.
pub record OpenOptions : Type 0 where
  pub yes : Bool
  pub allow_sensitive : Bool
  pub allow_dangerous : Bool
  pub only : List Bytes
  pub skip : List Bytes

abbrev pub is_nil : List Bytes → Bool
is_nil [] = true
is_nil (s ∷ ss) = false

-- `--only` is given and names neither the resource nor its root anchor.
unfoldable pub is_left_out : OpenOptions → PlannedResource → Bool
is_left_out opts pr =
    not (is_nil opts.only)
    && not (any (λ s. bytes_eq s pr.resource.id || bytes_eq s pr.root_anchor) opts.only)

unfoldable pub is_skipped : OpenOptions → PlannedResource → Bool
is_skipped opts pr = any (λ s. bytes_eq s pr.resource.id) opts.skip

unfoldable pub flag_approved : OpenOptions → Tier → Bool
flag_approved opts safe = opts.yes || opts.allow_sensitive || opts.allow_dangerous
flag_approved opts sensitive = opts.allow_sensitive
flag_approved opts dangerous = opts.allow_dangerous

abbrev pub slot_if : Bool → Option Approval
slot_if true = some approved
slot_if false = none

-- The characters that `str::trim` takes off.
abbrev pub is_blank_char : ℕ → Bool
is_blank_char c =
    (leb 9 c && leb c 13)
    || c == 0x20
    || c == 0x85
    || c == 0xa0
    || c == 0x1680
    || (leb 0x2000 c && leb c 0x200a)
    || c == 0x2028
    || c == 0x2029
    || c == 0x202f
    || c == 0x205f
    || c == 0x3000

unfoldable pub trim_start : List ℕ → List ℕ
trim_start [] = []
trim_start (c ∷ s) = let rest = trim_start s in if is_blank_char c then rest else c ∷ s

abbrev pub cons_unless_blank : ℕ → List ℕ → List ℕ
cons_unless_blank c [] = if is_blank_char c then [] else c ∷ []
cons_unless_blank c (d ∷ s) = c ∷ d ∷ s

unfoldable pub trim_end_of : List ℕ → List ℕ
trim_end_of [] = []
trim_end_of (c ∷ s) = cons_unless_blank c (trim_end_of s)

-- A line, in lower case and trimmed; only the letters of the answers matter.
unfoldable pub answer_of : List ℕ → List ℕ
answer_of line = trim_end_of (trim_start (lowercase line))

abbrev pub is_all : List ℕ → Bool
is_all answer = bytes_eq answer (codes "a") || bytes_eq answer (codes "all")

abbrev pub is_select : List ℕ → Bool
is_select answer = bytes_eq answer (codes "s") || bytes_eq answer (codes "select")

abbrev pub is_yes : List ℕ → Bool
is_yes answer = bytes_eq answer (codes "y") || bytes_eq answer (codes "yes")

-- `read_line`: the empty line at the end of the input.
abbrev pub next_line : List (List ℕ) → List ℕ
next_line [] = []
next_line (l ∷ ls) = l

abbrev pub later_lines : List (List ℕ) → List (List ℕ)
later_lines [] = []
later_lines (l ∷ ls) = ls

abbrev pub declined : Approval
declined = denied (codes "declined")

abbrev pub needs_consent : Approval
needs_consent = denied (
    codes
      "requires consent; re-run interactively or pass --yes / --allow-sensitive / --allow-dangerous")

-- The slots, with one approval for every pending one.
unfoldable pub fill_all : Approval → List (Option Approval) → List Approval
fill_all a [] = []
fill_all a (none ∷ slots) = a ∷ fill_all a slots
fill_all a (some b ∷ slots) = b ∷ fill_all a slots

-- One question for every pending slot.
unfoldable pub fill_selected : List (List ℕ) → List (Option Approval) → List Approval
fill_selected lines [] = []
fill_selected lines (none ∷ slots) =
    (if is_yes (answer_of (next_line lines)) then approved else declined)
    ∷ fill_selected (later_lines lines) slots
fill_selected lines (some b ∷ slots) = b ∷ fill_selected lines slots

unfoldable pub prompt_for : List (List ℕ) → List (Option Approval) → List Approval
prompt_for lines slots =
    if is_all (answer_of (next_line lines))
    then fill_all approved slots
    else if is_select (answer_of (next_line lines))
    then fill_selected (later_lines lines) slots
    else fill_all declined slots

abbrev pub is_pending : Option Approval → Bool
is_pending none = true
is_pending (some a) = false

-- The part of `decide` behind the loop.
unfoldable pub settle_slots : Bool → List (List ℕ) → List (Option Approval) → List Approval
settle_slots interactive lines slots =
    if any is_pending slots
    then (if interactive then prompt_for lines slots else fill_all needs_consent slots)
    else fill_all declined slots

module _ (show_deny : DenyReason → Bytes) where
  -- The slot by the decision; a resource without one is a panic.
  unfoldable pub slot_by_decision : OpenOptions → Tier → Option Decision → Option (Option Approval)
  slot_by_decision opts tier none = none
  slot_by_decision opts tier (some (deny reason)) = some (some (denied (show_deny reason)))
  slot_by_decision opts tier (some allow) = some (some approved)
  slot_by_decision opts tier (some (prompt reasons)) = some (slot_if (flag_approved opts tier))

  -- One round of the loop; a slot without an approval is pending.
  unfoldable pub slot_of : OpenOptions → PlannedResource → Option (Option Approval)
  slot_of opts pr =
      if is_left_out opts pr
      then some (some (skipped (codes "not selected (--only)")))
      else if is_skipped opts pr
      then some (some (skipped (codes "skipped (--skip)")))
      else slot_by_decision opts pr.tier pr.decision

  abbrev pub cons_slot :
      Option (Option Approval) → Option (List (Option Approval)) → Option (List (Option Approval))
  cons_slot none slots = none
  cons_slot (some a) none = none
  cons_slot (some a) (some slots) = some (a ∷ slots)

  unfoldable pub slots_of : OpenOptions → List PlannedResource → Option (List (Option Approval))
  slots_of opts [] = some []
  slots_of opts (pr ∷ prs) = cons_slot (slot_of opts pr) (slots_of opts prs)

  abbrev pub settle_some :
      Bool → List (List ℕ) → Option (List (Option Approval)) → Option (List Approval)
  settle_some interactive lines none = none
  settle_some interactive lines (some slots) = some (settle_slots interactive lines slots)

  unfoldable pub decide :
      OpenOptions → Bool → List (List ℕ) → List PlannedResource → Option (List Approval)
  decide opts interactive lines prs = settle_some interactive lines (slots_of opts prs)
