-- ===== src/Dispatch/Aggregate.antt =====
-- What the aggregate status of an execution says of its outcomes.
use m_url.Base.{not, ◌≡◌, ◌⊎◌, ◌↔◌, refl, ◌∙◌, Bool, true, false, ◌&&◌, ◌||◌, List, [], ◌∷◌, arith}
use m_url.Resolver.Types.{PlannedResource}
use m_url.Dispatch.Types.{OutcomeStatus, ResourceOutcome, AggregateStatus}
use m_url.Dispatch.Execute.{Flags, note_outcome, aggregate_loop, conclude, no_flags, aggregate}

abbrev pub is_open : OutcomeStatus → Bool
is_open OutcomeStatus.opened = true
is_open _ = false

abbrev pub is_denied : OutcomeStatus → Bool
is_denied OutcomeStatus.denied = true
is_denied _ = false

-- Tried and not opened.
abbrev pub is_bad : OutcomeStatus → Bool
is_bad OutcomeStatus.failed = true
is_bad OutcomeStatus.unavailable = true
is_bad _ = false

-- Some resource of the plan and its outcome pass the test.
abbrev pub some_pair :
    (PlannedResource → OutcomeStatus → Bool) → List PlannedResource → List ResourceOutcome → Bool
some_pair test (pr ∷ prs) (out ∷ outs) = test pr out.status || some_pair test prs outs
some_pair test _ _ = false

-- What the flags hold in the end, from the flags at the start.
abbrev pub summary : List PlannedResource → List ResourceOutcome → Flags → Flags
summary prs outs f = record {
  any_opened = some_pair (λ pr s. is_open s) prs outs || f.any_opened;
  any_bad = some_pair (λ pr s. is_bad s) prs outs || f.any_bad;
  any_denied = some_pair (λ pr s. is_denied s) prs outs || f.any_denied;
  required_missed =
      some_pair (λ pr s. pr.resource.required && (is_bad s || is_denied s)) prs outs
      || f.required_missed;
}

-- One outcome's share of the flags.
note_outcome-flags :
    (r : Bool) (s : OutcomeStatus) (o b d m : Bool) (f : Flags)
    → ◌≡◌ {A = Flags}
        (record {
          any_opened = o || (note_outcome r s f).any_opened;
          any_bad = b || (note_outcome r s f).any_bad;
          any_denied = d || (note_outcome r s f).any_denied;
          required_missed = m || (note_outcome r s f).required_missed;
        })
        (record {
          any_opened = (is_open s || o) || f.any_opened;
          any_bad = (is_bad s || b) || f.any_bad;
          any_denied = (is_denied s || d) || f.any_denied;
          required_missed = ((r && (is_bad s || is_denied s)) || m) || f.required_missed;
        })
unfolding note_outcome
note_outcome-flags r s o b d m f = ground arith

note-summary :
    (pr : PlannedResource) (out : ResourceOutcome) (prs : List PlannedResource)
    (outs : List ResourceOutcome) (f : Flags)
    → summary prs outs (note_outcome pr.resource.required out.status f)
      ≡ summary (pr ∷ prs) (out ∷ outs) f
note-summary pr out prs outs f = note_outcome-flags pr.resource.required out.status _ _ _ _ f

aggregate_loop-summary :
    (prs : List PlannedResource) (outs : List ResourceOutcome) (f : Flags)
    → aggregate_loop prs outs f ≡ summary prs outs f
unfolding aggregate_loop
aggregate_loop-summary [] outs f = refl
aggregate_loop-summary (pr ∷ prs) [] f = refl
aggregate_loop-summary (pr ∷ prs) (out ∷ outs) f =
    aggregate_loop-summary prs outs _ ∙ note-summary pr out prs outs f

abbrev pub some_opened : List PlannedResource → List ResourceOutcome → Bool
some_opened = some_pair (λ pr s. is_open s)

abbrev pub some_bad : List PlannedResource → List ResourceOutcome → Bool
some_bad = some_pair (λ pr s. is_bad s)

abbrev pub some_denied : List PlannedResource → List ResourceOutcome → Bool
some_denied = some_pair (λ pr s. is_denied s)

-- A required resource was denied, or was tried and did not open.
abbrev pub some_missed : List PlannedResource → List ResourceOutcome → Bool
some_missed = some_pair (λ pr s. pr.resource.required && (is_bad s || is_denied s))

missed-bad_or_denied :
    (prs : List PlannedResource) (outs : List ResourceOutcome)
    → some_bad prs outs ≡ false
    → some_denied prs outs ≡ false
    → some_missed prs outs ≡ false
missed-bad_or_denied [] outs b d = refl
missed-bad_or_denied (pr ∷ prs) [] b d = refl
missed-bad_or_denied (pr ∷ prs) (out ∷ outs) b d = ground (arith, missed-bad_or_denied prs outs)

-- What each aggregate status means, by the four flags.
abbrev pub IsVerdict : Bool → Bool → Bool → Bool → AggregateStatus → Type 0
IsVerdict opened bad denied missed AggregateStatus.success = (bad ≡ false) × (denied ≡ false)
IsVerdict opened bad denied missed AggregateStatus.partial =
    (opened ≡ true) × (missed ≡ false) × ((bad ≡ true) ⊎ (denied ≡ true))
IsVerdict opened bad denied missed AggregateStatus.failed =
    (missed ≡ true) ⊎ ((opened ≡ false) × (bad ≡ true))
IsVerdict opened bad denied missed AggregateStatus.denied =
    (opened ≡ false) × (bad ≡ false) × (missed ≡ false) × (denied ≡ true)

conclude_iff :
    (o b d m : Bool)
    → (b ≡ false → d ≡ false → m ≡ false)
    → (status : AggregateStatus)
    → (conclude (record { any_opened = o; any_bad = b; any_denied = d; required_missed = m })
        ≡ status)
      ↔ IsVerdict o b d m status
unfolding conclude
conclude_iff o b d m h AggregateStatus.success = ground arith
conclude_iff o b d m h AggregateStatus.partial = ground arith
conclude_iff o b d m h AggregateStatus.failed = ground arith
conclude_iff o b d m h AggregateStatus.denied = ground arith

-- The aggregate in terms of the four flags, which a skipped resource leaves as they are.
aggregate_iff :
    (prs : List PlannedResource) (outs : List ResourceOutcome) (status : AggregateStatus)
    → (aggregate prs outs ≡ status)
      ↔ IsVerdict
          (some_opened prs outs)
          (some_bad prs outs)
          (some_denied prs outs)
          (some_missed prs outs)
          status
unfolding aggregate
aggregate_iff prs outs status = rw (aggregate_loop-summary prs outs no_flags) (
    rw
      (
        or_false (some_opened prs outs),
        or_false (some_bad prs outs),
        or_false (some_denied prs outs),
        or_false (some_missed prs outs),
      )
      (conclude_iff (some_opened prs outs) (some_bad prs outs) (some_denied prs outs)
        (some_missed prs outs) (missed-bad_or_denied prs outs) status))
  where
    or_false : (b : Bool) → (b || false) ≡ b
    or_false true = refl
    or_false false = refl

abbrev pub is_skip : OutcomeStatus → Bool
is_skip OutcomeStatus.skipped = true
is_skip _ = false

-- A required resource was skipped.
abbrev pub some_required_skip : List PlannedResource → List ResourceOutcome → Bool
some_required_skip = some_pair (λ pr s. pr.resource.required && is_skip s)

-- A required resource did not open.
abbrev pub some_required_shut : List PlannedResource → List ResourceOutcome → Bool
some_required_shut = some_pair (λ pr s. pr.resource.required && not (is_open s))

-- A resource that was not skipped did not open.
abbrev pub some_shut : List PlannedResource → List ResourceOutcome → Bool
some_shut = some_pair (λ pr s. not (is_skip s) && not (is_open s))

-- The table of the specification, where its row for PARTIAL_SUCCESS is read with the others': not
-- everything opened.
abbrev pub IsDocumented : List PlannedResource → List ResourceOutcome → AggregateStatus → Type 0
IsDocumented prs outs AggregateStatus.success = some_shut prs outs ≡ false
IsDocumented prs outs AggregateStatus.partial =
    (some_opened prs outs ≡ true)
    × (some_shut prs outs ≡ true)
    × (some_required_shut prs outs ≡ false)
IsDocumented prs outs AggregateStatus.failed =
    (some_required_shut prs outs ≡ true)
    ⊎ ((some_opened prs outs ≡ false) × (some_bad prs outs ≡ true))
IsDocumented prs outs AggregateStatus.denied =
    (some_opened prs outs ≡ false)
    × (some_bad prs outs ≡ false)
    × (some_denied prs outs ≡ true)
    × (some_required_shut prs outs ≡ false)

shut_status : (s : OutcomeStatus) → (not (is_skip s) && not (is_open s)) ≡ (is_bad s || is_denied s)
shut_status OutcomeStatus.opened = refl
shut_status OutcomeStatus.skipped = refl
shut_status OutcomeStatus.denied = refl
shut_status OutcomeStatus.failed = refl
shut_status OutcomeStatus.unavailable = refl

missed_status :
    (r : Bool) (s : OutcomeStatus)
    → (r && is_skip s) ≡ false
    → (r && not (is_open s)) ≡ (r && (is_bad s || is_denied s))
missed_status false s h = refl
missed_status true OutcomeStatus.opened h = refl
missed_status true OutcomeStatus.skipped h = absurd cc
missed_status true OutcomeStatus.denied h = refl
missed_status true OutcomeStatus.failed h = refl
missed_status true OutcomeStatus.unavailable h = refl

some_shut-eq :
    (prs : List PlannedResource) (outs : List ResourceOutcome)
    → some_shut prs outs ≡ (some_bad prs outs || some_denied prs outs)
some_shut-eq [] outs = refl
some_shut-eq (pr ∷ prs) [] = refl
some_shut-eq (pr ∷ prs) (out ∷ outs) = ground (arith, shut_status out.status, some_shut-eq prs outs)

some_required_shut-eq :
    (prs : List PlannedResource) (outs : List ResourceOutcome)
    → some_required_skip prs outs ≡ false
    → some_required_shut prs outs ≡ some_missed prs outs
some_required_shut-eq [] outs h = refl
some_required_shut-eq (pr ∷ prs) [] h = refl
some_required_shut-eq (pr ∷ prs) (out ∷ outs) h =
    let first = missed_status pr.resource.required out.status (ground arith) in
    let rest = some_required_shut-eq prs outs (ground arith) in rw (first, rest) refl

-- Over the resources paired with their outcomes, where an unavailable resource counts as failed, and no
-- required resource was skipped: the aggregate is SUCCESS exactly if every resource that was not
-- skipped opened; PARTIAL_SUCCESS exactly if some opened, some that was not skipped did not, and every
-- required one opened; FAILED exactly if a required resource did not open, or none opened and some
-- failed; and DENIED exactly if none opened or failed, some was denied, and every required one opened.
pub aggregate-IsDocumented :
    (prs : List PlannedResource) (outs : List ResourceOutcome) (status : AggregateStatus)
    → some_required_skip prs outs ≡ false
    → (aggregate prs outs ≡ status) ↔ IsDocumented prs outs status
aggregate-IsDocumented prs outs status h =
    let by_flags = aggregate_iff prs outs status in
    let verdict = documented status in
    ((λ e. verdict.0 (by_flags.0 e)), (λ d. by_flags.1 (verdict.1 d)))
  where
    documented :
        (status : AggregateStatus)
        → IsVerdict
            (some_opened prs outs)
            (some_bad prs outs)
            (some_denied prs outs)
            (some_missed prs outs)
            status
          ↔ IsDocumented prs outs status
    documented AggregateStatus.success = ground (arith, some_shut-eq prs outs)
    documented AggregateStatus.partial =
        ground (arith, some_shut-eq prs outs, some_required_shut-eq prs outs h)
    documented AggregateStatus.failed = ground (arith, some_required_shut-eq prs outs h)
    documented AggregateStatus.denied = ground (arith, some_required_shut-eq prs outs h)
