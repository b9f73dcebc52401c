-- ===== src/Manifest/Validate/Sound.antt =====
-- What a manifest without validation errors guarantees.
use m_url.Base.{
  not-false, ℕ, suc, ◌≤◌, ◌≡◌, ◌≢◌, refl, inl, inr, Bool, true, false, not, List, [], ◌∷◌, ◌++◌, ok,
  err, Bool-cases, Result-cases, ltb, length, any, All, arith,
}
use m_url.Base.Text.{Bytes, codes, bytes_eq}
use m_url.Grammar.{is_valid_resource_id}
use m_url.Kind.{Kind, parse_kind}
use m_url.Graph.{execution_order}
use m_url.Trust.Store.{Crypto}
use m_url.Manifest.Types.{ResourceDoc, Manifest}
use m_url.Manifest.Target.Messages.{Floats}
use m_url.Manifest.Target.Types.{Checked}
use m_url.Manifest.Target.Check.{validate_target}
use m_url.Manifest.Validate.Types.{
  Finding, error, warn, Message, errors_of, no_issues, is_valid, error_if, has_control_char,
  max_resources_per_manifest, max_tags, max_depends, too_many,
}
use m_url.Manifest.Validate.Resources.{
  Seen, is_bad_length, kind_findings, target_findings, kind_target_findings, target_faults,
  seen_after, dependency_findings, dependencies_findings, resource_findings, label_findings,
  role_findings, tag_findings, is_order, each_findings, order_findings, validate_resources,
}
use m_url.Manifest.Validate.Document.{header_findings, all_findings, validate}

-- No finding is an error.
abbrev Silent : List Finding → Type 0
Silent fs = no_issues (errors_of fs) ≡ true

Silent-parts : (fs gs : List Finding) → Silent (fs ++ gs) → Silent fs × Silent gs
unfolding errors_of
Silent-parts [] gs h = (refl, h)
Silent-parts (error i ∷ fs) gs h = absurd cc
Silent-parts (warn i ∷ fs) gs h = Silent-parts fs gs h

Silent-error_if :
    (c : Bool) (path : Bytes) (message : Message) → Silent (error_if c path message) → c ≡ false
unfolding errors_of
Silent-error_if true path message h = absurd cc
Silent-error_if false path message h = refl

-- A resource that passes its checks, among all resources and behind those with the ids.
pub record IsChecked (floats : Floats) (resources : List ResourceDoc) (r : ResourceDoc)
    : Type 0 where
  pub id_valid : is_valid_resource_id r.id ≡ true
  pub kind : Kind
  pub parsed : parse_kind r.kind ≡ ok kind
  pub some_target : r.target ≢ []
  pub short_target : length r.target ≤ 2048
  pub no_control : has_control_char r.target ≡ false
  pub target_valid : validate_target floats kind r.target ≡ ok tt
  pub known :
      All
        (λ dep.
          (bytes_eq dep r.id ≡ false) × (any (λ other. bytes_eq other.id dep) resources ≡ true))
        r.depends_on

module _ (floats : Floats) (i : ℕ) (r : ResourceDoc) where
  kind-parsed :
      Silent (kind_findings i (parse_kind r.kind)) → (k : Kind) × (parse_kind r.kind ≡ ok k)
  unfolding errors_of
  kind-parsed h = elim (Result-cases (parse_kind r.kind)) [
    | inl (k, e) ↦ (k, e)
    | inr (f, e) ↦ absurd (let h' = rw e at h in cc)
  ]

  target-valid :
      (seen : Seen) (k : Kind)
      → Silent (kind_target_findings floats i r seen (ok k))
      → validate_target floats k r.target ≡ ok tt
  unfolding kind_target_findings errors_of
  target-valid seen k h =
      go (validate_target floats k r.target)
        (Silent-parts (target_faults i (validate_target floats k r.target)) _ h).0
    where
      go : (x : Checked) → Silent (target_faults i x) → x ≡ ok tt
      go (ok u) h = refl
      go (err e) h = absurd cc

  target-fits :
      (seen : Seen) (k : Kind)
      → Silent (target_findings floats i r seen (ok k))
      → (is_bad_length r.target ≡ false)
        × (has_control_char r.target ≡ false)
        × (validate_target floats k r.target ≡ ok tt)
  unfolding target_findings errors_of
  target-fits seen k h = elim (Bool-cases (is_bad_length r.target)) [
    | inl e ↦ absurd (let h' = rw e at h in cc)
    | inr e ↦ elim (Bool-cases (has_control_char r.target)) [
      | inl c ↦ absurd (let h' = rw e at h in let h'' = rw c at h' in cc)
      | inr c ↦ (e, c, target-valid seen k (rw c at (rw e at h)))
    ]
  ]

  dependency-known :
      (resources : List ResourceDoc) (dep : Bytes)
      → Silent (dependency_findings floats i r resources dep)
      → (bytes_eq dep r.id ≡ false) × (any (λ other. bytes_eq other.id dep) resources ≡ true)
  unfolding dependency_findings errors_of
  dependency-known resources dep h = elim (Bool-cases (bytes_eq dep r.id)) [
    | inl e ↦ absurd (let h' = rw e at h in cc)
    | inr e ↦ (
      e,
      not-false
          (Silent-error_if (not (any (λ other. bytes_eq other.id dep) resources)) _ _ (rw e at h)),
    )
  ]

  dependencies-known :
      (resources : List ResourceDoc) (deps : List Bytes)
      → Silent (dependencies_findings floats i r resources deps)
      → All
          (λ dep.
            (bytes_eq dep r.id ≡ false) × (any (λ other. bytes_eq other.id dep) resources ≡ true))
          deps
  unfolding dependencies_findings
  dependencies-known resources [] h = tt
  dependencies-known resources (dep ∷ deps) h =
      let (one, rest) = Silent-parts (dependency_findings floats i r resources dep) _ h in
      (dependency-known resources dep one, dependencies-known resources deps rest)

  resource_findings-IsChecked :
      (resources : List ResourceDoc) (ids : List Bytes) (seen : Seen)
      → Silent (resource_findings floats i r resources ids seen)
      → (any (bytes_eq r.id) ids ≡ false) × IsChecked floats resources r
  unfolding resource_findings
  resource_findings-IsChecked resources ids seen h =
      let (h₁, h) = Silent-parts (error_if (not (is_valid_resource_id r.id)) _ _) _ h in
      let (h₂, h) = Silent-parts (error_if (any (bytes_eq r.id) ids) _ _) _ h in
      let (h₃, h) = Silent-parts (kind_findings i (parse_kind r.kind)) _ h in
      let (h₄, h) = Silent-parts (target_findings floats i r seen (parse_kind r.kind)) _ h in
      let (h₅, h) = Silent-parts (label_findings floats i r r.label) _ h in
      let (h₆, h) = Silent-parts (role_findings floats i r r.role) _ h in
      let (h₇, h) = Silent-parts (error_if (not (is_order floats i r r.order)) _ _) _ h in
      let (h₈, h) = Silent-parts (error_if (ltb max_tags (length r.tags)) _ _) _ h in
      let (h₉, h) = Silent-parts (tag_findings floats i r r.tags) _ h in
      let (h₁₀, h) = Silent-parts (error_if (ltb max_depends (length r.depends_on)) _ _) _ h in
      let (h₁₁, h) = Silent-parts (dependencies_findings floats i r resources r.depends_on) _ h in
      let (kind, parsed) = kind-parsed h₃ in
      let (fits, plain, valid) = target-fits seen kind (rw parsed at h₄) in
      (
        Silent-error_if (any (bytes_eq r.id) ids) _ _ h₂,
        record {
          id_valid = not-false (Silent-error_if (not (is_valid_resource_id r.id)) _ _ h₁);
          kind = kind;
          parsed = parsed;
          some_target = some_target fits;
          short_target = short_target fits;
          no_control = plain;
          target_valid = valid;
          known = dependencies-known resources r.depends_on h₁₁;
        },
      )
    where
      some_target : is_bad_length r.target ≡ false → r.target ≢ []
      some_target fits e = absurd (let fits' : is_bad_length [] ≡ false = rw e at fits in cc)

      short_target : is_bad_length r.target ≡ false → length r.target ≤ 2048
      short_target fits = ground arith

-- No id is that of an earlier resource.
abbrev pub AreDistinct : List Bytes → List ResourceDoc → Type 0
AreDistinct ids [] = Unit
AreDistinct ids (r ∷ rs) = (any (bytes_eq r.id) ids ≡ false) × AreDistinct (r.id ∷ ids) rs

each_findings-IsChecked :
    (floats : Floats) (resources : List ResourceDoc) (i : ℕ) (ids : List Bytes) (seen : Seen)
    (rs : List ResourceDoc)
    → Silent (each_findings floats resources i ids seen rs)
    → All (IsChecked floats resources) rs × AreDistinct ids rs
unfolding each_findings
each_findings-IsChecked floats resources i ids seen [] h = (tt, tt)
each_findings-IsChecked floats resources i ids seen (r ∷ rs) h =
    let (here, h') = Silent-parts (resource_findings floats i r resources ids seen) _ h in
    let (new, checked) = resource_findings-IsChecked floats i r resources ids seen here in
    let (all_checked, distinct) =
      each_findings-IsChecked floats resources (suc i) (r.id ∷ ids)
        (seen_after floats i r seen (parse_kind r.kind)) rs h' in
    ((checked, all_checked), (new, distinct))

-- What holds of the resources of a valid manifest.
pub record AreRunnable (floats : Floats) (resources : List ResourceDoc) : Type 0 where
  pub some_resource : resources ≢ []
  pub few_resources : length resources ≤ 64
  pub checked : All (IsChecked floats resources) resources
  pub distinct : AreDistinct [] resources
  pub order : List ℕ
  pub ordered : execution_order resources ≡ ok order

order_findings-ordered :
    (so_far : List Finding) (resources : List ResourceDoc)
    → Silent so_far
    → Silent (order_findings so_far resources)
    → (order : List ℕ) × (execution_order resources ≡ ok order)
unfolding order_findings errors_of
order_findings-ordered so_far resources quiet h = elim (Result-cases (execution_order resources)) [
  | inl (order, e) ↦ (order, e)
  | inr (ids, e) ↦ absurd (let h' = rw quiet at h in let h'' = rw e at h' in cc)
]

Silent-append : (fs gs : List Finding) → Silent fs → Silent gs → Silent (fs ++ gs)
unfolding errors_of
Silent-append [] gs h h' = h'
Silent-append (error i ∷ fs) gs h h' = absurd cc
Silent-append (warn i ∷ fs) gs h h' = Silent-append fs gs h h'

validate_resources-AreRunnable :
    (floats : Floats) (resources : List ResourceDoc) (before : List Finding)
    → Silent before
    → Silent (validate_resources floats resources before)
    → AreRunnable floats resources
unfolding validate_resources errors_of
validate_resources-AreRunnable floats [] before quiet h = absurd cc
validate_resources-AreRunnable floats (r ∷ rs) before quiet h =
    let count =
      error_if (ltb max_resources_per_manifest (length (r ∷ rs))) (codes "/resources") too_many in
    let each = each_findings floats (r ∷ rs) 0 [] [] (r ∷ rs) in
    let (loop, last) = Silent-parts (count ++ each) _ h in
    let (few, every) = Silent-parts count each loop in
    let (checked, distinct) = each_findings-IsChecked floats (r ∷ rs) 0 [] [] (r ∷ rs) every in
    let (order, ordered) =
      order_findings-ordered (before ++ (count ++ each)) (r ∷ rs)
        (Silent-append before (count ++ each) quiet loop) last in
    let fits = Silent-error_if (ltb max_resources_per_manifest (length (r ∷ rs))) _ _ few in
    record {
      some_resource = λ e. cc;
      few_resources = ground arith;
      checked = checked;
      distinct = distinct;
      order = order;
      ordered = ordered;
    }

-- A manifest whose validation reports no error has from 1 to 64 resources, with valid and distinct ids,
-- each with a kind that parses and a target of 1 to 2048 bytes without control characters that
-- passes the check of its kind; each dependency is the id of another resource, and the resources
-- have an order in which they run.
pub validate-AreRunnable :
    (crypto : Crypto) (floats : Floats) (m : Manifest)
    → is_valid (validate crypto floats m) ≡ true
    → AreRunnable floats m.doc.resources
unfolding is_valid validate all_findings
validate-AreRunnable crypto floats m h =
    let (header, h') = Silent-parts (header_findings m.doc) _ h in
    let (resources, h'') =
      Silent-parts (validate_resources floats m.doc.resources (header_findings m.doc)) _ h' in
    validate_resources-AreRunnable floats m.doc.resources (header_findings m.doc) header resources
