-- ===== src/Manifest/Validate/Resources.antt =====
-- crates/murl-core/src/manifest.rs: `validate_resources`.
use m_url.Base.{
  ℕ, suc, Bool, true, false, not, ◌&&◌, ◌||◌, List, [], ◌∷◌, ◌++◌, Option, none, some, Result, ok,
  err, ltb, leb, if◌then◌else◌, length, any,
}
use m_url.Base.Int.{ℤ, pos, negsuc}
use m_url.Base.Text.{Bytes, codes, bytes_eq, is_empty}
use m_url.Grammar.{is_valid_resource_id, is_valid_role, is_valid_tag}
use m_url.Kind.{Kind, KindFault, murl, parse_kind, show_kind}
use m_url.Manifest.Types.{ResourceDoc}
use m_url.Manifest.Target.Types.{Checked}
use m_url.Manifest.Target.Messages.{Floats}
use m_url.Manifest.Target.Check.{validate_target, is_valid_integrity}
use m_url.Manifest.Validate.Types.{
  Finding, error_at, error_if, warn_if, errors_of, no_issues, item_path, char_count,
  has_control_char, max_resources_per_manifest, max_target_len, max_label_len, max_tags,
  max_depends, bad_length, has_control, no_resources, too_many, bad_grammar, duplicate_id, bad_kind,
  bad_target, duplicate_target, unenforced_pin, out_of_range, self_dependency, unknown_id,
  bad_integrity, dependency_cycle,
}
use m_url.Graph.{execution_order}

-- The closure `p`.
abbrev pub at : ℕ → Bytes → Bytes
at i field = item_path (codes "resources") i field

-- The targets seen so far, with their kinds.
abbrev pub Seen : Type 0
Seen = List (Bytes × Bytes)

abbrev pub same_pair : Bytes × Bytes → Bytes × Bytes → Bool
same_pair (k, t) (k₂, t₂) = bytes_eq k k₂ && bytes_eq t t₂

-- `murl` is the only kind whose pins are enforced.
abbrev pub is_murl : Kind → Bool
is_murl murl = true
is_murl _ = false

abbrev pub is_set : Option Bytes → Bool
is_set none = false
is_set (some s) = true

abbrev pub kind_findings : ℕ → Result KindFault Kind → List Finding
kind_findings i (ok k) = []
kind_findings i (err e) = error_at (at i (codes "kind")) (bad_kind e) ∷ []

abbrev pub target_faults : ℕ → Checked → List Finding
target_faults i (ok u) = []
target_faults i (err e) = error_at (at i (codes "target")) (bad_target e) ∷ []

abbrev pub key_of : Kind → Bytes → Bytes × Bytes
key_of kind target = (show_kind kind, target)

abbrev pub is_bad_length : Bytes → Bool
is_bad_length target = is_empty target || ltb max_target_len (length target)

module _ (floats : Floats) (i : ℕ) (r : ResourceDoc) where
  -- The last arm of the check of a target, with the kind if there is one.
  unfoldable pub kind_target_findings : Seen → Result KindFault Kind → List Finding
  kind_target_findings seen (err e) = []
  kind_target_findings seen (ok kind) =
      target_faults i (validate_target floats kind r.target)
      ++ (warn_if (any (same_pair (key_of kind r.target)) seen) (at i (codes "target"))
            duplicate_target
          ++ warn_if (is_set r.integrity && not (is_murl kind)) (at i (codes "integrity"))
              unenforced_pin)

  unfoldable pub target_findings : Seen → Result KindFault Kind → List Finding
  target_findings seen kind =
      if is_bad_length r.target
      then error_at (at i (codes "target")) bad_length ∷ []
      else if has_control_char r.target
      then error_at (at i (codes "target")) has_control ∷ []
      else kind_target_findings seen kind

  -- `seen_targets` after the resource.
  unfoldable pub seen_after : Seen → Result KindFault Kind → Seen
  seen_after seen (err e) = seen
  seen_after seen (ok kind) =
      if is_bad_length r.target || has_control_char r.target
      then seen
      else key_of kind r.target ∷ seen

  unfoldable pub label_findings : Option Bytes → List Finding
  label_findings none = []
  label_findings (some label) =
      error_if (is_empty label || ltb max_label_len (char_count label)) (at i (codes "label"))
        bad_length
      ++ error_if (has_control_char label) (at i (codes "label")) has_control

  unfoldable pub role_findings : Option Bytes → List Finding
  role_findings none = []
  role_findings (some role) = error_if (not (is_valid_role role)) (at i (codes "role")) bad_grammar

  unfoldable pub tag_findings : List Bytes → List Finding
  tag_findings [] = []
  tag_findings (t ∷ ts) =
      error_if (not (is_valid_tag t)) (at i (codes "tags")) bad_grammar ++ tag_findings ts

  unfoldable pub integrity_findings : Option Bytes → List Finding
  integrity_findings none = []
  integrity_findings (some pin) =
      error_if (not (is_valid_integrity pin)) (at i (codes "integrity")) bad_integrity

  -- `(0..=10_000).contains(&r.order)`
  unfoldable pub is_order : ℤ → Bool
  is_order (pos n) = leb n 10000
  is_order (negsuc n) = false

  -- One dependency, among all resources.
  unfoldable pub dependency_findings : List ResourceDoc → Bytes → List Finding
  dependency_findings resources dep =
      if bytes_eq dep r.id
      then error_at (at i (codes "dependsOn")) self_dependency ∷ []
      else error_if (not (any (λ other. bytes_eq other.id dep) resources))
          (at i (codes "dependsOn")) unknown_id

  unfoldable pub dependencies_findings : List ResourceDoc → List Bytes → List Finding
  dependencies_findings resources [] = []
  dependencies_findings resources (dep ∷ deps) =
      dependency_findings resources dep ++ dependencies_findings resources deps

  -- One round of the loop, with the ids and targets seen before.
  unfoldable pub resource_findings : List ResourceDoc → List Bytes → Seen → List Finding
  resource_findings resources ids seen =
      error_if (not (is_valid_resource_id r.id)) (at i (codes "id")) bad_grammar
      ++ (error_if (any (bytes_eq r.id) ids) (at i (codes "id")) duplicate_id
          ++ (kind_findings i (parse_kind r.kind)
              ++ (target_findings seen (parse_kind r.kind)
                  ++ (label_findings r.label
                      ++ (role_findings r.role
                          ++ (error_if (not (is_order r.order)) (at i (codes "order")) out_of_range
                              ++ (error_if (ltb max_tags (length r.tags)) (at i (codes "tags"))
                                    too_many
                                  ++ (tag_findings r.tags
                                      ++ (error_if (ltb max_depends (length r.depends_on))
                                            (at i (codes "dependsOn")) too_many
                                          ++ (dependencies_findings resources r.depends_on
                                              ++ integrity_findings r.integrity))))))))))

module _ (floats : Floats) (resources : List ResourceDoc) where
  -- The loop, from index `i` on.
  unfoldable pub each_findings : ℕ → List Bytes → Seen → List ResourceDoc → List Finding
  each_findings i ids seen [] = []
  each_findings i ids seen (r ∷ rs) =
      resource_findings floats i r resources ids seen
      ++ each_findings (suc i) (r.id ∷ ids) (seen_after floats i r seen (parse_kind r.kind)) rs

abbrev pub cycle_findings : Result (List Bytes) (List ℕ) → List Finding
cycle_findings (ok order) = []
cycle_findings (err ids) = error_at (codes "/resources") (dependency_cycle ids) ∷ []

-- The cycle check, if the report has no errors so far.
unfoldable pub order_findings : List Finding → List ResourceDoc → List Finding
order_findings so_far resources =
    if no_issues (errors_of so_far) then cycle_findings (execution_order resources) else []

-- `validate_resources` behind the findings `before`; it returns those that it adds.
unfoldable pub validate_resources : Floats → List ResourceDoc → List Finding → List Finding
validate_resources floats [] before = error_at (codes "/resources") no_resources ∷ []
validate_resources floats (r ∷ rs) before =
    let loop =
      error_if (ltb max_resources_per_manifest (length (r ∷ rs))) (codes "/resources") too_many
      ++ each_findings floats (r ∷ rs) 0 [] [] (r ∷ rs) in
    loop ++ order_findings (before ++ loop) (r ∷ rs)
