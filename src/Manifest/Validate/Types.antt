-- ===== src/Manifest/Validate/Types.antt =====
-- crates/murl-core/src/manifest.rs: findings and reports. A message text is a constructor; the path is
-- the text.
use m_url.Base.{
  ℕ, Bool, true, false, List, [], ◌∷◌, ◌++◌, Option, Result, ok, err, if◌then◌else◌, length, any,
}
use m_url.Base.Text.{Bytes}
use m_url.Base.Decimal.{show}
use m_url.Murl.Types.{MurlParseError}
use m_url.Murl.Utf8.{chars, is_control}
use m_url.Kind.{KindFault}
use m_url.Manifest.Target.Types.{TargetFault}
use m_url.Time.{TimeFault}

abbrev pub max_resources_per_manifest : ℕ
max_resources_per_manifest = 64

abbrev pub max_name_len : ℕ
max_name_len = 120

abbrev pub max_description_len : ℕ
max_description_len = 2000

abbrev pub max_target_len : ℕ
max_target_len = 2048

abbrev pub max_label_len : ℕ
max_label_len = 120

abbrev pub max_tags : ℕ
max_tags = 16

abbrev pub max_depends : ℕ
max_depends = 16

abbrev pub max_relations : ℕ
max_relations = 128

pub data Message : Type 0 where
  unsupported_version bad_length has_control selector_or_query not_concrete : Message
  bad_murl bad_version : MurlParseError → Message
  bad_time : TimeFault → Message
  not_before_expires non_integer no_resources too_many bad_grammar duplicate_id : Message
  bad_kind : KindFault → Message
  bad_target : TargetFault → Message
  duplicate_target unenforced_pin out_of_range self_dependency unknown_id bad_integrity : Message
  dependency_cycle : List Bytes → Message
  unsupported_algorithm bad_encoding unknown_member : Message

pub record Issue : Type 0 where
  pub path : Bytes
  pub message : Message

-- A call of `rep.error` or `rep.warn`.
pub data Finding : Type 0 where
  error warn : Issue → Finding

pub record ValidationReport : Type 0 where
  pub errors : List Issue
  pub warnings : List Issue

unfoldable pub errors_of : List Finding → List Issue
errors_of [] = []
errors_of (error i ∷ fs) = i ∷ errors_of fs
errors_of (warn i ∷ fs) = errors_of fs

unfoldable pub warnings_of : List Finding → List Issue
warnings_of [] = []
warnings_of (error i ∷ fs) = warnings_of fs
warnings_of (warn i ∷ fs) = i ∷ warnings_of fs

-- The report after the calls.
abbrev pub report_of : List Finding → ValidationReport
report_of fs = record { errors = errors_of fs; warnings = warnings_of fs }

abbrev pub no_issues : List Issue → Bool
no_issues [] = true
no_issues (i ∷ is) = false

unfoldable pub is_valid : ValidationReport → Bool
is_valid rep = no_issues rep.errors

-- The error carries the issues, of which the source prints the first five.
unfoldable pub into_result : ValidationReport → Result (List Issue) ValidationReport
into_result rep = if is_valid rep then ok rep else err rep.errors

abbrev pub error_at : Bytes → Message → Finding
error_at path message = error (record { path = path; message = message })

abbrev pub warn_at : Bytes → Message → Finding
warn_at path message = warn (record { path = path; message = message })

-- `if c { rep.error(…) }`
abbrev pub error_if : Bool → Bytes → Message → List Finding
error_if true path message = error_at path message ∷ []
error_if false path message = []

abbrev pub warn_if : Bool → Bytes → Message → List Finding
warn_if true path message = warn_at path message ∷ []
warn_if false path message = []

-- `s.chars().count()` and `s.chars().any(char::is_control)`, on the characters of a text
abbrev pub count_of : Option (List ℕ) → ℕ
count_of Option.none = 0
count_of (Option.some cs) = length cs

abbrev pub some_control : Option (List ℕ) → Bool
some_control Option.none = false
some_control (Option.some cs) = any is_control cs

unfoldable pub char_count : Bytes → ℕ
char_count s = count_of (chars s)

unfoldable pub has_control_char : Bytes → Bool
has_control_char s = some_control (chars s)

-- `format!("/{array}/{i}/{field}")`
unfoldable pub item_path : Bytes → ℕ → Bytes → Bytes
item_path array i field = b'/' ∷ (array ++ (b'/' ∷ (show i ++ (b'/' ∷ field))))
