-- ===== src/Manifest/Validate/Document.antt =====
-- crates/murl-core/src/manifest.rs: `Manifest::from_slice` and `Manifest::validate`. Reading the text of a
-- document, and the generated conversion to the typed one, are parameters.
use m_url.Base.{
  ℕ, Bool, true, false, not, ◌||◌, List, [], ◌∷◌, ◌++◌, Option, none, some, Result, ok, err, ◌>>=◌,
  ◌>>◌, refuse_if, ok_or, map_err, ltb, leb, length, any,
}
use m_url.Base.Text.{Bytes, codes, bytes_eq, is_empty}
use m_url.Limits.{Limits}
use m_url.Murl.Types.{MurlParseError, Murl, VersionTag, latest, pinned}
use m_url.Murl.Parse.{parse}
use m_url.Murl.Version.{parse_version}
use m_url.Time.{TimeFault, parse_rfc3339_utc}
use m_url.Trust.Store.{Crypto}
use m_url.Manifest.Json.{Value}
use m_url.Manifest.Types.{ManifestDoc, Manifest}
use m_url.Manifest.Strict.{Syntax, JsonFault, visit}
use m_url.Manifest.Target.Messages.{Floats}
use m_url.Manifest.Validate.Types.{
  Finding, ValidationReport, error_at, error_if, report_of, char_count, has_control_char,
  max_name_len, max_description_len, unsupported_version, bad_length, has_control,
  selector_or_query, not_concrete, bad_murl, bad_version, bad_time, not_before_expires,
}
use m_url.Manifest.Validate.Resources.{validate_resources}
use m_url.Manifest.Validate.Relations.{validate_relations, validate_signature_shape}
use m_url.Manifest.Validate.Members.{validate_unknown_members, validate_numbers}

-- The JSON library: the structure of a text, and the typed document of a value.
pub record Json : Type 0 where
  pub read : Bytes → Option Syntax
  pub typed : Value → Option ManifestDoc

pub data ManifestFault : Type 0 where
  too_large invalid_json : ManifestFault
  strict_fault : JsonFault → ManifestFault
  not_an_object schema_mismatch : ManifestFault

abbrev pub is_object : Value → Bool
is_object (Value.object map) = true
is_object _ = false

unfoldable pub from_slice : Json → Limits → Bytes → Result ManifestFault Manifest
from_slice json limits bytes = do
  refuse_if (ltb limits.max_manifest_bytes (length bytes)) too_large
  syntax ← ok_or (json.read bytes) invalid_json
  raw ← map_err strict_fault (visit syntax)
  refuse_if (not (is_object raw)) not_an_object
  doc ← ok_or (json.typed raw) schema_mismatch
  ok (record { raw = raw; doc = doc })

abbrev pub accepted_murl_versions : List Bytes
accepted_murl_versions = codes "0.1" ∷ codes "0.2" ∷ []

unfoldable pub description_findings : Option Bytes → List Finding
description_findings none = []
description_findings (some desc) =
    error_if (ltb max_description_len (char_count desc)) (codes "/description") bad_length
    ++ error_if (has_control_char desc) (codes "/description") has_control

abbrev pub is_present : {A : Type 0} → Option A → Bool
is_present none = false
is_present (some a) = true

abbrev pub id_parsed : Result MurlParseError Murl → List Finding
id_parsed (ok m) =
    error_if (is_present m.selector || is_present m.query) (codes "/id") selector_or_query
id_parsed (err e) = error_at (codes "/id") (bad_murl e) ∷ []

unfoldable pub id_findings : Option Bytes → List Finding
id_findings none = []
id_findings (some id) = id_parsed (parse id)

abbrev pub version_parsed : Result MurlParseError VersionTag → List Finding
version_parsed (ok (pinned ns)) = []
version_parsed (ok latest) = error_at (codes "/version") not_concrete ∷ []
version_parsed (err e) = error_at (codes "/version") (bad_version e) ∷ []

unfoldable pub version_findings : Option Bytes → List Finding
version_findings none = []
version_findings (some v) = version_parsed (parse_version v)

abbrev pub time_parsed : Bytes → Result TimeFault ℕ → List Finding
time_parsed path (ok t) = []
time_parsed path (err e) = error_at path (bad_time e) ∷ []

unfoldable pub time_findings : Bytes → Option Bytes → List Finding
time_findings path none = []
time_findings path (some s) = time_parsed path (parse_rfc3339_utc s)

abbrev pub window_parsed : Result TimeFault ℕ → Result TimeFault ℕ → List Finding
window_parsed (ok nb) (ok exp) = error_if (leb exp nb) (codes "/notBefore") not_before_expires
window_parsed _ _ = []

unfoldable pub window_findings : Option Bytes → Option Bytes → List Finding
window_findings (some nb) (some exp) = window_parsed (parse_rfc3339_utc nb) (parse_rfc3339_utc exp)
window_findings _ _ = []

-- The checks of `validate` before the resources.
unfoldable pub header_findings : ManifestDoc → List Finding
header_findings d =
    error_if (not (any (bytes_eq d.murl_version) accepted_murl_versions)) (codes "/murlVersion")
      unsupported_version
    ++ (error_if (is_empty d.name || ltb max_name_len (char_count d.name)) (codes "/name")
          bad_length
        ++ (error_if (has_control_char d.name) (codes "/name") has_control
            ++ (description_findings d.description
                ++ (id_findings d.id
                    ++ (version_findings d.version
                        ++ (time_findings (codes "/expires") d.expires
                            ++ (time_findings (codes "/notBefore") d.not_before
                                ++ window_findings d.not_before d.expires)))))))

unfoldable pub all_findings : Crypto → Floats → Manifest → List Finding
all_findings crypto floats m =
    header_findings m.doc
    ++ (validate_resources floats m.doc.resources (header_findings m.doc)
        ++ (validate_relations m.doc.resources m.doc.relations
            ++ (validate_signature_shape crypto m.doc.signature
                ++ (validate_unknown_members m.raw ++ validate_numbers m.raw))))

unfoldable pub validate : Crypto → Floats → Manifest → ValidationReport
validate crypto floats m = report_of (all_findings crypto floats m)
