-- ===== src/Manifest/Target/Messages.antt =====
-- crates/murl-core/src/manifest.rs: `geo` and `mailto` targets. Parsing and comparing floating point
-- numbers is a parameter.
use m_url.Base.{
  ℕ, suc, Bool, not, ◌&&◌, ◌||◌, List, [], ◌∷◌, Option, none, some, ok, err, ◌>>=◌, ◌>>◌, refuse_if,
  ok_or, leb, ◌==◌, if◌then◌else◌, length, all, any,
}
use m_url.Base.Text.{
  Bytes, codes, bytes_eq, is_alphanumeric, lowercase, contains, is_empty, strip_prefix, split_once,
  split,
}
use m_url.Manifest.Target.Types.{
  bad_scheme, bad_coordinates, not_number, not_finite, latitude_range, longitude_range, bad_param,
  no_address, bad_address, bad_domain, bad_header, header_forbidden, Checked, is_host_byte,
}

-- Numbers of the type `f64`: `parse`, `is_finite`, and whether a number lies between `-bound` and `bound`.
pub record Floats : Type 1 where
  pub F : Type 0
  pub parse_float : Bytes → Option F
  pub is_finite : F → Bool
  pub is_within : ℕ → F → Bool

module _ (floats : Floats) where
  -- The `match` on the index of a coordinate.
  unfoldable pub check_range : ℕ → floats.F → Checked
  check_range i value =
      if i == 0
      then refuse_if (not (floats.is_within 90 value)) latitude_range
      else if i == 1
      then refuse_if (not (floats.is_within 180 value)) longitude_range
      else ok tt

  unfoldable pub check_coordinates : ℕ → List Bytes → Checked
  check_coordinates i [] = ok tt
  check_coordinates i (n ∷ ns) = do
    value ← ok_or (floats.parse_float n) not_number
    refuse_if (not (floats.is_finite value)) not_finite
    check_range i value
    check_coordinates (suc i) ns

abbrev pub is_param_byte : ℕ → Bool
is_param_byte b =
    is_alphanumeric b || (b == b'=' || b == b'.' || b == b'-' || b == b'_' || b == b'%')

unfoldable pub check_params : List Bytes → Checked
check_params [] = ok tt
check_params (param ∷ params) = do
  refuse_if (is_empty param) bad_param
  refuse_if (not (all is_param_byte param)) bad_param
  check_params params

module _ (floats : Floats) where
  -- The parts between the semicolons; `split` leaves at least one.
  unfoldable pub check_geo_parts : List Bytes → Checked
  check_geo_parts [] = err bad_coordinates
  check_geo_parts (coords ∷ params) = do
    let numbers = split b',' coords
    refuse_if (not (leb 2 (length numbers) && leb (length numbers) 3)) bad_coordinates
    check_coordinates floats 0 numbers
    check_params params

  unfoldable pub validate_geo_target : Bytes → Checked
  validate_geo_target target = do
    rest ← ok_or (strip_prefix (codes "geo:") target) bad_scheme
    check_geo_parts (split b';' rest)

unfoldable pub check_addresses : List Bytes → Checked
check_addresses [] = ok tt
check_addresses (address ∷ addresses) = do
  (local, domain) ← ok_or (split_once b'@' address) bad_address
  refuse_if (is_empty local || is_empty domain || contains b'@' domain) bad_address
  refuse_if (not (all is_host_byte domain)) bad_domain
  check_addresses addresses

abbrev pub allowed_headers : List Bytes
allowed_headers = codes "subject" ∷ codes "body" ∷ codes "cc" ∷ codes "to" ∷ []

unfoldable pub check_headers : List Bytes → Checked
check_headers [] = ok tt
check_headers (pair ∷ pairs) = do
  (name, value) ← ok_or (split_once b'=' pair) bad_header
  refuse_if (not (any (bytes_eq (lowercase name)) allowed_headers)) header_forbidden
  check_headers pairs

-- Addresses and headers on the two sides of the question mark, if there is one.
unfoldable pub check_mail : Bytes → Option (Bytes × Bytes) → Checked
check_mail rest none = do refuse_if (is_empty rest) no_address; check_addresses (split b',' rest)
check_mail rest (some (addresses, query)) = do
  refuse_if (is_empty addresses) no_address
  check_addresses (split b',' addresses)
  check_headers (split b'&' query)

unfoldable pub validate_mailto_target : Bytes → Checked
validate_mailto_target target = do
  rest ← ok_or (strip_prefix (codes "mailto:") target) bad_scheme
  check_mail rest (split_once b'?' rest)
