-- ===== src/Kind/Tests.antt =====
-- Runs of the kind parser, and its properties at such inputs.
use m_url.Base.{◌≡◌, refl, true, ok}
use m_url.Base.Text.{codes, bytes_eq, lowercase, strip_prefix, first_piece, last_piece, rsplit_once}
use m_url.Grammar.{all_indexed}
use m_url.Kind.{
  custom, parse_custom, parse_kind, show_kind, trim_end, is_listed_extension,
  has_executable_extension,
}
use m_url.Kind.RoundTrip.{IsKind, parse_kind-show_kind, show_kind-parse_kind}
use m_url.Kind.Extension.{has_executable_extension-append, has_executable_extension-lowercase}

program : Unit {0}
unfolding bytes_eq lowercase strip_prefix first_piece last_piece rsplit_once all_indexed
    parse_custom parse_kind show_kind trim_end is_listed_extension has_executable_extension
program = tt

parse_custom_sample : parse_kind (codes "custom:my-app") ≡ ok (custom (codes "my-app"))
unfolding program
parse_custom_sample = refl

extension_sample : has_executable_extension (codes "C:/tools/Setup.EXE. ") ≡ true
unfolding program
extension_sample = refl

parse_kind-show_kind_example :
    (show_kind (custom (codes "my-app")) ≡ codes "custom:my-app") × IsKind (custom (codes "my-app"))
parse_kind-show_kind_example =
    parse_kind-show_kind (codes "custom:my-app") (custom (codes "my-app")) parse_custom_sample

show_kind-parse_kind_example :
    parse_kind (show_kind (custom (codes "my-app"))) ≡ ok (custom (codes "my-app"))
show_kind-parse_kind_example =
    show_kind-parse_kind (custom (codes "my-app")) parse_kind-show_kind_valid
  where
    parse_kind-show_kind_valid : IsKind (custom (codes "my-app"))
    parse_kind-show_kind_valid =
        (parse_kind-show_kind (codes "custom:my-app") (custom (codes "my-app"))
          parse_custom_sample).1

has_executable_extension-append_example :
    has_executable_extension (codes "run.sh. .") ≡ has_executable_extension (codes "run.sh")
has_executable_extension-append_example =
    has_executable_extension-append (codes "run.sh") (codes ". .") refl

has_executable_extension_of_lowercase_sample :
    has_executable_extension (lowercase (codes "Setup.EXE"))
    ≡ has_executable_extension (codes "Setup.EXE")
has_executable_extension_of_lowercase_sample =
    has_executable_extension-lowercase (codes "Setup.EXE")
