-- ===== src/Dispatch/Paths.antt =====
-- crates/murl-core/src/dispatch.rs: `OpenerConfig::expand_path`.
use m_url.Base.{
  not, ◌||◌, List, [], ◌∷◌, Option, Result, ok, err, ◌>>=◌, ◌>>◌, refuse_if, ok_or, ◌==◌,
  if◌then◌else◌,
}
use m_url.Base.Text.{Bytes, codes, bytes_eq, is_empty, split}
use m_url.Dispatch.Types.{
  PathRules, PathFault, no_home, not_home_path, empty_path_segment, dot_path_segment, not_plain,
}

-- `rest.strip_suffix('/').unwrap_or(rest)`
unfoldable pub drop_last_slash : Bytes → Bytes
drop_last_slash [] = []
drop_last_slash (c ∷ []) = if c == b'/' then [] else c ∷ []
drop_last_slash (c ∷ d ∷ s) = c ∷ drop_last_slash (d ∷ s)

module _ (rules : PathRules) where
  -- The loop over the segments.
  unfoldable pub push_segments : Bytes → List Bytes → Result PathFault Bytes
  push_segments path [] = ok path
  push_segments path (segment ∷ rest) = do
    refuse_if (is_empty segment) empty_path_segment
    refuse_if (bytes_eq segment (codes ".") || bytes_eq segment (codes "..")) dot_path_segment
    refuse_if (not (rules.is_plain segment)) not_plain
    push_segments (rules.push path segment) rest

  -- What follows the separator behind `~`.
  unfoldable pub expand_below : Bytes → Bytes → Result PathFault Bytes
  expand_below home rest =
      if is_empty (drop_last_slash rest)
      then ok home
      else push_segments home (split b'/' (drop_last_slash rest))

  -- What follows `~`, once the home directory is known.
  unfoldable pub expand_rest : Bytes → Bytes → Result PathFault Bytes
  expand_rest home [] = ok home
  expand_rest home (c ∷ rest) = if c == b'/' then expand_below home rest else err not_home_path

  unfoldable pub expand_path : Option Bytes → Bytes → Result PathFault Bytes
  expand_path home_dir [] = ok []
  expand_path home_dir (c ∷ rest) =
      if c == b'~' then (do home ← ok_or home_dir no_home; expand_rest home rest) else ok (c ∷ rest)
