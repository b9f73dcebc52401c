-- ===== src/Limits.antt =====
-- crates/murl-core/src/limits.rs: the limits of resolution and dispatch.
use m_url.Base.{ℕ}

pub record Limits : Type 0 where
  pub max_depth : ℕ
  pub max_total_resources : ℕ
  pub max_nested_manifests : ℕ
  pub max_manifest_bytes : ℕ
  pub fetch_timeout_secs : ℕ
  pub cache_ttl_secs : ℕ
  pub dispatch_stagger_ms : ℕ
  pub max_redirects : ℕ

abbrev pub default_limits : Limits
default_limits = record {
  max_depth = 3;
  max_total_resources = 64;
  max_nested_manifests = 8;
  max_manifest_bytes = 262144;
  fetch_timeout_secs = 10;
  cache_ttl_secs = 3600;
  dispatch_stagger_ms = 150;
  max_redirects = 0;
}
