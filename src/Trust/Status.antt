-- ===== src/Trust/Status.antt =====
-- crates/murl-core/src/trust.rs: the trust status of a resolved manifest.
use m_url.Base.{Bool, true, false, ◌++◌}
use m_url.Base.Text.{Bytes, codes}

pub data TrustStatus : Type 0 where
  local unsigned_remote : TrustStatus
  signed_unknown_key signed_trusted : (key_id : Bytes) → TrustStatus

unfoldable pub is_trusted : TrustStatus → Bool
is_trusted local = true
is_trusted (signed_trusted key_id) = true
is_trusted _ = false

-- The `Display` of a status.
unfoldable pub show_status : TrustStatus → Bytes
show_status local = codes "LOCAL"
show_status unsigned_remote = codes "UNSIGNED"
show_status (signed_unknown_key key_id) = codes "SIGNED (unknown key " ++ (key_id ++ codes ")")
show_status (signed_trusted key_id) = codes "TRUSTED (key " ++ (key_id ++ codes ")")
