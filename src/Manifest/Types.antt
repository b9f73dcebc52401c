-- ===== src/Manifest/Types.antt =====
-- crates/murl-core/src/manifest.rs: the typed document.
use m_url.Base.{Bool, List, Option}
use m_url.Base.Text.{Bytes}
use m_url.Base.Int.{ℤ}
use m_url.Manifest.Json.{Value}

pub record ResourceDoc : Type 0 where
  pub id : Bytes
  pub kind : Bytes
  pub target : Bytes
  pub label : Option Bytes
  pub role : Option Bytes
  pub required : Bool
  pub order : ℤ
  pub depends_on : List Bytes
  pub tags : List Bytes
  pub integrity : Option Bytes
  pub meta : Option Value

pub record Relation : Type 0 where
  pub from : Bytes
  pub rel : Bytes
  pub to : Bytes

pub record SignatureBlock : Type 0 where
  pub alg : Bytes
  pub key_id : Bytes
  pub public_key : Bytes
  pub sig : Bytes

pub record ManifestDoc : Type 0 where
  pub murl_version : Bytes
  pub id : Option Bytes
  pub name : Bytes
  pub description : Option Bytes
  pub version : Option Bytes
  pub not_before : Option Bytes
  pub expires : Option Bytes
  pub resources : List ResourceDoc
  pub relations : List Relation
  pub signature : Option SignatureBlock

-- The document as parsed, and the typed view of it.
pub record Manifest : Type 0 where
  pub raw : Value
  pub doc : ManifestDoc
