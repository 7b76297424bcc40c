-- ===== src/Catalog/Models.antt =====
-- knowledge/catalog/models.py and the tables of knowledge/catalog/migrations.py. A timestamp is a
-- number of microseconds since a fixed instant: `_to_iso` writes UTC, whose texts compare alike.
use its_middle_platform_agen.Prelude.{ℕ, String, Bool, true, false, Option, List, ◌==◌}

-- The exceptions that the repository raises; `integrity_error` is the database's own, and
-- `type_error` that of a row which is `None`.
pub data CatalogError : Type 0 where
  value_error not_found conflict integrity_error type_error : CatalogError

pub data SourceType : Type 0 where
  git document swagger : SourceType

pub data SyncJobState : Type 0 where
  queued running succeeded failed : SyncJobState

pub record SyncJob : Type 0 where
  pub id : String
  pub source_id : String
  pub kind : String
  pub state : SyncJobState
  pub target_commit : Option String
  pub attempt : ℕ
  pub error : Option String
  pub worker_id : Option String
  pub available_at : ℕ
  pub claimed_at : Option ℕ
  pub finished_at : Option ℕ
  pub created_at : ℕ
  pub updated_at : ℕ

-- A row of `knowledge_sources`; its `config_json` is an opaque text.
pub record KnowledgeSource : Type 0 where
  pub id : String
  pub space_id : String
  pub domain_id : Option String
  pub source_type : SourceType
  pub name : String
  pub config : String
  pub enabled : Bool
  pub created_at : ℕ
  pub updated_at : ℕ

pub record SourceVersion : Type 0 where
  pub id : String
  pub source_id : String
  pub version_ref : String
  pub status : String
  pub current : Bool
  pub metadata : String
  pub created_at : ℕ
  pub updated_at : ℕ

-- The database of the catalog.
pub record Catalog : Type 0 where
  pub sources : List KnowledgeSource
  pub versions : List SourceVersion
  pub jobs : List SyncJob

abbrev pub is_queued : SyncJobState → Bool
is_queued queued = true
is_queued _ = false

abbrev pub is_running : SyncJobState → Bool
is_running running = true
is_running _ = false

abbrev pub is_failed : SyncJobState → Bool
is_failed failed = true
is_failed _ = false

-- The primary keys.
abbrev pub job_by_id : String → SyncJob → Bool
job_by_id k j = j.id == k

abbrev pub source_by_id : String → KnowledgeSource → Bool
source_by_id k s = s.id == k

abbrev pub version_by_id : String → SourceVersion → Bool
version_by_id k v = v.id == k
