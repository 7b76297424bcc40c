-- ===== src/Tests/Memory.antt =====
-- Tests of the extraction jobs.
use its_middle_platform_agen.Memory.Extraction.Claims.{AreDistinct}
use its_middle_platform_agen.Prelude.Table.{select_one}
use its_middle_platform_agen.Memory.Extraction.{oldest_queued, MemoryExtractionJob}
use its_middle_platform_agen.Prelude.{List, ◌≡◌, none, some, [], ◌∷◌, refl}

abbrev waiting : MemoryExtractionJob
waiting = record {
  id = "e1";
  user_id = "u";
  conversation_id = "c";
  space_id = "s";
  domain_id = none;
  channel = "web";
  question = "q";
  answer = none;
  source_turn_id = none;
  source_citations = [];
  status = "queued";
  attempt = 0;
  worker_id = none;
  error_type = none;
  created_at = 5;
  updated_at = 5;
}

abbrev jobs : List MemoryExtractionJob
jobs = record waiting { id = "e0"; created_at = 9 } ∷ waiting ∷ []

jobs-AreDistinct : AreDistinct jobs
unfolding select_one
jobs-AreDistinct = (refl, (refl, tt))

oldest : oldest_queued jobs ≡ some waiting
unfolding oldest_queued
oldest = refl
