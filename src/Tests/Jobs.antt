-- ===== src/Tests/Jobs.antt =====
-- The job queue and its worker at concrete inputs.
use its_middle_platform_agen.Catalog.Jobs.Draining.{claims-drain, claims, due_jobs}
use its_middle_platform_agen.SourceSync.Worker.Keeps.{run_once-IsValid}
use its_middle_platform_agen.Catalog.Jobs.Writes.{claim_next_job-Write}
use its_middle_platform_agen.Catalog.Jobs.Requests.{enqueue_job_idempotent}
use its_middle_platform_agen.Catalog.Jobs.Keeps.{Write-IsValid}
use its_middle_platform_agen.SourceSync.Worker.Retries.{
  fails, retries, Failures, start, Failures-bounded, FailedTimes, Runs,
}
use its_middle_platform_agen.SourceSync.Worker.{run_once, raised, Processed}
use its_middle_platform_agen.Catalog.Jobs.Fencing.{stale_lease-IsRejected}
use its_middle_platform_agen.Prelude.Result.{err, ok}
use its_middle_platform_agen.Catalog.Jobs.History.{Step, Reach, Reach-IsValid}
use its_middle_platform_agen.Prelude.Strip.{is_empty, strip}
use its_middle_platform_agen.Prelude.Table.{count_where, update_where, select_one}
use its_middle_platform_agen.Catalog.Jobs.{
  requeue_job, insert_job, enqueue_request, requeue_stale_jobs, new_job, lease, first_of_two,
  claim_job, next_due, enqueue_job, claim_next_job,
}
use its_middle_platform_agen.Catalog.Jobs.Invariant.{IsValid}
use its_middle_platform_agen.Catalog.Jobs.Leases.{row, IsRejected}
use its_middle_platform_agen.Catalog.Jobs.Claims.{
  IsDue, claim_job-Claims, claim_next_job_correct, Claims,
}
use its_middle_platform_agen.Catalog.Models.{value_error, git, SyncJob, KnowledgeSource, Catalog}
use its_middle_platform_agen.Prelude.{
  ◌≤◌, eqb, ◌||◌, ◌⊎◌, false, true, some, [], All, ◌∷◌, refl, none, arith, ◌≡◌,
}

abbrev source : KnowledgeSource
source = record {
  id = "s1";
  space_id = "middle-platform";
  domain_id = none;
  source_type = git;
  name = "backend";
  config = "{}";
  enabled = true;
  created_at = 1;
  updated_at = 1;
}

abbrev empty_db : Catalog
empty_db = record { sources = source ∷ []; versions = []; jobs = [] }

abbrev waiting : SyncJob
waiting = new_job "j1" "s1" "manual" (some "abc") 100 100

abbrev started : SyncJob
started = lease "w1" 10 (new_job "j2" "s1" "webhook" (some "def") 5 5)

abbrev db : Catalog
db = record { sources = source ∷ []; versions = []; jobs = waiting ∷ started ∷ [] }

db-IsValid : IsValid db
unfolding select_one
db-IsValid = record {
  ids = (refl, (refl, tt));
  requests = (refl, (refl, tt));
  rows = (ground arith, (ground arith, tt));
  owned = (refl, (refl, tt));
}

strip_w : strip "w2" ≡ "w2"
unfolding strip
strip_w = refl

strip_named : is_empty (strip "w2") ≡ false
unfolding strip is_empty
strip_named = refl

claims_first : (claim_next_job "w2" 200 db).0 ≡ ok (some (lease "w2" 200 waiting))
unfolding claim_next_job claim_job next_due first_of_two select_one update_where strip is_empty
claims_first = refl

enqueue_needs_commit :
    (enqueue_job "j9" 1 "s1" " webhook " (some "  ") none db) ≡ (err value_error, db)
unfolding enqueue_job strip is_empty
enqueue_needs_commit = refl

found : next_due 200 db.jobs ≡ some waiting
unfolding next_due first_of_two
found = refl

abbrev claimed : Claims "w2" 200 db waiting
claimed = claim_job-Claims "w2" 200 db waiting db-IsValid strip_named found

abbrev one_claim : Reach "j1" db (claim_next_job "w2" 200 db).1
one_claim = Reach.next Reach.here (Step.claim "w2" 200)

Reach-IsValid_example : IsValid (claim_next_job "w2" 200 db).1
Reach-IsValid_example = Reach-IsValid one_claim db-IsValid

claim_next_job_correct_example :
    (claim_next_job "w2" 200 db ≡ (ok none, db)) × All (λ r. ¬ IsDue 200 r) db.jobs
    ⊎ ((j : SyncJob) × Claims "w2" 200 db j)
claim_next_job_correct_example = claim_next_job_correct "w2" 200 db db-IsValid strip_named

stale_lease-IsRejected_example : IsRejected "j2" "w1" 1 (requeue_stale_jobs 50 200 db).1
unfolding select_one
stale_lease-IsRejected_example =
    stale_lease-IsRejected "j2" "w1" 1 50 200 db (requeue_stale_jobs 50 200 db).1 started db-IsValid
      refl refl refl Reach.here

abbrev later : SyncJob
later = new_job "j3" "s1" "manual" (some "ghi") 150 150

abbrev two_db : Catalog
two_db = record { sources = source ∷ []; versions = []; jobs = waiting ∷ later ∷ [] }

two_db-IsValid : IsValid two_db
unfolding select_one
two_db-IsValid = record {
  ids = (refl, (refl, tt));
  requests = (refl, (refl, tt));
  rows = (ground arith, (ground arith, tt));
  owned = (refl, (refl, tt));
}

first_found : next_due 200 two_db.jobs ≡ some waiting
unfolding next_due first_of_two
first_found = refl

then_found : next_due 200 (claim_next_job "w2" 200 two_db).1.jobs ≡ some later
unfolding claim_next_job claim_job next_due first_of_two select_one update_where strip is_empty
then_found = refl

abbrev second_claim : Claims "w2" 200 (claim_next_job "w2" 200 two_db).1 later
second_claim =
    claim_job-Claims "w2" 200 (claim_next_job "w2" 200 two_db).1 later
      (Write-IsValid (claim_next_job-Write "w2" 200 two_db) two_db-IsValid) strip_named then_found

enqueued :
    enqueue_job "j1" 100 "s1" " manual" (some "abc ") none empty_db
    ≡ (ok waiting, record empty_db { jobs = waiting ∷ [] })
unfolding enqueue_job enqueue_request insert_job select_one strip is_empty
enqueued = refl

enqueue_job_idempotent_example :
    enqueue_job "j7" 900 "s1" " manual"
      (some "abc ")
      (some 5)
      (record empty_db { jobs = waiting ∷ [] })
    ≡ (ok waiting, record empty_db { jobs = waiting ∷ [] })
unfolding strip is_empty
enqueue_job_idempotent_example =
    enqueue_job_idempotent "j1" "j7" 100 900 "s1" " manual" "abc " none (some 5) empty_db
      (record empty_db { jobs = waiting ∷ [] }) waiting refl refl enqueued

lease_w1 : (is_empty (strip "w1") || eqb 1 0) ≡ false
unfolding strip is_empty
lease_w1 = refl

started-row : row "j2" db ≡ some started
unfolding select_one
started-row = refl

abbrev breaks : SyncJob → Catalog → Processed × Catalog
breaks job d = (raised "ValueError", d)

first_run : Runs "w2" breaks 200 db waiting
unfolding strip is_empty
first_run = record {
  valid = db-IsValid;
  stripped = strip_w;
  named = refl;
  claims = claimed;
  processed_valid = Reach-IsValid_example;
  kept = claimed.rows "j1";
}

after_failure : IsValid (run_once "w2" breaks 200 300 db).1
after_failure = run_once-IsValid "w2" breaks 200 300 db (λ j d v. v) db-IsValid

-- The job fails once, and a retry while it waits changes nothing.
one_failure :
    Failures "j1" db 1 1 (requeue_job "j1" 310 none none 310 (run_once "w2" breaks 200 300 db).1).1
one_failure =
    retries 310 310
      (fails "w2" "ValueError" 200 300 waiting start refl first_run after_failure refl)
      after_failure refl

Failures-bounded_example :
    (j' : SyncJob) × (row "j1"
        (requeue_job "j1" 310 none none 310 (run_once "w2" breaks 200 300 db).1).1
      ≡ some j')
    × FailedTimes 1 1 j'
unfolding select_one
Failures-bounded_example = Failures-bounded "j1" db waiting refl refl refl one_failure

one_due : due_jobs 150 db ≤ 1
unfolding count_where
one_due = omega arith

claims-drain_example : due_jobs 150 (claims (("w2", 200) ∷ ("w2", 300) ∷ []) db) ≡ 0
claims-drain_example =
    claims-drain 150 (("w2", 200) ∷ ("w2", 300) ∷ []) db db-IsValid
      ((strip_named, omega arith), ((strip_named, omega arith), tt)) (omega (arith, one_due))
