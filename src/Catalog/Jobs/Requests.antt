-- ===== src/Catalog/Jobs/Requests.antt =====
-- `enqueue_job` holds one job for a source, a kind and a commit.
use mathlib.Core.Path.{subst}
use its_middle_platform_agen.Prelude.Table.Laws.{select_one-append}
use its_middle_platform_agen.Prelude.Result.{Result, err, ok}
use its_middle_platform_agen.Prelude.Table.{select_one}
use its_middle_platform_agen.Prelude.Strip.{strip, is_empty}
use its_middle_platform_agen.Catalog.Jobs.{
  new_job, insert_job, get_or, same_request, enqueue_request, enqueue_job, existing_request,
  Outcome,
}
use its_middle_platform_agen.Catalog.Models.{
  CatalogError, integrity_error, source_by_id, job_by_id, Catalog, SyncJob,
}
use its_middle_platform_agen.Prelude.{
  ap, ◌⊎◌, sym, Bool-cases, inl, inr, Option-cases, eq_refl, refl, is_some, arith, ◌∙◌, true, [],
  ◌∷◌, none, false, ◌++◌, some, Option, List, String, ℕ, ◌≡◌,
}

existing_request-append :
    (s k c : String) (jobs : List SyncJob) (j : SyncJob)
    → existing_request s k (some c) jobs ≡ none
    → same_request s k c j ≡ true
    → existing_request s k (some c) (jobs ++ j ∷ []) ≡ some j
existing_request-append s k c jobs j new same =
    rw (select_one-append (same_request s k c) jobs j) (rw new (rw same refl))

row-append_self :
    (j : SyncJob) (jobs : List SyncJob)
    → select_one (job_by_id j.id) jobs ≡ none
    → select_one (job_by_id j.id) (jobs ++ j ∷ []) ≡ some j
row-append_self j jobs fresh =
    rw (select_one-append (job_by_id j.id) jobs j) (rw fresh (rw (eq_refl j.id) refl))

-- The first request for a commit, from a source that is there and under a new id, inserts a
-- queued job that nothing has attempted, and leaves the other rows.
pub record Enqueues (j : SyncJob) (db : Catalog) (out : Outcome SyncJob) : Type 0 where
  pub result : out.0 ≡ ok j
  pub jobs : out.1 ≡ record db { jobs = db.jobs ++ j ∷ [] }

module _ (i : String) (now : ℕ) (s kind c : String) (t : Option ℕ) (db : Catalog)
    (named : is_empty (strip kind) ≡ false) (given : is_empty (strip c) ≡ false) where
  accepted_request :
      enqueue_job i now s kind (some c) t db
      ≡ enqueue_request i now s (strip kind) (some (strip c)) (get_or t now) db
  unfolding enqueue_job
  accepted_request = rw (named, enqueue_job) (rw given (ground arith))

  pub enqueue_job-Enqueues :
      select_one (job_by_id i) db.jobs ≡ none
      → is_some (select_one (source_by_id s) db.sources) ≡ true
      → existing_request s (strip kind) (some (strip c)) db.jobs ≡ none
      → Enqueues
          (new_job i s (strip kind) (some (strip c)) (get_or t now) now)
          db
          (enqueue_job i now s kind (some c) t db)
  unfolding enqueue_request insert_job
  enqueue_job-Enqueues fresh there new =
      let j = new_job i s (strip kind) (some (strip c)) (get_or t now) now in
      let stored : select_one (job_by_id i) (db.jobs ++ j ∷ []) ≡ some j =
        row-append_self j db.jobs fresh in
      rw accepted_request (record {
        result = rw (new, enqueue_request) (rw fresh (rw there (rw stored refl)));
        jobs = rw (new, enqueue_request) (rw fresh (rw there refl));
      })

  pub enqueue_job-existing :
      (j : SyncJob)
      → existing_request s (strip kind) (some (strip c)) db.jobs ≡ some j
      → enqueue_job i now s kind (some c) t db ≡ (ok j, db)
  unfolding enqueue_request
  enqueue_job-existing j found = accepted_request ∙ rw (found, enqueue_request) refl

abbrev pub with_job : Catalog → SyncJob → Catalog
with_job db j = record db { jobs = db.jobs ++ j ∷ [] }

insert_job-cases :
    (j : SyncJob) (db : Catalog)
    → (insert_job j db ≡ (err integrity_error, db)) ⊎ (insert_job j db ≡ (ok j, with_job db j))
unfolding insert_job
insert_job-cases j db = elim (Option-cases (select_one (job_by_id j.id) db.jobs)) [
  | inr (x, taken) ↦ inl (rw taken refl)
  | inl fresh ↦ elim (Bool-cases (is_some (select_one (source_by_id j.source_id) db.sources))) [
    | inr missing ↦ inl (rw fresh (rw missing refl))
    | inl there ↦ inr (rw fresh (rw there (rw (row-append_self j db.jobs fresh) refl)))
  ]
]

-- The three ways that a request is answered.
enqueue_request-cases :
    (i s k : String) (c : Option String) (now t : ℕ) (db : Catalog)
    → ((x : SyncJob) × (existing_request s k c db.jobs ≡ some x)
        × (enqueue_request i now s k c t db ≡ (ok x, db)))
      ⊎ (enqueue_request i now s k c t db ≡ (err integrity_error, db))
      ⊎ (existing_request s k c db.jobs ≡ none)
        × (enqueue_request i now s k c t db
            ≡ (ok (new_job i s k c t now), with_job db (new_job i s k c t now)))
unfolding enqueue_request
enqueue_request-cases i s k c now t db = elim (Option-cases (existing_request s k c db.jobs)) [
  | inr (x, found) ↦ inl (x, found, rw (found, enqueue_request) refl)
  | inl new ↦ elim (insert_job-cases (new_job i s k c t now) db) [
    | inl failed' ↦ inr (inl (rw (new, enqueue_request) failed'))
    | inr done ↦ inr (inr (new, rw (new, enqueue_request) done))
  ]
]

same_outcome :
    (a b : SyncJob) (x y : Catalog)
    → ◌≡◌ {A = Outcome SyncJob} (ok a, x) (ok b, y)
    → (a ≡ b) × (x ≡ y)
same_outcome a b x y e =
    let r : ◌≡◌ {A = Result CatalogError SyncJob} (ok a) (ok b) =
      ap (λ (o : Outcome SyncJob). o.0) e in
    (cc, ap (λ (o : Outcome SyncJob). o.1) e)

request_stored :
    (i s k c : String) (now t : ℕ) (db : Catalog) (j : SyncJob) (db' : Catalog)
    → enqueue_request i now s k (some c) t db ≡ (ok j, db')
    → existing_request s k (some c) db'.jobs ≡ some j
request_stored i s k c now t db j db' h = elim (enqueue_request-cases i s k (some c) now t db) [
  | inl (x, found, e) ↦
      let (same, same_db) = same_outcome x j db db' (sym e ∙ h) in
      subst (λ d. existing_request s k (some c) d.jobs ≡ some j) same_db (found ∙ ap some same)
  | inr (inl e) ↦
      let bad : ◌≡◌ {A = Outcome SyncJob} (err integrity_error, db) (ok j, db') = sym e ∙ h in
      let r : ◌≡◌ {A = Result CatalogError SyncJob} (err integrity_error) (ok j) =
        ap (λ (o : Outcome SyncJob). o.0) bad in
      absurd (ground arith)
  | inr (inr (new, e)) ↦
      let n : SyncJob = new_job i s k (some c) t now in
      let (same, same_db) = same_outcome n j (with_job db n) db' (sym e ∙ h) in
      subst (λ d. existing_request s k (some c) d.jobs ≡ some j) same_db
        (existing_request-append s k c db.jobs n new (rw (eq_refl s) (rw (eq_refl k) (eq_refl c)))
          ∙ ap some same)
]

-- A request that is answered is stored, as the one row that is added if any is.
pub enqueue_job-stores :
    (i : String) (now : ℕ) (s kind c : String) (t : Option ℕ) (db db' : Catalog) (j : SyncJob)
    → is_empty (strip kind) ≡ false
    → is_empty (strip c) ≡ false
    → enqueue_job i now s kind (some c) t db ≡ (ok j, db')
    → (existing_request s (strip kind) (some (strip c)) db'.jobs ≡ some j)
      × ((db' ≡ db)
          ⊎ (db' ≡ with_job db (new_job i s (strip kind) (some (strip c)) (get_or t now) now)))
enqueue_job-stores i now s kind c t db db' j named given h =
    let k = strip kind in
    let e = sym (accepted_request i now s kind c t db named given) ∙ h in
    (
      request_stored i s k (strip c) now (get_or t now) db j db' e,
      elim (enqueue_request-cases i s k (some (strip c)) now (get_or t now) db) [
        | inl (x, found, f) ↦ inl (sym (same_outcome x j db db' (sym f ∙ e)).1)
        | inr (inl f) ↦
            let r : ◌≡◌ {A = Result CatalogError SyncJob} (err integrity_error) (ok j) =
              ap (λ (o : Outcome SyncJob). o.0) (sym f ∙ e) in
            absurd (ground arith)
        | inr (inr (new, f)) ↦
            let n = new_job i s k (some (strip c)) (get_or t now) now in
            inr (sym (same_outcome n j (with_job db n) db' (sym f ∙ e)).1)
      ],
    )

-- A second delivery of the same request, at any time and whatever availability it asks for, is
-- answered with the job of the first and changes nothing.
pub enqueue_job_idempotent :
    (i i' : String) (now now' : ℕ) (s kind c : String) (t t' : Option ℕ) (db db' : Catalog)
    (j : SyncJob)
    → is_empty (strip kind) ≡ false
    → is_empty (strip c) ≡ false
    → enqueue_job i now s kind (some c) t db ≡ (ok j, db')
    → enqueue_job i' now' s kind (some c) t' db' ≡ (ok j, db')
enqueue_job_idempotent i i' now now' s kind c t t' db db' j named given first =
    enqueue_job-existing i' now' s kind c t' db' named given j (
      request_stored i s (strip kind) (strip c) now (get_or t now) db j db'
        (sym (accepted_request i now s kind c t db named given) ∙ first))
