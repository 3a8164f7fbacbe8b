-- ===== src/JobRoutes/History.antt =====
-- What is left of a job that is deleted from the history.
use legacy_doc.Common.{
  ℕ, ◌+◌, ◌≡◌, refl, sym, ap, ◌∙◌, subst, true, not, Bool-cases, inl, inr, Option, some, none,
  some_inj, some≢none, List, [], ◌∷◌, if◌then◌else◌, ◌==◌, arith, keep, count,
}
use legacy_doc.Jobs.{Job, Table, is_terminal}
use legacy_doc.Queue.{get_job, map_where}
use legacy_doc.Queue.Rows.{get_job-map_id, get_job-id}
use legacy_doc.Quota.{count_jobs_this_month, counts_this_month}
use legacy_doc.Accounts.Access.{Principal}
use legacy_doc.Worker.{Document, of_job}
use legacy_doc.JobRoutes.{
  Store, Setting, Answer, answered, refused, is_visible, visible, owned_job, not_a_job, show_job,
  response_of, delete_from_history, delete_owned, emptied, unlink,
}

-- Deleted documents are gone, the others are counted as before.
count-deleted :
    (i k : ℕ) (ds : List Document)
    → count (of_job k) (keep (λ d. not (of_job i d)) ds)
      ≡ (if k == i then 0 else count (of_job k) ds)
count-deleted i k [] = ground arith
count-deleted i k (d ∷ ds) = ground (arith, count-deleted i k ds)

count-emptied :
    (i now ps u : ℕ) (t : Table)
    → count (counts_this_month ps u) (map_where (λ j. j.id == i) (emptied now) t)
      ≡ count (counts_this_month ps u) t
count-emptied i now ps u [] = refl
count-emptied i now ps u (j ∷ t) = elim (Bool-cases (j.id == i)) [
  | inl e ↦
      rw e (ap (λ n. (if counts_this_month ps u j then 1 else 0) + n) (count-emptied i now ps u t))
  | inr e ↦
      rw e (ap (λ n. (if counts_this_month ps u j then 1 else 0) + n) (count-emptied i now ps u t))
]

-- The store after the deletion of a visible job that has ended.
abbrev pub deleted : (now : ℕ) → Job → Store → Store
deleted now job s = record s {
  jobs = map_where (λ j. j.id == job.id) (emptied now) s.jobs;
  documents = keep (λ d. not (of_job job.id d)) s.documents;
  archives = unlink job.params.archive_path s.archives;
}

delete_owned-answered :
    (e : Setting) (o : Option Job) (s s' : Store)
    → delete_owned e o s ≡ answered s'
    → (job : Job) × (o ≡ some job) × (is_terminal job.status ≡ true) × (deleted e.now job s ≡ s')
delete_owned-answered e none s s' h = absurd (ground (arith, h))
delete_owned-answered e (some job) s s' h = elim (Bool-cases (is_terminal job.status)) [
  | inl q ↦ (job, refl, q, ap store (rw q at h))
  | inr q ↦ absurd (ground (arith, q, h))
]
  where
    store : Answer Store → Store
    store (answered t) = t
    store (refused r) = s

visible-some :
    (p : Principal) (o : Option Job) (job : Job)
    → visible p o ≡ some job
    → (o ≡ some job) × (is_visible p job ≡ true)
visible-some p none job h = absurd (some≢none (sym h))
visible-some p (some j) job h = elim (Bool-cases (is_visible p j)) [
  | inl q ↦
      let same : j ≡ job = some_inj (rw q at h) in
      (ap some same, subst (λ k. is_visible p k ≡ true) same q)
  | inr q ↦ absurd (some≢none (sym (rw q at h)))
]

-- A deletion from the history that succeeds is of the caller's own job, which has ended.
-- Afterwards the job has no document and no caller finds it, the documents of every other job are
-- those there were, and the job still counts for the quota of its month.
pub delete_from_history_hides :
    (e : Setting) (p p' : Principal) (i k ps u : ℕ) (s s' : Store)
    → delete_from_history e p i s ≡ answered s'
    → (job : Job) × (get_job i s.jobs ≡ some job)
      × (is_visible p job ≡ true)
      × (is_terminal job.status ≡ true)
      × (count (of_job k) s'.documents ≡ (if k == i then 0 else count (of_job k) s.documents))
      × (show_job p' i s' ≡ refused not_a_job)
      × (count_jobs_this_month ps u s'.jobs ≡ count_jobs_this_month ps u s.jobs)
unfolding delete_from_history owned_job show_job count_jobs_this_month
delete_from_history_hides e p p' i k ps u s s' h =
    let (job, found, ended, after) = delete_owned-answered e (owned_job p i s) s s' h in
    let (row, mine) = visible-some p (get_job i s.jobs) job found in
    let id : job.id ≡ i = get_job-id i s.jobs row in
    let emptied_row : get_job i (map_where (λ j. j.id == job.id) (emptied e.now) s.jobs)
        ≡ some (emptied e.now job) =
      get_job-map_id i job.id (emptied e.now) s.jobs (λ j. refl) ∙ ground (arith, row, id) in
    (
      job,
      row,
      mine,
      ended,
      subst
          (λ t. count (of_job k) t.documents ≡ (if k == i then 0 else count (of_job k) s.documents))
          after
          (subst
            (λ n.
              count (of_job k) (keep (λ d. not (of_job job.id d)) s.documents)
              ≡ (if k == n then 0 else count (of_job k) s.documents))
            id (count-deleted job.id k s.documents)),
      subst (λ t. response_of (visible p' (get_job i t.jobs)) t ≡ refused not_a_job) after
          (rw emptied_row (ground arith)),
      subst (λ t. count (counts_this_month ps u) t.jobs ≡ count (counts_this_month ps u) s.jobs)
          after (count-emptied job.id e.now ps u s.jobs),
    )
