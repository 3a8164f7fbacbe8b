-- ===== src/Worker/Unique.antt =====
-- The loop over a job's files and the unique constraint on `(job_id, path)`.
use legacy_doc.Common.{
  ℕ, ◌+◌, ◌≡◌, ◌≢◌, refl, sym, ◌∙◌, subst, false, Bool-cases, inl, inr, Option, none, some, List,
  [], ◌∷◌, ◌++◌, String, str_eq, eq_iff, any, All, arith, length,
}
use legacy_doc.Plans.{GenerationDepth}
use legacy_doc.Jobs.{Job}
use legacy_doc.Languages.{LanguageInfo, detect_language}
use legacy_doc.Pipeline.Run.{PipelineResult}
use legacy_doc.Worker.{
  RepoFile, Document, Db, JobOutcome, Result, returned, refused, crashed, unusable, Surroundings,
  progress, has_document, documented_paths, document_of, Loop, percent_of, documenting, Next, go_on,
  break, raise, fail_commit, run_pipeline, unless_crash, answer_of, store_file, try_file, round_of,
  after_round, files_loop, document_files,
}

pub str_eq-sym : (a b : String) → str_eq a b ≡ str_eq b a
str_eq-sym a b = elim (Bool-cases (str_eq a b)) [
  | inl e ↦ e ∙ sym ((eq_iff b a).1 (sym ((eq_iff a b).0 e)))
  | inr e ↦ elim (Bool-cases (str_eq b a)) [
    | inl q ↦ (eq_iff a b).1 (sym ((eq_iff b a).0 q)) ∙ sym q
    | inr q ↦ e ∙ sym q
  ]
]

-- The session can be used after this result.
abbrev IsUsable : {A : Type 0} → Result A → Type 0
IsUsable (unusable message) = ⊥
IsUsable (returned a) = Unit
IsUsable (refused code message) = Unit
IsUsable (crashed message) = Unit

answer-IsUsable :
    (crash : Option String) (o : Option PipelineResult)
    → IsUsable (unless_crash crash (answer_of o))
answer-IsUsable (some message) o = tt
answer-IsUsable none none = tt
answer-IsUsable none (some r) = tt

run_pipeline-IsUsable :
    (x : Surroundings) (depth : GenerationDepth) (index : ℕ) (file : RepoFile)
    (language : LanguageInfo)
    → IsUsable (run_pipeline x depth index file language)
unfolding run_pipeline
run_pipeline-IsUsable x depth index file language = answer-IsUsable (x.crash index file) _

-- The paths are distinct.
abbrev pub HasDistinctPaths : List RepoFile → Type 0
HasDistinctPaths [] = Unit
HasDistinctPaths (f ∷ fs) = All (λ g. str_eq f.path g.path ≡ false) fs × HasDistinctPaths fs

-- A file that the loop does not pass over has no document of the job.
abbrev IsAbsent : ℕ → List String → List Document → RepoFile → Type 0
IsAbsent job_id already documents f =
    any (str_eq f.path) already ≡ false → has_document job_id f.path documents ≡ false

already_documented :
    (job_id : ℕ) (path : String) (documents : List Document)
    → any (str_eq path) (documented_paths job_id documents) ≡ has_document job_id path documents
unfolding documented_paths
already_documented job_id path [] = refl
already_documented job_id path (d ∷ documents) =
    ground (arith, already_documented job_id path documents, str_eq-sym path d.path)

start-IsAbsent :
    (job_id : ℕ) (documents : List Document) (files : List RepoFile)
    → All (IsAbsent job_id (documented_paths job_id documents) documents) files
start-IsAbsent job_id documents [] = tt
start-IsAbsent job_id documents (f ∷ fs) = (
  (λ h. sym (already_documented job_id f.path documents) ∙ h),
  start-IsAbsent job_id documents fs,
)

has_document-other :
    (job_id : ℕ) (path : String) (d : Document) (documents : List Document)
    → str_eq d.path path ≡ false
    → has_document job_id path documents ≡ false
    → has_document job_id path (documents ++ d ∷ []) ≡ false
has_document-other job_id path d [] e h = ground (arith, e)
has_document-other job_id path d (c ∷ documents) e h =
    ground (arith, h, has_document-other job_id path d documents e (ground (arith, h)))

module _ (x : Surroundings) (worker : ℕ) (job : Job) (depth : GenerationDepth)
    (already : List String)
    (others : (n : ℕ) (db : Db) (path : String)
      → has_document job.id path (x.others n db).documents
        ≡ has_document job.id path db.documents) where
  abbrev AreAbsent : Db → List RepoFile → Type 0
  AreAbsent db files = All (IsAbsent job.id already db.documents) files

  -- The round did not end in a failed commit, and the files to come have no document.
  abbrev IsFine : List RepoFile → Next × Db → Type 0
  IsFine files (go_on l, db) = AreAbsent db files
  IsFine files (break l, db) = Unit
  IsFine files (raise message, db) = Unit
  IsFine files (fail_commit message, db) = ⊥

  stored-AreAbsent :
      (f : RepoFile) (r : PipelineResult) (db : Db) (files : List RepoFile)
      → All (λ g. str_eq f.path g.path ≡ false) files
      → AreAbsent db files
      → AreAbsent (record db { documents = db.documents ++ document_of job depth f r ∷ [] }) files
  stored-AreAbsent f r db [] e h = tt
  stored-AreAbsent f r db (g ∷ files) (e, es) (h, hs) = (
    (λ q. has_document-other job.id g.path (document_of job depth f r) db.documents e (h q)),
    stored-AreAbsent f r db files es hs,
  )

  store_file-IsFine :
      (f : RepoFile) (answer : Result PipelineResult) (l : Loop) (db : Db) (files : List RepoFile)
      → IsUsable answer
      → has_document job.id f.path db.documents ≡ false
      → All (λ g. str_eq f.path g.path ≡ false) files
      → AreAbsent db files
      → IsFine files (store_file job depth f answer l db)
  unfolding store_file
  store_file-IsFine f (refused code message) l db files u n e h = h
  store_file-IsFine f (crashed message) l db files u n e h = tt
  store_file-IsFine f (unusable message) l db files u n e h = u
  store_file-IsFine f (returned r) l db files u n e h = rw n (stored-AreAbsent f r db files e h)

  others-AreAbsent :
      (n : ℕ) (db : Db) (files : List RepoFile)
      → AreAbsent db files
      → AreAbsent (x.others n db) files
  others-AreAbsent n db [] h = tt
  others-AreAbsent n db (f ∷ files) (h, hs) =
      ((λ q. others n db f.path ∙ h q), others-AreAbsent n db files hs)

  try_file-IsFine :
      (index total : ℕ) (f : RepoFile) (language : LanguageInfo) (l : Loop) (db : Db)
      (files : List RepoFile)
      → has_document job.id f.path db.documents ≡ false
      → All (λ g. str_eq f.path g.path ≡ false) files
      → AreAbsent db files
      → IsFine files (try_file x worker job depth index total f language l db)
  unfolding try_file progress
  try_file-IsFine index total f language l db files n e h =
      let p =
        progress x worker index (percent_of index total) (documenting f index total) job.id db in
      elim (Bool-cases p.0) [
        | inl q ↦ rw q (
            store_file-IsFine f (run_pipeline x depth index f language) l (x.others index p.1) files
              (run_pipeline-IsUsable x depth index f language) (others index p.1 f.path ∙ n) e
              (others-AreAbsent index p.1 files h))
        | inr q ↦ rw q tt
      ]

  round_of-IsFine :
      (index total : ℕ) (f : RepoFile) (o : Option LanguageInfo) (l : Loop) (db : Db)
      (files : List RepoFile)
      → HasDistinctPaths (f ∷ files)
      → AreAbsent db (f ∷ files)
      → IsFine files (round_of x worker job depth already index total f o l db)
  round_of-IsFine index total f none l db files d (h, hs) = hs
  round_of-IsFine index total f (some language) l db files (e, d) (h, hs) =
      elim (Bool-cases (any (str_eq f.path) already)) [
        | inl q ↦ rw q hs
        | inr q ↦ rw q (try_file-IsFine index total f language l db files (h q) e hs)
      ]

  after_round-IsUsable :
      (r : Next × Db) (rest : Loop → Db → Result JobOutcome × Db) (files : List RepoFile)
      → IsFine files r
      → ((l : Loop) (db : Db) → AreAbsent db files → IsUsable (rest l db).0)
      → IsUsable (after_round r rest).0
  after_round-IsUsable (go_on l, db) rest files h k = k l db h
  after_round-IsUsable (break l, db) rest files h k = tt
  after_round-IsUsable (raise message, db) rest files h k = tt
  after_round-IsUsable (fail_commit message, db) rest files h k = h

  pub files_loop-IsUsable :
      (index total : ℕ) (files : List RepoFile) (l : Loop) (db : Db)
      → HasDistinctPaths files
      → AreAbsent db files
      → IsUsable (files_loop x worker job depth already index total files l db).0
  unfolding files_loop
  files_loop-IsUsable index total [] l db d h = tt
  files_loop-IsUsable index total (f ∷ files) l db d h =
      after_round-IsUsable
        (round_of x worker job depth already index total f (detect_language x.lower f.path) l db)
        (files_loop x worker job depth already (index + 1) total files) files
        (round_of-IsFine index total f (detect_language x.lower f.path) l db files d h)
        (λ l' db' h'. files_loop-IsUsable (index + 1) total files l' db' d.1 h')

-- Documenting the files of a job never runs into the unique constraint of the documents, also when
-- the job is taken up again with some of them stored, provided that the files have distinct paths
-- and that no other transaction stores or removes a document of the job meanwhile.
pub document_files_commits :
    (x : Surroundings) (worker : ℕ) (job : Job) (depth : GenerationDepth) (files : List RepoFile)
    (db : Db)
    → ((n : ℕ) (d : Db) (path : String)
        → has_document job.id path (x.others n d).documents ≡ has_document job.id path d.documents)
    → HasDistinctPaths files
    → (message : String) → (document_files x worker job depth files db).0 ≢ unusable message
unfolding document_files
document_files_commits x worker job depth files db others distinct message e = subst IsUsable e (
    files_loop-IsUsable x worker job depth (documented_paths job.id db.documents) others 1
      (length files) files (record { created = 0; warnings = [] }) db distinct
      (start-IsAbsent job.id db.documents files))
