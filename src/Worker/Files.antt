-- ===== src/Worker/Files.antt =====
-- What the loop over a job's files writes to the documents.
use legacy_doc.Common.{
  ℕ, ◌+◌, ◌≡◌, ap, ◌∙◌, Bool, true, ◌||◌, Option, none, some, List, [], ◌∷◌, String, str_eq, All,
  any, is_none, is_some, count, length, if◌then◌else◌, if_true, arith,
}
use native.Mathlib.Nat.{add_comm, add-zero}
use legacy_doc.Plans.{GenerationDepth}
use legacy_doc.Jobs.{Job}
use legacy_doc.Languages.{LanguageInfo, detect_language}
use legacy_doc.Worker.{
  RepoFile, Db, returned, Surroundings, documented_paths, Loop, go_on, try_file, round_of, done,
  after_round, files_loop, document_files,
}

-- The loop passes over this file: its language is not supported, or the job has its document.
abbrev pub is_skipped : Surroundings → List String → RepoFile → Bool
is_skipped x already file =
    is_none (detect_language x.lower file.path) || any (str_eq file.path) already

abbrev pub is_supported : Surroundings → RepoFile → Bool
is_supported x file = is_some (detect_language x.lower file.path)

round_of_skipped :
    (x : Surroundings) (worker : ℕ) (job : Job) (depth : GenerationDepth) (already : List String)
    (index total : ℕ) (file : RepoFile) (o : Option LanguageInfo) (l : Loop) (db : Db)
    → (is_none o || any (str_eq file.path) already) ≡ true
    → round_of x worker job depth already index total file o l db
      ≡ (go_on (record l { created = (if is_some o then 1 else 0) + l.created }), db)
round_of_skipped x worker job depth already index total file none l db h =
    let same : l.created ≡ 0 + l.created = omega arith in
    ap (λ n. (go_on (record l { created = n }), db)) same
round_of_skipped x worker job depth already index total file (some language) l db h =
    if_true (any (str_eq file.path) already) (go_on (record l { created = l.created + 1 }), db)
      (try_file x worker job depth index total file language l db) h
    ∙ ap (λ n. (go_on (record l { created = n }), db)) (add_comm l.created 1)

files_loop_skipped :
    (x : Surroundings) (worker : ℕ) (job : Job) (depth : GenerationDepth) (already : List String)
    (index total : ℕ) (files : List RepoFile) (l : Loop) (db : Db)
    → All (λ file. is_skipped x already file ≡ true) files
    → files_loop x worker job depth already index total files l db
      ≡ (done (record l { created = count (is_supported x) files + l.created }), db)
unfolding files_loop
files_loop_skipped x worker job depth already index total [] l db h =
    let same : l.created ≡ 0 + l.created = omega arith in
    ap (λ n. (done (record l { created = n }), db)) same
files_loop_skipped x worker job depth already index total (file ∷ files) l db (s, h) =
    let one : ℕ = if is_supported x file then 1 else 0 in
    let l' : Loop = record l { created = one + l.created } in
    let sum : count (is_supported x) files + l'.created
        ≡ count (is_supported x) (file ∷ files) + l.created =
      ground arith in
    ap (λ r. after_round r (files_loop x worker job depth already (index + 1) total files))
      (round_of_skipped x worker job depth already index total file
        (detect_language x.lower file.path) l db s)
    ∙ files_loop_skipped x worker job depth already (index + 1) total files l' db h
    ∙ ap (λ n. (done (record l { created = n }), db)) sum

-- A job that is taken up again when each of its supported files has its document answers with their
-- number and no warning, and writes nothing: no heartbeat, no call of the pipeline and no document.
pub document_files_resumed :
    (x : Surroundings) (worker : ℕ) (job : Job) (depth : GenerationDepth) (files : List RepoFile)
    (db : Db)
    → All (λ file. is_skipped x (documented_paths job.id db.documents) file ≡ true) files
    → document_files x worker job depth files db
      ≡ (returned (record { documents_created = count (is_supported x) files; warnings = [] }), db)
unfolding document_files
document_files_resumed x worker job depth files db h =
    files_loop_skipped x worker job depth (documented_paths job.id db.documents) 1 (length files)
      files (record { created = 0; warnings = [] }) db h
    ∙ ap (λ n. (returned (record { documents_created = n; warnings = [] }), db))
        (add-zero (count (is_supported x) files))
