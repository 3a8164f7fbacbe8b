-- ===== src/Pipeline/Review.antt =====
-- The review loop: how often it rewrites, and what a rewrite keeps.
use legacy_doc.Common.{
  ℕ, zero, suc, ◌+◌, ◌≤◌, ◌<◌, leb, arith, ◌≡◌, refl, sym, ap, ◌∙◌, subst, Bool, true, ◌||◌,
  Bool-cases, Option-cases, inl, inr, ◌⊎◌, some_inj, some≢none, Option, some, none, List, [], ◌∷◌,
  map, str_eq, eq_iff, if_true, if_false, find_where, find-holds, keep, any, All, All-map, All-keep,
  All-find, take,
}
use legacy_doc.Common.Sorting.{sorted, All-sorted}
use legacy_doc.Chunking.{SymbolSpan}
use legacy_doc.Domain.{SymbolDoc, VerifierOutput}
use legacy_doc.Pipeline.Anchoring.{IsGrounded}
use legacy_doc.Pipeline.Run.{
  Agents, Verdict, audited, unavailable, Warning, survived, audit_unavailable, PipelineResult, warn,
  heard, again, after_verdict, review_loop, no_names, rewritten, last_candidate, candidate_of,
  add_rewrite, rewrites, or_symbol, replaced_by, rewrite_rejected,
}

-- A property of results that a warning, a verdict and a round of rewrites keep is kept by the review.
module _ (P : PipelineResult → Type 0)
    (warns : (w : Warning) (r : PipelineResult) → P r → P (warn w r))
    (hears : (audit : VerifierOutput) (r : PipelineResult) → P r → P (heard audit r)) (a : Agents)
    (rewrites_keep : (round : ℕ) (audit : VerifierOutput) (r : PipelineResult)
      → P r
      → P (again a round audit r)) where
  after_verdict-keeps :
      (v : Verdict) (rejected : VerifierOutput → PipelineResult) (r : PipelineResult)
      → P r
      → ((audit : VerifierOutput) → P (rejected audit))
      → P (after_verdict v rejected r)
  after_verdict-keeps (unavailable message) rejected r h k = warns (audit_unavailable message) r h
  after_verdict-keeps (audited audit) rejected r h k =
      elim (Bool-cases (audit.approved || no_names audit.rejected_symbols)) [
        | inl e ↦
            subst P
              (sym (
                if_true (audit.approved || no_names audit.rejected_symbols) (heard audit r)
                  (rejected audit) e))
              (hears audit r h)
        | inr e ↦
            subst P
              (sym (
                if_false (audit.approved || no_names audit.rejected_symbols) (heard audit r)
                  (rejected audit) e))
              (k audit)
      ]

  pub review_loop-keeps :
      (left round : ℕ) (r : PipelineResult) → P r → P (review_loop a left round r)
  unfolding review_loop
  review_loop-keeps zero round r h =
      after_verdict-keeps (a.verifier round r.documentation.symbols)
        (λ audit. warn (survived (take 10 audit.rejected_symbols)) (heard audit r)) r h
        (λ audit.
          warns (survived (take 10 audit.rejected_symbols)) (heard audit r) (hears audit r h))
  review_loop-keeps (suc left) round r h =
      after_verdict-keeps (a.verifier round r.documentation.symbols)
        (λ audit. review_loop a left (round + 1) (again a round audit (heard audit r))) r h
        (λ audit.
          review_loop-keeps left (round + 1) (again a round audit (heard audit r))
            (rewrites_keep round audit (heard audit r) (hears audit r h)))

replaced_by-name : (done : List SymbolDoc) (s : SymbolDoc) → (replaced_by done s).name ≡ s.name
replaced_by-name done s = elim (Option-cases (find_where (λ d. str_eq d.name s.name) done)) [
  | inl e ↦ ap (λ o. (or_symbol o s).name) e
  | inr (d, e) ↦
      ap (λ o. (or_symbol o s).name) e
      ∙ (eq_iff d.name s.name).0 (find-holds (λ d. str_eq d.name s.name) d done e)
]

names_kept :
    (done : List SymbolDoc) (symbols : List SymbolDoc)
    → map (λ s. s.name) (map (replaced_by done) symbols) ≡ map (λ s. s.name) symbols
names_kept done [] = refl
names_kept done (s ∷ ss) =
    ap (λ n. n ∷ map (λ s. s.name) (map (replaced_by done) ss)) (replaced_by-name done s)
    ∙ ap (λ l. s.name ∷ l) (names_kept done ss)

abbrev ends_before : Agents → ℕ → SymbolDoc → SymbolDoc → Bool
ends_before a round s t = leb (a.ends_at round s) (a.ends_at round t)

rewrite_rejected-names :
    (a : Agents) (round : ℕ) (audit : VerifierOutput) (symbols : List SymbolDoc)
    → map (λ s. s.name) (rewrite_rejected a round audit symbols) ≡ map (λ s. s.name) symbols
unfolding rewrite_rejected
rewrite_rejected-names a round audit symbols =
    names_kept
      (rewrites a round [] (
        sorted (ends_before a round)
          (keep (λ s. any (str_eq s.name) audit.rejected_symbols) symbols)))
      symbols

after_verdict-rounds :
    (v : Verdict) (rejected : VerifierOutput → PipelineResult) (r : PipelineResult) (n : ℕ)
    → r.review_rounds ≤ n
    → ((audit : VerifierOutput) → (rejected audit).review_rounds ≤ n)
    → (after_verdict v rejected r).review_rounds ≤ n
after_verdict-rounds (unavailable message) rejected r n h k = h
after_verdict-rounds (audited audit) rejected r n h k =
    elim (Bool-cases (audit.approved || no_names audit.rejected_symbols)) [
      | inl e ↦ rw e h
      | inr e ↦ rw e (k audit)
    ]

rounds :
    (a : Agents) (left round : ℕ) (r : PipelineResult)
    → (review_loop a left round r).review_rounds ≤ r.review_rounds + left
unfolding review_loop
rounds a zero round r =
    after_verdict-rounds (a.verifier round r.documentation.symbols)
      (λ audit. warn (survived (take 10 audit.rejected_symbols)) (heard audit r)) r
      (r.review_rounds + 0) (omega arith) (λ audit. omega arith)
rounds a (suc left) round r =
    after_verdict-rounds (a.verifier round r.documentation.symbols)
      (λ audit. review_loop a left (round + 1) (again a round audit (heard audit r))) r
      (r.review_rounds + suc left) (omega arith)
      (λ audit. omega (arith, rounds a left (round + 1) (again a round audit (heard audit r))))

-- The review rewrites in at most as many rounds as it is given, however often the audit rejects, and
-- it neither adds, drops, renames nor reorders symbols.
pub review_loop_bounded :
    (a : Agents) (left round : ℕ) (r : PipelineResult)
    → ((review_loop a left round r).review_rounds ≤ r.review_rounds + left)
      × (map (λ s. s.name) (review_loop a left round r).documentation.symbols
          ≡ map (λ s. s.name) r.documentation.symbols)
review_loop_bounded a left round r = (
  rounds a left round r,
  review_loop-keeps
      (λ q. map (λ s. s.name) q.documentation.symbols ≡ map (λ s. s.name) r.documentation.symbols)
      (λ w q h. h) (λ audit q h. h) a
      (λ n audit q h. rewrite_rejected-names a n audit q.documentation.symbols ∙ h) left round r
      refl,
)

-- A rewrite has the name and the lines of the symbol that was rewritten.
abbrev IsRewriteOf : SymbolDoc → SymbolDoc → Type 0
IsRewriteOf s u = (u.name ≡ s.name) × (u.line_start ≡ s.line_start) × (u.line_end ≡ s.line_end)

last_candidate-cases :
    (s : SymbolDoc) (best : Option SymbolDoc) (cs : List SymbolDoc) (u : SymbolDoc)
    → last_candidate s best cs ≡ some u
    → (best ≡ some u) ⊎ IsRewriteOf s u
last_candidate-cases s best [] u h = inl h
last_candidate-cases s best (c ∷ cs) u h = elim (Bool-cases (str_eq c.name s.name)) [
  | inr e ↦ last_candidate-cases s best cs u (
      ap (λ o. last_candidate s o cs)
        (sym (if_false (str_eq c.name s.name) (some (rewritten s c)) best e))
      ∙ h)
  | inl e ↦
      elim (last_candidate-cases s (some (rewritten s c)) cs u (
        ap (λ o. last_candidate s o cs)
          (sym (if_true (str_eq c.name s.name) (some (rewritten s c)) best e))
        ∙ h)) [
          | inr k ↦ inr k
          | inl k ↦
              inr (subst (IsRewriteOf s) (some_inj k) ((eq_iff c.name s.name).0 e, refl, refl))
        ]
]

candidate_of-IsRewriteOf :
    (s : SymbolDoc) (o : Option (List SymbolDoc)) (u : SymbolDoc)
    → candidate_of s o ≡ some u
    → IsRewriteOf s u
candidate_of-IsRewriteOf s none u h = absurd (some≢none (sym h))
candidate_of-IsRewriteOf s (some cs) u h = elim (last_candidate-cases s none cs u h) [
  | inl e ↦ absurd (some≢none (sym e))
  | inr k ↦ k
]

IsGrounded-rewrite :
    (all : List SymbolSpan) (s u : SymbolDoc)
    → IsRewriteOf s u
    → IsGrounded all s
    → IsGrounded all u
IsGrounded-rewrite all s u h g = (g.0, g.1, h.0 ∙ g.2, h.1 ∙ g.3, h.2 ∙ g.4)

add_rewrite-All :
    (all : List SymbolSpan) (s : SymbolDoc) (o : Option (List SymbolDoc)) (done : List SymbolDoc)
    → IsGrounded all s
    → All (IsGrounded all) done
    → All (IsGrounded all) (add_rewrite (candidate_of s o) done)
add_rewrite-All all s o done g h = elim (Option-cases (candidate_of s o)) [
  | inl e ↦ subst (λ c. All (IsGrounded all) (add_rewrite c done)) (sym e) h
  | inr (u, e) ↦
      subst (λ c. All (IsGrounded all) (add_rewrite c done)) (sym e)
        (IsGrounded-rewrite all s u (candidate_of-IsRewriteOf s o u e) g, h)
]

rewrites-All :
    (all : List SymbolSpan) (a : Agents) (round : ℕ) (done targets : List SymbolDoc)
    → All (IsGrounded all) done
    → All (IsGrounded all) targets
    → All (IsGrounded all) (rewrites a round done targets)
rewrites-All all a round done [] h k = h
rewrites-All all a round done (s ∷ targets) h k =
    rewrites-All all a round (add_rewrite (candidate_of s (a.rewriter round s)) done) targets
      (add_rewrite-All all s (a.rewriter round s) done k.0 h) k.1

replaced_by-IsGrounded :
    (all : List SymbolSpan) (done : List SymbolDoc) (s : SymbolDoc)
    → All (IsGrounded all) done
    → IsGrounded all s
    → IsGrounded all (replaced_by done s)
replaced_by-IsGrounded all done s h g =
    elim (Option-cases (find_where (λ d. str_eq d.name s.name) done)) [
      | inl e ↦ subst (λ o. IsGrounded all (or_symbol o s)) (sym e) g
      | inr (d, e) ↦
          subst (λ o. IsGrounded all (or_symbol o s)) (sym e)
            (All-find (IsGrounded all) (λ d. str_eq d.name s.name) d done h e)
    ]

-- Rewrites stay grounded in the code.
pub rewrite_rejected-IsGrounded :
    (all : List SymbolSpan) (a : Agents) (round : ℕ) (audit : VerifierOutput)
    (symbols : List SymbolDoc)
    → All (IsGrounded all) symbols
    → All (IsGrounded all) (rewrite_rejected a round audit symbols)
unfolding rewrite_rejected
rewrite_rejected-IsGrounded all a round audit symbols h =
    let targets = keep (λ s. any (str_eq s.name) audit.rejected_symbols) symbols in
    let done = rewrites a round [] (sorted (ends_before a round) targets) in
    All-map (IsGrounded all) (IsGrounded all) (replaced_by done) symbols
      (λ s g.
        replaced_by-IsGrounded all done s
          (rewrites-All all a round [] (sorted (ends_before a round) targets) tt (
            All-sorted (ends_before a round) (IsGrounded all) targets (
              All-keep (IsGrounded all) (λ s. any (str_eq s.name) audit.rejected_symbols) symbols
                h)))
          g)
      h

replaced_by-head :
    (u x : SymbolDoc) (done : List SymbolDoc) → u.name ≡ x.name → replaced_by (u ∷ done) x ≡ u
replaced_by-head u x done e =
    ap (λ o. or_symbol o x)
      (if_true (str_eq u.name x.name) (some u) (find_where (λ d. str_eq d.name x.name) done)
        ((eq_iff u.name x.name).1 e))

keep_both :
    (p : SymbolDoc → Bool) (s t : SymbolDoc)
    → p s ≡ true
    → p t ≡ true
    → keep p (s ∷ t ∷ []) ≡ s ∷ t ∷ []
keep_both p s t h k =
    if_true (p s) (s ∷ keep p (t ∷ [])) (keep p (t ∷ [])) h
    ∙ ap (λ l. s ∷ l) (if_true (p t) (t ∷ []) [] k)

sorted_pair :
    (a : Agents) (round : ℕ) (s t : SymbolDoc)
    → a.ends_at round s < a.ends_at round t
    → (sorted (ends_before a round) (s ∷ t ∷ []) ≡ s ∷ t ∷ [])
      × (sorted (ends_before a round) (t ∷ s ∷ []) ≡ s ∷ t ∷ [])
unfolding sorted
sorted_pair a round s t h = (ground (arith, h), ground (arith, h))

-- Two rejected symbols of one name, such as a method of two classes, are both replaced by the rewrite
-- that ends last, with the lines of the symbol that it rewrote, wherever that symbol stands: the
-- documentation of the other one is lost.
pub rewrite_rejected_collapses :
    (a : Agents) (round : ℕ) (audit : VerifierOutput) (s t u : SymbolDoc)
    → s.name ≡ t.name
    → any (str_eq t.name) audit.rejected_symbols ≡ true
    → a.ends_at round s < a.ends_at round t
    → candidate_of t (a.rewriter round t) ≡ some u
    → (rewrite_rejected a round audit (s ∷ t ∷ []) ≡ u ∷ u ∷ [])
      × (rewrite_rejected a round audit (t ∷ s ∷ []) ≡ u ∷ u ∷ [])
      × (u.line_start ≡ t.line_start)
      × (u.line_end ≡ t.line_end)
unfolding rewrite_rejected
rewrite_rejected_collapses a round audit s t u same rejected last fixed =
    let new = candidate_of-IsRewriteOf t (a.rewriter round t) u fixed in
    let p = λ (x : SymbolDoc). any (str_eq x.name) audit.rejected_symbols in
    let rejected' : p s ≡ true =
      subst (λ n. any (str_eq n) audit.rejected_symbols ≡ true) (sym same) rejected in
    let first = add_rewrite (candidate_of s (a.rewriter round s)) [] in
    let both : rewrites a round [] (s ∷ t ∷ []) ≡ u ∷ first = ap (λ o. add_rewrite o first) fixed in
    let at_s = replaced_by-head u s first (new.0 ∙ sym same) in
    let at_t = replaced_by-head u t first new.0 in
    let (in_order, swapped) = sorted_pair a round s t last in
    let sort = sorted (ends_before a round) in
    (
      ap (λ l. map (replaced_by (rewrites a round [] (sort l))) (s ∷ t ∷ []))
            (keep_both p s t rejected' rejected)
          ∙ ap (λ l. map (replaced_by (rewrites a round [] l)) (s ∷ t ∷ [])) in_order
          ∙ ap (λ d. map (replaced_by d) (s ∷ t ∷ [])) both
          ∙ ap (λ x. x ∷ replaced_by (u ∷ first) t ∷ []) at_s
          ∙ ap (λ x. u ∷ x ∷ []) at_t,
      ap (λ l. map (replaced_by (rewrites a round [] (sort l))) (t ∷ s ∷ []))
            (keep_both p t s rejected rejected')
          ∙ ap (λ l. map (replaced_by (rewrites a round [] l)) (t ∷ s ∷ [])) swapped
          ∙ ap (λ d. map (replaced_by d) (t ∷ s ∷ [])) both
          ∙ ap (λ x. x ∷ replaced_by (u ∷ first) s ∷ []) at_t
          ∙ ap (λ x. u ∷ x ∷ []) at_s,
      new.1,
      new.2,
    )
