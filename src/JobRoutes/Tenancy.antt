-- ===== src/JobRoutes/Tenancy.antt =====
-- Whose jobs a caller sees.
use legacy_doc.Common.{
  ℕ, ◌≡◌, ◌≢◌, ◌⊎◌, inl, inr, ap, ◌∙◌, true, false, some, none, if_false, is_some, Bool-cases,
  arith,
}
use legacy_doc.Jobs.{Job}
use legacy_doc.Queue.{get_job}
use legacy_doc.Accounts.Access.{Principal}
use legacy_doc.JobRoutes.{
  Store, Setting, refused, is_visible, visible, owned_job, not_a_job, show_job, cancel,
  cancel_owned, delete_from_history, delete_owned, response_of,
}

invisible :
    (p : Principal) (i : ℕ) (s : Store) (j : Job)
    → get_job i s.jobs ≡ some j
    → is_visible p j ≡ false
    → owned_job p i s ≡ none
unfolding owned_job
invisible p i s j h hidden = ap (visible p) h ∙ if_false (is_visible p j) (some j) none hidden

strange-hidden :
    (p : Principal) (j : Job)
    → (j.user_id ≢ p.user.id) ⊎ (is_some j.deleted_at ≡ true)
    → is_visible p j ≡ false
strange-hidden p j strange = elim (Bool-cases (is_visible p j)) [
  | inr e ↦ e
  | inl e ↦ elim strange [
    | inl other ↦ absurd (other (ground (arith, e)))
    | inr gone ↦ absurd (ground (arith, e, gone))
  ]
]

-- A caller gets the same answer for a job of another user, or one deleted from the history, as for a
-- job that does not exist, whether it asks for the job, cancels it or deletes it.
pub hidden_refused :
    (e : Setting) (p : Principal) (i : ℕ) (s : Store) (j : Job)
    → get_job i s.jobs ≡ some j
    → (j.user_id ≢ p.user.id) ⊎ (is_some j.deleted_at ≡ true)
    → (show_job p i s ≡ refused not_a_job)
      × (cancel e p i s ≡ refused not_a_job)
      × (delete_from_history e p i s ≡ refused not_a_job)
unfolding show_job cancel delete_from_history
hidden_refused e p i s j h strange =
    let none_found = invisible p i s j h (strange-hidden p j strange) in
    (
      ap (λ o. response_of o s) none_found,
      ap (λ o. cancel_owned e o s) none_found,
      ap (λ o. delete_owned e o s) none_found,
    )
