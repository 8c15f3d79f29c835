-- ===== src/Engine/Eks/Launching.antt =====
-- What Execute returns: which launches are to be tried again, and which runs it sets to running.
use flotilla_os.Common.{
  Bool, true, false, String, none, some, ◌≡◌, ◌≢◌, ◌↔◌, ◌⊎◌, inl, inr, refl, sym, subst, ◌∙◌,
  Bool-cases, plain_error,
}
use flotilla_os.State.Constants.{status_running}
use flotilla_os.State.Types.{Run, Time}
use flotilla_os.Adapter.Kubernetes.{JobStatus}
use flotilla_os.Engine.Eks.{Creation, created, refused, PodAnswers, execute, lower_contains}

-- A message of the API after which a launch is tried again.
abbrev pub IsTransient : String → Type 0
IsTransient message =
    (lower_contains message "already exists" ≡ false)
    × (lower_contains message "is invalid" ≡ false)

false_ne_true : false ≢ true
false_ne_true h = cc

created_refused : (job : JobStatus) (message : String) → created job ≢ refused message
created_refused job message h = cc

IsTransient-refused : (a b : String) → refused a ≡ refused b → IsTransient b → IsTransient a
IsTransient-refused a b h t = subst IsTransient (cc) t

-- A launch is to be tried again exactly when the cluster is known and the API refuses the job for
-- another reason than that it is there already or that it is invalid.
pub execute-retryable :
    (now : Time) (known : Bool) (creation : Creation) (answers : PodAnswers) (run : Run)
    → ((execute now known creation answers run).retryable ≡ true)
      ↔ ((known ≡ true) × ((message : String) × (creation ≡ refused message) × IsTransient message))
unfolding execute
execute-retryable now false creation answers run =
    (λ h. absurd (false_ne_true h), λ h. absurd (false_ne_true h.0))
execute-retryable now true (created job) answers run =
    (λ h. absurd (false_ne_true h), λ h. absurd (created_refused job h.1.0 h.1.1))
execute-retryable now true (refused message) answers run =
    elim (Bool-cases (lower_contains message "already exists")) [
      | inl there ↦ rw there (
        λ h. absurd (false_ne_true h),
        λ h. absurd (false_ne_true (sym (IsTransient-refused message h.1.0 h.1.1 h.1.2).0 ∙ there)),
      )
      | inr absent ↦ elim (Bool-cases (lower_contains message "is invalid")) [
        | inl invalid ↦
            rw (absent, invalid)
              (
                λ h. absurd (false_ne_true h),
                λ h. absurd (
                    false_ne_true
                      (sym (IsTransient-refused message h.1.0 h.1.1 h.1.2).1 ∙ invalid)),
              )
        | inr valid ↦ rw (absent, valid) (λ h. (refl, (message, refl, (absent, valid))), λ h. refl)
      ]
    ]

-- A launch that is to be tried again leaves the run as it was; one without an error leaves it running,
-- or as it was if its job was there already; and one with an error that is not to be tried again
-- gives the run that error for its exit reason.
execute_lem :
    (now : Time) (known : Bool) (creation : Creation) (answers : PodAnswers) (run : Run)
    → let launch = execute now known creation answers run in
      ((launch.retryable ≡ true) × (launch.launched ≡ run))
      ⊎ ((launch.retryable ≡ false)
          × (launch.error ≡ none)
          × ((launch.launched.status ≡ status_running)
              ⊎ ((launch.launched ≡ run)
                  × ((message : String) × (creation ≡ refused message)
                      × (lower_contains message "already exists" ≡ true)))))
      ⊎ ((launch.retryable ≡ false)
          × ((reason : String) × (launch.error ≡ some (plain_error reason))
              × (launch.launched.exit_reason ≡ some reason)))
unfolding execute
execute_lem now false creation answers run = inr (inr (refl, (_, refl, refl)))
execute_lem now true (created job) answers run = inr (inl (refl, refl, inl refl))
execute_lem now true (refused message) answers run =
    elim (Bool-cases (lower_contains message "already exists")) [
      | inl there ↦ rw there (inr (inl (refl, refl, inr (refl, (message, refl, there)))))
      | inr absent ↦ elim (Bool-cases (lower_contains message "is invalid")) [
        | inl invalid ↦ rw (absent, invalid) (inr (inr (refl, (message, refl, refl))))
        | inr valid ↦ rw (absent, valid) (inl (refl, refl))
      ]
    ]
