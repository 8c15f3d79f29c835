-- ===== src/State/RunUpdate/Status.antt =====
-- The lifecycle of a run under `UpdateWith`: which status a run has after any updates.
use mathlib.Core.List.{Perm, Permᴰ}
use mathlib.Core.Logic.{∥∥₁_elim}
use flotilla_os.Common.{
  ℤ, pos, ltb_ℤ, ◌≤ℤ◌, String, List, [], ◌∷◌, some, ◌≡◌, ◌≢◌, inl, inr, refl, arith, ◌==◌, eq_iff,
  true, All, subst, ◌∙◌, ap, Bool-cases, text_eq_prop, is_some, Option-cases,
}
use flotilla_os.State.Constants.{
  status_running, status_queued, status_needs_retry, status_pending, status_stopped,
  is_valid_status,
}
use flotilla_os.State.Types.{Run}
use flotilla_os.State.RunUpdate.{status_precedence, ahead, update_status, update_with}

status-update_with : (d u : Run) → (update_with d u).status ≡ update_status d.status u.status
unfolding update_with
status-update_with d u = refl

-- The updates that workers and the API send to one run, one after the other.
unfoldable pub apply_updates : Run → List Run → Run
apply_updates d [] = d
apply_updates d (u ∷ us) = apply_updates (update_with d u) us

abbrev pub NoRetry : Run → Type 0
NoRetry u = u.status ≢ status_needs_retry

abbrev pub AsksRetry : Run → Type 0
AsksRetry u = u.status ≡ status_needs_retry

-- Different known statuses have different precedences.
status_precedence-injective :
    (s t : String) (p : ℤ) → status_precedence s ≡ some p → status_precedence t ≡ some p → s ≡ t
unfolding status_precedence
status_precedence-injective s t p hs ht = ground (
  arith,
  eq_iff s status_needs_retry,
  eq_iff s status_queued,
  eq_iff s status_pending,
  eq_iff s status_running,
  eq_iff s status_stopped,
  eq_iff t status_needs_retry,
  eq_iff t status_queued,
  eq_iff t status_pending,
  eq_iff t status_running,
  eq_iff t status_stopped,
)

status_precedence-le : (s : String) (p : ℤ) → status_precedence s ≡ some p → p ≤ℤ pos 3
unfolding status_precedence
status_precedence-le s p h = ground arith

is_some-status_precedence : (s : String) → is_some (status_precedence s) ≡ is_valid_status s
unfolding status_precedence is_valid_status
is_some-status_precedence s = ground arith

update_status-no_retry :
    (d other : String)
    → other ≢ status_needs_retry
    → update_status d other ≡ ahead (status_precedence d) (status_precedence other) d other
unfolding update_status
update_status-no_retry d other h = ground (arith, eq_iff other status_needs_retry)

ahead_comm :
    (d a b : String)
    → ahead
        (status_precedence (ahead (status_precedence d) (status_precedence a) d a))
        (status_precedence b)
        (ahead (status_precedence d) (status_precedence a) d a)
        b
      ≡ ahead
          (status_precedence (ahead (status_precedence d) (status_precedence b) d b))
          (status_precedence a)
          (ahead (status_precedence d) (status_precedence b) d b)
          a
ahead_comm d a b = elim (Option-cases (status_precedence d)) [
  | inl pd ↦ ground arith
  | inr (i, pd) ↦ elim (Option-cases (status_precedence a)) [
    | inl pa ↦ ground arith
    | inr (j, pa) ↦ elim (Option-cases (status_precedence b)) [
      | inl pb ↦ ground arith
      | inr (k, pb) ↦ ground (arith, status_precedence-injective a b j)
    ]
  ]
]

update_status_forward :
    (d other : String) (p : ℤ)
    → status_precedence d ≡ some p
    → other ≢ status_needs_retry
    → (q : ℤ) × (status_precedence (update_status d other) ≡ some q) × (p ≤ℤ q)
update_status_forward d other p e h =
    rw (update_status-no_retry d other h) (elim (Option-cases (status_precedence other)) [
      | inl o ↦ (p, ground arith, omega arith)
      | inr (q, o) ↦ elim (Bool-cases (ltb_ℤ p q)) [
        | inl t ↦ (q, ground arith, ground arith)
        | inr f ↦ (p, ground arith, omega arith)
      ]
    ])

needs_retry_valid : is_valid_status status_needs_retry ≡ true
unfolding is_valid_status
needs_retry_valid = refl

stopped_last : status_precedence status_stopped ≡ some (pos 3)
unfolding status_precedence
stopped_last = refl

pub update_status_idem : (a b : String) → update_status (update_status a b) b ≡ update_status a b
unfolding update_status
update_status_idem a b = elim (Bool-cases (b == status_needs_retry)) [
  | inl t ↦ ground arith
  | inr f ↦ elim (Option-cases (status_precedence a)) [
    | inl pa ↦ ground arith
    | inr (i, pa) ↦ elim (Option-cases (status_precedence b)) [
      | inl pb ↦ ground arith
      | inr (j, pb) ↦ ground arith
    ]
  ]
]

update_status_valid :
    (d other : String) → is_valid_status d ≡ true → is_valid_status (update_status d other) ≡ true
unfolding update_status
update_status_valid d other h = ground (
  arith,
  is_some-status_precedence d,
  is_some-status_precedence other,
  needs_retry_valid,
  eq_iff other status_needs_retry,
)

update_status_comm :
    (d a b : String)
    → a ≢ status_needs_retry
    → b ≢ status_needs_retry
    → update_status (update_status d a) b ≡ update_status (update_status d b) a
update_status_comm d a b ha hb =
    rw
      (
        update_status-no_retry _ _ ha,
        update_status-no_retry _ _ hb,
        update_status-no_retry _ _ hb,
        update_status-no_retry _ _ ha,
      )
      (ahead_comm d a b)

-- The status of a run after updates depends on its status and on theirs alone.
abbrev statuses : String → List Run → String
statuses s [] = s
statuses s (u ∷ us) = statuses (update_status s u.status) us

status-apply_updates :
    (d : Run) (us : List Run) → (apply_updates d us).status ≡ statuses d.status us
unfolding apply_updates
status-apply_updates d [] = refl
status-apply_updates d (u ∷ us) =
    status-apply_updates (update_with d u) us ∙ ap (λ s. statuses s us) (status-update_with d u)

NoRetry-Permᴰ : {us vs : List Run} → Permᴰ us vs → All NoRetry us → All NoRetry vs
NoRetry-Permᴰ Permᴰ.nil h = h
NoRetry-Permᴰ (Permᴰ.cons e p) h = (subst NoRetry e h.0, NoRetry-Permᴰ p h.1)
NoRetry-Permᴰ (Permᴰ.swap e f) h = (subst NoRetry f h.1.0, (subst NoRetry e h.0, h.1.1))
NoRetry-Permᴰ (Permᴰ.trans p q) h = NoRetry-Permᴰ q (NoRetry-Permᴰ p h)

statuses-Permᴰ :
    {us vs : List Run} (s : String) → Permᴰ us vs → All NoRetry us → statuses s us ≡ statuses s vs
statuses-Permᴰ s Permᴰ.nil h = refl
statuses-Permᴰ s (Permᴰ.cons {a} {b} {l₁} {l₂} e p) h =
    rw e (statuses-Permᴰ (update_status s b.status) p h.1)
statuses-Permᴰ s (Permᴰ.swap {a} {b} {a'} {b'} {l} e f) h =
    rw (← e, ← f) (ap (λ t. statuses t l) (update_status_comm s a.status b.status h.0 h.1.0))
statuses-Permᴰ s (Permᴰ.trans p q) h = statuses-Permᴰ s p h ∙ statuses-Permᴰ s q (NoRetry-Permᴰ p h)

-- Workers race: updates that ask for no retry leave one status, whatever order they land in.
pub apply_updates-perm :
    (d : Run) (us vs : List Run)
    → Perm us vs
    → All NoRetry us
    → (apply_updates d us).status ≡ (apply_updates d vs).status
apply_updates-perm d us vs p h =
    rw (status-apply_updates d us, status-apply_updates d vs)
      (∥∥₁_elim p (text_eq_prop _ _) (λ q. statuses-Permᴰ d.status q h))

-- No updates take a run with a known status back along the lifecycle unless one asks for a retry:
-- the precedence of its status never falls.
pub apply_updates_forward :
    (d : Run) (us : List Run) (p : ℤ)
    → status_precedence d.status ≡ some p
    → All NoRetry us
    → (q : ℤ) × (status_precedence (apply_updates d us).status ≡ some q) × (p ≤ℤ q)
unfolding apply_updates
apply_updates_forward d [] p e h = (p, e, omega arith)
apply_updates_forward d (u ∷ us) p e h =
    let (r, er, le) = update_status_forward d.status u.status p e h.0 in
    let (q, eq, le') =
      apply_updates_forward (update_with d u) us r (rw (status-update_with d u) er) h.1 in
    (q, eq, omega arith)

pos_three : (q : ℤ) → pos 3 ≤ℤ q → q ≤ℤ pos 3 → q ≡ pos 3
pos_three q h k = ground arith

-- A stopped run stays stopped under every sequence of updates in which none asks for a retry.
pub apply_updates-stopped :
    (d : Run) (us : List Run)
    → d.status ≡ status_stopped
    → All NoRetry us
    → (apply_updates d us).status ≡ status_stopped
apply_updates-stopped d us e h =
    let (q, eq, le) = apply_updates_forward d us (pos 3) (rw e stopped_last) h in
    let top : q ≡ pos 3 = pos_three q le (status_precedence-le _ q eq) in
    status_precedence-injective _ _ (pos 3) (rw top at eq) stopped_last

-- An update that asks for a retry is granted in every state of the run, a stopped one included.
pub update_with-retry : (d u : Run) → AsksRetry u → (update_with d u).status ≡ status_needs_retry
unfolding update_with update_status
update_with-retry d u h = ground (arith, eq_iff u.status status_needs_retry)

-- A run with one of the five statuses has one of them after every sequence of updates.
pub apply_updates_valid :
    (d : Run) (us : List Run)
    → is_valid_status d.status ≡ true
    → is_valid_status (apply_updates d us).status ≡ true
unfolding apply_updates
apply_updates_valid d [] h = h
apply_updates_valid d (u ∷ us) h =
    apply_updates_valid (update_with d u) us
      (rw (status-update_with d u) (update_status_valid d.status u.status h))
