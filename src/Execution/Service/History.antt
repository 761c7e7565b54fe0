-- ===== src/Execution/Service/History.antt =====
-- What holds of a run after any sequence of events, accepted or refused, from its creation on.
use edict.Prelude.{
  ℕ, suc, ◌+◌, ◌≡◌, ◌≢◌, inl, inr, true, List, [], ◌∷◌, ◌++◌, length, length-append, arith, is_some,
  Option, String,
}
use edict.Execution.Result.{Error, ok, err, Result-cases}
use edict.Execution.Kind.{
  OperationKind, tokenize, whitelist, mint, not_started, read_back_verified, OperationStage,
  confirmation_submitted, stage_eq_iff,
}
use edict.Execution.Evidence.{AddressLibrary}
use edict.Execution.Types.{AuditEvent, ExecutionRunV1, ExecutionRunEvent}
use edict.Execution.Transitions.Base.{op, pair_of, persisted_confirmation_pair}
use edict.Execution.Transitions.Apply.{apply_run_event}
use edict.Execution.Transitions.Confirmation.{is_confirming}
use edict.Execution.Transitions.Audit.{Audited, apply_run_event-Audited}
use edict.Execution.Transitions.Guards.{Predecessor}
use edict.Execution.Transitions.Invariant.{stage_fits, IsWellFormed, apply_run_event-IsWellFormed}
use edict.Execution.Service.{Creation, new_run, stored, advance, history}

pub new_run-IsWellFormed : (c : Creation) → IsWellFormed (new_run c)
unfolding new_run
new_run-IsWellFormed c = ground arith

-- The entries are numbered without a gap, from one past `n` on.
abbrev pub IsNumbered : ℕ → List AuditEvent → Type 0
IsNumbered n [] = Unit
IsNumbered n (e ∷ es) = (e.sequence ≡ suc n) × IsNumbered (suc n) es

IsNumbered-append :
    (n : ℕ) (es : List AuditEvent) (e : AuditEvent)
    → IsNumbered n es
    → e.sequence ≡ n + length es + 1
    → IsNumbered n (es ++ e ∷ [])
IsNumbered-append n [] e h s = (omega arith, tt)
IsNumbered-append n (x ∷ es) e (h, hs) s = (h, IsNumbered-append (suc n) es e hs (omega arith))

-- The log is numbered from 1, and the revision is one past its length.
pub record IsLogged (run : ExecutionRunV1) : Type 0 where
  pub numbered : IsNumbered 0 run.events
  pub counted : run.revision ≡ length run.events + 1

Audited-IsLogged :
    {event : ExecutionRunEvent} {run next : ExecutionRunV1}
    → Audited event run next
    → IsLogged run
    → IsLogged (stored next)
Audited-IsLogged {event} {run} {next} a l =
    let entry = a.entry in
    let number = a.numbered in
    record {
      numbered =
          rw a.appended (IsNumbered-append 0 run.events entry l.numbered (omega (arith, number)));
      counted =
          rw (a.appended, a.kept.same_revision)
            (omega (arith, l.counted, length-append {0} run.events (entry ∷ [])));
    }

stored-IsWellFormed : {next : ExecutionRunV1} → IsWellFormed next → IsWellFormed (stored next)
stored-IsWellFormed w = ground arith

module _ (viem : AddressLibrary) where
  advance-eq_ok :
      (run : ExecutionRunV1) (event : ExecutionRunEvent) {next : ExecutionRunV1}
      → apply_run_event viem run event ≡ ok next
      → advance viem run event ≡ stored next
  unfolding advance
  advance-eq_ok run event h = rw (h, advance)

  advance-eq_err :
      (run : ExecutionRunV1) (event : ExecutionRunEvent) {e : Error}
      → apply_run_event viem run event ≡ err e
      → advance viem run event ≡ run
  unfolding advance
  advance-eq_err run event h = rw (h, advance)

  -- What creation establishes and every accepted event keeps holds through every history.
  history_induction :
      (P : ExecutionRunV1 → Type 0)
      → ((run : ExecutionRunV1) (event : ExecutionRunEvent) (next : ExecutionRunV1)
          → P run
          → apply_run_event viem run event ≡ ok next
          → P (stored next))
      → (run : ExecutionRunV1) (events : List ExecutionRunEvent) → P run
      → P (history viem run events)
  unfolding history
  history_induction P keep run [] p = p
  history_induction P keep run (event ∷ events) p =
      history_induction P keep (advance viem run event) events
        (elim (Result-cases (apply_run_event viem run event)) [
          | inl (next, h) ↦ rw (advance-eq_ok run event h) (keep run event next p h)
          | inr (e, h) ↦ rw (advance-eq_err run event h) p
        ])

  pub history-IsWellFormed :
      (c : Creation) (events : List ExecutionRunEvent)
      → IsWellFormed (history viem (new_run c) events)
  history-IsWellFormed c events =
      history_induction IsWellFormed
        (λ run event next w h.
          stored-IsWellFormed (apply_run_event-IsWellFormed viem run event w h))
        (new_run c) events (new_run-IsWellFormed c)

  new_run-IsLogged : (c : Creation) → IsLogged (new_run c)
  unfolding new_run
  new_run-IsLogged c = record { numbered = tt; counted = omega arith }

  -- After any events the audit log of a run is numbered 1, 2, 3 and so on without a gap, and the
  -- revision is one more than the number of its entries.
  pub history-IsLogged :
      (c : Creation) (events : List ExecutionRunEvent) → IsLogged (history viem (new_run c) events)
  history-IsLogged c events =
      history_induction IsLogged
        (λ run event next l h. Audited-IsLogged (apply_run_event-Audited viem run event h) l)
        (new_run c) events (new_run-IsLogged c)

  begun_in_order :
      (run : ExecutionRunV1) (kind : OperationKind)
      → IsWellFormed run
      → (op run kind).stage ≢ not_started
      → (is_some run.approval ≡ true) × Predecessor run kind
  begun_in_order run tokenize w b = ground arith
  begun_in_order run _ w b = ground arith

  -- Whatever events a run has seen, an operation that has been begun belongs to an approved run, and
  -- the operation before it (tokenization before the whitelist, the whitelist before the mint) is
  -- verified by read-back.
  pub history_in_order :
      (c : Creation) (events : List ExecutionRunEvent) (kind : OperationKind)
      → (op (history viem (new_run c) events) kind).stage ≢ not_started
      → (is_some (history viem (new_run c) events).approval ≡ true)
        × Predecessor (history viem (new_run c) events) kind
  history_in_order c events kind =
      begun_in_order (history viem (new_run c) events) kind (history-IsWellFormed c events)

  eligible_verified :
      (run : ExecutionRunV1) (kind : OperationKind)
      → IsWellFormed run
      → run.receipt_eligible ≡ true
      → ((op run kind).stage ≡ read_back_verified)
        × (is_some (op run kind).blockchain_tx_hash ≡ true)
  eligible_verified run tokenize w b = ground arith
  eligible_verified run _ w b = ground arith

  -- Whatever events a run has seen, if it is eligible for a receipt then each of its three
  -- operations is verified by read-back and has a broadcast hash.
  pub history_eligible :
      (c : Creation) (events : List ExecutionRunEvent) (kind : OperationKind)
      → (history viem (new_run c) events).receipt_eligible ≡ true
      → ((op (history viem (new_run c) events) kind).stage ≡ read_back_verified)
        × (is_some (op (history viem (new_run c) events) kind).blockchain_tx_hash ≡ true)
  history_eligible c events kind =
      eligible_verified (history viem (new_run c) events) kind (history-IsWellFormed c events)

  pair_of_confirming :
      (stage : OperationStage) (tx_id hash : Option String)
      → stage_fits stage (is_some tx_id) (is_some hash) ≡ true
      → is_confirming stage ≡ true
      → is_some (pair_of tx_id hash) ≡ true
  unfolding is_confirming
  pair_of_confirming stage tx_id hash f b =
      ground (
        arith,
        stage_eq_iff stage confirmation_submitted,
        stage_eq_iff stage OperationStage.pending,
      )

  confirming_pair :
      (run : ExecutionRunV1) (kind : OperationKind)
      → IsWellFormed run
      → is_confirming (op run kind).stage ≡ true
      → is_some (persisted_confirmation_pair run kind) ≡ true
  confirming_pair run tokenize w b = pair_of_confirming _ _ _ w.fits0 b
  confirming_pair run whitelist w b = pair_of_confirming _ _ _ w.fits1 b
  confirming_pair run mint w b = pair_of_confirming _ _ _ w.fits2 b

  -- Whatever events a run has seen, an operation whose confirmation was submitted or is pending has
  -- the pair of a transaction id and a hash that is sent to the provider.
  pub history_pair :
      (c : Creation) (events : List ExecutionRunEvent) (kind : OperationKind)
      → is_confirming (op (history viem (new_run c) events) kind).stage ≡ true
      → is_some (persisted_confirmation_pair (history viem (new_run c) events) kind) ≡ true
  history_pair c events kind b =
      confirming_pair (history viem (new_run c) events) kind (history-IsWellFormed c events) b
