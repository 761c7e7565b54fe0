-- ===== src/Execution/V4/Audit.antt =====
-- The audit log of a version 4.0 run, and what calls leave alone.
use edict.Prelude.{
  ◌≡◌, refl, ap, ◌∙◌, ℕ, suc, ◌+◌, Bool, true, ◌&&◌, List, [], ◌∷◌, ◌++◌, length, length-append,
  ◌==◌, arith,
}
use edict.Execution.Kind.{OperationKind}
use edict.Execution.Evidence.{AddressLibrary}
use edict.Execution.Types.{AuditEvent}
use edict.Execution.V4.Types.{ExecutionRunV4}
use edict.Execution.V4.Base.{Hashing}
use edict.Execution.V4.Calls.{target}
use edict.Execution.V4.RunSteps.{RunStep, run_identity}
use edict.Execution.V4.RunSteps.All.{perform-RunStep}
use edict.Execution.V4.Reach.{Reach, here, extended}

-- the events are numbered from one past `n` on
unfoldable pub events_numbered : ℕ → List AuditEvent → Bool
events_numbered n [] = true
events_numbered n (event ∷ events) = event.sequence == suc n && events_numbered (suc n) events

events_numbered-append :
    (n : ℕ) (events : List AuditEvent) (event : AuditEvent)
    → events_numbered n events ≡ true
    → event.sequence ≡ suc (n + length events)
    → events_numbered n (events ++ event ∷ []) ≡ true
unfolding events_numbered
events_numbered-append n [] event h e = ground arith
events_numbered-append n (first ∷ events) event h e =
    ground (arith, events_numbered-append (suc n) events event)

append_assoc {ℓ} : {A : Type ℓ} (xs ys zs : List A) → (xs ++ ys) ++ zs ≡ xs ++ (ys ++ zs)
append_assoc [] ys zs = refl
append_assoc (x ∷ xs) ys zs = ap (λ rest. x ∷ rest) (append_assoc xs ys zs)

-- `later` is `run` with more events, and with the same identity
pub record Grows (run later : ExecutionRunV4) : Type 0 where
  pub events : List AuditEvent
  pub grown : later.events ≡ run.events ++ events
  pub numbered : events_numbered (length run.events) events ≡ true
  pub same_run : run_identity later ≡ run_identity run

Grows-RunStep :
    (run middle later : ExecutionRunV4) (kind : OperationKind)
    → Grows run middle
    → RunStep middle later kind
    → Grows run later
Grows-RunStep run middle later kind g r =
    let len : length middle.events ≡ length run.events + length g.events =
      ap length g.grown ∙ length-append run.events g.events in
    record {
      events = g.events ++ r.event ∷ [];
      grown =
          r.logged
          ∙ ap (λ before. before ++ r.event ∷ []) g.grown
          ∙ append_assoc run.events g.events (r.event ∷ []);
      numbered =
          events_numbered-append (length run.events) g.events r.event g.numbered
            (ground (arith, len, r.numbered));
      same_run = r.same_run ∙ g.same_run;
    }

append_nil {ℓ} : {A : Type ℓ} (xs : List A) → xs ≡ xs ++ []
append_nil [] = refl
append_nil (x ∷ xs) = ap (λ rest. x ∷ rest) (append_nil xs)

module _ (viem : AddressLibrary) (hashing : Hashing) where
  -- Accepted calls only ever append to the audit log, with numbers that go on without a gap, and
  -- leave the identity of the run, its manifest, its plan, its signer, its approval and its revision
  -- as they are.
  pub audit_log-Grows :
      (run later : ExecutionRunV4) → Reach viem hashing run later → Grows run later
  unfolding events_numbered
  audit_log-Grows run _ here = record {
    events = [];
    grown = append_nil run.events;
    numbered = refl;
    same_run = refl;
  }
  audit_log-Grows run later (extended {middle} call r h) =
      Grows-RunStep run middle later (target call) (audit_log-Grows run middle r)
        (perform-RunStep viem hashing middle call h)
