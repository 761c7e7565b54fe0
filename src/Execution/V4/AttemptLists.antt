-- ===== src/Execution/V4/AttemptLists.antt =====
-- The list of preparation attempts of an operation: numbered from one, at most two. The functions are
-- `activeAttempt` and `replaceActiveAttempt` of src/server/execution/v4-transitions.ts.
use edict.Prelude.{
  ◌≡◌, refl, inl, inr, ℕ, suc, ◌+◌, ◌≤◌, String, Bool, true, ◌&&◌, none, some, List, [], ◌∷◌, ◌++◌,
  length, length-append, arith, str_eq, str_eq_iff, str_eq_refl, ◌==◌, Bool-cases, Option-cases,
  ◌∙◌, ap,
}
use edict.Execution.V4.Types.{PreparationAttempt, WriteOperationV4}
use edict.Execution.V4.Base.{
  find_attempt, active_attempt, replace_attempt, count_attempts, replace_active_attempt,
}
use edict.Execution.V4.Attempts.{intended_attempt}
use edict.Execution.V4.Steps.{OpStep, Replaces}

unfoldable pub attempts_numbered : ℕ → List PreparationAttempt → Bool
attempts_numbered n [] = true
attempts_numbered n (a ∷ attempts) = a.sequence == suc n && attempts_numbered (suc n) attempts

attempts_numbered-append :
    (n : ℕ) (attempts : List PreparationAttempt) (last : PreparationAttempt)
    → attempts_numbered n attempts ≡ true
    → last.sequence ≡ suc (n + length attempts)
    → attempts_numbered n (attempts ++ last ∷ []) ≡ true
unfolding attempts_numbered
attempts_numbered-append n [] last h e = ground arith
attempts_numbered-append n (a ∷ attempts) last h e =
    ground (arith, attempts_numbered-append (suc n) attempts last)

length-replace_attempt :
    (next : PreparationAttempt) (attempts : List PreparationAttempt)
    → length (replace_attempt next attempts) ≡ length attempts
unfolding replace_attempt
length-replace_attempt next [] = refl
length-replace_attempt next (a ∷ attempts) = rw (length-replace_attempt next attempts)

-- Where the replaced list has no attempt of the id, nothing was replaced.
replace_attempt-absent :
    (next : PreparationAttempt) (attempts : List PreparationAttempt)
    → count_attempts next.attempt_id (replace_attempt next attempts) ≡ 0
    → replace_attempt next attempts ≡ attempts
unfolding replace_attempt count_attempts
replace_attempt-absent next [] h = refl
replace_attempt-absent next (a ∷ attempts) h =
    elim (Bool-cases (str_eq a.attempt_id next.attempt_id)) [
      | inl same ↦ ground (arith, str_eq_refl next.attempt_id)
      | inr other ↦ ground (arith, replace_attempt-absent next attempts)
    ]

find_attempt-id :
    (id : String) (attempts : List PreparationAttempt) (found : PreparationAttempt)
    → find_attempt (some id) attempts ≡ some found
    → found.attempt_id ≡ id
unfolding find_attempt
find_attempt-id id [] found h = ground arith
find_attempt-id id (a ∷ attempts) found h = elim (Bool-cases (str_eq id a.attempt_id)) [
  | inl same ↦ ground (arith, str_eq_iff id a.attempt_id)
  | inr other ↦ find_attempt-id id attempts found (ground arith)
]

find_attempt-none : (attempts : List PreparationAttempt) → find_attempt none attempts ≡ none
unfolding find_attempt
find_attempt-none [] = refl
find_attempt-none (a ∷ attempts) = find_attempt-none attempts

attempts_numbered-replace :
    (n : ℕ) (id : String) (prior next : PreparationAttempt) (attempts : List PreparationAttempt)
    → find_attempt (some id) attempts ≡ some prior
    → next.attempt_id ≡ id
    → next.sequence ≡ prior.sequence
    → count_attempts next.attempt_id (replace_attempt next attempts) ≡ 1
    → attempts_numbered n (replace_attempt next attempts) ≡ attempts_numbered n attempts
unfolding find_attempt replace_attempt count_attempts attempts_numbered
attempts_numbered-replace n id prior next [] found same numbered once = refl
attempts_numbered-replace n id prior next (a ∷ attempts) found same numbered once =
    elim (Bool-cases (str_eq a.attempt_id next.attempt_id)) [
      | inl here ↦
          let absent = replace_attempt-absent next attempts in
          ground (
            arith,
            absent,
            str_eq_refl next.attempt_id,
            str_eq_iff a.attempt_id next.attempt_id,
            str_eq_iff id a.attempt_id,
          )
      | inr other ↦ ground (
        arith,
        attempts_numbered-replace (suc n) id prior next attempts,
        str_eq_iff a.attempt_id next.attempt_id,
        str_eq_iff id a.attempt_id,
      )
    ]

-- An operation has at most two attempts, numbered one and two.
pub record HasFewAttempts (o : WriteOperationV4) : Type 0 where
  pub few : length o.preparation_attempts ≤ 2
  pub numbered : attempts_numbered 0 o.preparation_attempts ≡ true

-- Replacing the active attempt keeps the numbers.
Replaces-numbered :
    (o : WriteOperationV4) (prior next : PreparationAttempt) (attempts : List PreparationAttempt)
    → Replaces o prior next attempts
    → (length attempts ≡ length o.preparation_attempts)
      × (attempts_numbered 0 attempts ≡ attempts_numbered 0 o.preparation_attempts)
unfolding active_attempt replace_active_attempt
Replaces-numbered o prior next attempts r = elim (Option-cases o.active_preparation_attempt_id) [
  | inl missing ↦ ground (arith, r.active, find_attempt-none o.preparation_attempts)
  | inr (id, active) ↦
      let found : find_attempt (some id) o.preparation_attempts ≡ some prior =
        ground (arith, r.active) in
      let same = find_attempt-id id o.preparation_attempts prior found in
      let once : count_attempts next.attempt_id (replace_attempt next o.preparation_attempts) ≡ 1 =
        ground (arith, r.replaced) in
      let list : attempts ≡ replace_attempt next o.preparation_attempts =
        ground (arith, r.replaced) in
      (
        ap length list ∙ length-replace_attempt next o.preparation_attempts,
        ap (attempts_numbered 0) list
            ∙ attempts_numbered-replace 0 id prior next o.preparation_attempts found
                (r.same_id ∙ same) r.same_sequence once,
      )
]

same_attempts-HasFewAttempts :
    (o next : WriteOperationV4)
    → next.preparation_attempts ≡ o.preparation_attempts
    → HasFewAttempts o
    → HasFewAttempts next
same_attempts-HasFewAttempts o next e h = record {
  few = ground (arith, h.few, ap length e);
  numbered = ap (attempts_numbered 0) e ∙ h.numbered;
}

Replaces-HasFewAttempts :
    (o next : WriteOperationV4) (prior attempt : PreparationAttempt)
    (attempts : List PreparationAttempt)
    → Replaces o prior attempt attempts
    → next.preparation_attempts ≡ attempts
    → HasFewAttempts o
    → HasFewAttempts next
Replaces-HasFewAttempts o next prior attempt attempts r e h =
    let kept = Replaces-numbered o prior attempt attempts r in
    record {
      few = ground (arith, h.few, ap length e, kept.0);
      numbered = ap (attempts_numbered 0) e ∙ kept.1 ∙ h.numbered;
    }

pub OpStep-HasFewAttempts :
    (o next : WriteOperationV4) → OpStep o next → HasFewAttempts o → HasFewAttempts next
unfolding attempts_numbered
OpStep-HasFewAttempts o next (OpStep.intends_again attempt_id policy _ few _ _ _ e) h =
    let last = intended_attempt attempt_id (length o.preparation_attempts + 1) policy in
    let list : next.preparation_attempts ≡ o.preparation_attempts ++ last ∷ [] =
      ap WriteOperationV4.preparation_attempts e in
    let len = length-append o.preparation_attempts (last ∷ []) in
    record {
      few = ground arith;
      numbered =
          ap (attempts_numbered 0) list
          ∙ attempts_numbered-append 0 o.preparation_attempts last h.numbered (ground arith);
    }
OpStep-HasFewAttempts o next (OpStep.prepares attempt _ _ _ _ _ _ first e) h = record {
  few = ground arith;
  numbered = ground arith;
}
OpStep-HasFewAttempts o next (OpStep.turns_stale prior after attempts _ _ r _ e) h =
    Replaces-HasFewAttempts o next prior after attempts r
      (ap WriteOperationV4.preparation_attempts e) h
OpStep-HasFewAttempts o next (OpStep.prepares_again prior after attempts _ _ _ _ r e) h =
    Replaces-HasFewAttempts o next prior after attempts r
      (ap WriteOperationV4.preparation_attempts e) h
OpStep-HasFewAttempts o next (OpStep.fails_again prior after attempts _ _ r _ e) h =
    Replaces-HasFewAttempts o next prior after attempts r
      (ap WriteOperationV4.preparation_attempts e) h
OpStep-HasFewAttempts o next (OpStep.prompts prior after attempts _ _ _ _ _ r e) h =
    Replaces-HasFewAttempts o next prior after attempts r
      (ap WriteOperationV4.preparation_attempts e) h
OpStep-HasFewAttempts o next (OpStep.untouched e) h =
    same_attempts-HasFewAttempts o next (ap WriteOperationV4.preparation_attempts e) h
OpStep-HasFewAttempts o next (OpStep.releases _ _ _ _ _ _ _ e) h =
    same_attempts-HasFewAttempts o next (ap WriteOperationV4.preparation_attempts e) h
OpStep-HasFewAttempts o next (OpStep.declines _ _ _ _ e) h =
    same_attempts-HasFewAttempts o next (ap WriteOperationV4.preparation_attempts e) h
OpStep-HasFewAttempts o next (OpStep.loses_sight _ _ _ _ _ _ _ e) h =
    same_attempts-HasFewAttempts o next (ap WriteOperationV4.preparation_attempts e) h
OpStep-HasFewAttempts o next (OpStep.broadcasts _ _ _ _ _ _ _ e) h =
    same_attempts-HasFewAttempts o next (ap WriteOperationV4.preparation_attempts e) h
OpStep-HasFewAttempts o next (OpStep.is_unreadable _ _ _ e) h =
    same_attempts-HasFewAttempts o next (ap WriteOperationV4.preparation_attempts e) h
OpStep-HasFewAttempts o next (OpStep.is_observed _ _ _ _ _ _ _ _ e) h =
    same_attempts-HasFewAttempts o next (ap WriteOperationV4.preparation_attempts e) h
OpStep-HasFewAttempts o next (OpStep.has_receipt _ _ _ _ _ e) h =
    same_attempts-HasFewAttempts o next (ap WriteOperationV4.preparation_attempts e) h
OpStep-HasFewAttempts o next (OpStep.correlates_first _ _ _ _ _ _ _ _ _ e) h =
    same_attempts-HasFewAttempts o next (ap WriteOperationV4.preparation_attempts e) h
OpStep-HasFewAttempts o next (OpStep.is_uncertain _ _ _ _ _ _ e) h =
    same_attempts-HasFewAttempts o next (ap WriteOperationV4.preparation_attempts e) h
OpStep-HasFewAttempts o next (OpStep.retries _ _ _ _ _ _ _ e) h =
    same_attempts-HasFewAttempts o next (ap WriteOperationV4.preparation_attempts e) h
OpStep-HasFewAttempts o next (OpStep.is_correlated_at _ _ _ _ _ e) h =
    same_attempts-HasFewAttempts o next (ap WriteOperationV4.preparation_attempts e) h
OpStep-HasFewAttempts o next (OpStep.has_status _ _ _ _ _ _ e) h =
    same_attempts-HasFewAttempts o next (ap WriteOperationV4.preparation_attempts e) h
OpStep-HasFewAttempts o next (OpStep.is_verified _ _ _ _ _ _ _ _ _ _ _ e) h =
    same_attempts-HasFewAttempts o next (ap WriteOperationV4.preparation_attempts e) h
