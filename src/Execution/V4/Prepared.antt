-- ===== src/Execution/V4/Prepared.antt =====
-- What `preparedAttempt` of src/server/execution/v4-transitions.ts lets through.
use edict.Prelude.{◌≡◌, inl, inr, ℕ, String, true, false, some, arith, str_eq_iff, ap}
use edict.Core.Json.{Json, json_clone}
use edict.Execution.Result.{Result-cases, ok}
use edict.Execution.Kind.{OperationKind}
use edict.Execution.Evidence.{AddressLibrary}
use edict.Fee.Policy.{create_server_bounded_fee_authorization}
use edict.Wallet.Transaction.{WalletTransactionRequest}
use edict.Wallet.Transaction.Project.{project_prepared_transaction}
use edict.Wallet.Intent.{
  ImmutableExecutionIdentity, is_execution_identity, parse_execution_identity,
}
use edict.Fee.Schema.{FeeAuthorization}
use edict.Execution.V4.Types.{AttemptState, PreparationAttempt}
use edict.Execution.V4.Base.{Hashing}
use edict.Execution.V4.Preparation.{
  PreparedRun, prepared_attempt_effect, unfit_request, identity_of, fee_values_of,
  preparation_subject,
}
use edict.Execution.V4.Attempts.{prepared_attempt}

-- a prepared attempt of a run, for the identity and the fees
pub record IsPrepared (hashing : Hashing) (run : PreparedRun) (attempt_id : String) (sequence : ℕ)
    (attempt : PreparationAttempt) : Type 0 where
  pub identity : ImmutableExecutionIdentity
  pub fee : FeeAuthorization
  pub same_id : attempt.attempt_id ≡ attempt_id
  pub same_sequence : attempt.sequence ≡ sequence
  pub state : attempt.state ≡ AttemptState.prepared
  pub has_identity : attempt.immutable_identity ≡ some identity
  pub has_fee : attempt.fee_authorization ≡ some fee
  pub commitment : attempt.calldata_commitment ≡ some (hashing.sha256_utf8 identity.calldata)
  pub valid_identity : is_execution_identity identity ≡ true
  pub signer : identity.from ≡ run.required_signer

-- A request that fits is the signer's.
unfit_request-signer :
    (chain_id signer : String) (r : WalletTransactionRequest)
    → unfit_request chain_id signer r ≡ false
    → r.from ≡ signer
unfolding unfit_request
unfit_request-signer chain_id signer r h = ground (arith, str_eq_iff r.from signer)

module _ (viem : AddressLibrary) (hashing : Hashing) where
  pub prepared_attempt-IsPrepared :
      (run : PreparedRun) (kind : OperationKind) (attempt_id : String) (sequence : ℕ)
      (tx_id : String) (unsigned : Json) (prepared_at policy : String)
      {attempt : PreparationAttempt}
      → prepared_attempt viem hashing run kind attempt_id sequence tx_id unsigned prepared_at policy
        ≡ ok attempt
      → IsPrepared hashing run attempt_id sequence attempt
  unfolding prepared_attempt prepared_attempt_effect parse_execution_identity
  prepared_attempt-IsPrepared run kind attempt_id sequence tx_id unsigned prepared_at policy
        {attempt} h =
      elim (Result-cases (project_prepared_transaction viem unsigned)) [
        | inr (e, failed) ↦ ground arith
        | inl (normalized, projected) ↦
            let request = normalized.wallet_request in
            elim (Result-cases (
              create_server_bounded_fee_authorization (record {
                values = fee_values_of request;
                prepared_access_list = request.access_list;
              }))) [
                | inr (e, failed) ↦ ground arith
                | inl (fee, authorized) ↦ elim (Result-cases (json_clone unsigned)) [
                  | inr (e, failed) ↦ ground arith
                  | inl (cloned, same) ↦
                      let identity = identity_of request in
                      let commitment = hashing.sha256_utf8 identity.calldata in
                      let fingerprint = hashing.hash_preparation (
                        preparation_subject run kind attempt_id tx_id prepared_at identity
                          commitment fee) in
                      let fits : unfit_request normalized.chain_id run.required_signer request
                          ≡ false =
                        ground arith in
                      let e : attempt
                          ≡ prepared_attempt_effect attempt_id sequence tx_id cloned fingerprint
                              commitment identity fee prepared_at run.revision policy =
                        ground arith in
                      record {
                        identity = identity;
                        fee = fee;
                        same_id = ap PreparationAttempt.attempt_id e;
                        same_sequence = ap PreparationAttempt.sequence e;
                        state = ap PreparationAttempt.state e;
                        has_identity = ap PreparationAttempt.immutable_identity e;
                        has_fee = ap PreparationAttempt.fee_authorization e;
                        commitment = ap PreparationAttempt.calldata_commitment e;
                        valid_identity = ground arith;
                        signer =
                            unfit_request-signer normalized.chain_id run.required_signer request
                              fits;
                      }
                ]
              ]
      ]
