-- ===== src/Execution/V4/Contracts.antt =====
-- The schemas of src/server/execution/v4-contracts.ts, which the transitions parse and the codec
-- checks. `is_X` is whether the schema accepts a value of the type.
use edict.Prelude.{
  ℕ, suc, String, Bool, true, false, not, ◌&&◌, ◌||◌, Option, none, some, List, [], ◌∷◌, leb, ◌==◌,
  length, all, str_eq, opt_str_eq, is_some, is_none,
}
use edict.Text.{codes, is_wallet, is_sha256, is_tx_hash, is_digit}
use edict.Text.Time.{is_iso_utc}
use edict.Text.Quantity.{is_quantity, big_int}
use edict.Text.Numeral.{is_identifier, is_bounded, is_decimal}
use edict.Core.Json.{Json, is_canonical, is_plain_object}
use edict.Execution.Result.{Result, ok, schema_refused, ◌>>◌, refuse}
use edict.Execution.Evidence.{MatchStatus}
use edict.Fee.Schema.{is_fee_authorization}
use edict.Wallet.Transaction.Project.{optional}
use edict.Wallet.Intent.{is_execution_identity, is_observed_identity, max_safe_integer}
use edict.Execution.V4.Types.{
  AttemptState, FreshnessStatus, StaleReason, NonceFreshnessEvidence, PreparationAttempt,
  ProviderInvocation, WalletPromptAuthorizationRecord, FeeAuthorizationStatus,
  RpcTransactionAuthorizationEvidence, BrickkenCorrelationAttempt, CorrelationLifecycle,
  BrickkenCorrelation, BrickkenStatusEvidence, TokenIdentity,
}

-- `(a) !== (b)` on Booleans
abbrev pub differ : Bool → Bool → Bool
differ true b = not b
differ false b = b

abbrev pub is_fresh : FreshnessStatus → Bool
is_fresh FreshnessStatus.fresh = true
is_fresh FreshnessStatus.stale = false

-- `nonceFreshnessEvidenceV1Schema`
unfoldable pub is_nonce_evidence : NonceFreshnessEvidence → Bool
is_nonce_evidence e =
    is_identifier e.policy_version
    && str_eq e.chain_id "11155111"
    && is_wallet e.required_signer
    && is_quantity e.prepared_nonce
    && is_quantity e.observed_pending_nonce
    && is_iso_utc e.observed_at
    && not
        (differ (is_fresh e.status) (big_int e.prepared_nonce == big_int e.observed_pending_nonce))

unfoldable pub parse_nonce_evidence : NonceFreshnessEvidence → Result NonceFreshnessEvidence
parse_nonce_evidence e = do refuse (not (is_nonce_evidence e)) schema_refused; ok e

-- the states that have an output: `PREPARED` and `STALE`
abbrev pub has_output : AttemptState → Bool
has_output AttemptState.prepared = true
has_output AttemptState.stale = true
has_output _ = false

abbrev pub is_stale : AttemptState → Bool
is_stale AttemptState.stale = true
is_stale _ = false

-- every output of a preparation is there
unfoldable pub is_complete : PreparationAttempt → Bool
is_complete a =
    is_some a.tx_id
    && is_some a.unsigned_transaction
    && is_some a.preparation_fingerprint
    && is_some a.immutable_identity
    && is_some a.fee_authorization
    && is_some a.prepared_at
    && is_some a.prepared_run_revision

-- some output is there
unfoldable pub has_any_output : PreparationAttempt → Bool
has_any_output a =
    is_some a.tx_id
    || is_some a.unsigned_transaction
    || is_some a.preparation_fingerprint
    || is_some a.immutable_identity
    || is_some a.fee_authorization
    || is_some a.prepared_at
    || is_some a.prepared_run_revision
    || is_some a.calldata_commitment
    || is_some a.nonce_freshness_evidence
    || is_some a.stale_at
    || is_some a.stale_reason

-- the time and the policy version of the evidence are those of the attempt
abbrev evidence_differs : PreparationAttempt → Option NonceFreshnessEvidence → Bool
evidence_differs a none = is_some a.freshness_evaluated_at
evidence_differs a (some e) =
    not (opt_str_eq a.freshness_evaluated_at e.observed_at)
    || not (str_eq a.freshness_policy_version e.policy_version)

abbrev evidence_is_stale : Option NonceFreshnessEvidence → Bool
evidence_is_stale none = false
evidence_is_stale (some e) = not (is_fresh e.status)

abbrev is_nonce_mismatch : Option StaleReason → Bool
is_nonce_mismatch (some StaleReason.nonce_mismatch) = true
is_nonce_mismatch _ = false

abbrev state_differs : AttemptState → Option StaleReason → Option NonceFreshnessEvidence → Bool
state_differs AttemptState.stale reason e = is_nonce_mismatch reason && not (evidence_is_stale e)
state_differs AttemptState.prepared reason e = evidence_is_stale e
state_differs _ reason e = false

-- the issues of `preparationAttemptV1Schema`
unfoldable pub is_incoherent_attempt : PreparationAttempt → Bool
is_incoherent_attempt a =
    differ (has_output a.state) (is_complete a)
    || differ (is_stale a.state) (is_some a.stale_at && is_some a.stale_reason)
    || (not (has_output a.state) && has_any_output a)
    || evidence_differs a a.nonce_freshness_evidence
    || state_differs a.state a.stale_reason a.nonce_freshness_evidence

-- `z.number().int().safe().positive()`
abbrev is_positive : ℕ → Bool
is_positive n = leb 1 n && leb n max_safe_integer

-- `z.record(z.string(), jsonValueSchema)`
abbrev is_json_record : Json → Bool
is_json_record v = is_plain_object v && is_canonical v

-- `preparationAttemptV1Schema`
unfoldable pub is_preparation_attempt : PreparationAttempt → Bool
is_preparation_attempt a =
    is_identifier a.attempt_id
    && is_positive a.sequence
    && optional (is_bounded 256) a.tx_id
    && optional is_json_record a.unsigned_transaction
    && optional is_sha256 a.preparation_fingerprint
    && optional is_sha256 a.calldata_commitment
    && optional is_execution_identity a.immutable_identity
    && optional is_fee_authorization a.fee_authorization
    && optional is_iso_utc a.prepared_at
    && optional is_positive a.prepared_run_revision
    && is_identifier a.freshness_policy_version
    && optional is_iso_utc a.freshness_evaluated_at
    && optional is_nonce_evidence a.nonce_freshness_evidence
    && optional is_iso_utc a.stale_at
    && not (is_incoherent_attempt a)

abbrev pub is_invoked : ProviderInvocation → Bool
is_invoked ProviderInvocation.proven_not_invoked = false
is_invoked ProviderInvocation.invoked_or_unknown = true

-- the issues of `walletPromptAuthorizationRecordV1Schema` that do not compare times
unfoldable pub is_incoherent_authority : WalletPromptAuthorizationRecord → Bool
is_incoherent_authority p =
    differ (is_invoked p.provider_invocation)
      (is_some p.invocation_attempt_id && is_some p.authority_released_at)
    || differ (is_none p.unresolved_outcome) (is_none p.unresolved_at)
    || (is_some p.unresolved_outcome && not (is_invoked p.provider_invocation))

abbrev pub is_within : FeeAuthorizationStatus → Bool
is_within FeeAuthorizationStatus.within_envelope = true
is_within _ = false

abbrev pub is_violation : FeeAuthorizationStatus → Bool
is_violation FeeAuthorizationStatus.policy_violation = true
is_violation _ = false

abbrev pub is_not_evaluated : FeeAuthorizationStatus → Bool
is_not_evaluated FeeAuthorizationStatus.not_evaluated = true
is_not_evaluated _ = false

abbrev pub matches : MatchStatus → Bool
matches MatchStatus.match = true
matches MatchStatus.mismatch = false

-- the issues of `rpcTransactionAuthorizationEvidenceV1Schema`
unfoldable pub is_incoherent_evidence : RpcTransactionAuthorizationEvidence → Bool
is_incoherent_evidence e =
    not (differ (matches e.immutable_identity_status) (is_not_evaluated e.fee_authorization_status))
    || differ (is_within e.fee_authorization_status) (is_some e.observed_maximum_network_fee_wei)
    || differ (is_violation e.fee_authorization_status) (is_some e.fee_policy_violation_code)

-- `rpcTransactionAuthorizationEvidenceV1Schema`
unfoldable pub is_rpc_evidence : RpcTransactionAuthorizationEvidence → Bool
is_rpc_evidence e =
    is_iso_utc e.observed_at
    && is_tx_hash e.transaction_hash
    && is_observed_identity e.immutable_identity
    && optional is_quantity e.observed_maximum_network_fee_wei
    && optional is_quantity e.observed_priority_fee_per_gas
    && optional is_quantity e.observed_gas_limit
    && optional is_quantity e.observed_max_fee_per_gas
    && not (is_incoherent_evidence e)

-- the attempts are numbered from one past `n` on
unfoldable pub are_numbered : ℕ → List BrickkenCorrelationAttempt → Bool
are_numbered n [] = true
are_numbered n (a ∷ attempts) = a.attempt == suc n && are_numbered (suc n) attempts

abbrev pub is_correlated : CorrelationLifecycle → Bool
is_correlated CorrelationLifecycle.pending = false
is_correlated CorrelationLifecycle.correlated = true

-- the issues of `brickkenCorrelationV1Schema`, with the number of attempts
unfoldable pub is_incoherent_correlation : BrickkenCorrelation → Bool
is_incoherent_correlation c =
    not (leb 1 (length c.attempts) && leb (length c.attempts) 3)
    || not (are_numbered 0 c.attempts)
    || differ (is_correlated c.lifecycle) (is_some c.correlated_at)

abbrev is_correlation_attempt : BrickkenCorrelationAttempt → Bool
is_correlation_attempt a = leb 1 a.attempt && leb a.attempt 3 && is_iso_utc a.authorized_at

-- `brickkenCorrelationV1Schema`
unfoldable pub is_brickken_correlation : BrickkenCorrelation → Bool
is_brickken_correlation c =
    is_bounded 256 c.pair.tx_id
    && is_tx_hash c.pair.tx_hash
    && all is_correlation_attempt c.attempts
    && optional is_iso_utc c.correlated_at
    && not (is_incoherent_correlation c)

-- `brickkenStatusEvidenceV1Schema`
unfoldable pub is_status_evidence : BrickkenStatusEvidence → Bool
is_status_evidence e = is_iso_utc e.observed_at && is_bounded 256 e.tx_id && is_tx_hash e.tx_hash

unfoldable pub parse_status_evidence : BrickkenStatusEvidence → Result BrickkenStatusEvidence
parse_status_evidence e = do refuse (not (is_status_evidence e)) schema_refused; ok e

-- `[A-Z0-9]`
is_symbol_code : ℕ → Bool
is_symbol_code c = is_digit c || (leb b'A' c && leb c b'Z')

-- `/^[A-Z0-9]{3,5}$/`
unfoldable pub is_token_symbol : String → Bool
unfolding is_symbol_code
is_token_symbol s =
    all is_symbol_code (codes s) && leb 3 (length (codes s)) && leb (length (codes s)) 5

-- `/^[1-9][0-9]*$/`
abbrev is_positive_decimal : String → Bool
is_positive_decimal s = is_decimal s && not (str_eq s "0")

-- `tokenIdentityV1Schema`
unfoldable pub is_token_identity : TokenIdentity → Bool
is_token_identity t =
    optional is_wallet t.escrow_address
    && optional is_positive_decimal t.tokenization_id
    && str_eq t.chain_id "11155111"
    && is_wallet t.token_address
    && is_token_symbol t.token_symbol
    && is_wallet t.tokenizer_wallet_address
    && is_tx_hash t.tokenization_tx_hash
    && is_sha256 t.manifest_hash
    && is_sha256 t.plan_hash
    && is_iso_utc t.verified_at
    && is_sha256 t.read_back_evidence_hash

unfoldable pub parse_token_identity : TokenIdentity → Result TokenIdentity
parse_token_identity t = do refuse (not (is_token_identity t)) schema_refused; ok t
