-- ===== src/Wallet/Intent.antt =====
-- The identity of a transaction, the authorizations that a prompt rests on, and the wallet intent:
-- the schemas of src/shared/wallet/execution-authorization.ts. Fields with one literal value that no
-- code compares are left out, here and in the JSON of `hash_wallet_execution_intent`.
use edict.Prelude.{ℕ, String, Bool, true, false, not, ◌&&◌, ◌||◌, leb, str_eq}
use edict.Text.{is_wallet, is_sha256, is_tx_hash}
use edict.Text.Quantity.{is_quantity}
use edict.Text.Numeral.{is_data, is_identifier, is_bounded, is_decimal, text_length, prefix}
use edict.Execution.Result.{Result, ok, schema_refused, ◌>>◌, refuse}
use edict.Execution.Kind.{OperationKind}
use edict.Fee.Schema.{FeeAuthorization, is_fee_authorization}
use edict.Wallet.Transaction.{calldata_code_units}

-- `ImmutableExecutionIdentityV1`; as observed on the chain, `chainId` is any decimal numeral
pub record ImmutableExecutionIdentity : Type 0 where
  pub chain_id : String
  pub from : String
  pub to : String
  pub calldata : String
  pub value : String
  pub nonce : String

abbrev has_identity_fields : ImmutableExecutionIdentity → Bool
has_identity_fields e =
    is_wallet e.from
    && is_wallet e.to
    && leb (text_length e.calldata) calldata_code_units
    && is_data e.calldata
    && is_quantity e.value
    && is_quantity e.nonce

-- `immutableExecutionIdentityV1Schema`
unfoldable pub is_execution_identity : ImmutableExecutionIdentity → Bool
is_execution_identity e = str_eq e.chain_id "11155111" && has_identity_fields e

-- `immutableExecutionIdentityV1Schema.parse`
unfoldable pub parse_execution_identity :
    ImmutableExecutionIdentity → Result ImmutableExecutionIdentity
parse_execution_identity e = do refuse (not (is_execution_identity e)) schema_refused; ok e

-- `observedImmutableExecutionIdentityV1Schema`
unfoldable pub is_observed_identity : ImmutableExecutionIdentity → Bool
is_observed_identity e = is_decimal e.chain_id && has_identity_fields e

-- `canonicalizeJson(left) === canonicalizeJson(right)`
unfoldable pub same_identity : ImmutableExecutionIdentity → ImmutableExecutionIdentity → Bool
same_identity a b =
    str_eq a.chain_id b.chain_id
    && str_eq a.from b.from
    && str_eq a.to b.to
    && str_eq a.calldata b.calldata
    && str_eq a.value b.value
    && str_eq a.nonce b.nonce

pub data BrickkenMethod : Type 0 where
  new_tokenization whitelist_user mint_token : BrickkenMethod

abbrev pub same_method : BrickkenMethod → BrickkenMethod → Bool
same_method new_tokenization new_tokenization = true
same_method whitelist_user whitelist_user = true
same_method mint_token mint_token = true
same_method _ _ = false

pub record DestinationPolicy : Type 0 where
  pub policy_id : String
  pub reviewed_destination : String

pub record SelectorPolicy : Type 0 where
  pub policy_id : String
  pub reviewed_selector : String

pub record SemanticAuthorization : Type 0 where
  pub policy_version : String
  pub authorization_id : String
  pub environment : String
  pub brickken_method : BrickkenMethod
  pub execution_mode : String
  pub destination_policy : DestinationPolicy
  pub selector_policy : SelectorPolicy
  pub calldata_commitment : String

-- `/^0x[0-9a-f]{8}$/`
abbrev is_selector : String → Bool
is_selector s = is_data s && leb 10 (text_length s) && leb (text_length s) 10

-- `semanticAuthorizationV1Schema`
unfoldable pub is_semantic_authorization : SemanticAuthorization → Bool
is_semantic_authorization s =
    is_identifier s.policy_version
    && is_identifier s.authorization_id
    && str_eq s.environment "sandbox"
    && str_eq s.execution_mode "client-broadcast"
    && is_identifier s.destination_policy.policy_id
    && is_wallet s.destination_policy.reviewed_destination
    && is_identifier s.selector_policy.policy_id
    && is_selector s.selector_policy.reviewed_selector
    && is_sha256 s.calldata_commitment

unfoldable pub parse_semantic_authorization : SemanticAuthorization → Result SemanticAuthorization
parse_semantic_authorization s = do refuse (not (is_semantic_authorization s)) schema_refused; ok s

pub record BrickkenPreparationIdentity : Type 0 where
  pub method : BrickkenMethod
  pub execution_mode : String
  pub preparation_attempt_id : String
  pub prepared_tx_id : String
  pub preparation_fingerprint : String

-- `brickkenPreparationIdentityV1Schema`
unfoldable pub is_preparation_identity : BrickkenPreparationIdentity → Bool
is_preparation_identity p =
    str_eq p.execution_mode "client-broadcast"
    && is_identifier p.preparation_attempt_id
    && is_bounded 256 p.prepared_tx_id
    && is_sha256 p.preparation_fingerprint

pub record IntentOperation : Type 0 where
  pub id : String
  pub kind : OperationKind
  pub sequence : ℕ

pub record ApprovalIdentity : Type 0 where
  pub approval_revision : ℕ
  pub typed_data_digest : String

pub record WalletExecutionIntent : Type 0 where
  pub run_id : String
  pub run_revision : ℕ
  pub approval_identity : ApprovalIdentity
  pub manifest_hash : String
  pub plan_hash : String
  pub environment : String
  pub operation : IntentOperation
  pub required_signer : String
  pub decimal_chain_id : String
  pub immutable_identity : ImmutableExecutionIdentity
  pub fee_authorization : FeeAuthorization
  pub brickken_preparation : BrickkenPreparationIdentity
  pub semantic_authorization : SemanticAuthorization

-- the authority mismatch that `walletExecutionIntentV1Schema` reports
unfoldable pub has_authority_mismatch : WalletExecutionIntent → Bool
has_authority_mismatch intent =
    let identity = intent.immutable_identity in
    let semantic = intent.semantic_authorization in
    not (str_eq intent.required_signer identity.from)
    || not (str_eq intent.decimal_chain_id identity.chain_id)
    || not (str_eq semantic.environment intent.environment)
    || not (same_method semantic.brickken_method intent.brickken_preparation.method)
    || not (str_eq semantic.execution_mode intent.brickken_preparation.execution_mode)
    || not (str_eq semantic.destination_policy.reviewed_destination identity.to)
    || not (str_eq semantic.selector_policy.reviewed_selector (prefix 10 identity.calldata))

-- `z.number().int().safe()`
abbrev pub max_safe_integer : ℕ
max_safe_integer = 9007199254740991

-- `walletExecutionIntentV1Schema`
unfoldable pub is_wallet_execution_intent : WalletExecutionIntent → Bool
is_wallet_execution_intent intent =
    is_identifier intent.run_id
    && leb 1 intent.run_revision
    && leb intent.run_revision max_safe_integer
    && leb intent.approval_identity.approval_revision max_safe_integer
    && is_tx_hash intent.approval_identity.typed_data_digest
    && is_sha256 intent.manifest_hash
    && is_sha256 intent.plan_hash
    && str_eq intent.environment "sandbox"
    && is_identifier intent.operation.id
    && leb 1 intent.operation.sequence
    && leb intent.operation.sequence 3
    && is_wallet intent.required_signer
    && str_eq intent.decimal_chain_id "11155111"
    && is_execution_identity intent.immutable_identity
    && is_fee_authorization intent.fee_authorization
    && is_preparation_identity intent.brickken_preparation
    && is_semantic_authorization intent.semantic_authorization
    && not (has_authority_mismatch intent)

-- `validateWalletExecutionIntentV1`; the parts of an intent are texts and safe integers, which
-- `canonicalizeJson` accepts
unfoldable pub validate_wallet_execution_intent :
    WalletExecutionIntent → Result WalletExecutionIntent
validate_wallet_execution_intent intent = do
  refuse (not (is_wallet_execution_intent intent)) schema_refused
  ok intent
