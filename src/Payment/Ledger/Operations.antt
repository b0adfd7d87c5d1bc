-- ===== src/Payment/Ledger/Operations.antt =====
-- The operations that the commands of the service call on a loaded payment. A raise rolls the
-- transaction back, so the stored payment is as before.
use event_ticketing_soa.Common.{
  ℕ, ◌+◌, Bool, Option, List, [], ◌∷◌, Result, ok, err, pure, ◌>>=◌, ◌>>◌,
}
use event_ticketing_soa.Common.Text.{Text}
use event_ticketing_soa.Common.Money.{Decimal}
use event_ticketing_soa.Payment.Enums.{ProviderOperation, RefundKind}
use event_ticketing_soa.Payment.Errors.{PaymentError}
use event_ticketing_soa.Payment.Values.{Refund}
use event_ticketing_soa.Payment.Entity
use event_ticketing_soa.Payment.Entity.{Payment, Method}

pub data Operation : Type 0 where
  -- provider_reference, expected_version, reconciled
  authorize : Text → ℕ → Bool → Operation
  -- provider_reference, expected_version, allow_direct, reconciled
  capture : Text → ℕ → Bool → Bool → Operation
  -- failure_code, reason, provider_reference, expected_version, operation, reconciled
  fail : Text → Text → Option Text → ℕ → Option ProviderOperation → Bool → Operation
  -- reason, provider_reference, expected_version, reconciled
  cancel : Text → Option Text → ℕ → Bool → Operation
  -- operation, reason, expected_version, provider_reference
  mark_unknown : ProviderOperation → Text → ℕ → Option Text → Operation
  -- reason, expected_version, next_due_at
  record_reconciliation_failure : Text → ℕ → Option ℕ → Operation
  -- refund_id, amount, reason, provider_reference, kind, expected_version, reconciled
  refund : Text → Decimal → Text → Text → RefundKind → ℕ → Bool → Operation

abbrev pub expected_version : Operation → ℕ
expected_version (Operation.authorize _ v _) = v
expected_version (Operation.capture _ v _ _) = v
expected_version (Operation.fail _ _ _ v _ _) = v
expected_version (Operation.cancel _ _ v _) = v
expected_version (Operation.mark_unknown _ _ v _) = v
expected_version (Operation.record_reconciliation_failure _ v _) = v
expected_version (Operation.refund _ _ _ _ _ v _) = v

-- A refund returns its receipt.
unfoldable pub perform : Operation → ℕ → Method (List Refund)
perform (Operation.authorize r v reconciled) now = Entity.authorize r v now reconciled >> pure []
perform (Operation.capture r v direct reconciled) now =
    Entity.capture r v now direct reconciled >> pure []
perform (Operation.fail c t r v o reconciled) now = Entity.fail c t r v now o reconciled >> pure []
perform (Operation.cancel t r v reconciled) now = Entity.cancel t r v now reconciled >> pure []
perform (Operation.mark_unknown o t v r) now = Entity.mark_unknown o t v now r >> pure []
perform (Operation.record_reconciliation_failure t v due) now =
    Entity.record_reconciliation_failure t v now due >> pure []
perform (Operation.refund id d t r k v reconciled) now =
    Entity.refund id d t r k v now reconciled >>= λ receipt. pure (receipt ∷ [])

-- The receipts and the payment that are stored at the end of the call.
abbrev pub stored : Payment → Result PaymentError (List Refund) × Payment → List Refund × Payment
stored p (ok rs, p') = (rs, p')
stored p (err _, _) = ([], p)

-- The amounts of the receipts.
abbrev pub total : List Refund → ℕ
total [] = 0
total (r ∷ rs) = r.amount + total rs

-- A history of operations, each at its time: what is refunded by it, and the payment it leaves.
unfoldable pub history : List (Operation × ℕ) → Payment → ℕ × Payment
history [] p = (0, p)
history ((o, now) ∷ os) p =
    let (rs, p') = stored p (perform o now p) in let (n, q) = history os p' in (total rs + n, q)
