-- ===== src/Payment/Enums.antt =====
-- services/payment-service/app/domain/enums.py, with the equality that the code's tests use.
use event_ticketing_soa.Common.{Bool, true, false, Eq}

pub data PaymentStatus : Type 0 where
  pending authorized captured unknown failed cancelled partially_refunded refunded : PaymentStatus

pub data ReconciliationStatus : Type 0 where
  not_required pending in_progress completed failed : ReconciliationStatus

pub data ProviderOperation : Type 0 where
  authorize capture cancel refund : ProviderOperation

pub data ProviderOutcomeSource : Type 0 where
  command callback reconciliation mock_provider : ProviderOutcomeSource

pub data MockProviderScenario : Type 0 where
  manual success decline timeout : MockProviderScenario

pub data RefundKind : Type 0 where
  requested reconciliation : RefundKind

abbrev pub status_eq : PaymentStatus → PaymentStatus → Bool
status_eq PaymentStatus.pending PaymentStatus.pending = true
status_eq PaymentStatus.authorized PaymentStatus.authorized = true
status_eq PaymentStatus.captured PaymentStatus.captured = true
status_eq PaymentStatus.unknown PaymentStatus.unknown = true
status_eq PaymentStatus.failed PaymentStatus.failed = true
status_eq PaymentStatus.cancelled PaymentStatus.cancelled = true
status_eq PaymentStatus.partially_refunded PaymentStatus.partially_refunded = true
status_eq PaymentStatus.refunded PaymentStatus.refunded = true
status_eq _ _ = false

instance abbrev pub status : Eq PaymentStatus
status = record { beq = status_eq }

abbrev pub operation_eq : ProviderOperation → ProviderOperation → Bool
operation_eq ProviderOperation.authorize ProviderOperation.authorize = true
operation_eq ProviderOperation.capture ProviderOperation.capture = true
operation_eq ProviderOperation.cancel ProviderOperation.cancel = true
operation_eq ProviderOperation.refund ProviderOperation.refund = true
operation_eq _ _ = false
