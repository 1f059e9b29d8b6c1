-- ===== src/Domain.antt =====
-- The shared domain model, internal/common/domain.
pub mod Email
pub mod Errors
pub mod Optional
pub mod PaymentCycle
pub mod Money
pub mod BillingNumber
pub mod InvoiceNumber
pub mod Vendor
pub mod ParsedEmail
pub mod LineItem
pub mod Billing
pub mod VendorResolution
pub mod Eligibility
