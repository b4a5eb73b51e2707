-- ===== src/X402Headers.antt =====
-- src/lib/x402-headers.ts: the header that carries a payment.
use x402_agent_suite.Base.{Bool, false, not, Option, none, some, Text, is_empty}

-- A header that is sent once, several times, or not at all.
pub data Header : Type 0 where
  absent : Header
  single : Text → Header
  repeated : Text → Header

pub record PaymentHeaders : Type 0 where
  pub payment_signature : Header
  pub x_payment : Header
  pub x402_payment : Header

abbrev pub or_header : Header → Header → Header
or_header absent h = h
or_header h _ = h

abbrev pub header_text : Header → Option Text
header_text absent = none
header_text (single t) = some t
header_text (repeated t) = some t

unfoldable pub payment_signature_header : PaymentHeaders → Option Text
payment_signature_header h =
    header_text (or_header h.payment_signature (or_header h.x_payment h.x402_payment))

abbrev pub is_truthy : Option Text → Bool
is_truthy none = false
is_truthy (some t) = not (is_empty t)

unfoldable pub has_payment_signature_header : PaymentHeaders → Bool
unfolding payment_signature_header
has_payment_signature_header h = is_truthy (payment_signature_header h)
