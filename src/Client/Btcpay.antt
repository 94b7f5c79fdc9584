-- ===== src/Client/Btcpay.antt =====
-- Creating an invoice at BTCPay (internal/btcpay/client.go). The network is a parameter: what
-- each attempt brings back, and how much time is left of the budget after it (milliseconds).
pub mod Attempts
use cloistr_address.Base.{
  ℕ, zero, suc, ◌+◌, ◌-◌, String, Bool, true, false, not, ◌&&◌, ◌||◌, Option, none, some, List, [],
  ◌∷◌, ltb, leb, ◌==◌, if◌then◌else◌, same,
}
use cloistr_address.Base.Texts.{codes, contains_text}

-- `invoiceBudget`, `perAttemptTimeout`, `transientRetryWait`, `maxInvoiceAttempts`
unfoldable pub invoice_budget : ℕ
invoice_budget = 15000

unfoldable pub per_attempt_timeout : ℕ
per_attempt_timeout = 7000

unfoldable pub transient_retry_wait : ℕ
transient_retry_wait = 500

unfoldable pub max_invoice_attempts : ℕ
max_invoice_attempts = 3

-- `isTransientLNFailure`
unfoldable pub is_transient_ln_failure : ℕ → String → Bool
is_transient_ln_failure status body =
    if not (status == 400)
    then false
    else contains_text (codes "did not reply in a timely manner") (codes body)
      || contains_text (codes "Payment method unavailable") (codes body)

-- What `send` brings back: a transport error, or a status and a body.
pub data Sent : Type 0 where
  transport_error : Sent
  response : ℕ → String → Sent

-- How `CreateInvoice` ends.
pub data Outcome (Invoice : Type 0) : Type 0 where
  made : Invoice → Outcome Invoice
  unreadable : Outcome Invoice
  failed_to_send : Outcome Invoice
  rejected : ℕ → String → Outcome Invoice
  unavailable : ℕ → String → Outcome Invoice
  out_of_fuel : Outcome Invoice

-- The network: the answer to the n-th attempt, the time left of the budget when it came, and
-- whether the caller's context ended during the wait that follows it.
pub record Network : Type 0 where
  pub answer : ℕ → Sent
  pub time_left : ℕ → ℕ
  pub cancelled : ℕ → Bool

-- More than the loop ever uses.
unfoldable pub loop_fuel : ℕ
loop_fuel = 10

module _ {Invoice : Type 0} (unmarshal : String → Option Invoice) (net : Network) where
  unfoldable pub read_invoice : String → Outcome Invoice
  read_invoice body = elim (unmarshal body) [ none ↦ unreadable | some i ↦ made i ]

  -- Whether another attempt follows a transient failure of this one.
  unfoldable pub retries : ℕ → Bool
  retries attempt =
      not (leb max_invoice_attempts attempt)
      && (not (ltb (net.time_left attempt) (per_attempt_timeout + transient_retry_wait))
          && not (net.cancelled attempt))

  -- What one attempt comes to, with the outcome of the attempts after it.
  unfoldable pub attempt_answer : ℕ → Sent → Outcome Invoice → Outcome Invoice
  attempt_answer attempt transport_error rest = failed_to_send
  attempt_answer attempt (response status body) rest =
      if status == 200 || status == 201
      then read_invoice body
      else if not (is_transient_ln_failure status body)
      then rejected status body
      else if retries attempt
      then rest
      else unavailable attempt body

  unfoldable pub goes_on : ℕ → Sent → Bool
  goes_on attempt transport_error = false
  goes_on attempt (response status body) =
      not (status == 200 || status == 201)
      && (is_transient_ln_failure status body && retries attempt)

  -- The loop from an attempt on, and how many requests it sends. The fuel is no bound of the code's:
  -- out of fuel it has no outcome.
  unfoldable pub attempts : ℕ → ℕ → ℕ × Outcome Invoice
  attempts zero attempt = (0, out_of_fuel)
  attempts (suc fuel) attempt =
      let rest = attempts fuel (attempt + 1) in
      (
        1 + (if goes_on attempt (net.answer attempt) then rest.0 else 0),
        attempt_answer attempt (net.answer attempt) rest.1,
      )

  -- `Client.CreateInvoice`
  unfoldable pub create_invoice : ℕ × Outcome Invoice
  create_invoice = attempts loop_fuel 1
