-- ===== src/Client/Btcpay/Attempts.antt =====
-- How often an invoice is asked for (internal/btcpay/client.go).
use cloistr_address.Base.{
  ℕ, zero, suc, ◌+◌, ◌≤◌, ◌<◌, ◌≡◌, inl, inr, refl, String, true, ◌||◌, Option, arith, Bool-cases,
}
use cloistr_address.Base.Texts.{codes, contains_text}
use cloistr_address.Client.Btcpay.{
  Network, Sent, transport_error, response, attempts, goes_on, retries, create_invoice, loop_fuel,
  per_attempt_timeout, transient_retry_wait, max_invoice_attempts, is_transient_ln_failure,
}

-- The answer to the n-th request, and the time after it, call for another.
pub record Repeats (net : Network) (n : ℕ) : Type 0 where
  pub body : String
  pub bad_request : net.answer n ≡ response 400 body
  pub transient :
      contains_text (codes "did not reply in a timely manner") (codes body)
        || contains_text (codes "Payment method unavailable") (codes body)
      ≡ true
  pub time : 7500 ≤ net.time_left n

module _ {Invoice : Type 0} (unmarshal : String → Option Invoice) (net : Network) where
  goes_on_below :
      (n : ℕ) (a : Sent) → goes_on unmarshal net n a ≡ true → n + 1 ≤ max_invoice_attempts
  unfolding goes_on retries
  goes_on_below n transport_error h = absurd cc
  goes_on_below n (response status body) h = ground arith

  -- The cap of the code, and not the fuel, bounds the requests.
  attempts_le :
      (fuel n : ℕ)
      → n ≤ max_invoice_attempts
      → (attempts unmarshal net fuel n).0 + n ≤ max_invoice_attempts + 1
  unfolding attempts
  attempts_le zero n h = omega (arith, h)
  attempts_le (suc fuel) n h = elim (Bool-cases (goes_on unmarshal net n (net.answer n))) [
    | inl e ↦
        let more : n + 1 ≤ max_invoice_attempts = goes_on_below n (net.answer n) e in
        rw e (omega (arith, attempts_le fuel (n + 1) more))
    | inr e ↦ rw e (omega (arith, h))
  ]

  attempts_ge : (fuel n : ℕ) → 1 ≤ (attempts unmarshal net (suc fuel) n).0
  unfolding attempts
  attempts_ge fuel n = omega arith

  -- Every request that another one follows was answered by the transient failure.
  attempts-goes_on :
      (fuel n k : ℕ)
      → k + 1 < (attempts unmarshal net fuel n).0
      → goes_on unmarshal net (n + k) (net.answer (n + k)) ≡ true
  unfolding attempts
  attempts-goes_on zero n k h = absurd (omega arith)
  attempts-goes_on (suc fuel) n zero h = ground arith
  attempts-goes_on (suc fuel) n (suc k) h = ground (arith, attempts-goes_on fuel (n + 1) k)

  -- What lets another request follow this one.
  goes_on-Repeats :
      (n : ℕ) (a : Sent) → goes_on unmarshal net n a ≡ true → net.answer n ≡ a → Repeats net n
  unfolding goes_on retries is_transient_ln_failure per_attempt_timeout transient_retry_wait
  goes_on-Repeats n transport_error h e = cc
  goes_on-Repeats n (response status body) h e = record {
    body = body;
    bad_request = ground (arith, e);
    transient = ground arith;
    time = ground arith;
  }

  -- Creating an invoice sends at least one and at most three requests, and another one follows a
  -- request only where that one was answered with status 400 and one of the two texts of a node that
  -- is not ready, with time for the wait and a further attempt.
  pub create_invoice_requests :
      let n = (create_invoice unmarshal net).0 in
      (1 ≤ n) × (n ≤ 3) × ((k : ℕ) → k + 1 < n → Repeats net (1 + k))
  unfolding create_invoice loop_fuel max_invoice_attempts
  create_invoice_requests = (
    attempts_ge 9 1,
    omega (arith, attempts_le 10 1 (omega arith)),
    λ k h. goes_on-Repeats (1 + k) (net.answer (1 + k)) (attempts-goes_on 10 1 k h) refl,
  )
