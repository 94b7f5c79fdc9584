-- ===== src/Tests/Client.antt =====
-- The theorems on the clients at concrete requests.
use cloistr_address.Base.{
  ℕ, ◌+◌, ◌≤◌, ◌<◌, String, Bool, true, false, Option, none, some, List, [], ◌∷◌, ◌==◌,
  if◌then◌else◌,
}
use cloistr_address.Client.Btcpay.{Network, response, unavailable, create_invoice}
use cloistr_address.Client.Btcpay.Attempts.{Repeats, create_invoice_requests}
use cloistr_address.Client.Nip98.{Event, Request, Checks, accepted}

-- A node that never replies in time.
abbrev busy : Network
busy = record {
  answer = λ _. response 400 "did not reply in a timely manner";
  time_left = λ _. 9000;
  cancelled = λ _. false;
}

abbrev no_invoice : String → Option String
no_invoice body = some body

create_invoice_requests_example :
    let n = (create_invoice no_invoice busy).0 in
    (1 ≤ n) × (n ≤ 3) × ((k : ℕ) → k + 1 < n → Repeats busy (1 + k))
create_invoice_requests_example = create_invoice_requests no_invoice busy

abbrev sample_event : Event
sample_event = record {
  pubkey = "pk";
  kind = 27235;
  created_at = 1000;
  tags = ("u" ∷ "https://me.io/api" ∷ []) ∷ ("method" ∷ "GET" ∷ []) ∷ [];
  sig = "sig";
}

abbrev sample_checks : Checks
sample_checks = record {
  decode_base64 = λ s. some s;
  parse_event = λ s. some sample_event;
  check_signature = λ e. true;
  fold = λ c. c;
}

abbrev sample_request : Request
sample_request = record {
  authorization = "Nostr e30=";
  tls = true;
  forwarded_proto = "";
  forwarded_host = "";
  host = "me.io";
  path = "/api/";
  raw_query = "";
  method = "GET";
}
