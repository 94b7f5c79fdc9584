-- ===== src/Api/Status.antt =====
-- The state of a purchase (internal/api/purchase_status.go), and the NIP-05 document of a name
-- (internal/api/nip05.go).
pub mod Owner
use cloistr_address.Base.{
  ℕ, String, Bool, true, false, not, ◌&&◌, ◌||◌, Option, none, some, List, [], ◌∷◌, leb, ◌==◌,
  if◌then◌else◌, same, length,
}
use cloistr_address.Base.Texts.{codes}
use cloistr_address.Db.Tables.{Address}
use cloistr_address.Db.Exec.{Result, ok, err, Exec, pure, ◌>>=◌, try}
use cloistr_address.Store.Addresses.Rows.{get_address_by_username}
use cloistr_address.Api.Http.{meta_text, Reply, typed, error_reply, service_error}
use cloistr_address.Api.Gateway.{Invoice, Gateway}
use cloistr_address.Api.Settlement.{meta_pubkey, meta_username, kind_address, settlement_kind}

-- The struct `PurchaseStatusResponse`.
pub record PurchaseStatusResponse : Type 0 where
  pub status : String
  pub username : String
  pub reason : String

unfoldable pub is_id_char : ℕ → Bool
is_id_char c =
    leb b'A' c && leb c b'Z'
    || leb b'a' c && leb c b'z'
    || leb b'0' c && leb c b'9'
    || c == b'_'
    || c == b'-'

unfoldable pub all_chars : (ℕ → Bool) → List ℕ → Bool
all_chars p [] = true
all_chars p (c ∷ cs) = p c && all_chars p cs

-- `invoiceIDPattern`: ^[A-Za-z0-9_-]{1,64}$
unfoldable pub is_invoice_id : String → Bool
unfolding is_id_char all_chars
is_invoice_id s =
    leb 1 (length (codes s)) && leb (length (codes s)) 64 && all_chars is_id_char (codes s)

-- What a settled invoice came to: the address may be the buyer's, another's or not there yet.
unfoldable pub settled_status :
    String → String → Result (Option Address) → Exec (Reply PurchaseStatusResponse)
settled_status pubkey username (err e) = pure service_error
settled_status pubkey username (ok none) =
    pure (typed 200 record { status = "processing"; username = username; reason = "" })
settled_status pubkey username (ok (some a)) =
    if same a.pubkey pubkey
    then pure (typed 200 record { status = "completed"; username = username; reason = "" })
    else pure (typed 200 record { status = "failed"; username = username; reason = "name_taken" })

unfoldable pub unsettled_status : String → String
unsettled_status s =
    if same s "New"
    then "pending"
    else if same s "Processing"
    then "processing"
    else if same s "Expired"
    then "expired"
    else if same s "Invalid"
    then "failed"
    else "pending"

-- The invoice is an address purchase of this pubkey.
unfoldable pub is_owner : String → Invoice → Bool
is_owner pubkey invoice =
    let owner = meta_text meta_pubkey invoice.metadata in
    not (same owner "")
    && (same owner pubkey && same (settlement_kind invoice.metadata) kind_address)

unfoldable pub status_of : String → String → Option Invoice → Exec (Reply PurchaseStatusResponse)
status_of domain pubkey none = pure (error_reply 404 "Invoice not found")
status_of domain pubkey (some invoice) =
    let username = meta_text meta_username invoice.metadata in
    if not (is_owner pubkey invoice)
    then pure (error_reply 404 "Invoice not found")
    else if same invoice.status "Settled"
    then try (get_address_by_username username domain) >>= settled_status pubkey username
    else pure (
        typed 200
          record { status = unsettled_status invoice.status; username = username; reason = "" })

-- `Handler.getPurchaseStatus`
unfoldable pub get_purchase_status :
    String → Gateway → String → String → Exec (Reply PurchaseStatusResponse)
get_purchase_status domain gw pubkey invoice_id =
    if not (is_invoice_id invoice_id)
    then pure (error_reply 404 "Invoice not found")
    else status_of domain pubkey (gw.get_invoice invoice_id)

-- The struct `NIP05Response`: at most one name, and the relays of its pubkey.
pub record Nip05Response : Type 0 where
  pub names : List (String × String)
  pub relays : List (String × List String)

abbrev pub no_names : Nip05Response
no_names = record { names = []; relays = [] }

unfoldable pub or_default : List String → Result (List String) → List String
or_default defaults (ok (r ∷ rs)) = r ∷ rs
or_default defaults _ = defaults

unfoldable pub nip05_relays : String → List String → List (String × List String)
nip05_relays pubkey [] = []
nip05_relays pubkey (r ∷ rs) = (pubkey, r ∷ rs) ∷ []

unfoldable pub nip05_found :
    List String → (ℕ → Exec (List String)) → Result (Option Address) → Exec Nip05Response
nip05_found defaults relays_of (err e) = pure no_names
nip05_found defaults relays_of (ok none) = pure no_names
nip05_found defaults relays_of (ok (some a)) = do
  relays ← try (relays_of a.id)
  pure record {
    names = (a.username, a.pubkey) ∷ [];
    relays = nip05_relays a.pubkey (or_default defaults relays);
  }

-- `Handler.handleNIP05`: every answer has status 200. The relays of an address and the relays of
-- the configuration are parameters.
unfoldable pub handle_nip05 :
    String → List String → (ℕ → Exec (List String)) → String → Exec Nip05Response
handle_nip05 domain defaults relays_of name =
    if same name ""
    then pure no_names
    else try (get_address_by_username name domain) >>= nip05_found defaults relays_of
