-- ===== src/Client/Nwc/Answers.antt =====
-- Which invoices a wallet connection brings (internal/nwc/client.go).
use cloistr_address.Base.{
  ◌≡◌, ◌⊎◌, refl, ap, String, true, false, Option, none, some, List, [], ◌∷◌, ◌++◌, inl, inr,
  Bool-cases, arith,
}
use cloistr_address.Client.Nwc.{
  Codec, Relay, Client, Response, Invoice, InvoiceRequest, Answer, given, refused, encrypt, decrypt,
  parsed_response, with_nip04, fall_back, handle_response, or_later, first_response, wallet_answer,
  awaited, send_encrypted, send_request, parsed_invoice, invoice_of, make_invoice,
}

module _ (k : Codec) (r : Relay) where
  -- A content that one of the two encryptions opens to a response.
  pub record Opens (content : String) (response : Response) : Type 0 where
    pub plain : String
    pub opened : (k.decrypt_nip44 content ≡ some plain) ⊎ (k.decrypt_nip04 content ≡ some plain)
    pub read : r.parse_response plain ≡ some response

  -- The event of an invoice among those that the subscription brought.
  pub record Received (i : Invoice) : Type 0 where
    pub front : List String
    pub content : String
    pub back : List String
    pub response : Response
    pub among : r.contents ≡ front ++ (content ∷ back)
    pub opens : Opens content response
    pub no_error : response.error ≡ none
    pub read : r.parse_invoice response.result ≡ some i

  decrypt-cases :
      (c : Client) (content plain : String)
      → decrypt k c content ≡ some plain
      → (k.decrypt_nip44 content ≡ some plain) ⊎ (k.decrypt_nip04 content ≡ some plain)
  unfolding decrypt
  decrypt-cases c content plain h = elim (Bool-cases c.use_nip44) [
    | inl e ↦ inl (rw e at h)
    | inr e ↦ inr (rw e at h)
  ]

  parsed_response-Opens :
      (c : Client) (content : String) (o : Option String) (response : Response)
      → decrypt k c content ≡ o
      → parsed_response k r o ≡ some response
      → Opens content response
  unfolding parsed_response
  parsed_response-Opens c content none response e h = absurd cc
  parsed_response-Opens c content (some plain) response e h = record {
    plain = plain;
    opened = decrypt-cases c content plain e;
    read = h;
  }

  fall_back-Opens :
      (c : Client) (content : String) (o : Option String) (response : Response)
      → decrypt k c content ≡ o
      → (fall_back k r c content o).0 ≡ some response
      → Opens content response
  unfolding fall_back with_nip04
  fall_back-Opens c content (some plain) response e h = record {
    plain = plain;
    opened = decrypt-cases c content plain e;
    read = h;
  }
  fall_back-Opens c content none response e h = elim (Bool-cases c.use_nip44) [
    | inl u ↦
        parsed_response-Opens (record c { use_nip44 = false }) content _ response refl (rw u at h)
    | inr u ↦ absurd (cc (rw u at h))
  ]

  -- Where the first response stands, and what opens it.
  record First (contents : List String) (response : Response) : Type 0 where
    pub front : List String
    pub content : String
    pub back : List String
    pub among : contents ≡ front ++ (content ∷ back)
    pub opens : Opens content response

  or_later-First :
      (content : String) (contents : List String) (response : Response) (later o : Option Response)
      (c : Client)
      → ((q : Response) → o ≡ some q → Opens content q)
      → ((q : Response) → later ≡ some q → First contents q)
      → or_later k r (o, c) later ≡ some response
      → First (content ∷ contents) response
  unfolding or_later
  or_later-First content contents response later (some q) c now next h = record {
    front = [];
    content = content;
    back = contents;
    among = refl;
    opens = now response h;
  }
  or_later-First content contents response later none c now next h =
      let f = next response h in
      record {
        front = content ∷ f.front;
        content = f.content;
        back = f.back;
        among = ap (λ (xs : List String). content ∷ xs) f.among;
        opens = f.opens;
      }

  first_response-First :
      (c : Client) (contents : List String) (response : Response)
      → first_response k r c contents ≡ some response
      → First contents response
  unfolding first_response handle_response
  first_response-First c [] response h = absurd cc
  first_response-First c (content ∷ contents) response h =
      let handled = fall_back k r c content (decrypt k c content) in
      or_later-First content contents response (first_response k r handled.1 contents) handled.0
        handled.1 (λ q e. fall_back-Opens c content _ q refl e)
        (λ q e. first_response-First handled.1 contents q e) h

  awaited-result :
      (o : Option Response) (result : String)
      → awaited k r o ≡ given result
      → (response : Response) × (o ≡ some response)
        × (response.error ≡ none)
        × (response.result ≡ result)
  unfolding awaited
  awaited-result none result h = absurd cc
  awaited-result (some response) result h = go response.error refl h
    where
      go :
          (e : Option (String × String))
          → response.error ≡ e
          → wallet_answer k r e response.result ≡ given result
          → (q : Response) × (some response ≡ some q) × (q.error ≡ none) × (q.result ≡ result)
      go none e h = (response, refl, e, unfold wallet_answer in ground arith)
      go (some (code, text)) e h = absurd (unfold wallet_answer in cc)

  send_encrypted-awaited :
      (c : Client) (o : Option String) (result : String)
      → send_encrypted k r c o ≡ given result
      → awaited k r (first_response k r c r.contents) ≡ given result
  unfolding send_encrypted
  send_encrypted-awaited c none result h = absurd cc
  send_encrypted-awaited c (some content) result h = ground arith

  parsed_invoice-given :
      {i : Invoice} (o : Option Invoice) → parsed_invoice k r o ≡ given i → o ≡ some i
  unfolding parsed_invoice
  parsed_invoice-given none h = absurd cc
  parsed_invoice-given (some j) h = ground arith

  invoice_of-Received :
      (c : Client) (i : Invoice) (a : Answer String) (o : Option String)
      → send_encrypted k r c o ≡ a
      → invoice_of k r a ≡ given i
      → Received i
  unfolding invoice_of
  invoice_of-Received c i (refused e) o q h = absurd cc
  invoice_of-Received c i (given result) o q h =
      let (response, first, fine, own) =
        awaited-result _ result (send_encrypted-awaited c o result q) in
      let f = first_response-First c r.contents response first in
      record {
        front = f.front;
        content = f.content;
        back = f.back;
        response = response;
        among = f.among;
        opens = f.opens;
        no_error = fine;
        read = rw own (parsed_invoice-given _ h);
      }

  -- An invoice that `MakeInvoice` returns is the result of a response without an error, which one of the two encryptions opens from an event of the subscription; the client was connected.
  pub make_invoice-Received :
      (c : Client) (request : InvoiceRequest) (i : Invoice)
      → make_invoice k r c request ≡ given i
      → Received i × (c.connected ≡ true)
  unfolding make_invoice send_request
  make_invoice-Received c request i h =
      let on : c.connected ≡ true = ground arith in
      let h' : invoice_of k r (send_encrypted k r c (encrypt k c (r.marshal request))) ≡ given i =
        ground arith in
      (invoice_of-Received c i _ _ refl h', on)
