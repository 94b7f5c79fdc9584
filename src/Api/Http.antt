-- ===== src/Api/Http.antt =====
-- What handlers answer (gin's c.JSON), the metadata of invoices, and the services that a handler
-- has beside the storage. The code behind these services is not in the repository: the name rules
-- and the name generator of cloistr-common, and two functions of the database.
use cloistr_address.Base.{ℕ, String, Bool, Option, none, some, List, [], ◌∷◌, if◌then◌else◌, same}
use cloistr_address.Base.Signed.{ℤ}
use cloistr_address.Db.Tables.{Db}
use cloistr_address.Store.Identity.{Generator}

-- A value of a JSON object.
pub data Json : Type 0 where
  text : String → Json
  number : ℕ → Json
  signed : ℤ → Json
  flag : Bool → Json
  texts : List String → Json
  grants : List (String × ℤ) → Json

abbrev pub Fields : Type 0
Fields = List (String × Json)

-- A response: a struct of the handler, or an object written in place (gin.H).
pub data Reply (A : Type 0) : Type 0 where
  typed : ℕ → A → Reply A
  fields : ℕ → Fields → Reply A

abbrev pub status : {A : Type 0} → Reply A → ℕ
status (typed n a) = n
status (fields n f) = n

-- gin.H{"error": s}
abbrev pub error_reply : {A : Type 0} → ℕ → String → Reply A
error_reply n s = fields n (("error", text s) ∷ [])

abbrev pub service_error : {A : Type 0} → Reply A
service_error = error_reply 500 "Service error"

unfoldable pub lookup_field : String → Fields → Option Json
lookup_field k [] = none
lookup_field k ((j, v) ∷ fs) = if same j k then some v else lookup_field k fs

-- s, _ := meta[k].(string): "" where the key is missing or its value is not a text.
unfoldable pub meta_text : String → Fields → String
meta_text k fs = elim (lookup_field k fs) [ some (text s) ↦ s | _ ↦ "" ]

-- What a handler has beside the storage and the request.
pub record Service : Type 0 where
  pub domain : String
  pub lower : String → String
  pub is_valid_human_name : String → Bool
  pub price_of : Db → ℕ → Option ℕ
  pub generate : Generator
