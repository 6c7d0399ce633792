-- ===== src/Services/Credential.antt =====
-- pkg/service/credential/credential.go
pub mod Keys
use scheduler.Base.{
  ℕ, Bool, true, false, not, ◌&&◌, List, String, ◌==◌, ltb, if◌then◌else◌, comparable_string,
}
use scheduler.Models.{Credential, no_credential}
use scheduler.Sql.{
  Store, GenericError, http_error, Outcome, ok, err, panics, exits, loops, and_then_ok, and_then_in,
}
use scheduler.Repository.Credential.{
  create_credential, get_one_id, get_by_api_key, count_credentials, list_credentials,
  update_credential, delete_credential,
}
use scheduler.Services.{Paginated}

-- The error that comes through the dispatcher is a pointer, and is taken for a GenericError itself: a
-- panic.
abbrev pub through_dispatcher : {A : Type 0} → Outcome GenericError A → Outcome GenericError A
through_dispatcher (ok a) = ok a
through_dispatcher (err e) = panics
through_dispatcher panics = panics
through_dispatcher exits = exits
through_dispatcher loops = loops

-- The credential that is written, with the keys and the date of the stored one.
abbrev pub with_stored : Credential → Credential → Credential
with_stored credential stored = record credential {
  api_key = stored.api_key;
  api_secret = stored.api_secret;
  date_created = stored.date_created;
}

-- The new keys of a credential come from GenerateApiAndSecretKey.
module _ {D : Type 0} (l : Store D) where
  unfoldable pub create_new_credential :
      String × String → ℕ → Credential → D → Outcome GenericError ℕ × D
  unfolding create_credential
  create_new_credential (api_key, api_secret) now credential db =
      let r =
        create_credential l now (record credential { api_key = api_key; api_secret = api_secret })
          db in
      (through_dispatcher r.0, r.1)

  unfoldable pub find_one_credential_by_id : ℕ → D → Outcome GenericError Credential
  unfolding get_one_id
  find_one_credential_by_id id db = get_one_id l (record no_credential { id = id }) db

  unfoldable pub delete_one_credential : ℕ → D → Outcome GenericError Credential × D
  unfolding delete_credential
  delete_one_credential id db =
      let credential = record no_credential { id = id } in
      and_then_in (delete_credential l credential db) (λ count db'. (ok credential, db'))

  unfoldable pub list_all_credentials :
      ℕ → ℕ → String → D → Outcome GenericError (Paginated Credential)
  unfolding count_credentials list_credentials
  list_all_credentials offset limit order_by db = and_then_ok (count_credentials l db) (λ total.
      if ltb total 1
      then err (http_error 404 "there no credentials")
      else and_then_ok (list_credentials l offset limit order_by db)
          (λ page. ok (record { total = total; offset = offset; limit = limit; page = page })))

  -- ValidateServerAPIKey; false comes with an error.
  unfoldable pub validate_server_api_key : String → String → D → Outcome GenericError Bool
  unfolding get_by_api_key
  validate_server_api_key api_key api_secret db =
      and_then_ok (get_by_api_key l (record no_credential { api_key = api_key }) db)
        (λ credential. ok (api_secret == credential.api_secret))

-- `longer s` is `len(s) > 1`.
module _ {D : Type 0} (l : Store D) (longer : String → Bool) where
  abbrev pub update_found : Credential → Credential → D → Outcome GenericError Credential × D
  update_found credential stored db =
      if not (stored.api_key == credential.api_key) && longer credential.api_key
      then (err (http_error 0 "cannot update api key"), db)
      else if not (stored.api_secret == credential.api_secret) && longer credential.api_secret
      then (err (http_error 0 "cannot update api secret"), db)
      else and_then_in (update_credential l (with_stored credential stored) db)
          (λ count db'. (ok (with_stored credential stored), db'))

  unfoldable pub update_one_credential : Credential → D → Outcome GenericError Credential × D
  unfolding get_one_id update_credential
  update_one_credential credential db =
      if credential.api_key == ""
      then (err (http_error 400 "api_key or api_secret cannot be empty"), db)
      else if credential.api_secret == ""
      then (err (http_error 400 "api_key or api_secret cannot be empty"), db)
      else and_then_in (get_one_id l (record no_credential { id = credential.id }) db, db)
          (update_found credential)
