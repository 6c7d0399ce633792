-- ===== src/Repository/Credential.antt =====
-- pkg/repository/credential/credential.go. ToSql has no error for the statements here.
use scheduler.Base.{ℕ, zero, suc, List, [], ◌∷◌, some, String}
use scheduler.Models.{Credential, no_credential}
use scheduler.Sql.{
  text, number, flag, time, Condition, is, select, insert, update, remove, Store, GenericError,
  http_error, Outcome, ok, err, panics, Setter, RowsRead, no_query, no_scan, no_rows, all_rows,
  read, One, Ended, query_failed, scan_failed, rows_failed, whole, read_one,
}
use scheduler.Sql.Fields.{
  credential_id, credential_archived, credential_api_key, credential_api_secret,
  credential_date_created, the_number,
}
use scheduler.Repository.{where_select, served_count, answered_unchecked}

abbrev pub credential_columns : List String
credential_columns = "id" ∷ "archived" ∷ "api_key" ∷ "api_secret" ∷ "date_created" ∷ []

-- GetOneID gives the errors as they are; after an error of the rows it returns that of the query, which
-- is nil.
abbrev pub one_credential : One Credential → Ended → Outcome GenericError Credential
one_credential o (query_failed e) = err (http_error 0 e)
one_credential o (scan_failed e) = err (http_error 0 e)
one_credential o (rows_failed e) = ok o.value
one_credential o whole = elim (o.count) [
  | zero ↦ err (http_error 404 "credential not found")
  | suc n ↦ ok o.value
]

-- GetByAPIKey: the error of Scan and that of the rows are read from a variable that is nil.
abbrev pub keyed_credential : One Credential → Ended → Outcome GenericError Credential
keyed_credential o (query_failed e) = err (http_error 404 e)
keyed_credential o (scan_failed e) = panics
keyed_credential o (rows_failed e) = panics
keyed_credential o whole = elim (o.count) [
  | zero ↦ err (http_error 404 "credential doesn't exist")
  | suc n ↦ ok o.value
]

-- List: the error of the rows is read from a variable that is nil.
abbrev pub listed : RowsRead Credential → Outcome GenericError (List Credential)
listed (no_query e) = err (http_error 404 e)
listed (no_scan e) = err (http_error 500 e)
listed (no_rows e xs close) = panics
listed (all_rows xs close) = ok xs

module _ {D : Type 0} (l : Store D) where
  abbrev pub credential_setters : List (Setter Credential)
  credential_setters =
      credential_id l
      ∷ credential_archived l
      ∷ credential_api_key l
      ∷ credential_api_secret l
      ∷ credential_date_created l
      ∷ []

  -- CreateOne. The error of WriteCommandToRaftLog, which comes without an answer, is not looked at.
  unfoldable pub create_credential : ℕ → Credential → D → Outcome GenericError ℕ × D
  create_credential now credential db =
      let w =
        l.write
          (insert "credentials" ("archived" ∷ "api_key" ∷ "api_secret" ∷ "date_created" ∷ []) (
            (flag credential.archived
              ∷ text credential.api_key
              ∷ text credential.api_secret
              ∷ time now
              ∷ [])
            ∷ []))
          [] 0 db in
      (answered_unchecked (λ r. r.last_inserted_id) w.0, w.1)

  abbrev pub find_credential : Condition → Credential → D → One Credential
  find_credential condition credential db =
      read_one l credential_setters credential
        (select (where_select credential_columns ("credentials" ∷ []) (condition ∷ []) "") []) db

  unfoldable pub get_one_id : Credential → D → Outcome GenericError Credential
  unfolding read_one
  get_one_id credential db =
      let o = find_credential (is "id" (number credential.id)) credential db in
      one_credential o o.ended

  unfoldable pub get_by_api_key : Credential → D → Outcome GenericError Credential
  unfolding read_one
  get_by_api_key credential db =
      let o = find_credential (is "api_key" (text credential.api_key)) credential db in
      keyed_credential o o.ended

  unfoldable pub count_credentials : D → Outcome GenericError ℕ
  unfolding read
  count_credentials db = served_count (
      read l (the_number l ∷ []) 0
        (select (where_select ("count(*)" ∷ []) ("credentials" ∷ []) [] "") []) db)

  unfoldable pub list_credentials : ℕ → ℕ → String → D → Outcome GenericError (List Credential)
  unfolding read
  list_credentials offset limit order_by db = listed (
      read l credential_setters no_credential
        (select
          (record (where_select credential_columns ("credentials" ∷ []) [] order_by) {
            offset = some offset;
            limit = some limit;
          })
          [])
        db)

  unfoldable pub update_credential : Credential → D → Outcome GenericError ℕ × D
  update_credential credential db =
      let w =
        l.write
          (update "credentials"
            (("archived", flag credential.archived)
              ∷ ("api_key", text credential.api_key)
              ∷ ("api_secret", text credential.api_secret)
              ∷ [])
            (is "id" (number credential.id)))
          [] 0 db in
      (answered_unchecked (λ r. r.rows_affected) w.0, w.1)

  unfoldable pub delete_credential : Credential → D → Outcome GenericError ℕ × D
  delete_credential credential db =
      let w = l.write (remove "credentials" (is "id" (number credential.id))) [] 0 db in
      (answered_unchecked (λ r. r.rows_affected) w.0, w.1)
