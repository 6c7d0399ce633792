-- ===== src/Services/Credential/Keys.antt =====
-- UpdateOneCredential of pkg/service/credential/credential.go and the keys of credentials.
use scheduler.Base.{
  ◌≡◌, refl, ap, ◌∙◌, Bool, not, ◌&&◌, Bool-cases, inl, inr, String, ◌==◌, comparable_string,
}
use scheduler.Models.{Credential, no_credential}
use scheduler.Sql.{Store, GenericError, Outcome, ok, err, panics, exits, loops, and_then_in}
use scheduler.Repository.Credential.{get_one_id, update_credential}
use scheduler.Services.Credential.{with_stored, update_found, update_one_credential}

abbrev answer_with : {E A B D : Type 0} → B → A → D → Outcome E B × D
answer_with b a db = (ok b, db)

and_then_in-state :
    {E A B D : Type 0} (r : Outcome E A × D) (b : B) → (and_then_in r (answer_with b)).1 ≡ r.1
and_then_in-state (ok a, db) b = refl
and_then_in-state (err e, db) b = refl
and_then_in-state (panics, db) b = refl
and_then_in-state (exits, db) b = refl
and_then_in-state (loops, db) b = refl

-- `keys` is any view of a database, as the keys of its credentials, that an update keeps which sets the
-- key and the secret of a credential to what a lookup by its id finds.
module _ {D : Type 0} (l : Store D) (longer : String → Bool) {K : Type 0} (keys : D → K)
    (keeps : (c stored : Credential) (db : D)
      → get_one_id l (record no_credential { id = c.id }) db ≡ ok stored
      → c.api_key ≡ stored.api_key
      → c.api_secret ≡ stored.api_secret
      → keys (update_credential l c db).1 ≡ keys db) where
  update_found-keys :
      (c stored : Credential) (db : D)
      → get_one_id l (record no_credential { id = c.id }) db ≡ ok stored
      → keys (update_found l longer c stored db).1 ≡ keys db
  update_found-keys c stored db found =
      elim (Bool-cases (not (stored.api_key == c.api_key) && longer c.api_key)) [
        | inl key ↦ rw key refl
        | inr same_key ↦
            elim (Bool-cases (not (stored.api_secret == c.api_secret) && longer c.api_secret)) [
              | inl secret ↦ rw (same_key, secret) refl
              | inr same_secret ↦
                  rw (same_key, same_secret)
                    (ap keys (
                        and_then_in-state (update_credential l (with_stored c stored) db)
                          (with_stored c stored))
                      ∙ keeps (with_stored c stored) stored db found refl refl)
            ]
      ]

  after_lookup-keys :
      (c : Credential) (db : D) (o : Outcome GenericError Credential)
      → get_one_id l (record no_credential { id = c.id }) db ≡ o
      → keys (and_then_in (o, db) (update_found l longer c)).1 ≡ keys db
  after_lookup-keys c db (ok stored) found = update_found-keys c stored db found
  after_lookup-keys c db (err e) found = refl
  after_lookup-keys c db panics found = refl
  after_lookup-keys c db exits found = refl
  after_lookup-keys c db loops found = refl

  -- Whatever UpdateOneCredential is given and returns, no credential gets another key or secret: for a
  -- view of the keys that an update keeps which sets the key and the secret that are stored.
  pub update_one_credential-keys :
      (c : Credential) (db : D) → keys (update_one_credential l longer c db).1 ≡ keys db
  unfolding update_one_credential
  update_one_credential-keys c db = elim (Bool-cases (c.api_key == "")) [
    | inl no_key ↦ rw no_key refl
    | inr key ↦ elim (Bool-cases (c.api_secret == "")) [
      | inl no_secret ↦ rw (key, no_secret) refl
      | inr secret ↦
          rw (key, secret)
            (after_lookup-keys c db (get_one_id l (record no_credential { id = c.id }) db) refl)
    ]
  ]
