-- ===== src/SharedRepo/Transactions.antt =====
-- The transactions of pkg/shared_repo/shared_repo.go commit a statement, or leave the database.
use scheduler.Base.{◌≡◌, refl, Option-cases, Sum-cases, inl, inr, String, ◌⊎◌, comparable_string}
use scheduler.RaftLog.{Executed}
use scheduler.Sql.{Store, Statement, ok, err}
use scheduler.SharedRepo.{insert_transaction, delete_transaction}

module _ {D : Type 0} (l : Store D) (restores : (db : D) → (l.roll_back db).1 ≡ db) where
  pub insert_transaction-cases :
      (s : Statement) (db : D)
      → ((x : Executed D) × (l.exec s db ≡ inr x) × (insert_transaction l s db ≡ (ok tt, x.db)))
        ⊎ ((e : String) × (insert_transaction l s db ≡ (err e, db)))
  unfolding insert_transaction
  insert_transaction-cases s db = elim (Option-cases (l.begin_tx db)) [
    | inr (e, h) ↦ inr (e, rw (h, insert_transaction) refl)
    | inl h ↦ elim (Sum-cases (l.exec s db)) [
      | inl (e, k) ↦ inr (e, rw (h, insert_transaction, k, restores db) refl)
      | inr (x, k) ↦ elim (Option-cases (l.commit x.db)) [
        | inr (e, c) ↦ inr (e, rw (h, insert_transaction, k, c) refl)
        | inl c ↦ inl (x, k, rw (h, insert_transaction, k, c) refl)
      ]
    ]
  ]

  pub delete_transaction-cases :
      (s : Statement) (db : D)
      → ((x : Executed D) × (l.exec s db ≡ inr x) × (delete_transaction l s db ≡ (ok tt, x.db)))
        ⊎ ((e : String) × (delete_transaction l s db ≡ (err e, db)))
  unfolding delete_transaction
  delete_transaction-cases s db = elim (Option-cases (l.begin_tx db)) [
    | inr (e, h) ↦ inr (e, rw (h, delete_transaction) refl)
    | inl h ↦ elim (Sum-cases (l.exec s db)) [
      | inl (e, k) ↦ elim (Option-cases (l.roll_back db).0) [
        | inr (e', r) ↦ inr (e', rw (h, delete_transaction, k, r, restores db) refl)
        | inl r ↦ inr (e, rw (h, delete_transaction, k, r, restores db) refl)
      ]
      | inr (x, k) ↦ elim (Option-cases (l.commit x.db)) [
        | inr (e, c) ↦ inr (e, rw (h, delete_transaction, k, c) refl)
        | inl c ↦ inl (x, k, rw (h, delete_transaction, k, c) refl)
      ]
    ]
  ]
