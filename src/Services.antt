-- ===== src/Services.antt =====
-- pkg/service: the services between the HTTP handlers and the repositories.
pub mod Credential
pub mod Job
pub mod Project
mod Examples
use scheduler.Base.{ℕ, List}

-- models.PaginatedCredential, models.PaginatedProject and models.PaginatedJob
pub record Paginated (A : Type 0) : Type 0 where
  pub total : ℕ
  pub offset : ℕ
  pub limit : ℕ
  pub page : List A
