-- ===== src/Types/Storage.antt =====
-- The interface of crates/types/src/providers/storage.rs and its data.
use opengroupware.Prelude.{ℕ, String, Option, List}
use opengroupware.Db.World.{Uuid}
use opengroupware.Types.Model.{BlobRef, Page}
use opengroupware.Types.Provider.{ProviderContext, Call}

-- `trait StorageProvider`: an operation takes and leaves the state of its backend.
pub record StorageProvider (S : Type 0) : Type 0 where
  pub upload : ProviderContext → List ℕ → String → Option String → Call S Uuid
  pub download : ProviderContext → String → Call S (List ℕ)
  pub delete : ProviderContext → String → Call S Unit
  pub list : ProviderContext → Option String → Option String → ℕ → Call S (Page BlobRef)
  pub signed_url : ProviderContext → String → ℕ → Call S String
  pub metadata : ProviderContext → String → Call S BlobRef
