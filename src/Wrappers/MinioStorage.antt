-- ===== src/Wrappers/MinioStorage.antt =====
-- `MinioStorageProvider` of crates/wrappers/src/minio_storage.rs.
use opengroupware.Prelude.{ℕ, String, Bool, false, Option, none, List, []}
use opengroupware.Prelude.Decimal.{◌⊕◌}
use opengroupware.Db.World.{Uuid}
use opengroupware.Types.Model.{BlobRef, Page}
use opengroupware.Types.Provider.{ProviderContext, Call}
use opengroupware.Types.Storage.{StorageProvider}
use opengroupware.Wrappers.Stubs.{Fresh, answer, fresh, not_implemented}

pub record MinioStorageProvider : Type 0 where
  pub endpoint : String
  pub bucket : String
  pub access_key : String
  pub secret_key : String
  pub use_ssl : Bool

abbrev pub upload :
    MinioStorageProvider → ProviderContext → List ℕ → String → Option String → Call Fresh Uuid
upload p ctx content content_type filename = fresh

abbrev pub download : MinioStorageProvider → ProviderContext → String → Call Fresh (List ℕ)
download p ctx blob_key = answer []

abbrev pub delete : MinioStorageProvider → ProviderContext → String → Call Fresh Unit
delete p ctx blob_key = answer tt

abbrev pub list :
    MinioStorageProvider
    → ProviderContext
    → Option String
    → Option String
    → ℕ
    → Call Fresh (Page BlobRef)
list p ctx prefix cursor limit =
    answer (record { items = []; next_cursor = none; has_more = false })

abbrev pub signed_url : MinioStorageProvider → ProviderContext → String → ℕ → Call Fresh String
signed_url p ctx blob_key expiry_seconds =
    answer ("https://" ⊕ p.endpoint ⊕ "." ⊕ p.bucket ⊕ ".com/" ⊕ blob_key)

abbrev pub metadata : MinioStorageProvider → ProviderContext → String → Call Fresh BlobRef
metadata p ctx blob_key = not_implemented

-- The provider.
abbrev pub minio_storage : MinioStorageProvider → StorageProvider Fresh
minio_storage p = record {
  upload = upload p;
  download = download p;
  delete = delete p;
  list = list p;
  signed_url = signed_url p;
  metadata = metadata p;
}
