-- ===== src/Types/Search.antt =====
-- The interface of crates/types/src/providers/search.rs and its data.
use opengroupware.Prelude.{ℕ, String, Option}
use opengroupware.Db.World.{Uuid, Time}
use opengroupware.Types.Model.{Message, SearchResult, Page}
use opengroupware.Types.Provider.{ProviderContext, Call}

-- `trait SearchProvider`: an operation takes and leaves the state of its backend.
pub record SearchProvider (S : Type 0) : Type 0 where
  pub index_message : ProviderContext → Message → String → Call S Unit
  pub remove_message : ProviderContext → Uuid → Call S Unit
  pub search :
      ProviderContext
      → String
      → Option String
      → Option String
      → Option String
      → Option Time
      → Option Time
      → ℕ
      → Call S (Page SearchResult)
  pub rebuild : ProviderContext → Uuid → Call S Unit
