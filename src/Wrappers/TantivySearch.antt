-- ===== src/Wrappers/TantivySearch.antt =====
-- `TantivySearchProvider` of crates/wrappers/src/tantivy_search.rs.
use opengroupware.Prelude.{ℕ, String, false, Option, none, []}
use opengroupware.Db.World.{Uuid, Time}
use opengroupware.Types.Model.{Message, SearchResult, Page}
use opengroupware.Types.Provider.{ProviderContext, Call}
use opengroupware.Types.Search.{SearchProvider}
use opengroupware.Wrappers.Stubs.{Fresh, answer}

pub record TantivyIndexConfig : Type 0 where
  pub data_path : String
  pub max_docs_per_segment : ℕ

pub record TantivySearchProvider : Type 0 where
  pub config : TantivyIndexConfig

abbrev pub index_message :
    TantivySearchProvider → ProviderContext → Message → String → Call Fresh Unit
index_message p ctx message body = answer tt

abbrev pub remove_message : TantivySearchProvider → ProviderContext → Uuid → Call Fresh Unit
remove_message p ctx message_id = answer tt

abbrev pub search :
    TantivySearchProvider
    → ProviderContext
    → String
    → Option String
    → Option String
    → Option String
    → Option Time
    → Option Time
    → ℕ
    → Call Fresh (Page SearchResult)
search p ctx query from to subject date_from date_to limit =
    answer (record { items = []; next_cursor = none; has_more = false })

abbrev pub rebuild : TantivySearchProvider → ProviderContext → Uuid → Call Fresh Unit
rebuild p ctx account_id = answer tt

-- The provider.
abbrev pub tantivy_search : TantivySearchProvider → SearchProvider Fresh
tantivy_search p = record {
  index_message = index_message p;
  remove_message = remove_message p;
  search = search p;
  rebuild = rebuild p;
}
