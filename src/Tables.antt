-- ===== src/Tables.antt =====
-- client/src/components/organisms/tables: the tables, and the number of the page in the address.
pub mod Params
pub mod Address
pub mod History
pub mod Paged
pub mod Settled
pub mod Paging
pub mod SearchResult
pub mod OwnedArticles
pub mod MyOwnedArticles
pub mod AccountInfo
pub mod NftInfo
pub mod Order
pub mod Requests
pub mod Browsing
