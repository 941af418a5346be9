-- ===== src/Pages.antt =====
-- client/src/components/pages: the pages that choose what they show.
pub mod EditArticle
pub mod Account
pub mod Article
pub mod UploadImage
