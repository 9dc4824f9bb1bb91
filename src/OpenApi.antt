-- ===== src/OpenApi.antt =====
-- silent-openapi/src/route.rs and doc.rs: the documentation of routes.
pub mod Doc
pub mod Convert
pub mod Operation
pub mod Collect
pub mod Marks
pub mod Agree
pub mod Document
pub mod PathDocs
