-- ===== src/Router.antt =====
-- silent/src/route: routes, the tree that they are turned into, and the dispatch of a request.
pub mod Slice
pub mod Number
pub mod Segment
pub mod Tree
pub mod Dispatch
pub mod Route
pub mod Build
