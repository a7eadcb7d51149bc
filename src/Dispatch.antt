-- ===== src/Dispatch.antt =====
-- internal/dispatch: recipients' grades, the route strategies and their resolvers.
pub mod Grade
pub mod Collect
pub mod Tables
pub mod Resolvers
