-- ===== src/Ent.antt =====
-- The ent client that db.go calls: the builders of proposer/op/proposer/db/ent, generated from the
-- schema, down to the columns that they write and read. What a statement does to the columns of the
-- rows it selects is SQL's.
pub mod Field
pub mod Mutation
pub mod Dynamic
pub mod Laws
pub mod Row
pub mod Create
pub mod Insert
pub mod Update
pub mod Write
pub mod Where
pub mod Select
pub mod Query
