-- ===== src/FdSet.antt =====
-- src/fdset.c: a set of file descriptors kept as disjoint ranges in a tree.
-- The operations stand in a section over the tree (FdSet/Tree.antt). Each returns its error or `tt`
-- beside the tree that it leaves; whether `malloc()` succeeds is an argument.
pub mod Range
pub mod Tree
pub mod Ops
pub mod Order
pub mod Valid
pub mod Join
pub mod Insert
pub mod Disjoint
pub mod Cut
pub mod Remove
pub mod Members
pub mod Gap
pub mod Invert
pub mod Canonical
pub mod ListTree
pub mod Visit
mod Tests
