-- ===== src/Copies.antt =====
-- api/v1alpha1/zz_generated.deepcopy.go: the deep copies of the custom resource, over a memory of
-- cells.
pub mod Structs
pub mod Memory
pub mod Cells
pub mod Copying
pub mod Into
pub mod Shapes
pub mod Pointers
pub mod Rules
pub mod Allocated
pub mod Windows
pub mod Arrays
pub mod Slices
pub mod Strings
pub mod Fields
pub mod Resources
pub mod Objects
pub mod Methods
