-- ===== src/RedBlack.antt =====
-- dsa/redblack/redblack.go: a left-leaning red-black tree. A pointer is the subtree that it holds,
-- nil included. `none` is the panic of a nil dereference; a recursion that follows a rotated tree
-- takes fuel, for which the number of nodes is enough.
pub mod Node
pub mod Descent
pub mod Tree
pub mod Contents
pub mod Balance
pub mod Insert
pub mod Put
pub mod Valid
pub mod Height
pub mod Ready
pub mod DeleteEnds
pub mod Position
pub mod Delete
pub mod DeleteKey
pub mod Remove
pub mod Erase
mod Tests
