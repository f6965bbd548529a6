-- ===== src/DataStruct.antt =====
-- dataStruct/: the queues, the list and the binary tree.
pub mod Fifo
pub mod Heap
pub mod ArrayQueue
pub mod LinkQueue
pub mod SingleList
pub mod BinaryTree
