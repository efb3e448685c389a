-- ===== src/Mr.antt =====
-- MapReduce (src/mr): the coordinator (coordinator.go, with the messages of rpc.go), the work of a worker
-- (worker.go), and the sequential program (src/main/mrsequential.go).
pub mod Coordinator
pub mod Turns
pub mod Worker
pub mod WordCount
mod Tests
mod WorkerTests
