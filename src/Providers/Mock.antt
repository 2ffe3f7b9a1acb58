-- ===== src/Providers/Mock.antt =====
-- internal/providers/mock/provider.go: the provider of tests and demos, with its machines, its tasks
-- and the goroutines that end the tasks. A machine and a task are shared by pointer: the maps hold
-- positions in a heap. Each goroutine is a job that may run at any later time, once. The clock and the
-- random numbers of a call are arguments; `simulateDelay` only waits. A call is one step, although it takes the lock several times.
pub mod State
pub mod Calls
pub mod Laws
pub mod Drained
pub mod Described
mod Tests
unfoldable pub use State.*
unfoldable pub use Calls.*
