-- ===== src/Observed.antt =====
-- internal/peer/recv.go: the receiver state of a session, and the calls that change it.
-- A waiter is a shared object: its `id` stands for its address, and the list of the set holds
-- the current contents of every waiter that is registered.
pub mod State
pub mod Updates
pub mod Visible
pub mod Tracks
pub mod Register
pub mod Events
pub mod Invariant
pub mod Handles
pub mod Wait
pub mod Release
pub mod Spec
pub mod SpecWait
mod Samples
pub mod Waiters
pub mod Refresh
pub mod PeerCalls
pub mod RefreshWait
pub mod RefreshEnd
