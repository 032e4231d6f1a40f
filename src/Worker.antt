-- ===== src/Worker.antt =====
-- activity.go: the activity that claims a bead, runs an agent for it and completes it.
pub mod Interface
pub mod Tracker
pub mod Execute
pub mod Finish
pub mod Delivered
pub mod Executed
pub mod OnFile
pub mod Beats
