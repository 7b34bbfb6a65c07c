-- ===== src/Streaming.antt =====
-- src/stream_controller.cpp and include/stream_controller.hpp: the one stream of the server. State
-- holds the class, Viewers the clients that watch, Capture the loop that reads the camera, Control
-- starting and stopping, Media the recording and the playback.
pub mod State
pub mod Viewers
pub mod Control
pub mod Capture
pub mod Media
pub mod Broadcast
pub mod Turns
pub mod Outcomes
pub mod Loops
pub mod Operated
pub mod Stopping
pub mod Examples
