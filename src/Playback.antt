-- ===== src/Playback.antt =====
-- src/playback_controller.cpp and include/playback_controller.hpp: playing a recording back, frame
-- by frame. State holds the class and its small methods, Metadata and Loading `load_recording`,
-- Header and Steps `read_next_frame` and the methods that call it.
pub mod SteadyTimer
pub mod State
pub mod Metadata
pub mod Loading
pub mod Header
pub mod Steps
pub mod LoadEnds
pub mod Frames
pub mod Footer
pub mod Replay
pub mod Progress
pub mod LoadRecorded
pub mod RoundTrip
pub mod Control
pub mod Examples
