-- ===== src/AvOutput.antt =====
-- AVOutput (AVOutput/AVOutputTV.cpp and AVOutput/AVOutputTVHelper.cpp): the picture settings of a
-- television, kept per video source, picture mode and video format.
pub mod Text
pub mod Branches
pub mod State
pub mod Indices
pub mod Storage
pub mod Capabilities
pub mod Update
pub mod Request
pub mod Levels
pub mod PictureMode
mod Tests
