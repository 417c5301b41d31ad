-- ===== src/HdmiCecSource.antt =====
-- HdmiCecSource: the plugin that puts a set-top box on the CEC bus of a TV
-- (HdmiCecSource/HdmiCecSourceImplementation.cpp and .h).
pub mod State
pub mod Devices
pub mod Messages
pub mod Poll
pub mod KeyThread
pub mod Settings
pub mod Control
pub mod Runs
mod Tests
