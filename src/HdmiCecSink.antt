-- ===== src/HdmiCecSink.antt =====
-- The CEC sink of a TV (HdmiCecSink/HdmiCecSinkImplementation.cpp and .h), a module to a part.
pub mod Types
pub mod Device
pub mod Port
pub mod State
pub mod Devices
pub mod ActiveSource
pub mod Routing
pub mod Query
pub mod Arc
pub mod Audio
pub mod Messages
pub mod Api
pub mod ActiveRoute
pub mod Ping
pub mod PollThread
pub mod KeyThread
pub mod Control
pub mod Reach
pub mod Tests
