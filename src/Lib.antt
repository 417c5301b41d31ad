-- ===== src/Lib.antt =====
-- Verification library of the HDMI plugins: the CEC sink, which makes the TV the root of the CEC bus
-- (HdmiCecSink/HdmiCecSinkImplementation.cpp and .h), the CEC source of a set-top box
-- (HdmiCecSource/HdmiCecSourceImplementation.cpp and .h), the HDMI inputs (HdmiInput/HdmiInput.cpp), the
-- HDMI and composite inputs (AVInput/AVInput.cpp), the picture settings of a television
-- (AVOutput/AVOutputTV.cpp and AVOutput/AVOutputTVHelper.cpp), the HDCP profile
-- (HdcpProfile/HdcpProfileImplementation.cpp and .h) and the image encoder that the plugins share
-- (helpers/UtilsString.h).
--
-- The sink's parts and how they interact. The CEC library hands every received frame to
-- HdmiCecSinkProcessor::process. Its handlers update the list of devices (deviceList), the ports
-- with the tables of the devices behind them (hdmiInputs), the active source and the audio return
-- channel, send frames over smConnection, and raise events to the registered clients. Three threads
-- run beside it: threadRun pings the bus and asks the devices for what is missing, threadSendKeyEvent
-- sends the keys of a queue, threadArcRouting answers the states of the return channel. Two timers
-- and the API of IHdmiCecSink act on the same members.
--
-- The source's parts. HdmiCecSourceProcessor::process answers for the box, follows which device is
-- shown and learns of the devices that speak; threadRun pings the bus and threadUpdateCheck asks for
-- names and vendor ids; both go through addDevice and removeDevice, which notify the clients. The
-- settings are a file that loadSettings and the API share. The HDCP profile reads the video port on
-- every event and hands the status to the worker pool, whose jobs tell the clients. HdmiInput starts
-- and stops an input, turns the events of Device Settings into notifications, and calls the sink's
-- SetLatencyInfo when a latency or the game mode changes. AVOutput keeps each picture setting per video
-- source, picture mode and video format as a local parameter: a set or reset request is parsed, checked
-- against the capability file, applied to the driver if it is one for the current video, and then
-- written, or cleared, and saved for every combination that it names.
--
-- Files and code (HdmiCecSink in HdmiCecSink/HdmiCecSinkImplementation.cpp unless the .h is named,
-- HdmiCecSource likewise):
--   Base: the library names that the modules share; Base/Tests the Boolean tests, Base/Lists lists
--     and tables over the native numbers, Base/Signed the signed device counter
--   HdmiCecSink/Types: addresses, frames and events
--   HdmiCecSink/Device: CECDeviceParams (.h)
--   HdmiCecSink/Port: HdmiPortMap (.h): addChild, removeChild, getRoute
--   HdmiCecSink/State: the members and file statics, sendTo, the notification loops
--   HdmiCecSink/Devices: addDevice, removeDevice, updateDeviceChain
--   HdmiCecSink/ActiveSource: updateActiveSource and its siblings, setActiveSource, getActiveRoute
--   HdmiCecSink/Routing: setRoutingChange, SetRoutingChange
--   HdmiCecSink/Query: requestType, request, requestStatus
--   HdmiCecSink/Arc: startArc, stopArc, the ARC messages, timer and thread
--   HdmiCecSink/Audio: latency, short audio descriptors, audio status, audio power status
--   HdmiCecSink/Messages: HdmiCecSinkProcessor::process
--   HdmiCecSink/Api: GetDeviceList, GetActiveSource
--   HdmiCecSink/ActiveRoute: GetActiveRoute
--   HdmiCecSink/Ping: pingDevices, allocateLAforTV
--   HdmiCecSink/PollThread: threadRun
--   HdmiCecSink/KeyThread: the queue of keys, threadSendKeyEvent
--   HdmiCecSink/Control: onPowerModeChanged, onHdmiHotPlug, CheckHdmiInState, CECEnable, CECDisable,
--     Register, Unregister
--   HdmiCecSink/Reach: the steps that the sink makes on the bus, as a relation, and runs of them
--   HdmiCecSink/Tests: the theorems applied to small concrete buses
--   HdmiCecSource/State: CECDeviceInfo_2 (.h), the members and file statics, the notification loops
--   HdmiCecSource/Devices: addDevice, removeDevice, removeAllCecDevices, requestCecDevDetails
--   HdmiCecSource/Messages: HdmiCecSourceProcessor::process and the events that it raises
--   HdmiCecSource/Poll: pingDeviceUpdateList, threadRun, threadUpdateCheck
--   HdmiCecSource/KeyThread: SendKeyPressEvent, threadSendKeyEvent
--   HdmiCecSource/Settings: loadSettings, SetOTPEnabled, SetOSDName, SetVendorId, and
--     persistJsonSettings of helpers/UtilssyncPersistFile.h
--   HdmiCecSource/Control: CECEnable, CECDisable, SetEnabled, onHdmiHotPlug, onPowerModeChanged,
--     PerformOTPAction, SendStandbyMessage, GetDeviceList, Register, Unregister
--   HdmiCecSource/Runs: the steps of the source, as a relation, and what runs of them keep;
--     HdmiCecSource/Runs/Races the frames that come while CECEnable and CECDisable are under way
--   HdcpProfile: HdcpProfileImplementation; its children Status, Clients and Delivery the proofs
--   HdmiInput: startHdmiInput, stopHdmiInput, setMixerLevels, setVideoRectangleWrapper,
--     getHDMIInputDevices; HdmiInput/Mode the events of the inputs, HdmiInput/Latency the latencies up
--     to the sink, HdmiInput/Mixer and HdmiInput/Devices the proofs
--   AvInput: startInput, stopInput, getInputDevicesWrapper and the game features; AvInput/Vrr what the
--     clients know of the variable refresh rate
--   AvOutput/Text: the lists of names and the numbers of AVOutput, as texts; AvOutput/State what stands
--     around the plugin; AvOutput/Indices the names and indices of sources, modes and formats
--   AvOutput/Storage: the keys and values of updateAVoutputTVParamToHAL and getLocalparam
--   AvOutput/Capabilities: ReadCapablitiesFromConf and isCapablityCheckPassed
--   AvOutput/Update: getSaveConfig, updateAVoutputTVParam; AvOutput/Request: the parsing of requests,
--     getParamIndex, isSetRequired and the checks of values
--   AvOutput/Levels: the methods of the settings that are one number, AvOutput/Levels/Methods by name
--   AvOutput/PictureMode: setPictureMode, getPictureMode; AvOutput/PictureMode/Reset: resetPictureMode
--   AvOutput/Branches: conditionals whose test is known
--   Helpers/Base64: imageEncoder (helpers/UtilsString.h)
--   HdmiCecSource/Tests, HdcpProfile/Tests, HdmiInput/Tests, AvInput/Tests, AvOutput/Tests, Helpers/Tests: the
--     theorems on concrete states
-- A child module holds the proofs about its parent. Functions have the names of the source in snake
-- case; a function of the API that shares its name with an internal one ends in _api.
--
-- How the code is modelled. The members are one record, Sink, and every function takes and returns
-- it; the mutexes make a function one step. What is sent and raised is a log, the newest first. Time
-- is a number of milliseconds that the caller gives. What the bus, the CEC library and the Device
-- Settings answer is an argument of the functions that ask.
--
-- The settings file of the source is the record of its four labels, each of which may be missing.
-- The local parameters of AVOutput are any store that keeps what is set and forgets what is cleared
-- (State/IsLawful), and the driver's answers are a function of its calls; the constants of the driver's
-- header are a record. A read from behind a vector or a table of names, which the language leaves
-- undefined, ends the model's function as an exception does. Texts are character codes.
-- Bytes of the encoder are numbers, and its shifts and masks are quotients and remainders.
--
-- Bounds and fuel. Logical addresses are nibbles, and the list of devices has 16 entries. The loops
-- over addresses run 15 or 16 times, as in the source. The text buffer of GetActiveRoute has 1024
-- bytes, and reading it takes 1024 steps at most, one for each byte. `length` of GetActiveRoute is a
-- byte and wraps; the latency bytes wrap. The device counter is an unbounded signed number. The update
-- thread of the source makes five passes over a device, as in the source. The indices of AVOutput's
-- paramIndex_t are bytes and wrap; a printed int has ten digits at most, and stoi refuses what is not an
-- int of 32 bits. The numbers of setMixerLevels are cut to a signed int of 32 bits.
--
-- Interleavings. A call of the API and a frame are steps of their own, in any order. CECEnable and
-- CECDisable of the source have no lock against the frame listener: the frames that are processed at
-- the points where it can run (after it has been added, after each send, before and after the devices
-- are removed) are an argument of their definitions, and a run is calm if there are none. A frame that
-- comes within the loop that removes the devices is taken to come before or after it.
--
-- Assumptions. `_instance` is set, Configure has run. Sends do not throw outside a try block.
-- The port of the return channel is a port of the vector. Constants of the CEC library: 0 is the TV,
-- 5 the audio system, 14 specific use, 15 unregistered and broadcast.
--
-- Not modelled: the shells of the plugins (HdmiCecSink/HdmiCecSink.cpp, HdmiCecSource/HdmiCecSource.cpp,
-- HdcpProfile/HdcpProfile.cpp), the settings file of the sink, the encoding and decoding of frames
-- (the CEC library), JSON and files (Thunder), logging, the creation of threads, the other helpers,
-- the queries of HdmiInput and AVInput that pass a value of Device Settings on, AVInput's mixer and
-- signal, status and video mode events, and of AVOutput the colour settings, the modes that are names
-- (but for how they are stored), the low latency state, the zoom mode, the sync with the driver at
-- start, and the events of the video.
pub mod AvInput
pub mod AvOutput
pub mod Base
pub mod HdmiCecSink
pub mod HdmiCecSource
pub mod HdcpProfile
pub mod HdmiInput
pub mod Helpers
