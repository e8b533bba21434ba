-- ===== src/Lib.antt =====
-- Verification library of the Kiaro Game Engine (KGE).
--
-- The engine (apps/engine) is a client or a server of a networked game: a command line chooses
-- the mode, a core runs frames, each frame dispatches scheduled events and lets the client or
-- the server take what ENet has received, and packets are read from and written to a byte
-- stream.
--
-- Prelude: lists, tests and results that all parts share. `Result` is what a call returns,
--   throws, or leaves undefined; `Outcome` is the same for a call that changes a state.
-- Memory: C++ arrays with elements that nobody wrote, and `memcpy`, with accesses out of bounds
--   as faults.
-- Support/BitStream: apps/engine/source/support/BitStream.cpp. A stream is a stack of bytes:
--   Stack (write), Reads, RoundTrip, Strings (readString), Received (the stream over a packet), Output
--   (what is sent) and Deletes (the arrays that are freed).
-- Support/EndianUtilities: apps/engine/include/support/EndianUtilities.hpp, over the arithmetic of
--   masks and shifts in Prelude/Bits.
-- Support/Time, Support/Scheduler, Support/CommandLineParser, Support/Array,
--   Support/EventManager, Support/MapDivision, Support/String: the files of the same names in
--   apps/engine/source/support and apps/engine/include/support.
-- Support/Singleton: the instance pointer that the singletons have in common, as in
--   apps/engine/source/game/OutgoingClientSingleton.cpp, with Lives for what becomes of an instance;
--   Engine/Singletons: that of each class, and the server's with the map division.
-- Network/PacketBase, IncomingClientBase, ServerBase, OutgoingClientBase: the files of the same
--   names in apps/engine/include/network and apps/engine/source/network. ServerBase/Sessions
--   states what ENet promises of its events.
-- Game/HandShake: apps/engine/include/game/packets. Game/ServerSingleton and
--   Game/OutgoingClientSingleton: the callbacks of apps/engine/source/game, and the hand shakes
--   that the two ends exchange.
-- Game/Session: a client and a server on two ends of one connection; the actions are what ENet
--   reports to either end, Stages are how far it has come, and Orders goes through every sequence
--   of the actions.
-- Game/Entities: apps/engine/include/game/entities and source/game/entities, with Nodes for the
--   scene nodes of an entity and Packing for the packets of a Terrain.
-- Engine/Core: apps/engine/source/engine/CoreSingleton.cpp, with Frames for one frame, Leaks for
--   a run, Startup for what a mode leads to, Serving for the frames of a dedicated server, Playing
--   for those of a client that is connected, and Lifetime for the core from getPointer to destroy
--   (Launch for the modes, Connected for a client); Statics are the instances that it makes and
--   deletes, and Presence says that no frame changes whether there is a client or a server.
-- Engine/Meeting: the engine of a client and that of a dedicated server on two ends of one connection, frame
--   by frame, with Stages for how far they come and Greeting for their hand shakes.
-- Engine/EngineMain: apps/engine/source/EngineMain.cpp, with Log for DebugLog, Streams for
--   both streams over the one log file, Launches for the responders and Program for main.
-- Engine/Logging: apps/engine/source/engine/Logging.cpp, the table of hooks.
-- Engine/FileReadObject, Engine/InputListenerSingleton: the files of the same names in
--   apps/engine/source/engine. PhysFS is an interface with its documented behaviour, which
--   InMemory fills with a file that is a list of bytes.
-- Ces: apps/engine/include/ces and source/ces. Tests: apps/engine/source/tests/BitStream.cpp.
-- Examples: the theorems at concrete inputs.
--
-- Addresses, delegates and characters are numbers. An F32 is its bit pattern, and the F32 that
-- stopTimer returns is given by the microseconds that it divides. The widths of U8, U32, U64 and
-- size_t are written out. Statics (sLastPacketID, the timers) are part of the state that a
-- function takes and returns. The loops over ENet's events are recursion on the list of the
-- events that it delivers before it has none, and the frames on the list of the frames that
-- Irrlicht's device runs. The search of readString counts the bytes that are left; the levels of
-- MapDivision are built on a fuel of one more than the power, and StripChar tests its condition at most
-- once more than the string has characters; theorems give the results on that fuel.
--
-- Parameters: what ENet, Irrlicht and PhysFS answer, the time of day, boost's hash, the match of the flag's
-- expression, the order of an unordered map, and what uninitialised members hold.
--
-- A fault (`fault`, `undefined`) is an access out of bounds, of an unwritten byte, through NULL, through a pointer
-- that was deleted or an iterator that is no longer valid. Where C++ leaves something else undefined, the
-- model takes it as compilers build it, and what is said of faults does not speak of it:
--   BitStream deletes arrays of `new U8[]` with `delete`, in write (BitStream.cpp:62) and in the
--   destructor (47); every packet that is sent does so, and Support/BitStream/Deletes says when;
--   a stream without an array copies no bytes from NULL at its first growth (58);
--   readU32, readF32 and readBool read through a cast pointer, at any alignment (114-132);
--   a member that no constructor sets holds any value, which is a parameter;
--   `run` ends behind its loop without a value (CoreSingleton.cpp:230);
--   the client is deleted through a pointer to its base class, and is destroyed as that base
--   (OutgoingClientSingleton.cpp:119).
--
-- Not modelled: rendering and windows (Irrlicht, CEGUI), and what PhysFS, ENet and
-- boost do inside; a dispatched delegate is
-- recorded and has no effect of its own.
pub mod Prelude
pub mod Memory
pub mod Support
pub mod Network
pub mod Game
pub mod Engine
pub mod Tests
pub mod Ces
mod Examples
