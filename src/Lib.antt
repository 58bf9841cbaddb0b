-- ===== src/Lib.antt =====
-- The chat server, the chat client and the entities of a small role-playing game.
--
-- The server (src/server/Server.cpp) keeps the connected clients by id, sends packets to them over
-- TCP and UDP, drops those it no longer hears, and keeps accounts and messages in a database; its
-- program (src/server/main.cpp) answers the packets. The client (src/client/Client.cpp) keeps one
-- connection and its clock; its program (src/client/main.cpp) turns commands into packets and
-- replies into lines. Both listen in a thread beside the main loop, under one mutex on the server,
-- so the model's steps are whole rounds of a listener and whole calls of an operation.
--
-- Which file models what:
--   Base: numbers of the program (int as ℤ, wrap-around by to_i32 and % 2 ^ w), text, and
--     std::unordered_map as an association list.
--   Platform: SFML's sockets, packets, addresses, times and the arithmetic of float, as parameters;
--     PacketLaws states that packets give back what was written. Sample is a concrete platform,
--     SampleDb a concrete database.
--   Server.State: ClientInfo and Server (src/server/Server.h); constants and stampPacket
--     (src/common/NetworkDefinitions.h, src/common/PacketTypes.cpp).
--   Server.Transport: send, broadcast, disconnectAll. Server.Registry: addClient, getClientID,
--     getClientInfo, hasClient, removeClient. Server.Heartbeat: update and the heartbeats' answers.
--     Server.Listener: udpListen and tcpListen. Server.Lifecycle: start, stop, getClientList.
--     Server.Accounts: the users and messages, over the parameter Sqlite.
--   Packets, ServerMain: handlePacket and commandProcess of src/server/main.cpp.
--   Client: src/client/Client.cpp. Client.Main: src/client/main.cpp.
--   Ecs: the entities of src/common and src/server. Ecs.Bitmask: src/common/Bitmask.h.
--     Ecs.Components: the component classes (src/common/C_*.h, src/server/C_Attacker.h) and the
--     factory of src/server/Server_Entity_Manager.cpp. Ecs.State: the state that the managers and the
--     network system share. Ecs.Systems: src/common/S_Base.cpp and System_Manager.cpp.
--     Ecs.ServerSystems: src/server/Server_System_Manager.cpp and the requirements in the systems'
--     constructors. Ecs.Entities: src/common/Entity_Manager.cpp. Ecs.Parts: getComponent's pointers.
--     Ecs.StateSystem: src/common/S_State.cpp. Ecs.Combat: src/server/S_Combat.cpp. Ecs.Timers:
--     src/server/S_Timers.cpp. Ecs.Messages: src/common/Communicator.h and MessageHandler.h,
--     Ecs.Subscriptions: the calls of subscribe and addSystem in the constructors.
--     Ecs.Network: src/server/S_Network.cpp, but for the packets.
--   Game: what needs the map, and the program around it. Game.Stream: the extractions of
--     std::stringstream that the readers use, Game.Quoted: readQuotedString of
--     src/common/Utilities.h. Game.Map: tiles and their places, Game.MapFile: the two
--     files (src/server/Map.h and Map.cpp). Game.EntityFile: addEntity from a file
--     (src/common/Entity_Manager.cpp) and readIn of the components. Game.Movable: the arithmetic of
--     src/common/C_Movable.h and C_Position.h. Game.Movement: src/server/S_Movement.cpp and
--     src/common/C_Control.cpp. Game.Bounds, Game.Collision, Game.Contacts:
--     src/server/S_Collision.cpp, in the order of its update. Game.Events: handleEvents of
--     src/common/System_Manager.cpp. Game.Snapshot: src/common/EntitySnapshot.cpp, dumpEntityInfo of
--     src/server/Server_Entity_Manager.cpp and createSnapshot of src/server/S_Network.cpp;
--     Game.Player: updatePlayer of the latter. Game.Session: handlePacket and clientLeave of src/server/World.cpp;
--     Game.Program: its update and commandLine.
--   Resources: src/common/ResourceManager.h. Resources.Spec: the manager that only counts users.
--   The other files under Server, Client, Ecs, Game and Resources hold lemmas, named for what
--     they are about, and tests.
--
-- Bounds and fuel: the nested message that a change of state sends is by fuel, of which two
-- rounds are enough, since the nested change finds the state in place. The loop over a queue of
-- events takes a round for each event and one more, since no handler adds events; the loop over
-- a player's packet takes a round for each value in it and one more, since every round reads
-- one. Other loops recurse on the lists that they run over, and the listeners on the list of
-- what the sockets receive. Identifiers, counts of users and the numbers of places wrap at 2 ^
-- 32, counters of bytes at 2 ^ 64. `none` as the result of the server's packet handler is a
-- call that the source leaves undefined; `null_access` is the use of a null pointer,
-- `no_enumerator` a number in a file that no constant of the enumeration has. The conversion of
-- a negative float to unsigned int, which C++ leaves undefined, wraps around. std::sort, which
-- leaves the order of equal areas open, keeps it.
--
-- What getTileFriction of src/server/S_Movement.cpp refers to is gone when it returns, so what
-- is read of it is a parameter, read_gone. SQLite promises no order of the rows, and none is
-- assumed.
--
-- Not modelled: printing to the console, blocking and selectors beyond what a round receives,
-- the threads' start and join, the constructor of World, which starts a server made without
-- sockets, SQLite and SFML themselves (of which the meeting of two rectangles is the parameter
-- Geometry), how the text of a float is read (the parameter FloatScan), and the working
-- directory of src/common/Utilities.h.
pub mod Base
pub mod Platform
pub mod Sample
pub mod SampleDb
pub mod Server
pub mod Packets
pub mod ServerMain
pub mod Client
pub mod Ecs
pub mod Game
pub mod Resources
