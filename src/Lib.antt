-- ===== src/Lib.antt =====
-- EyeD: iris capture, recognition and archiving as a set of C++ services. This library models the
-- services' own logic and proves what makes it correct.
--
-- The program. Capture devices stream JPEG frames over gRPC to the gateway (gateway/), which passes
-- each frame through a circuit breaker, publishes it to the analysis engine (iris-engine2/) over NATS,
-- and fans results out to WebSocket clients; it also relays WebRTC signaling between a device and its
-- viewers. Results with their images go to the storage service (storage/), which archives them under
-- dated directories and purges old ones. The key service (key-service/) decrypts comparison results.
--
-- Gateway, gateway/src:
--   Gateway/Base64      base64_encode of grpc_server.cpp
--   Gateway/Breaker     class Breaker of breaker.h and breaker.cpp
--   Gateway/WsHub       class WsHub of ws_hub.h and ws_hub.cpp
--   Gateway/Signaling   class SignalingHub of signaling_hub.h and signaling_hub.cpp
--   Gateway/Frames      class GrpcServiceImpl of grpc_server.h and grpc_server.cpp
--   Gateway/Http        class HttpServer of http_server.h and http_server.cpp: the routes, the query
--                       parser, the life of a session and of the server
-- Storage, storage/src:
--   Storage/Base64      base64_decode of archive_handler.cpp
--   Storage/Paths       sanitize_path of archive_handler.cpp
--   Storage/Dates       extract_date of archive_handler.cpp, parse_date and format_date of
--                       retention_purger.cpp
--   Storage/Store       put and remove of local_store.cpp
--   Storage/Archive     class ArchiveHandler of archive_handler.h and archive_handler.cpp
--   Storage/Purger      dir_size and purge_once of retention_purger.cpp
-- Engine, iris-engine2/src:
--   Engine/Reader       Result and the composition of reads in smpc2_nats_codec.cpp
--   Engine/Codec        ByteWriter2, ByteReader2 and the six functions of smpc2_nats_codec.cpp
--   Engine/Gallery      class Gallery of gallery.h and gallery.cpp; Engine/Gallery/Groups is its list
--   Engine/Smpc         class SMPCManager of smpc.h, smpc.cpp and smpc_distributed.cpp
--   Engine/Smpc2        class SMPC2Manager of smpc2_manager.h and smpc2_manager.cpp
--   Engine/Enroll       the handler of POST /enroll in routes_enroll.cpp
--   Engine/Analyze      the handler of POST /analyze/json in routes_analyze.cpp
--   Engine/Routes       the handlers of /gallery in routes_gallery.cpp and the loading of the gallery in
--                       main.cpp
--   Engine/Db           class Database of db.h and db.cpp; Engine/Db/Sql holds the tables of
--                       config/init.sql and the SQL statements on them
--   Engine/Fhe          class FHEManager of fhe.h and fhe.cpp
--   Engine/Nats         class CNatsClient of nats_client.cpp
--   Engine/Bus          class NatsSMPC2Bus of nats_smpc2_bus.cpp
--   Engine/Party        the services in iris-engine2/smpc-party/main.cpp and
--                       iris-engine2/smpc2-party/main.cpp
-- Capture, capture/src:
--   Capture/Ring        class RingBuffer of ring_buffer.h, each call split into its accesses
--   Capture/Client      class GrpcClient and reconnect_with_backoff of client.h and client.cpp
--   Capture/Camera      class Camera of camera.h and camera.cpp
--   Capture/Main        capture_thread and the loop of main in main.cpp
-- Key service, key-service/src:
--   KeyService/Base64   Base64Decode and Base64Encode of handlers.cpp
--   KeyService/Decrypt  the decision of HandleDecryptBatch in handlers.cpp
--   KeyService/Context  he_context.cpp: the keys, their files, and decryption
--   KeyService/Service  nats_service.cpp and main.cpp: connecting, subscribing, the handles of a run
-- Shared: Base64 is the encoding that the base64 codecs are measured against, and Base holds the
-- helpers; Base/Json is what the services read of a JSON value. Tests applies the theorems at concrete
-- inputs.
--
-- Conventions. A std::string or a byte vector is the list of its bytes. Machine integers are natural
-- numbers with the wrap-around written out where the code relies on unsigned arithmetic. A class is a
-- record, and each member function takes the record and returns the new one; what a mutex guards is one
-- step. Clock readings, sockets, the file system's faults, NATS and the JSON library's parser are
-- parameters of the calls that use them.
--
-- Bounds. Loops are structural recursion on the data they walk. Fuel stands in to_string of
-- Gateway/Frames, where twenty digits print every 64-bit number, in Base/Decimal, where a number has at
-- most as many further digits as it is large, and in deserialize_codes of Engine/Db, where each chunk
-- takes at least one byte; the round trip of Engine/Db shows that this is enough. In
-- KeyService/Base64/Encoder two rounds take the bits of a byte and three fill up the padding; the encoding
-- proved of it shows that this is enough.
--
-- Not modelled: the sockets, threads and event loops themselves, the NATS and gRPC libraries, the iris
-- pipeline and the cryptographic libraries that the engine links, the configuration readers, and the
-- user interfaces.
pub mod Base
pub mod Base64
pub mod Capture
pub mod Engine
pub mod Gateway
pub mod KeyService
pub mod Storage
pub mod Tests
