-- ===== src/Lib.antt =====
-- n2kafka receives data over HTTP and other protocols and sends it to Apache Kafka. This library models
-- the path of a request: the HTTP listener, the decoders, and the arrays that hand messages to librdkafka.
--
-- The parts, and the files of the repository that they model:
--   Prelude: numbers, lists, C strings, and `Run`, the result of a piece of C code: a value, a
--     fault (a failed assert, a bad pointer, freed memory), or no end within the fuel.
--   Util/Str: src/util/string.c and string.h. A string is its allocation and its bytes; realloc is a
--     Boolean on sizes. Grow and Printf are about the growth, Escape about the JSON text writer.
--   Util/MsgArray: src/util/kafka_message_array.c and .h, and msg_delivered of src/util/kafka.c. The
--     buffer's content is the list of the records stored in it.
--   Util/TopicDb: src/util/topic_database.c, with the hash table as an interface.
--   Util/Stats: the callbacks for librdkafka's statistics of src/util/kafka.c.
--   Util/Pair, Util/AddrList, Util/File: src/util/pair.c, in_addr_list.c and file.c.
--   Decoder/Api, Listener/Api: src/decoder/decoder_api.h and src/listener/listener_api.c and .h, the
--     interface that joins listeners and decoders.
--   Decoder/Dumb, Decoder/Meraki: src/decoder/dumb/dumb.c and src/decoder/meraki/meraki.c.
--   Decoder/Zz/Session: src/decoder/zz_http2k/zz_http2k_parser.c, the topic and the life of a session.
--   Decoder/Zz/Json: src/decoder/zz_http2k/zz_http2k_parser_json.c. Spec says what the splitting of a
--     stream into objects means; Chunk, Ends, Keep and Stream show that the callbacks follow it on a chunk,
--     Pieces that the splitting does not depend on the cuts, and Whole takes a body piece by piece.
--   Decoder/Zz/Xml: src/decoder/zz_http2k/zz_http2k_parser_xml.c and .h. Handlers has what expat calls,
--     Process the loop over a chunk, Bits the flags of the stack. Tree says which JSON value an element
--     stands for; Pen, Frames, Steps, Document, Walk, Root and Message show that the handlers write it.
--   Decoder/Zz/Decode: zz_decode of src/decoder/zz_http2k/zz_http2k_decoder.c.
--   Listener/Http: src/listener/http/http.c and the send functions of responses.c; Post is about the
--     body of a POST, Gate about who is let in.
--   Listener/Http/Auth: src/listener/http/http_auth.c.
--   Listener/Http/Config: src/listener/http/http_config.c, the settings and the life of an HTTP listener,
--     and src/util/n2k_config_x.h. Secrets reads the files of keys and passwords into the listener's block,
--     Start is start_http_loop and break_http_loop, Create is create_http_listener0.
--   Listener/Http/Responses: the counter of the shared responses of src/listener/http/responses.c.
--   Listener/Socket: src/listener/socket/socket.c, the TCP and UDP listeners; Workers is about who gets a
--     connection, Queues about its way from the accepting thread to a worker.
--   Engine/Config, Extra, Blacklist, Reload: src/engine/global_config.c, the settings of librdkafka, the text
--     appended to the statistics, the blacklist and the listeners.
--   Engine/Program: src/engine/n2kafka.c, with the start and the end of global_config.c.
--
-- A request goes through handle_request, which calls the decoder of its listener for each chunk;
-- zz_decode gives the chunk to process_json_buffer, whose callbacks queue each object as a message that
-- points into the chunk, and kafka_message_array_produce hands the queue to librdkafka. The delivery
-- reports of librdkafka's thread free the buffer.
--
-- Libraries are parameters: yajl gives the events of a chunk, yajl's generator the texts of its calls,
-- expat calls the handlers of XML, librdkafka takes a batch and tells which messages it refused
-- (BatchLaw), zlib's inflate, libmicrohttpd and gnutls stand in the record Mhd, jansson's unpacking and
-- the sockets' calls are arguments. The interleaving with the delivery reports is a schedule, the number
-- of reports before each round of the produce loop.
--
-- Bounds and fuel: sizes stay up to 2 ^ 31, where next_pow2 shifts an int. The printf loop, the JSON text
-- writer, http_authenticate and the inflate loop run on fuel, and the theorems on them say which fuel is
-- enough, or that none is. The loop over an XML chunk needs one round a byte at most, and the loop that
-- logs the statistics two rounds more than the text has bytes, where its commas stand close.
--
-- Not modelled: the reading of the configuration file, the set-up of the sockets, the start of their
-- threads, TLS, and signals. Logging is left out everywhere.
pub mod Prelude
pub mod Util
pub mod Decoder
pub mod Listener
pub mod Engine
