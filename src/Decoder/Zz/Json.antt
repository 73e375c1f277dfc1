-- ===== src/Decoder/Zz/Json.antt =====
-- src/decoder/zz_http2k/zz_http2k_parser_json.c: a stream of JSON objects that comes in chunks.
--
-- The yajl parser is the argument `yajl`: for each chunk it gives its next state, the map events with
-- the bytes consumed at each, and an error text if the chunk is refused. malloc succeeds by `malloc`,
-- `produce_one` is rd_kafka_produce_batch on a single message, and what it takes is kept in `sent`.
-- Pointers into the chunk are offsets from `in_buffer`, whose address is the argument `buffer`.
pub mod Spec
pub mod Pieces
pub mod Chunk
pub mod Ends
pub mod Keep
pub mod Stream
pub mod Parser
pub mod Whole
pub mod Sample
mod Tests
use n2kafka.Prelude.{
  ℕ, zero, suc, ◌+◌, ◌-◌, ◌%◌, ◌^◌, Bool, true, false, not, Option, none, some, List, [], ◌∷◌, ◌++◌,
  ltb, ◌==◌, if◌then◌else◌, length, take, drop, Bytes, codes,
}
use n2kafka.Prelude.Int.{ℤ, is_zero}
use n2kafka.Prelude.Run.{Run, ret, fault, ◌>>=◌}
use n2kafka.Util.Str.{Str, string_init, string_done, string_size, string_append}
use n2kafka.Util.MsgArray.{
  Msg, no_error, MsgArray, kafka_message_array_size, kafka_msg_array_add, set_payload_buffer,
}
use n2kafka.Decoder.Api.{DecoderErr, callback_ok, invalid_request, memory_error}

-- A callback of yajl, with yajl_get_bytes_consumed at its time.
pub data Event : Type 0 where
  start_map end_map : ℕ → Event

-- The parts of zz_session and zz_json_session that the parser changes.
pub record JsonSession (H : Type 0) : Type 0 where
  pub yajl_handler : H
  pub stack_pos : ℕ
  pub last_open_map : Option ℕ
  pub last_object : Str
  pub kafka_msgs : MsgArray
  pub http_response : Str
  pub sent : List Bytes

-- What the code takes from the libraries.
pub record Env (H : Type 0) : Type 0 where
  pub realloc : ℕ → Bool
  pub malloc : ℕ → Bool
  pub header_size : ℕ
  pub msg_size : ℕ
  pub produce_one : Bytes → Bool
  pub yajl_parse : H → Bytes → H × List Event × Option Bytes

module _ {H : Type 0} (env : Env H) where
  pub zz_parse_start_json_map : JsonSession H → ℕ → JsonSession H
  zz_parse_start_json_map s consumed =
      if s.stack_pos == 0
      then record s { stack_pos = s.stack_pos + 1; last_open_map = some (consumed - 1) }
      else record s { stack_pos = s.stack_pos + 1 }

  -- zz_parse_generate_rdkafka_message, with its assert.
  pub zz_parse_generate_rdkafka_message : ℕ → JsonSession H → ℕ → Run Msg
  zz_parse_generate_rdkafka_message buffer s consumed = elim s.last_open_map [
    | none ↦ fault
    | some open_map ↦
        if ltb open_map consumed
        then ret (record {
          payload = buffer + open_map;
          len = consumed - open_map;
          err = no_error;
          private = false;
        })
        else fault
  ]

  pub zz_parse_end_json_map0 : ℕ → JsonSession H → ℕ → Run (JsonSession H)
  unfolding zz_parse_generate_rdkafka_message
  zz_parse_end_json_map0 buffer s consumed = do
    msg ← zz_parse_generate_rdkafka_message buffer s consumed
    let added = kafka_msg_array_add env.realloc env.header_size env.msg_size s.kafka_msgs msg
    ret (record s { kafka_msgs = added.0; last_open_map = none })

  -- The object ends that an earlier chunk began: it is sent at once.
  pub zz_parse_end_json_map_split : Bytes → JsonSession H → ℕ → JsonSession H
  zz_parse_end_json_map_split chunk s consumed =
      let (last_object, append_rc) =
        string_append env.realloc s.last_object (take consumed chunk) in
      if not (is_zero append_rc)
      then record s { last_object = string_done last_object }
      else if env.produce_one last_object.bytes
      then record s {
        last_object = string_done last_object;
        sent = s.sent ++ last_object.bytes ∷ [];
      }
      else record s { last_object = string_done last_object }

  pub zz_parse_end_json_map : ℕ → Bytes → JsonSession H → ℕ → Run (JsonSession H)
  unfolding zz_parse_end_json_map0 zz_parse_end_json_map_split
  zz_parse_end_json_map buffer chunk s consumed =
      let s' = record s { stack_pos = (s.stack_pos + 2 ^ 64 - 1) % 2 ^ 64 } in
      if not (s'.stack_pos == 0)
      then ret s'
      else if ltb 0 (string_size s'.last_object)
      then ret (zz_parse_end_json_map_split chunk s' consumed)
      else zz_parse_end_json_map0 buffer s' consumed

  pub run_event : ℕ → Bytes → JsonSession H → Event → Run (JsonSession H)
  unfolding zz_parse_start_json_map zz_parse_end_json_map
  run_event buffer chunk s (start_map consumed) = ret (zz_parse_start_json_map s consumed)
  run_event buffer chunk s (end_map consumed) = zz_parse_end_json_map buffer chunk s consumed

  -- The callbacks of one yajl_parse, in order.
  pub run_events : ℕ → Bytes → List Event → JsonSession H → Run (JsonSession H)
  run_events buffer chunk [] s = ret s
  run_events buffer chunk (e ∷ es) s = do
    s' ← run_event buffer chunk s e
    run_events buffer chunk es s'

  -- An object that the chunk leaves open is kept for the next one.
  pub keep_open : Bytes → JsonSession H → JsonSession H
  keep_open chunk s = elim s.last_open_map [
    | some open_map ↦ record s {
      last_object = (string_append env.realloc s.last_object (drop open_map chunk)).0;
    }
    | none ↦
        if not (string_size s.last_object == 0)
        then record s { last_object = (string_append env.realloc s.last_object chunk).0 }
        else s
  ]

  -- The end of process_json_buffer: the messages get the buffer, NULL if its malloc failed, and http_chunk is
  -- cleared.
  pub close_chunk : Option ℕ → JsonSession H → Run (JsonSession H)
  close_chunk buffer s =
      if kafka_message_array_size s.kafka_msgs == 0
      then ret (record s { last_open_map = none })
      else (do
        kafka_msgs ← set_payload_buffer s.kafka_msgs buffer false
        ret (record s { kafka_msgs = kafka_msgs; last_open_map = none }))

  pub process_json_buffer : ℕ → Bytes → JsonSession H → Run (JsonSession H × DecoderErr)
  process_json_buffer buffer [] s = ret (s, callback_ok)
  process_json_buffer buffer (c ∷ cs) s =
      let chunk = c ∷ cs in
      let (handler, events, error) = env.yajl_parse s.yajl_handler chunk in
      if not (env.malloc (length chunk))
      then (do s' ← close_chunk none s; ret (s', memory_error))
      else (do
        parsed ← run_events buffer chunk events (record s { yajl_handler = handler })
        elim error [
          | some text ↦ (do
            s' ← close_chunk (some buffer) (record parsed {
              http_response = (string_append env.realloc parsed.http_response text).0;
            })
            ret (s', invalid_request))
          | none ↦ (do
            s' ← close_chunk (some buffer) (keep_open chunk parsed)
            ret (s', callback_ok))
        ])
