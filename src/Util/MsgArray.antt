-- ===== src/Util/MsgArray.antt =====
-- src/util/kafka_message_array.c and kafka_message_array.h: messages queued in one growing buffer,
-- handed to librdkafka in a batch, and the reference count that frees the buffer they share.
--
-- The buffer is a `Str`, whose growth decides what an append returns; what is stored in it is kept
-- typed, as the list of the records appended: the header and the messages. `header_size` and
-- `msg_size` are the sizeof of these two. librdkafka's rd_kafka_produce_batch is the argument
-- `produce_batch`. Delivery reports run in another thread: a schedule says how many of them come before
-- each round of the loop over the batch.
pub mod Add
pub mod Produce
mod Tests
use n2kafka.Prelude.{
  ℕ, zero, suc, ◌+◌, ◌-◌, Bool, true, false, not, ◌&&◌, Option, none, some, List, [], ◌∷◌, ◌++◌,
  map, length, ltb, leb, ◌==◌, if◌then◌else◌, get_elem?, set, Bytes,
}
use n2kafka.Prelude.Int.{ℤ, pos, is_zero}
use n2kafka.Prelude.Run.{Run, ret, fault, ◌>>=◌}
use n2kafka.Util.Str.{Str, string_init, string_size, string_append}

-- rd_kafka_resp_err_t: the errors that the source tells apart, and all others.
pub data RespErr : Type 0 where
  no_error queue_full msg_size_too_large unknown_partition unknown_topic : RespErr
  other_error : ℕ → RespErr

-- The fields of rd_kafka_message_t that the source uses; `private` is set when it points to the array.
pub record Msg : Type 0 where
  pub payload : ℕ
  pub len : ℕ
  pub err : RespErr
  pub private : Bool

-- struct kafka_message_array_internal, without its flexible array. A NULL payload buffer is `none`.
pub record Internal : Type 0 where
  pub payload_buffer : Option ℕ
  pub count : ℕ

pub data Item : Type 0 where
  header : Internal → Item
  message : Msg → Item

pub record MsgArray : Type 0 where
  pub str : Str
  pub items : List Item

-- KAFKA_MESSAGE_ARRAY_INITIALIZER, kafka_msg_array_init
abbrev pub msg_array_init : MsgArray
msg_array_init = record { str = string_init; items = [] }

-- kafka_msg_array_done
abbrev pub msg_array_done : MsgArray → MsgArray
msg_array_done a = msg_array_init

abbrev pub zeros : ℕ → Bytes
zeros zero = []
zeros (suc n) = 0 ∷ zeros n

-- kafka_message_array_get_internal: what stands at the start of the buffer.
abbrev pub get_internal : List Item → Option Internal
get_internal (header k ∷ items) = some k
get_internal _ = none

abbrev pub count_of : Option Internal → ℕ
count_of none = 0
count_of (some k) = k.count

unfoldable pub kafka_message_array_size : MsgArray → ℕ
kafka_message_array_size a = if string_size a.str == 0 then 0 else count_of (get_internal a.items)

abbrev pub fresh_internal : Internal
fresh_internal = record { payload_buffer = none; count = 0 }

-- kafka_message_array_get_internal(array)->count++
abbrev increment : List Item → List Item
increment (header k ∷ items) = header (record k { count = k.count + 1 }) ∷ items
increment items = items

-- The array after the append of a message that gave `r`.
store_message : MsgArray → Msg → Str × ℤ → MsgArray × ℤ
store_message a msg (str, rc) =
    if is_zero rc
    then (record { str = str; items = increment (a.items ++ message msg ∷ []) }, rc)
    else (record { str = str; items = a.items }, rc)

module _ (realloc : ℕ → Bool) (header_size msg_size : ℕ) where
  add_message : MsgArray → Msg → MsgArray × ℤ
  unfolding store_message
  add_message a msg = store_message a msg (string_append realloc a.str (zeros msg_size))

  pub kafka_msg_array_add : MsgArray → Msg → MsgArray × ℤ
  unfolding kafka_message_array_size
  kafka_msg_array_add a msg =
      let (str, create_rc) = string_append realloc a.str (zeros header_size) in
      let created : MsgArray = record {
        str = str;
        items = a.items ++ header fresh_internal ∷ [];
      } in
      if kafka_message_array_size a == 0
      then (if not (is_zero create_rc)
          then (record { str = str; items = a.items }, create_rc)
          else add_message created msg)
      else add_message a msg

-- The messages behind the header.
abbrev pub messages_of : List Item → List Msg
messages_of [] = []
messages_of (header k ∷ items) = messages_of items
messages_of (message m ∷ items) = m ∷ messages_of items

abbrev pub map_messages : (Msg → Msg) → List Item → List Item
map_messages f [] = []
map_messages f (header k ∷ items) = header k ∷ map_messages f items
map_messages f (message m ∷ items) = message (f m) ∷ map_messages f items

abbrev pub set_buffer : Option ℕ → List Item → List Item
set_buffer buffer (header k ∷ items) = header (record k { payload_buffer = buffer }) ∷ items
set_buffer buffer items = items

-- The address of a buffer, 0 for NULL.
abbrev pub address : Option ℕ → ℕ
address none = 0
address (some buffer) = buffer

-- kafka_message_array_set_payload_buffer0: the offsets become addresses in the shared buffer. With
-- no header in the buffer the magic number's assert fails.
unfoldable pub set_payload_buffer : MsgArray → Option ℕ → Bool → Run MsgArray
set_payload_buffer a buffer sum_offset = elim (get_internal a.items) [
  | none ↦ fault
  | some k ↦
      let items = set_buffer buffer a.items in
      ret (
        if sum_offset
        then record a {
          items =
              map_messages (λ (m : Msg). record m { payload = m.payload + address buffer }) items;
        }
        else record a { items = items })
]

-- enum warning_times_pos; LAST_WARNING_TIME__END is 4.
abbrev pub last_warning_time_end : ℕ
last_warning_time_end = 4

pub kafka_error_to_warning_time_pos : RespErr → ℕ
kafka_error_to_warning_time_pos queue_full = 0
kafka_error_to_warning_time_pos msg_size_too_large = 1
kafka_error_to_warning_time_pos unknown_partition = 2
kafka_error_to_warning_time_pos unknown_topic = 3
kafka_error_to_warning_time_pos _ = last_warning_time_end

abbrev alert_threshold : ℕ
alert_threshold = 300

-- Whether to warn about an error, and the updated times. An index out of the array is a fault.
pub warn_of : ℕ → Option (List ℕ) → RespErr → Run (Option (List ℕ) × Bool)
unfolding kafka_error_to_warning_time_pos
warn_of now none err = ret (none, true)
warn_of now (some times) err =
    let pos = kafka_error_to_warning_time_pos err in
    if leb pos last_warning_time_end
    then elim (get_elem? times pos) [
      | none ↦ fault
      | some last ↦ ret (
          if ltb now (last + alert_threshold)
          then (some times, false)
          else (some (set times pos now), true))
    ]
    else ret (some times, true)

-- The memory of a batch: its reference count, and whether it has been freed.
pub record Live : Type 0 where
  pub count : ℕ
  pub freed : Bool

-- kafka_message_array_internal_decref
pub internal_decref : Live → Run Live
internal_decref l =
    if l.freed then fault else ret (record { count = l.count - 1; freed = l.count - 1 == 0 })

-- msg_delivered, in the polling thread, for that many messages.
pub deliver : ℕ → Live → Run Live
unfolding internal_decref
deliver zero l = ret l
deliver (suc n) l = do l' ← internal_decref l; deliver n l'

-- What kafka_message_array_produce comes to; `batch` is what it handed to rd_kafka_produce_batch.
pub record Produced : Type 0 where
  pub batch : List Msg
  pub msgs_ok : ℕ
  pub live : Live
  pub times : Option (List ℕ)

abbrev pub head_or_zero : List ℕ → ℕ
head_or_zero [] = 0
head_or_zero (n ∷ ns) = n

abbrev pub rest_of : List ℕ → List ℕ
rest_of [] = []
rest_of (n ∷ ns) = ns

abbrev pub is_no_error : RespErr → Bool
is_no_error no_error = true
is_no_error _ = false

-- The loop over the messages of a batch that was not queued whole. Each round reads `msgs[i]`.
pub produce_loop : ℕ → ℕ → List ℕ → List Msg → Produced → Run Produced
produce_loop now total sched [] p = ret p
produce_loop now total sched (m ∷ ms) p =
    let round : Run Produced = (do
      live ← deliver (head_or_zero sched) p.live
      let next = λ (q : Produced). produce_loop now total (rest_of sched) ms q
      if live.freed
          then fault
          else if is_no_error m.err
          then next (record p { live = live })
          else (do
            (times, warn) ← warn_of now p.times m.err
            live' ← internal_decref live
            next (record p { msgs_ok = p.msgs_ok + 1; live = live'; times = times }))) in
    if ltb p.msgs_ok total then round else ret p

-- kafka_msg_array_done at the end: it frees the buffer, unless the batch was stolen from the array.
pub free_array : Bool → Produced → Run Produced
free_array stolen p =
    if stolen
    then ret p
    else if p.live.freed
    then fault
    else ret (record p { live = record p.live { freed = true } })

abbrev is_some_buffer : Option ℕ → Bool
is_some_buffer none = false
is_some_buffer (some b) = true

-- The batch goes to librdkafka; with a shared buffer every message points back to the array.
pub produce_internal :
    (List Msg → ℕ × List Msg) → ℕ → List ℕ → Internal → List Msg → Option (List ℕ) → Run Produced
unfolding produce_loop free_array
produce_internal produce_batch now sched k msgs times =
    let stolen = is_some_buffer k.payload_buffer in
    let batch = if stolen then map (λ (m : Msg). record m { private = true }) msgs else msgs in
    let (msgs_ok, batch') = produce_batch batch in
    let start : Produced = record {
      batch = batch;
      msgs_ok = msgs_ok;
      live = record { count = k.count; freed = false };
      times = times;
    } in
    if msgs_ok == k.count
    then free_array stolen start
    else (do p ← produce_loop now k.count sched batch' start; free_array stolen p)

pub nothing_produced : Option (List ℕ) → Produced
nothing_produced times = record {
  batch = [];
  msgs_ok = 0;
  live = record { count = 0; freed = true };
  times = times;
}

pub kafka_message_array_produce :
    (List Msg → ℕ × List Msg) → ℕ → List ℕ → MsgArray → Option (List ℕ) → Run Produced
unfolding produce_internal kafka_message_array_size
kafka_message_array_produce produce_batch now sched a times =
    if kafka_message_array_size a == 0
    then ret (nothing_produced times)
    else elim (get_internal a.items) [
      | none ↦ fault
      | some k ↦ produce_internal produce_batch now sched k (messages_of a.items) times
    ]
