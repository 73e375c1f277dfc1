-- ===== src/Decoder/Zz/Json/Sample.antt =====
-- A session at its start and libraries at their best, for the tests.
use n2kafka.Prelude.{
  ℕ, refl, true, none, List, [], ◌∷◌, arith, Bytes, codes, inr, ◌==◌, if◌then◌else◌,
}
use n2kafka.Util.Str.{string_init}
use n2kafka.Util.Str.Grow.{IsWf-init}
use n2kafka.Util.MsgArray.{msg_array_init}
use n2kafka.Decoder.Zz.Json.{Event, start_map, end_map, JsonSession, Env}
use n2kafka.Decoder.Zz.Json.Spec.{Split}
use n2kafka.Decoder.Zz.Json.Chunk.{Provides}
use n2kafka.Decoder.Zz.Json.Keep.{Between}
use n2kafka.Decoder.Zz.Json.Whole.{Part}

abbrev pub braces : Bytes
braces = codes "{}"

-- A yajl that has found the braces of `{}`.
abbrev pub two_braces : List Event
two_braces = start_map 1 ∷ end_map 2 ∷ []

abbrev pub test_env : Env ℕ
test_env = record {
  realloc = λ n. true;
  malloc = λ n. true;
  header_size = 32;
  msg_size = 64;
  produce_one = λ b. true;
  yajl_parse = λ h b. (h, start_map 1 ∷ end_map 2 ∷ [], none);
}

pub test_env-Provides : Provides test_env
test_env-Provides = record {
  grants = λ n. refl;
  mallocs = λ n. refl;
  takes = λ b. refl;
  header_positive = omega arith;
  msg_positive = omega arith;
  first_fits = omega arith;
}

abbrev pub new_session : JsonSession ℕ
new_session = record {
  yajl_handler = 0;
  stack_pos = 0;
  last_open_map = none;
  last_object = string_init;
  kafka_msgs = msg_array_init;
  http_response = string_init;
  sent = [];
}

abbrev pub nothing_read : Split
nothing_read = record { depth = 0; current = []; out = [] }

pub new_session-Between : Between new_session nothing_read
new_session-Between = record {
  same_depth = refl;
  closed = refl;
  kept = refl;
  inside = inr (refl, refl);
  begun = λ h. absurd (omega arith);
  wf = IsWf-init;
}

-- The body `{ }{}` cut after its first byte, and a yajl for the two pieces.
abbrev pub two_parts : List (Part ℕ)
two_parts =
    record { buffer = 1000; chunk = codes "{"; handler = 1; events = start_map 1 ∷ [] }
    ∷ record {
      buffer = 2000;
      chunk = codes " }{}";
      handler = 2;
      events = end_map 2 ∷ start_map 3 ∷ end_map 4 ∷ [];
    }
    ∷ []

abbrev pub parts_env : Env ℕ
parts_env = record test_env {
  yajl_parse = λ h b.
      if h == 0
      then (1, start_map 1 ∷ [], none)
      else (2, end_map 2 ∷ start_map 3 ∷ end_map 4 ∷ [], none);
}

pub parts_env-Provides : Provides parts_env
parts_env-Provides = record {
  grants = λ n. refl;
  mallocs = λ n. refl;
  takes = λ b. refl;
  header_positive = omega arith;
  msg_positive = omega arith;
  first_fits = omega arith;
}
