-- ===== src/Listener/Http/Tests.antt =====
-- A listener whose decoder keeps what it is given, and the theorems on requests at it.
use n2kafka.Prelude.{
  Bool, ℕ, ◌+◌, ◌≡◌, refl, true, false, Option, none, some, List, [], ◌∷◌, ◌++◌, arith, Bytes,
  codes, inl, if◌then◌else◌, length, ltb,
}
use n2kafka.Prelude.Int.{ℤ, pos}
use n2kafka.Prelude.Run.{ret}
use n2kafka.Util.Str.{string_init}
use n2kafka.Util.Pair.{Pair}
use n2kafka.Decoder.Api.{callback_ok, msg_too_large}
use n2kafka.Listener.Api.{Response, no_response, Reply, Listener}
use n2kafka.Listener.Http.{
  ConnInfo, null, Request, ZStatus, z_ok, z_data_error, Mhd, HttpConfig, handle_request,
}
use n2kafka.Listener.Http.Post.{post_body, feed}
use n2kafka.Listener.Http.Post.Body.{
  opened, Answered, send_error, post_body-error, post_body-streamed,
}
use n2kafka.Listener.Http.Gate.{Refused, handle_request-unauthorized}

-- Refuses what is longer than two bytes, and keeps everything.
abbrev collect :
    List Bytes → Bytes → List Pair → Option ℕ → Option Response → Option ℕ → Reply (List Bytes) ℕ
collect w b params o response s = record {
  world = w ++ b ∷ [];
  session = s;
  err = if ltb 2 (length b) then msg_too_large else callback_ok;
  response = no_response;
}

abbrev create : List Bytes → Option ℕ → List Pair → List Bytes × Option ℕ × ℤ
create w o params = (w, some 0, pos 0)

abbrev whole_body : Listener (List Bytes) ℕ ℕ
whole_body = record {
  decoder = record {
    callback = collect;
    opaque_creator = none;
    opaque_reload = none;
    opaque_destructor = none;
    new_session = none;
    delete_session = none;
  };
  decoder_opaque = none;
  port = 7980;
}

abbrev streaming : Listener (List Bytes) ℕ ℕ
streaming = record whole_body { decoder = record whole_body.decoder { new_session = some create } }

-- A zlib whose input is its output, once.
abbrev copy : ℕ → Bytes → Bool → ℕ → ℕ × ZStatus × Bytes × Bytes
copy z input allocated room = (z + 1, z_ok, [], input)

abbrev broken : ℕ → Bytes → Bool → ℕ → ℕ × ZStatus × Bytes × Bytes
broken z input allocated room = (z, z_data_error, input, [])

abbrev mhd : Mhd ℕ
mhd = record {
  client_address = some (codes "127.0.0.1");
  headers = [];
  basic_auth = none;
  client_cert_error = none;
  queue_response = true;
  create_response = true;
  alloc = true;
  realloc = λ n. true;
  z_stream = 0;
  inflate_init = (0, z_ok);
  malloc = λ n. true;
  inflate = copy;
}

abbrev config : HttpConfig
config = record { client_tls_ca = false; htpasswd = some (codes "me:{PLAIN}pw"); ndebug = true }

abbrev connection : ConnInfo ℕ ℕ
connection = record {
  str = string_init;
  decoder_params = [];
  zlib_enable = false;
  strm = 0;
  decoder_sess = some 0;
  error_code = 0;
  error_response = no_response;
}

abbrev failed_connection : ConnInfo ℕ ℕ
failed_connection = record connection { error_code = 400 }

abbrev chunks : List Bytes
chunks = codes "ab" ∷ codes "abc" ∷ codes "c" ∷ []

post_body-error_example :
    post_body mhd config streaming 9
      (opened failed_connection [] [])
      (codes "/")
      (codes "POST")
      chunks
    ≡ ret (send_error mhd config streaming 9 (codes "/") (codes "POST") [] failed_connection [])
post_body-error_example =
    post_body-error mhd config streaming 9 (codes "/") (codes "POST") [] chunks failed_connection []
      (omega arith, (omega arith, (omega arith, tt))) refl

post_body-streamed_example :
    Answered mhd config streaming 9
      (codes "/")
      (codes "POST")
      []
      (feed streaming [] chunks [] (some 0))
      (post_body mhd config streaming 9 (opened connection [] []) (codes "/") (codes "POST") chunks)
post_body-streamed_example =
    post_body-streamed mhd config streaming 9 (codes "/") (codes "POST") [] chunks connection []
      create (omega arith, (omega arith, (omega arith, tt))) refl refl refl

abbrev first_call : Request (List Bytes) ℕ ℕ
first_call = record { ptr = null; world = []; queued = [] }

handle_request-unauthorized_example :
    Refused mhd config streaming 9
      (codes "/")
      []
      (handle_request mhd config streaming 9 first_call (codes "/") (codes "POST") [])
handle_request-unauthorized_example =
    handle_request-unauthorized mhd config streaming 9 (codes "/") [] (codes "me:{PLAIN}pw") [] refl
      (inl refl)
