-- ===== src/Listener/Http.antt =====
-- src/listener/http/http.c and the send functions of responses.c: a connection from its first call to
-- request_completed.
--
-- libmicrohttpd calls handle_request with `*ptr` NULL first, then once for each chunk of the body, then once with
-- no data. What it tells about the connection is the record Mhd, and what is queued for it is the
-- list `queued`: code and body, the headers of a response left out. zlib's inflate is the argument `inflate`, with `Z` the state of a stream.
pub mod Auth
pub mod Responses
pub mod Config
pub mod Post
pub mod Gate
mod Tests
use n2kafka.Prelude.{
  ℕ, zero, suc, ◌+◌, ◌-◌, ◌*◌, Bool, true, false, not, ◌&&◌, ◌||◌, Option, none, some, List, [],
  ◌∷◌, ◌++◌, ltb, ◌==◌, if◌then◌else◌, length, take, Bytes, codes, equal, equal_nocase,
}
use n2kafka.Prelude.Int.{ℤ, is_zero}
use n2kafka.Prelude.Run.{Run, ret, fault, running, ◌>>=◌}
use n2kafka.Util.Str.{Str, string_init, string_append}
use n2kafka.Util.Pair.{Pair, add_key_value_pair}
use n2kafka.Decoder.Api.{
  DecoderErr, callback_ok, buffer_full, invalid_request, unknown_topic, unknown_partition,
  msg_too_large, http_method_not_allowed, resource_not_found, memory_error, generic_error,
}
use n2kafka.Listener.Api.{Response, no_response, Reply, Decoder, Listener, listener_decode}
use n2kafka.Listener.Http.Auth.{http_authenticate}

-- struct conn_info, `Z` for the z_stream.
pub record ConnInfo (S Z : Type 0) : Type 0 where
  pub str : Str
  pub decoder_params : List Pair
  pub zlib_enable : Bool
  pub strm : Z
  pub decoder_sess : Option S
  pub error_code : ℕ
  pub error_response : Response

-- The request's `*ptr`: NULL, the 1 that handle_get leaves, or a connection.
pub data Opaque (S Z : Type 0) : Type 0 where
  null get_mark : Opaque S Z
  conn_info : ConnInfo S Z → Opaque S Z

-- A request: its `*ptr`, the world of the decoders, and what is queued as response.
pub record Request (W S Z : Type 0) : Type 0 where
  pub ptr : Opaque S Z
  pub world : W
  pub queued : List (ℕ × Bytes)

-- The results of inflate and inflateInit2.
pub data ZStatus : Type 0 where
  z_ok z_stream_end z_need_dict z_data_error z_mem_error z_buf_error z_other : ZStatus

-- What libmicrohttpd, gnutls and zlib say of the connection.
pub record Mhd (Z : Type 0) : Type 0 where
  pub client_address : Option Bytes
  pub headers : List Pair
  pub basic_auth : Option (Bytes × Bytes)
  pub client_cert_error : Option Bytes
  pub queue_response : Bool
  pub create_response : Bool
  pub alloc : Bool
  pub realloc : ℕ → Bool
  pub z_stream : Z
  pub inflate_init : Z × ZStatus
  pub malloc : ℕ → Bool
  -- With whether the output buffer exists and its size: the next state, the status, what is left of the input,
  -- and at most that many bytes of output.
  pub inflate : Z → Bytes → Bool → ℕ → Z × ZStatus × Bytes × Bytes

-- The listener's own settings: an authority for client certificates, and the password database.
pub record HttpConfig : Type 0 where
  pub client_tls_ca : Bool
  pub htpasswd : Option Bytes
  pub ndebug : Bool

abbrev pub zlib_chunk : ℕ
zlib_chunk = 512 * 1024

module _ {S Z : Type 0} where
  abbrev pub conn_info_queue_response : ConnInfo S Z → ℕ → Response → ConnInfo S Z
  conn_info_queue_response c code response = record c {
    error_code = code;
    error_response = response;
  }

  abbrev pub conn_info_has_queue_response : ConnInfo S Z → Bool
  conn_info_has_queue_response c = not (c.error_code == 0)

unfoldable pub decoder_err2http : DecoderErr → ℕ
decoder_err2http callback_ok = 200
decoder_err2http buffer_full = 503
decoder_err2http invalid_request = 400
decoder_err2http unknown_topic = 400
decoder_err2http unknown_partition = 400
decoder_err2http msg_too_large = 413
decoder_err2http http_method_not_allowed = 405
decoder_err2http resource_not_found = 404
decoder_err2http memory_error = 500
decoder_err2http generic_error = 500

abbrev pub is_ok : DecoderErr → Bool
is_ok callback_ok = true
is_ok _ = false

abbrev pub is_method_not_allowed : DecoderErr → Bool
is_method_not_allowed http_method_not_allowed = true
is_method_not_allowed _ = false

-- The bytes that a response of a decoder points to.
abbrev pub body_of : Response → Bytes
body_of response = elim response.str [ none ↦ [] | some str ↦ str ]

abbrev pub zlib_deflate_error2str : ZStatus → Bytes
zlib_deflate_error2str z_need_dict =
    codes "{\"error\":\"libz deflate error: a dictionary is need\"}"
zlib_deflate_error2str z_data_error =
    codes "{\"error\":\"deflated input is not conforming to the zlib format\"}"
zlib_deflate_error2str z_mem_error = codes "{\"error\":\"Out of memory\"}"
zlib_deflate_error2str z_buf_error =
    codes "{\"error\":\"Is not possible to progress in input stream\"}"
zlib_deflate_error2str _ = codes "{\"error\":\"Unknown error\"}"

-- The decoder error that a status of inflate stands for, if it stops the loop.
abbrev pub zlib_error : ZStatus → Option DecoderErr
zlib_error z_ok = none
zlib_error z_stream_end = none
zlib_error z_need_dict = some invalid_request
zlib_error z_data_error = some invalid_request
zlib_error _ = some generic_error

-- connection_args_iterator on one header: whether it asks for decompression.
abbrev pub asks_zlib : Pair → Bool
asks_zlib header = elim header.value [
  | none ↦ false
  | some value ↦
      equal_nocase (codes "Content-Encoding") header.key
      && (equal_nocase (codes "deflate") value || equal_nocase (codes "gzip") value)
]

pub connection_args_iterator : List Pair → Bool × List Pair → Bool × List Pair
connection_args_iterator [] acc = acc
connection_args_iterator (header ∷ headers) (enable, opts) =
    connection_args_iterator headers (enable || asks_zlib header, opts ++ header ∷ [])

-- decoder_opts: the headers, then the listener's own options.
pub decoder_opts : List Pair → Bytes → Bytes → Option Bytes → Bool × List Pair
unfolding connection_args_iterator
decoder_opts headers http_method uri client =
    let (enable, opts) = connection_args_iterator headers (false, []) in
    (
      enable,
      opts
          ++ record { key = codes "D-HTTP-method"; value = some http_method }
            ∷ record { key = codes "D-HTTP-URI"; value = some uri }
            ∷ record { key = codes "D-Client-IP"; value = client }
            ∷ [],
    )

module _ {W S O Z : Type 0} (mhd : Mhd Z) (config : HttpConfig) (listener : Listener W S O) where
  -- MHD_queue_response
  abbrev pub queue_response : Request W S Z → ℕ → Bytes → Request W S Z × Bool
  queue_response r code body =
      if mhd.queue_response
      then (record r { queued = r.queued ++ (code, body) ∷ [] }, true)
      else (r, false)

  abbrev pub send_buffered_response : Request W S Z → ℕ → Bytes → ℕ → Request W S Z × Bool
  send_buffered_response r sz buf response_code =
      if mhd.create_response then queue_response r response_code (take sz buf) else (r, false)

  abbrev pub send_http_ok : Request W S Z → Request W S Z × Bool
  send_http_ok r = queue_response r 200 []

  abbrev pub send_http_method_not_allowed : Request W S Z → Request W S Z × Bool
  send_http_method_not_allowed r = queue_response r 405 []

  abbrev pub send_http_unauthorized_basic : Request W S Z → Request W S Z × Bool
  send_http_unauthorized_basic r = queue_response r 401 []

  -- The string and its length for a response: a NULL string has none, and a size 0 means strlen.
  abbrev pub effective_body : Response → Bytes
  effective_body response = elim response.str [
    | none ↦ []
    | some str ↦ if response.size == 0 then str else take response.size str
  ]

  -- create_connection_info. A failed inflateInit2 leaves the connection as it is.
  pub create_connection_info : Bytes → Bytes → Bytes → Option (ConnInfo S Z)
  unfolding decoder_opts
  create_connection_info http_method uri client =
      let (enable, params) = decoder_opts mhd.headers http_method uri (some client) in
      if mhd.alloc
      then some (record {
        str = string_init;
        decoder_params = params;
        zlib_enable = enable;
        strm = if enable then mhd.inflate_init.0 else mhd.z_stream;
        decoder_sess = none;
        error_code = 0;
        error_response = no_response;
      })
      else none

  -- The connection and its decoder session, once the request may go on.
  pub open_session : Request W S Z → Bytes → Bytes → Bytes → Request W S Z × Bool
  unfolding create_connection_info
  open_session r http_method uri client = elim (create_connection_info http_method uri client) [
    | none ↦
        let create_error = codes "Can't allocate conection context (out of memory?)" in
        send_buffered_response r (length create_error) create_error 500
    | some c ↦ elim listener.decoder.new_session [
      | none ↦ (record r { ptr = conn_info c }, true)
      | some new_session ↦
          let (w, session, session_rc) =
            new_session r.world listener.decoder_opaque c.decoder_params in
          if is_zero session_rc
          then (record r { ptr = conn_info (record c { decoder_sess = session }); world = w }, true)
          else (record r { ptr = null; world = w }, false)
    ]
  ]

  -- Whether the user and password of the request are in the database, if there is one.
  pub basic_auth_ok : ℕ → Run Bool
  basic_auth_ok fuel = elim config.htpasswd [
    | none ↦ ret true
    | some htpasswd ↦ elim mhd.basic_auth [
      | none ↦ ret false
      | some credentials ↦ http_authenticate fuel config.ndebug credentials.0 credentials.1 htpasswd
    ]
  ]

  pub handle_http_post_init : ℕ → Request W S Z → Bytes → Bytes → Run (Request W S Z × Bool)
  unfolding open_session basic_auth_ok
  handle_http_post_init fuel r url method = elim mhd.client_address [
    | none ↦ ret (r, false)
    | some client ↦
        let cert_error = if config.client_tls_ca then mhd.client_cert_error else none in
        elim cert_error [
          | some error ↦ ret ((send_buffered_response r (length error) error 403).0, true)
          | none ↦ (do
            allowed ← basic_auth_ok fuel
            ret (
                if allowed
                then open_session r method url client
                else send_http_unauthorized_basic r))
        ]
  ]

  -- The loop of compressed_callback: `running` when the fuel runs out.
  pub inflate_loop :
      ℕ → W → ConnInfo S Z → Bytes → Response → Run (W × ConnInfo S Z × DecoderErr × Response)
  inflate_loop zero w c next_in response = running
  inflate_loop (suc fuel) w c next_in response =
      let (strm, zret, avail_in, output) =
        mhd.inflate c.strm next_in (mhd.malloc zlib_chunk) zlib_chunk in
      let inflated : ConnInfo S Z = record c { strm = strm } in
      let again = λ (w' : W) (c' : ConnInfo S Z) (response' : Response).
        inflate_loop fuel w' c' avail_in response' in
      let more = length output == zlib_chunk in
      elim (zlib_error zret) [
        | some err ↦
            ret (w, inflated, err, record response { str = some (zlib_deflate_error2str zret) })
        | none ↦
            if length output == 0
            then ret (w, inflated, callback_ok, response)
            else (let reply =
                  listener_decode w listener output c.decoder_params (some response)
                    c.decoder_sess in
                let decoded : ConnInfo S Z = record inflated { decoder_sess = reply.session } in
                if is_ok reply.err
                then (if more
                    then again reply.world decoded reply.response
                    else ret (reply.world, decoded, callback_ok, reply.response))
                else ret (reply.world, decoded, reply.err, reply.response))
      ]

  -- What a chunk comes to, by the decoder's kind.
  pub decode_chunk :
      ℕ → Request W S Z → ConnInfo S Z → Bytes → Run (W × ConnInfo S Z × DecoderErr × Response)
  unfolding inflate_loop
  decode_chunk fuel r c upload_data = elim listener.decoder.new_session [
    | none ↦
        let (str, append_rc) = string_append mhd.realloc c.str upload_data in
        ret (
          r.world,
          record c { str = str },
          if is_zero append_rc then callback_ok else memory_error,
          no_response,
        )
    | some new_session ↦
        if c.zlib_enable
        then inflate_loop fuel r.world c upload_data no_response
        else (let reply =
              listener_decode r.world listener upload_data c.decoder_params (some no_response)
                c.decoder_sess in
            ret (reply.world, record c { decoder_sess = reply.session }, reply.err, reply.response))
  ]

  pub handle_http_post_chunk : ℕ → Request W S Z → ConnInfo S Z → Bytes → Run (Request W S Z × Bool)
  unfolding decode_chunk decoder_err2http
  handle_http_post_chunk fuel r c upload_data =
      if conn_info_has_queue_response c then ret (r, true) else (do
        (w, c', decode_rc, response) ← decode_chunk fuel r c upload_data
        ret (
          record r {
            ptr = conn_info (
                if is_ok decode_rc
                then c'
                else conn_info_queue_response c' (decoder_err2http decode_rc) response);
            world = w;
          },
          true,
        ))

  pub handle_post_end : Request W S Z → ConnInfo S Z → Request W S Z × Bool
  handle_post_end r c =
      if conn_info_has_queue_response c
      then (let body = effective_body c.error_response in
          send_buffered_response r (length body) body c.error_code)
      else elim listener.decoder.new_session [
        | some new_session ↦ ((send_http_ok r).0, true)
        | none ↦
            let reply = listener_decode r.world listener c.str.bytes c.decoder_params none none in
            ((send_http_ok (record r { world = reply.world })).0, true)
      ]

  pub handle_post : ℕ → Request W S Z → Bytes → Bytes → Bytes → Run (Request W S Z × Bool)
  unfolding handle_http_post_init handle_http_post_chunk handle_post_end
  handle_post fuel r url method upload_data = elim r.ptr [
    | null ↦ handle_http_post_init fuel r url method
    | get_mark ↦ fault
    | conn_info c ↦
        if ltb 0 (length upload_data)
        then handle_http_post_chunk fuel r c upload_data
        else ret (handle_post_end r c)
  ]

  pub handle_get : Request W S Z → Bytes → Bytes → Bytes → Request W S Z × Bool
  unfolding decoder_opts decoder_err2http
  handle_get r url method upload_data = elim r.ptr [
    | null ↦ (record r { ptr = get_mark }, true)
    | _ ↦
        let (enable, params) = decoder_opts mhd.headers method url mhd.client_address in
        let reply = listener_decode r.world listener upload_data params (some no_response) none in
        let r' : Request W S Z = record r { ptr = null; world = reply.world } in
        if is_method_not_allowed reply.err
        then send_http_method_not_allowed r'
        else send_buffered_response r' reply.response.size (body_of reply.response)
            (decoder_err2http reply.err)
  ]

  pub handle_request : ℕ → Request W S Z → Bytes → Bytes → Bytes → Run (Request W S Z × Bool)
  unfolding handle_post handle_get
  handle_request fuel r url method upload_data =
      if equal method (codes "POST")
      then handle_post fuel r url method upload_data
      else if equal method (codes "GET")
      then ret (handle_get r url method upload_data)
      else ret (send_http_method_not_allowed r)

  -- request_completed: the session is deleted and the connection forgotten; the memory of inflate is not
  -- followed. The mark of handle_get is no connection.
  pub request_completed : Request W S Z → Run (Request W S Z)
  request_completed r = elim r.ptr [
    | null ↦ ret r
    | get_mark ↦ fault
    | conn_info c ↦ elim listener.decoder.delete_session [
      | none ↦ ret (record r { ptr = null })
      | some delete_session ↦
          ret (record r { ptr = null; world = delete_session r.world c.decoder_sess })
    ]
  ]
