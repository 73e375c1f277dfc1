-- ===== src/Listener/Http/Post/Body.antt =====
-- What becomes of the body of a POST request.
use n2kafka.Prelude.{
  ℕ, ◌<◌, ◌≡◌, refl, Bool, true, false, Option, some, List, [], ◌∷◌, ◌++◌, ◌==◌, if◌then◌else◌,
  length, Bytes, All, Bool-cases, inl, inr, lt→ltb,
}
use n2kafka.Prelude.Int.{ℤ}
use n2kafka.Prelude.Run.{Run, ret}
use n2kafka.Util.Str.{Str}
use n2kafka.Util.Pair.{Pair}
use n2kafka.Decoder.Api.{
  DecoderErr, callback_ok, buffer_full, invalid_request, unknown_topic, unknown_partition,
  msg_too_large, http_method_not_allowed, resource_not_found, memory_error, generic_error,
}
use n2kafka.Listener.Api.{Response, no_response, Listener, listener_decode}
use n2kafka.Listener.Http.{
  ConnInfo, conn_info, Request, Mhd, HttpConfig, conn_info_has_queue_response,
  conn_info_queue_response, decoder_err2http, is_ok, send_buffered_response, send_http_ok,
  effective_body, decode_chunk, handle_http_post_chunk, handle_post_end, handle_post,
}
use n2kafka.Listener.Http.Post.{post_body, Fed, feed}

-- Every code is one that marks a queued response.
pub decoder_err2http-positive : (e : DecoderErr) → (decoder_err2http e == 0) ≡ false
unfolding decoder_err2http
decoder_err2http-positive callback_ok = refl
decoder_err2http-positive buffer_full = refl
decoder_err2http-positive invalid_request = refl
decoder_err2http-positive unknown_topic = refl
decoder_err2http-positive unknown_partition = refl
decoder_err2http-positive msg_too_large = refl
decoder_err2http-positive http_method_not_allowed = refl
decoder_err2http-positive resource_not_found = refl
decoder_err2http-positive memory_error = refl
decoder_err2http-positive generic_error = refl

abbrev pub concat : List Bytes → Bytes
concat [] = []
concat (x ∷ xs) = x ++ concat xs

abbrev pub IsChunk : Bytes → Type 0
IsChunk chunk = 0 < length chunk

-- A request whose connection is there.
abbrev pub opened : {W S Z : Type 0} → ConnInfo S Z → W → List (ℕ × Bytes) → Request W S Z
opened c w queued = record { ptr = conn_info c; world = w; queued = queued }

module _ {W S O Z : Type 0} (mhd : Mhd Z) (config : HttpConfig) (listener : Listener W S O)
    (fuel : ℕ) (url method : Bytes) (q : List (ℕ × Bytes)) where
  chunk_call :
      (c : ConnInfo S Z) (w : W) (chunk : Bytes)
      → IsChunk chunk
      → handle_post mhd config listener fuel (opened c w q) url method chunk
        ≡ handle_http_post_chunk mhd config listener fuel (opened c w q) c chunk
  unfolding handle_post
  chunk_call c w chunk some_data = rw (lt→ltb 0 (length chunk) some_data) refl

  last_call :
      (c : ConnInfo S Z) (w : W)
      → handle_post mhd config listener fuel (opened c w q) url method []
        ≡ ret (handle_post_end mhd config listener (opened c w q) c)
  unfolding handle_post
  last_call c w = refl

  queued_chunk :
      (c : ConnInfo S Z) (w : W) (chunk : Bytes)
      → conn_info_has_queue_response c ≡ true
      → handle_http_post_chunk mhd config listener fuel (opened c w q) c chunk
        ≡ ret (opened c w q, true)
  unfolding handle_http_post_chunk
  queued_chunk c w chunk queued = rw queued refl

  decoded_chunk :
      (c : ConnInfo S Z) (w : W) (chunk : Bytes) (w' : W) (c' : ConnInfo S Z) (err : DecoderErr)
      (response : Response)
      → conn_info_has_queue_response c ≡ false
      → decode_chunk mhd config listener fuel (opened c w q) c chunk ≡ ret (w', c', err, response)
      → handle_http_post_chunk mhd config listener fuel (opened c w q) c chunk
        ≡ ret (
          opened
              (if is_ok err
                then c'
                else conn_info_queue_response c' (decoder_err2http err) response)
              w'
              q,
          true,
        )
  unfolding handle_http_post_chunk
  decoded_chunk c w chunk w' c' err response idle decoded = rw (idle, decoded) refl

  -- The answer that carries the queued error.
  abbrev pub send_error : ConnInfo S Z → W → Request W S Z × Bool
  send_error c w =
      let body = effective_body mhd config listener c.error_response in
      send_buffered_response mhd config listener (opened c w q) (length body) body c.error_code

  -- Once an error is queued, the rest of the body changes nothing, whatever it is: no decoder is
  -- called, and the last call answers with the error's code and text.
  pub post_body-error :
      (chunks : List Bytes) (c : ConnInfo S Z) (w : W)
      → All IsChunk chunks
      → conn_info_has_queue_response c ≡ true
      → post_body mhd config listener fuel (opened c w q) url method chunks ≡ ret (send_error c w)
  unfolding handle_post_end
  post_body-error [] c w all queued = rw (last_call c w, queued) refl
  post_body-error (chunk ∷ chunks) c w (some_data, all) queued =
      rw (chunk_call c w chunk some_data, queued_chunk c w chunk queued)
        (post_body-error chunks c w all queued)

  -- How a request ends whose decoder was given what `fed` says: 200, or the first error's code and text.
  pub data Answered (fed : Fed W S) (r : Run (Request W S Z × Bool)) : Type 0 where
    accepted :
        (c : ConnInfo S Z)
        → fed.err ≡ callback_ok
        → c.decoder_sess ≡ fed.session
        → r ≡ ret ((send_http_ok mhd config listener (opened c fed.world q)).0, true)
        → Answered fed r
    refused :
        (c : ConnInfo S Z)
        → is_ok fed.err ≡ false
        → c.decoder_sess ≡ fed.session
        → c.error_code ≡ decoder_err2http fed.err
        → c.error_response ≡ fed.response
        → r ≡ ret (send_error c fed.world)
        → Answered fed r

  -- A decoder with sessions and a body that is not compressed: the decoder is given
  -- the chunks in order up to its first error, and the request ends as that says.
  pub post_body-streamed :
      (chunks : List Bytes) (c : ConnInfo S Z) (w : W)
      (create : W → Option O → List Pair → W × Option S × ℤ)
      → All IsChunk chunks
      → listener.decoder.new_session ≡ some create
      → c.zlib_enable ≡ false
      → conn_info_has_queue_response c ≡ false
      → Answered
          (feed listener c.decoder_params chunks w c.decoder_sess)
          (post_body mhd config listener fuel (opened c w q) url method chunks)
  unfolding handle_post_end decode_chunk
  post_body-streamed [] c w create all streams plain idle =
      accepted c refl refl (rw (last_call c w, idle, streams) refl)
  post_body-streamed (chunk ∷ chunks) c w create (some_data, all) streams plain idle =
      let reply =
        listener_decode w listener chunk c.decoder_params (some no_response) c.decoder_sess in
      let c' : ConnInfo S Z = record c { decoder_sess = reply.session } in
      let step =
        decoded_chunk c w chunk reply.world c' reply.err reply.response idle
          (rw (streams, plain) refl) in
      elim (Bool-cases (is_ok reply.err)) [
        | inl ok ↦
            rw (chunk_call c w chunk some_data, step, ok)
              (post_body-streamed chunks c' reply.world create all streams plain idle)
        | inr err ↦
            let c'' = conn_info_queue_response c' (decoder_err2http reply.err) reply.response in
            rw (chunk_call c w chunk some_data, step, err)
              (refused c'' err refl refl refl (
                post_body-error chunks c'' reply.world all
                  (rw (decoder_err2http-positive reply.err) refl)))
      ]
