-- ===== src/Listener/Http/Post/Inflate.antt =====
-- Compressed chunks: the decoder is given what inflate makes of them.
use n2kafka.Prelude.{
  ℕ, suc, ◌<◌, ◌≡◌, refl, true, Option, none, some, List, [], ◌∷◌, length, Bytes, ◌⊎◌,
}
use n2kafka.Prelude.Run.{Run, ret}
use n2kafka.Util.Pair.{Pair}
use n2kafka.Decoder.Api.{DecoderErr, callback_ok}
use n2kafka.Listener.Api.{Response, Listener, listener_decode}
use n2kafka.Listener.Http.{
  ConnInfo, Mhd, HttpConfig, zlib_chunk, zlib_error, zlib_deflate_error2str, is_ok, inflate_loop,
}

module _ {W S O Z : Type 0} (mhd : Mhd Z) (config : HttpConfig) (listener : Listener W S O) where
  -- The pieces that inflate makes of an input, each but the last a full buffer, and its last state.
  abbrev pub Inflates : Z → Bytes → List Bytes → Z → Type 0
  Inflates z input [] z' =
      let step = mhd.inflate z input (mhd.malloc zlib_chunk) zlib_chunk in
      (zlib_error step.1 ≡ none) × (length step.3 ≡ 0) × (step.0 ≡ z')
  Inflates z input (output ∷ pieces) z' =
      let step = mhd.inflate z input (mhd.malloc zlib_chunk) zlib_chunk in
      (zlib_error step.1 ≡ none)
      × (step.3 ≡ output)
      × (0 < length output)
      × (((length output < zlib_chunk) × (pieces ≡ []) × (step.0 ≡ z'))
          ⊎ ((length output ≡ zlib_chunk) × Inflates step.0 step.2 pieces z'))

  -- The calls of a decoder that accepts every piece; the response is passed on from call to call.
  abbrev pub Accepts : List Pair → W → Option S → Response → List Bytes → W → Option S → Type 0
  Accepts params w s response [] w' s' = (w ≡ w') × (s ≡ s')
  Accepts params w s response (piece ∷ pieces) w' s' =
      let reply = listener_decode w listener piece params (some response) s in
      (is_ok reply.err ≡ true)
      × Accepts params reply.world reply.session reply.response pieces w' s'

  -- The state after a chunk.
  pub record Inflated (r : Run (W × ConnInfo S Z × DecoderErr × Response)) (c : ConnInfo S Z)
      (z' : Z) (w' : W) (s' : Option S) : Type 0 where
    pub response : Response
    pub returns : r ≡ ret (w', record c { strm = z'; decoder_sess = s' }, callback_ok, response)

  -- When inflate stops with an error before any output, the decoder is not called at all: a broken
  -- stream or a missing dictionary is the client's error, any other status a generic one. Z_BUF_ERROR is among
  -- the others, so a second round that has nothing left to do fails the request.
  pub inflate_loop-failed :
      (fuel : ℕ) (w : W) (c : ConnInfo S Z) (input : Bytes) (response : Response) (err : DecoderErr)
      → zlib_error (mhd.inflate c.strm input (mhd.malloc zlib_chunk) zlib_chunk).1 ≡ some err
      → (r : ConnInfo S Z) × (text : Bytes) × (inflate_loop mhd config listener
            (suc fuel)
            w
            c
            input
            response
          ≡ ret (w, r, err, record response { str = some text }))
        × (r.decoder_sess ≡ c.decoder_sess)
  unfolding inflate_loop
  inflate_loop-failed fuel w c input response err failed = (
    record c { strm = (mhd.inflate c.strm input (mhd.malloc zlib_chunk) zlib_chunk).0 },
    zlib_deflate_error2str (mhd.inflate c.strm input (mhd.malloc zlib_chunk) zlib_chunk).1,
    rw (inflate_loop, failed) refl,
    refl,
  )
