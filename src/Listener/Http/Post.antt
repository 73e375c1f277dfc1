-- ===== src/Listener/Http/Post.antt =====
-- A POST request as a whole: its chunks one after the other, then the call without data.
pub mod Body
pub mod Inflate
use n2kafka.Prelude.{ℕ, Bool, Option, none, some, List, [], ◌∷◌, ◌++◌, Bytes, if◌then◌else◌}
use n2kafka.Prelude.Run.{Run, ret, ◌>>=◌}
use n2kafka.Util.Pair.{Pair}
use n2kafka.Decoder.Api.{DecoderErr, callback_ok}
use n2kafka.Listener.Api.{Response, no_response, Listener, listener_decode}
use n2kafka.Listener.Http.{Request, Mhd, HttpConfig, is_ok, handle_post}

module _ {W S O Z : Type 0} (mhd : Mhd Z) (config : HttpConfig) (listener : Listener W S O) where
  -- The calls for the chunks of a body, and the last one.
  abbrev pub post_body : ℕ → Request W S Z → Bytes → Bytes → List Bytes → Run (Request W S Z × Bool)
  post_body fuel r url method [] = handle_post mhd config listener fuel r url method []
  post_body fuel r url method (chunk ∷ chunks) = do
    called ← handle_post mhd config listener fuel r url method chunk
    post_body fuel called.0 url method chunks

-- Where a decoder that is given pieces in order has come to: at its first error it is given no more.
pub record Fed (W S : Type 0) : Type 0 where
  pub world : W
  pub session : Option S
  pub err : DecoderErr
  pub response : Response

-- The pieces in order, each with a fresh response.
abbrev pub feed :
    {W S O : Type 0} → Listener W S O → List Pair → List Bytes → W → Option S → Fed W S
feed listener params [] w session = record {
  world = w;
  session = session;
  err = callback_ok;
  response = no_response;
}
feed listener params (piece ∷ pieces) w session =
    let reply = listener_decode w listener piece params (some no_response) session in
    let rest = feed listener params pieces reply.world reply.session in
    if is_ok reply.err then rest else record {
      world = reply.world;
      session = reply.session;
      err = reply.err;
      response = reply.response;
    }
