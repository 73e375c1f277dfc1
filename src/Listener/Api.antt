-- ===== src/Listener/Api.antt =====
-- src/listener/listener_api.c, listener_api.h and src/decoder/decoder_api.h: a decoder's table of functions,
-- and the listener that holds one.
--
-- `W` is what the decoders change beyond their sessions, `S` a session and `O` a listener's opaque. A
-- NULL function is `none`.
use n2kafka.Prelude.{ℕ, Option, none, some, List, Bytes}
use n2kafka.Prelude.Int.{ℤ, pos}
use n2kafka.Util.Pair.{Pair}
use n2kafka.Decoder.Api.{DecoderErr}

-- What `response` and `response_size` point to.
pub record Response : Type 0 where
  pub str : Option Bytes
  pub size : ℕ

abbrev pub no_response : Response
no_response = record { str = none; size = 0 }

-- What a call of the decoder leaves.
pub record Reply (W S : Type 0) : Type 0 where
  pub world : W
  pub session : Option S
  pub err : DecoderErr
  pub response : Response

-- n2k_decoder. A callback is taken to return; dumb_decode, which writes through its response pointers where they are
-- NULL, is modelled on its own.
pub record Decoder (W S O : Type 0) : Type 0 where
  pub callback : W → Bytes → List Pair → Option O → Option Response → Option S → Reply W S
  pub opaque_creator : Option (W → Bytes → W × Option O × ℤ)
  pub opaque_reload : Option (W → Bytes → Option O → W × ℤ)
  pub opaque_destructor : Option (W → Option O → W)
  pub new_session : Option (W → Option O → List Pair → W × Option S × ℤ)
  pub delete_session : Option (W → Option S → W)

-- struct listener
pub record Listener (W S O : Type 0) : Type 0 where
  pub decoder : Decoder W S O
  pub decoder_opaque : Option O
  pub port : ℕ

module _ {W S O : Type 0} where
  abbrev pub listener_init : W → ℕ → Decoder W S O → Bytes → W × Listener W S O × ℤ
  listener_init w port decoder decoder_conf = elim decoder.opaque_creator [
    | none ↦ (w, record { decoder = decoder; decoder_opaque = none; port = port }, pos 0)
    | some create ↦
        let (w', opaque, opaque_creator_rc) = create w decoder_conf in
        (w', record { decoder = decoder; decoder_opaque = opaque; port = port }, opaque_creator_rc)
  ]

  abbrev pub listener_reload : W → Listener W S O → Bytes → W × ℤ
  listener_reload w this new_config = elim this.decoder.opaque_reload [
    | none ↦ (w, pos 0)
    | some reload ↦ reload w new_config this.decoder_opaque
  ]

  abbrev pub listener_join : W → Listener W S O → W
  listener_join w this = elim this.decoder.opaque_destructor [
    | none ↦ w
    | some destroy ↦ destroy w this.decoder_opaque
  ]

  -- listener_decode
  abbrev pub listener_decode :
      W → Listener W S O → Bytes → List Pair → Option Response → Option S → Reply W S
  listener_decode w this buffer params response session =
      this.decoder.callback w buffer params this.decoder_opaque response session
