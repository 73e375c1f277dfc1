-- ===== src/Decoder/Api.antt =====
-- src/decoder/decoder_api.h: the return codes of a decoder's callback.
pub data DecoderErr : Type 0 where
  callback_ok buffer_full invalid_request unknown_topic unknown_partition msg_too_large : DecoderErr
  http_method_not_allowed resource_not_found memory_error generic_error : DecoderErr
