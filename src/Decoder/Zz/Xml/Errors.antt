-- ===== src/Decoder/Zz/Xml/Errors.antt =====
-- src/decoder/zz_http2k/zz_http2k_parser_xml.c: the errors of expat and of yajl's generator, as the text shown to
-- the client and the decoder's return code.
use n2kafka.Prelude.{Option, some, Bytes, codes}
use n2kafka.Decoder.Api.{DecoderErr, callback_ok, invalid_request, memory_error, generic_error}

-- enum XML_Error, in the order of the switch; `other_xml_error` stands for what its default takes.
pub data XmlError : Type 0 where
  xml_none xml_no_memory : XmlError
  xml_suspended xml_aborted xml_finished xml_suspend_pe xml_invalid_argument : XmlError
  xml_syntax xml_no_elements xml_invalid_token xml_unclosed_token xml_partial_char : XmlError
  xml_tag_mismatch xml_duplicate_attribute xml_junk_after_doc_element : XmlError
  xml_param_entity_ref xml_undefined_entity xml_recursive_entity_ref xml_async_entity : XmlError
  xml_bad_char_ref xml_binary_entity_ref xml_attribute_external_entity_ref : XmlError
  xml_misplaced_xml_pi xml_unknown_encoding xml_incorrect_encoding : XmlError
  xml_unclosed_cdata_section xml_external_entity_handling xml_not_standalone : XmlError
  xml_unexpected_state xml_entity_declared_in_pe xml_feature_requires_xml_dtd : XmlError
  xml_cant_change_feature_once_parsing xml_unbound_prefix xml_undeclaring_prefix : XmlError
  xml_incomplete_pe xml_xml_decl xml_text_decl xml_publicid xml_not_suspended : XmlError
  xml_reserved_prefix_xml xml_reserved_prefix_xmlns xml_reserved_namespace_uri : XmlError
  other_xml_error : XmlError

-- yajl_gen_status; `other_gen_status` stands for what the switch's default takes.
pub data GenStatus : Type 0 where
  gen_ok keys_must_be_strings max_depth_exceeded in_error_state : GenStatus
  generation_complete invalid_number no_buf invalid_string other_gen_status : GenStatus

-- struct code_str. A NULL text is `none`.
pub record CodeStr : Type 0 where
  pub err : Option Bytes
  pub err_code : DecoderErr

expat_code : XmlError → DecoderErr
expat_code xml_none = callback_ok
expat_code xml_no_memory = memory_error
expat_code xml_suspended = generic_error
expat_code xml_aborted = generic_error
expat_code xml_finished = generic_error
expat_code xml_suspend_pe = generic_error
expat_code xml_invalid_argument = generic_error
expat_code other_xml_error = generic_error
expat_code _ = invalid_request

-- `error_string` is XML_ErrorString.
unfoldable pub expat_err2codestr : (XmlError → Option Bytes) → XmlError → CodeStr
unfolding expat_code
expat_err2codestr error_string xml_err = record {
  err = error_string xml_err;
  err_code = expat_code xml_err;
}

unfoldable pub yajl_gen_err2codestr : GenStatus → CodeStr
yajl_gen_err2codestr gen_ok = record { err = some (codes "No error"); err_code = callback_ok }
yajl_gen_err2codestr keys_must_be_strings = record {
  err = some (codes "Must generate a string here");
  err_code = generic_error;
}
yajl_gen_err2codestr max_depth_exceeded = record {
  err = some (codes "JSON max depth (%d) exceeded");
  err_code = invalid_request;
}
yajl_gen_err2codestr in_error_state = record {
  err = some (codes "Trying to generate in an error state");
  err_code = generic_error;
}
yajl_gen_err2codestr generation_complete = record {
  err = some (codes "Trying to generate over a complete JSON document");
  err_code = generic_error;
}
yajl_gen_err2codestr invalid_number = record {
  err = some (codes "Invalid double on yajl_gen");
  err_code = generic_error;
}
yajl_gen_err2codestr no_buf = record {
  err = some (codes "Trying to generate with no buffer");
  err_code = generic_error;
}
yajl_gen_err2codestr invalid_string = record {
  err = some (codes "Trying to generate an invalid utf-8 string");
  err_code = invalid_request;
}
yajl_gen_err2codestr other_gen_status = record {
  err = some (codes "Unknown error");
  err_code = generic_error;
}
