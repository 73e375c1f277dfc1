-- ===== src/Decoder/Zz/Json/Tests.antt =====
-- A body of two objects whose first is cut by the end of a chunk, and the theorem at it.
use n2kafka.Prelude.{◌≡◌, refl, [], ◌∷◌, arith, codes}
use n2kafka.Decoder.Zz.Json.Spec.{split_from}
use n2kafka.Decoder.Zz.Json.Whole.{
  body, callbacks, process_parts, Delivered, process_parts-Delivered,
}
use n2kafka.Decoder.Zz.Json.Sample.{
  new_session, nothing_read, new_session-Between, two_parts, parts_env, parts_env-Provides,
}

process_parts-Delivered_example :
    Delivered
      (process_parts parts_env two_parts new_session)
      (split_from (body two_parts) 0 (callbacks two_parts) nothing_read)
process_parts-Delivered_example =
    process_parts-Delivered parts_env parts_env-Provides two_parts new_session nothing_read
      (
        omega arith,
        refl,
        (omega arith, omega arith, omega arith),
        omega arith,
        omega arith,
        omega arith,
        (
          omega arith,
          refl,
          (
            omega arith,
            omega arith,
            omega arith,
            (omega arith, omega arith, (omega arith, omega arith, omega arith, omega arith)),
          ),
          omega arith,
          omega arith,
          omega arith,
          tt,
        ),
      )
      new_session-Between refl refl

two_objects :
    (split_from (body two_parts) 0 (callbacks two_parts) nothing_read).out
    ≡ codes "{ }" ∷ codes "{}" ∷ []
two_objects = refl
