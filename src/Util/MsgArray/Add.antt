-- ===== src/Util/MsgArray/Add.antt =====
-- kafka_msg_array_add: the layout of the buffer, one header and then the messages.
use mathlib.Core.Path.{subst}
use mathlib.Core.List.{map-append}
use n2kafka.Prelude.{
  ℕ, zero, suc, ◌+◌, ◌*◌, ◌≤◌, ◌<◌, ◌≡◌, refl, ap, sym, Bool, false, not, List, [], ◌∷◌, ◌++◌, map,
  length, length-append, arith, ◌==◌, none, if◌then◌else◌, Bytes,
}
use n2kafka.Prelude.Int.{ℤ, pos, minus_one, is_zero}
use n2kafka.Util.Str.{Str, string_init, string_size, string_append, string_min_size}
use n2kafka.Util.Str.Pow2.{max_size}
use n2kafka.Util.Str.Grow.{
  IsWf, IsWf-init, Appended, appended, not_appended, string_append-Appended, string_append_small,
  string_append_small-IsWf,
}
use n2kafka.Util.MsgArray.{
  Msg, Item, header, message, MsgArray, zeros, msg_array_init, fresh_internal, increment,
  store_message, add_message, kafka_msg_array_add, kafka_message_array_size,
}

pub length-zeros : (n : ℕ) → length (zeros n) ≡ n
length-zeros zero = refl
length-zeros (suc n) = omega (arith, length-zeros n)

-- The header, whose count is the number of messages, and the messages in the order of their adding.
abbrev pub packed : List Msg → List Item
packed ms = header (record { payload_buffer = none; count = length ms }) ∷ map message ms

module _ (header_size msg_size : ℕ) where
  -- An empty array, or a header and the messages `ms`, at their sizes.
  pub data IsPacked (a : MsgArray) (ms : List Msg) : Type 0 where
    empty : a ≡ msg_array_init → ms ≡ [] → IsPacked a ms
    filled :
        a.items ≡ packed ms
        → 0 < length ms
        → string_size a.str ≡ header_size + length ms * msg_size
        → IsWf a.str
        → IsPacked a ms

  -- What adding `m` may come to: the message behind the others, or -1 and no change, and then
  -- realloc has refused something.
  pub data Added (realloc : ℕ → Bool) (a : MsgArray) (ms : List Msg) (m : Msg) (r : MsgArray × ℤ)
      : Type 0 where
    added : r.1 ≡ pos 0 → IsPacked r.0 (ms ++ m ∷ []) → Added realloc a ms m r
    unchanged : r ≡ (a, minus_one) → (n : ℕ) → realloc n ≡ false → Added realloc a ms m r

packed-add :
    (ms : List Msg) (m : Msg) → increment (packed ms ++ message m ∷ []) ≡ packed (ms ++ m ∷ [])
packed-add ms m = simp (map-append, length-append)

module _ (realloc : ℕ → Bool) (header_size msg_size : ℕ) where
  store-Added :
      (a : MsgArray) (ms : List Msg) (m : Msg) (r : Str × ℤ)
      → a.items ≡ packed ms
      → string_size a.str ≡ header_size + length ms * msg_size
      → Appended realloc a.str (zeros msg_size) r
      → Added header_size msg_size realloc a ms m (store_message a m r)
  unfolding store_message
  store-Added a ms m (str, rc) items size (appended ok bytes wf) =
      let room : string_size str ≡ string_size a.str + msg_size = omega (
        arith,
        ap (λ (b : Bytes). length b) bytes,
        length-append a.str.bytes (zeros msg_size),
        length-zeros msg_size,
      ) in
      let longer = length-append ms (m ∷ []) in
      rw ok (
        added refl (
          filled (rw items (packed-add ms m)) (omega (arith, longer))
            (rw longer (omega (arith, room, size))) wf))
  store-Added a ms m r items size (not_appended e n refused le) =
      subst (λ x. Added header_size msg_size realloc a ms m (store_message a m x)) (sym e)
        (unchanged refl n refused)

module _ (realloc : ℕ → Bool) (header_size msg_size : ℕ) (positive : 0 < header_size)
    (some_msg : 0 < msg_size) (first_fits : header_size + msg_size ≤ string_min_size) where
  first-Added :
      (m : Msg)
      → Added header_size msg_size realloc msg_array_init [] m
          (kafka_msg_array_add realloc header_size msg_size msg_array_init m)
  unfolding kafka_msg_array_add kafka_message_array_size add_message store_message
  first-Added m = go (string_append realloc string_init (zeros header_size)) first
    where
      first :
          Appended realloc string_init
            (zeros header_size)
            (string_append realloc string_init (zeros header_size))
      first =
          string_append-Appended realloc string_init (zeros header_size) IsWf-init
            (omega (arith, length-zeros header_size))

      go :
          (r : Str × ℤ)
          → Appended realloc string_init (zeros header_size) r
          → Added header_size msg_size realloc msg_array_init [] m (
              if not (is_zero r.1)
              then (record { str = r.0; items = [] }, r.1)
              else add_message realloc header_size msg_size
                  (record { str = r.0; items = header fresh_internal ∷ [] })
                  m)
      go (str, rc) (appended ok bytes wf) =
          let size : string_size str ≡ header_size =
            omega (arith, ap (λ (b : Bytes). length b) bytes, length-zeros header_size) in
          let created : MsgArray = record { str = str; items = header fresh_internal ∷ [] } in
          let stored : string_append realloc str (zeros msg_size)
              ≡ (record str { bytes = str.bytes ++ zeros msg_size }, pos 0) =
            string_append_small realloc str (zeros msg_size) (omega (arith, wf.fits)) (omega arith)
              (omega (arith, length-zeros msg_size)) in
          let fits : string_size str + length (zeros msg_size) ≤ string_min_size =
            omega (arith, length-zeros msg_size) in
          rw (ok, stored)
            (added refl (
              filled refl (omega arith)
                (omega (arith, length-append str.bytes (zeros msg_size), length-zeros msg_size))
                (string_append_small-IsWf str (zeros msg_size) wf (omega (arith, wf.fits)) fits)))
      go r (not_appended e n refused le) =
          rw (ap (λ (x : Str × ℤ). x.0) e, ap (λ (x : Str × ℤ). x.1) e) (unchanged refl n refused)

  -- Adding to an empty array or to a header and messages returns 0 and gives the header and the
  -- messages with `m` behind them, or returns -1 and changes nothing, and then realloc has refused.
  pub kafka_msg_array_add-Added :
      (a : MsgArray) (ms : List Msg) (m : Msg)
      → IsPacked header_size msg_size a ms
      → header_size + (length ms + 1) * msg_size ≤ max_size
      → Added header_size msg_size realloc a ms m
          (kafka_msg_array_add realloc header_size msg_size a m)
  kafka_msg_array_add-Added a ms m (empty e e') hi = rw (e, e') (first-Added m)
  kafka_msg_array_add-Added a ms m (filled items some_ms size wf) hi =
      let more : (kafka_message_array_size a == 0) ≡ false =
        unfold kafka_message_array_size in rw items (ground (arith, size)) in
      unfold kafka_msg_array_add add_message in
      rw more (
        store-Added realloc header_size msg_size a ms m _ items size (
          string_append-Appended realloc a.str (zeros msg_size) wf
            (omega (arith, size, length-zeros msg_size))))
