-- ===== src/Decoder/Zz/Xml/Message.antt =====
-- The invariant of an XML session between two documents, and what a document adds to it.
use n2kafka.Prelude.{
  ℕ, ◌+◌, ◌-◌, ◌*◌, ◌≤◌, ◌<◌, ◌≡◌, refl, ◌∙◌, ap, Bool, true, false, Option, List, [], ◌∷◌, ◌++◌,
  length, Bytes, arith,
}
use mathlib.Core.Path.{subst}
use n2kafka.Prelude.Int.{ℤ, pos}
use n2kafka.Prelude.Run.{ret}
use n2kafka.Util.Str.{string_size, string_min_size}
use n2kafka.Util.Str.Pow2.{max_size}
use n2kafka.Util.Str.Grow.{IsWf}
use n2kafka.Util.Str.Printf.{Grants}
use n2kafka.Util.MsgArray.{MsgArray, Msg, no_error, kafka_msg_array_add}
use n2kafka.Util.MsgArray.Add.{IsPacked, Added, added, unchanged, kafka_msg_array_add-Added}
use n2kafka.Decoder.Zz.Xml.Session.{Yajl, TempYajl, Expat, XmlSession}
use n2kafka.Decoder.Zz.Xml.Handlers.{handle_all, no_json_last_open_map}
use n2kafka.Decoder.Zz.Xml.Tree.{
  Elements, no_elements, element, events, emit, values_of, element_json,
}
use n2kafka.Decoder.Zz.Xml.Pen.{Pen, play, put}
use n2kafka.Decoder.Zz.Xml.Document.{height}
use n2kafka.Decoder.Zz.Xml.Output.{speak, Extends-size, play-Extends, play-gen}
use n2kafka.Decoder.Zz.Xml.Root.{object_msg, closed, document_lem}

-- No error is queued, no element is open, and the queue holds the messages `ms`.
pub record Between {P G T : Type 0} (header_size msg_size : ℕ) (s : XmlSession P G T)
    (ms : List Msg) : Type 0 where
  pub quiet : string_size s.http_response ≡ 0
  pub outside : s.stack_pos ≡ 0
  pub bits : length s.stack_boolean_info ≡ 32
  pub buffer : IsWf s.yajl_gen_buf
  pub queue : IsPacked header_size msg_size s.kafka_msgs ms

-- What a document whose calls leave the generator at `gen` comes to: its JSON text behind the buffer, one message
-- with the text's place, the invariant, no map left open, the generator reset, and expat told to stop.
pub record Delivered {P G T : Type 0} (expat : Expat P) (yajl : Yajl G) (header_size msg_size : ℕ)
    (s : XmlSession P G T) (ms : List Msg) (json : Bytes) (gen : G) (t : XmlSession P G T)
    : Type 0 where
  pub text : t.yajl_gen_buf.bytes ≡ s.yajl_gen_buf.bytes ++ json
  pub between : Between header_size msg_size t (
      ms
      ++ record {
        payload = string_size s.yajl_gen_buf;
        len = length json;
        err = no_error;
        private = false;
      }
        ∷ [])
  pub generator : t.yajl_gen ≡ yajl.reset gen
  pub open_map : t.last_open_map ≡ no_json_last_open_map
  pub stopped : t.expat_handler ≡ expat.stop s.expat_handler
  pub no_reply : t.http_response ≡ s.http_response

module _ {P G T : Type 0} (expat : Expat P) (yajl : Yajl G) (temp : TempYajl T) (realloc : ℕ → Bool)
    (fuel header_size msg_size : ℕ) (grants : Grants realloc) (real_header : 0 < header_size)
    (real_msg : 0 < msg_size) (small : header_size + msg_size ≤ string_min_size) where
  add_granted :
      (a : MsgArray) (ms : List Msg) (m : Msg) (r : MsgArray × ℤ)
      → Added header_size msg_size realloc a ms m r
      → (r.1 ≡ pos 0) × IsPacked header_size msg_size r.0 (ms ++ m ∷ [])
  add_granted a ms m r (added e packed) = (e, packed)
  add_granted a ms m r (unchanged e n refused) = absurd (cc (grants n))

  -- For a session between two documents, an XML document with at most 126 levels below its root, whose text
  -- stands before the children, realloc granting what is asked, and a generator that accepts the calls for
  -- the document's JSON object and prints some text for them that fits: the handlers on all its events
  -- return, the object's text is in the buffer, one message with its place is queued behind the others, no
  -- element and no map is open, the generator is reset with yajl_gen_reset, and expat is told to stop.
  pub document-Delivered :
      (s : XmlSession P G T) (ms : List Msg) (name : Bytes) (attr : List (Bytes × Bytes))
      (text : Option Bytes) (children : Elements)
      → Between header_size msg_size s ms
      → height children < 127
      → let json =
          speak yajl s.yajl_gen (emit (element_json name attr text (values_of children))) in
        json.accepted ≡ true
        → 0 < length json.text
        → string_size s.yajl_gen_buf + length json.text ≤ max_size
        → header_size + (length ms + 1) * msg_size ≤ max_size
        → (t : XmlSession P G T) × (handle_all expat yajl temp realloc fuel header_size msg_size s
              (events (element name attr text children no_elements))
            ≡ ret t)
          × Delivered expat yajl header_size msg_size s ms json.text json.gen t
  document-Delivered s ms name attr text children between low ok printed fits room =
      let calls = emit (element_json name attr text (values_of children)) in
      let json = speak yajl s.yajl_gen calls in
      let pen : Pen G = record { gen = s.yajl_gen; buf = s.yajl_gen_buf; fine = true } in
      let done = play yajl realloc pen calls in
      let (fine, e) =
        play-Extends realloc grants yajl s.yajl_gen s.yajl_gen_buf calls between.buffer ok fits in
      let size = Extends-size s.yajl_gen_buf done.buf json.text e in
      let message =
        object_msg expat yajl temp realloc fuel header_size msg_size s between.quiet
          (string_size s.yajl_gen_buf) (string_size done.buf) in
      let (good, queue) =
        add_granted s.kafka_msgs ms message
          (kafka_msg_array_add realloc header_size msg_size s.kafka_msgs message)
          (kafka_msg_array_add-Added realloc header_size msg_size real_header real_msg small
            s.kafka_msgs ms message between.queue room) in
      let (w, big, ran) =
        document_lem expat yajl temp realloc fuel header_size msg_size s between.quiet pen
          s.stack_boolean_info name attr text children between.bits low fine (omega (arith, size))
          good in
      let message_lem : message ≡ record {
        payload = string_size s.yajl_gen_buf;
        len = length json.text;
        err = no_error;
        private = false;
      } =
        ap
          (λ (n : ℕ).
            object_msg expat yajl temp realloc fuel header_size msg_size s between.quiet
              (string_size s.yajl_gen_buf) n)
          size
        ∙ (let len : string_size s.yajl_gen_buf + length json.text - string_size s.yajl_gen_buf
                ≡ length json.text =
              omega arith in
            rw len refl) in
      (
        closed expat yajl temp realloc fuel header_size msg_size s between.quiet
            (string_size s.yajl_gen_buf) done w,
        ap
              (λ (p : ℕ).
                handle_all expat yajl temp realloc fuel header_size msg_size
                  (put s pen p s.stack_boolean_info)
                  (events (element name attr text children no_elements)))
              between.outside
            ∙ ran,
        record {
          text = e.bytes;
          between = record {
            quiet = between.quiet;
            outside = refl;
            bits = big;
            buffer = e.wf;
            queue =
                subst
                  (λ (m : Msg).
                    IsPacked header_size msg_size
                      (kafka_msg_array_add realloc header_size msg_size s.kafka_msgs message).0
                      (ms ++ m ∷ []))
                  message_lem queue;
          };
          generator = ap yajl.reset (play-gen realloc grants yajl pen calls);
          open_map = refl;
          stopped = refl;
          no_reply = refl;
        },
      )
