-- ===== src/Decoder/Zz/Xml/Loop.antt =====
-- The loop of process_xml_buffer: it ends, and it takes nothing more once an error is queued.
use n2kafka.Prelude.{
  ℕ, zero, suc, ◌≤◌, ◌<◌, ◌≡◌, refl, sym, ◌∙◌, ap, ◌⊎◌, inl, inr, Bool, true, false, not, ◌&&◌,
  Option, none, some, leb, ◌==◌, length, drop, length-drop, Bytes, arith, Bool-cases, Option-cases,
}
use n2kafka.Prelude.Int.{ℤ, pos, negsuc, is_positive}
use n2kafka.Prelude.Run.{Run, ret, fault, running, ◌>>=◌, >>=-eq-ret}
use n2kafka.Util.Str.{string_init, string_size}
use n2kafka.Util.MsgArray.{kafka_message_array_size, set_payload_buffer}
use n2kafka.Decoder.Api.{DecoderErr}
use n2kafka.Decoder.Zz.Xml.Session.{Yajl, TempYajl, Expat, XmlStatus, XmlSession}
use n2kafka.Decoder.Zz.Xml.Process.{
  is_status_ok, xml_parse, true_error, after_parse, parse_loop, skip_parsed, give_buffer,
  process_xml_buffer,
}

module _ {P G T : Type 0} (expat : Expat P) (yajl : Yajl G) (temp : TempYajl T) (realloc : ℕ → Bool)
    (fuel header_size msg_size new_buffer : ℕ) where
  abbrev after : Bytes → XmlSession P G T × XmlStatus → Run (XmlSession P G T × Option Bytes)
  after = after_parse expat yajl temp realloc fuel header_size msg_size new_buffer

  -- A round that goes on has an error queued, or fewer bytes left.
  Progress : Bytes → XmlSession P G T → Bytes → Type 0
  Progress buffer t rest =
      ((string_size t.http_response == 0) ≡ false) ⊎ (length rest < length buffer)

  skip_less :
      (offset : ℤ) (buffer rest : Bytes)
      → 0 < length buffer
      → is_positive offset ≡ true
      → skip_parsed expat yajl temp realloc fuel header_size msg_size new_buffer offset buffer
        ≡ some rest
      → length rest < length buffer
  skip_less (pos n) buffer rest real h e = elim (Bool-cases (leb n (length buffer))) [
    | inl fits ↦
        let same : some (drop n buffer) ≡ some rest = rw fits at e in
        let size : length (drop n buffer) ≡ length rest = cc same in
        ground (arith, size, length-drop n buffer)
    | inr out ↦ absurd (cc (rw out at e))
  ]
  skip_less (negsuc n) buffer rest real h e = absurd (cc h)

  not_going_on :
      (m : Run (XmlSession P G T)) (t : XmlSession P G T) (rest : Bytes)
      → ◌>>=◌ {B = XmlSession P G T × Option Bytes} m (λ u. ret (u, none)) ≡ ret (t, some rest)
      → ⊥
  not_going_on (ret u) t rest h = cc h
  not_going_on fault t rest h = cc h
  not_going_on running t rest h = cc h

  gone_on :
      (o : Option Bytes) (u t : XmlSession P G T) (rest : Bytes)
      → (elim o as (λ _. Run (XmlSession P G T × Option Bytes)) [
        | none ↦ fault
        | some r ↦ ret (u, some r)
      ])
        ≡ ret (t, some rest)
      → (o ≡ some rest) × (u ≡ t)
  gone_on none u t rest h = absurd (cc h)
  gone_on (some r) u t rest h = (cc h, cc h)

  after_parse-Progress :
      (buffer : Bytes) (s t : XmlSession P G T) (stat : XmlStatus) (rest : Bytes)
      → 0 < length buffer
      → after buffer (s, stat) ≡ ret (t, some rest)
      → Progress buffer t rest
  unfolding after_parse Progress
  after_parse-Progress buffer s t stat rest real h = elim (Bool-cases (is_status_ok stat)) [
    | inl ok ↦ absurd (cc (rw (after_parse, ok) at h))
    | inr bad ↦
        elim (Bool-cases
          (true_error expat yajl temp realloc fuel header_size msg_size new_buffer s stat)) [
            | inl wrong ↦ absurd (not_going_on _ t rest (rw (after_parse, bad, wrong) at h))
            | inr right ↦ elim (Bool-cases (is_positive (expat.byte_index s.expat_handler))) [
              | inl moved ↦
                  let gone = gone_on _ _ t rest (rw (after_parse, bad, right, moved) at h) in
                  inr (skip_less (expat.byte_index s.expat_handler) buffer rest real moved gone.0)
              | inr still ↦ elim (Bool-cases (string_size s.http_response == 0)) [
                | inl quiet ↦
                    absurd (not_going_on _ t rest (rw (after_parse, bad, right, still, quiet) at h))
                | inr queued ↦
                    let gone =
                      gone_on _ _ t rest (rw (after_parse, bad, right, still, queued) at h) in
                    inl (
                      sym (ap (λ (u : XmlSession P G T). string_size u.http_response == 0) gone.1)
                      ∙ queued)
              ]
            ]
          ]
  ]

  abbrev loop : ℕ → ℕ → Bytes → XmlSession P G T → Run (XmlSession P G T)
  loop = parse_loop expat yajl temp realloc fuel header_size msg_size new_buffer

  bind_same {κ} :
      {A : Type 0} {B : Type κ} (m : Run A) (f g : A → Run B)
      → ((a : A) → m ≡ ret a → f a ≡ g a)
      → (m >>= f) ≡ (m >>= g)
  bind_same (ret a) f g h = h a refl
  bind_same fault f g h = refl
  bind_same running f g h = refl

  -- With an error queued the loop returns at once.
  loop_queued :
      (rounds callbacks : ℕ) (buffer : Bytes) (s : XmlSession P G T)
      → (string_size s.http_response == 0) ≡ false
      → loop (suc rounds) callbacks buffer s ≡ ret s
  unfolding parse_loop
  loop_queued rounds callbacks buffer s h =
      let over : (not (length buffer == 0) && string_size s.http_response == 0) ≡ false =
        ground (arith, h) in
      rw (parse_loop, over) refl

  -- Two counts of rounds do the same where they do so behind every round that makes progress.
  round_same :
      (m n callbacks : ℕ) (buffer : Bytes) (s : XmlSession P G T)
      → (0 < length buffer
          → (rest : Bytes) (t : XmlSession P G T) → Progress buffer t rest
          → loop m callbacks rest t ≡ loop n callbacks rest t)
      → loop (suc m) callbacks buffer s ≡ loop (suc n) callbacks buffer s
  unfolding parse_loop
  round_same m n callbacks buffer s later =
      elim (Bool-cases (not (length buffer == 0) && string_size s.http_response == 0)) [
        | inr over ↦ rw (parse_loop, over) refl
        | inl goes_on ↦
            let real : 0 < length buffer = ground arith in
            let fed = record s { expat_handler = expat.feed s.expat_handler buffer } in
            let parsed =
              xml_parse expat yajl temp realloc fuel header_size msg_size new_buffer callbacks
                fed in
            rw (parse_loop, goes_on)
              (bind_same (parsed >>= after buffer) _ _ (λ (t, left) came. elim (Option-cases left) [
                | inl none_left ↦ rw none_left refl
                | inr (rest, some_left) ↦
                    let (made, e, e') = >>=-eq-ret parsed (after buffer) came in
                    let progress =
                      after_parse-Progress buffer made.0 t made.1 rest real (rw some_left at e') in
                    rw some_left (later real rest t progress)
              ]))
      ]

  -- A number of rounds no less than the bytes of the buffer, and one, is enough: with more, the loop does the
  -- same. Each round queues an error or leaves fewer bytes.
  pub parse_loop_enough :
      (m n callbacks : ℕ) (buffer : Bytes) (s : XmlSession P G T)
      → length buffer ≤ m
      → length buffer ≤ n
      → loop (suc m) callbacks buffer s ≡ loop (suc n) callbacks buffer s
  unfolding Progress
  parse_loop_enough zero n callbacks buffer s hm hn =
      round_same zero n callbacks buffer s (λ real. absurd (omega arith))
  parse_loop_enough (suc m) zero callbacks buffer s hm hn =
      round_same (suc m) zero callbacks buffer s (λ real. absurd (omega arith))
  parse_loop_enough (suc m) (suc n) callbacks buffer s hm hn =
      round_same (suc m) (suc n) callbacks buffer s (λ real rest t progress. elim progress [
        | inl queued ↦
            loop_queued m callbacks rest t queued ∙ sym (loop_queued n callbacks rest t queued)
        | inr less ↦ parse_loop_enough m n callbacks rest t (omega arith) (omega arith)
      ])

  -- With an error queued, process_xml_buffer gives nothing to expat: it hands the buffer over and
  -- returns the session's code.
  pub process_xml_buffer-queued :
      (rounds callbacks : ℕ) (buffer : Bytes) (s : XmlSession P G T)
      → 0 < string_size s.http_response
      → process_xml_buffer expat yajl temp realloc fuel header_size msg_size new_buffer
          (suc rounds)
          callbacks
          buffer
          s
        ≡ give_buffer expat yajl temp realloc fuel header_size msg_size new_buffer s
  unfolding process_xml_buffer
  process_xml_buffer-queued rounds callbacks buffer s h =
      rw (loop_queued rounds callbacks buffer s (ground arith)) refl

  pub Fresh : XmlSession P G T → XmlSession P G T → DecoderErr → Type 0
  Fresh s t rc =
      (t.yajl_gen_buf ≡ string_init)
      × (t.stack_pos ≡ s.stack_pos)
      × (t.last_open_map ≡ s.last_open_map)
      × (rc ≡ s.rc)

  given_lem :
      (s t u : XmlSession P G T) (rc rc' : DecoderErr)
      → Fresh s u rc'
      → ◌≡◌ {A = Run (XmlSession P G T × DecoderErr)} (ret (u, rc')) (ret (t, rc))
      → Fresh s t rc
  unfolding Fresh
  given_lem s t u rc rc' (buf, stack, start, code) e =
      let same : t ≡ u = cc e in
      let same_rc : rc ≡ rc' = cc e in
      (
        ap (λ (x : XmlSession P G T). x.yajl_gen_buf) same ∙ buf,
        ap (λ (x : XmlSession P G T). x.stack_pos) same ∙ stack,
        ap (λ (x : XmlSession P G T). x.last_open_map) same ∙ start,
        same_rc ∙ code,
      )

  give_buffer-Fresh :
      (s t : XmlSession P G T) (rc : DecoderErr)
      → give_buffer expat yajl temp realloc fuel header_size msg_size new_buffer s ≡ ret (t, rc)
      → Fresh s t rc
  unfolding give_buffer Fresh
  give_buffer-Fresh s t rc h = elim (Bool-cases (kafka_message_array_size s.kafka_msgs == 0)) [
    | inl empty ↦
        given_lem s t (record s { yajl_gen_buf = string_init }) rc s.rc (refl, refl, refl, refl)
          (rw (give_buffer, empty) at h)
    | inr some_messages ↦
        let (kafka_msgs, e, e') =
          >>=-eq-ret (set_payload_buffer s.kafka_msgs (some new_buffer) true) _
            (rw (give_buffer, some_messages) at h) in
        given_lem s t (record s { yajl_gen_buf = string_init; kafka_msgs = kafka_msgs }) rc s.rc
          (refl, refl, refl, refl) e'
  ]

  -- Where process_xml_buffer returns, its loop has returned, and the session that it leaves has an empty
  -- buffer, while the stack of open elements and the offset of the open object are what the loop left.
  pub process_xml_buffer-Fresh :
      (rounds callbacks : ℕ) (buffer : Bytes) (s t : XmlSession P G T) (rc : DecoderErr)
      → process_xml_buffer expat yajl temp realloc fuel header_size msg_size new_buffer rounds
          callbacks buffer s
        ≡ ret (t, rc)
      → (u : XmlSession P G T) × (loop rounds callbacks buffer s ≡ ret u) × Fresh u t rc
  unfolding process_xml_buffer
  process_xml_buffer-Fresh rounds callbacks buffer s t rc h =
      let (u, e, e') =
        >>=-eq-ret (loop rounds callbacks buffer s)
          (give_buffer expat yajl temp realloc fuel header_size msg_size new_buffer) h in
      (u, e, give_buffer-Fresh u t rc e')
