-- ===== src/Decoder/Zz/Xml/Pen.antt =====
-- The generator and the buffer that its print callback fills, while nothing fails.
use n2kafka.Prelude.{
  ℕ, ◌≡◌, refl, ◌∙◌, Bool, true, false, ◌&&◌, none, List, [], ◌∷◌, ◌++◌, Bytes, arith,
}
use n2kafka.Prelude.Int.{is_zero}
use n2kafka.Prelude.Run.{ret}
use n2kafka.Util.Str.{Str, string_append}
use n2kafka.Decoder.Zz.Xml.Session.{
  Call, Yajl, TempYajl, Expat, XmlSession, print_all, yajl_print_callback,
}
use n2kafka.Decoder.Zz.Xml.Handlers.{is_gen_ok, generate, gen_or_goto_err}

pub record Pen (G : Type 0) : Type 0 where
  pub gen : G
  pub buf : Str
  pub fine : Bool

abbrev pub calls_only : List (Bytes × Call) → List Call
calls_only [] = []
calls_only ((err_str, c) ∷ calls) = c ∷ calls_only calls

choose_true {ℓ} :
    {A : Type ℓ} (b : Bool) (x y : A) → b ≡ true → (elim b [ true ↦ x | false ↦ y ]) ≡ x
choose_true b x y h = rw h refl

module _ (realloc : ℕ → Bool) where
  -- The print callback's appends.
  unfoldable pub write : Str → Bool → List Bytes → Str × Bool
  write buf fine [] = (buf, fine)
  write buf fine (str ∷ strs) =
      let (buf', rc) = string_append realloc buf str in write buf' (fine && is_zero rc) strs

  write_fine : (buf : Str) (b : Bool) (strs : List Bytes) → (write buf b strs).1 ≡ true → b ≡ true
  unfolding write
  write_fine buf b [] h = h
  write_fine buf b (str ∷ strs) h = ground (
    arith,
    write_fine (string_append realloc buf str).0 (b && is_zero (string_append realloc buf str).1)
        strs h,
  )

module _ {G : Type 0} (yajl : Yajl G) (realloc : ℕ → Bool) where
  unfoldable pub play_one : Pen G → Call → Pen G
  unfolding write
  play_one pen c =
      let (gen, status, strs) = yajl.call pen.gen c in
      let (buf, fine) = write realloc pen.buf (pen.fine && is_gen_ok status) strs in
      record { gen = gen; buf = buf; fine = fine }

  unfoldable pub play : Pen G → List Call → Pen G
  unfolding play_one
  play pen [] = pen
  play pen (c ∷ cs) = play (play_one pen c) cs

  pub play-append : (pen : Pen G) (cs ds : List Call) → play pen (cs ++ ds) ≡ play (play pen cs) ds
  unfolding play
  play-append pen [] ds = refl
  play-append pen (c ∷ cs) ds = play-append (play_one pen c) cs ds

  play_one_fine :
      (pen : Pen G) (c : Call)
      → (play_one pen c).fine ≡ true
      → (pen.fine ≡ true) × (is_gen_ok (yajl.call pen.gen c).1 ≡ true)
  unfolding play_one
  play_one_fine pen c h = ground (
    arith,
    write_fine realloc pen.buf (pen.fine && is_gen_ok (yajl.call pen.gen c).1)
        (yajl.call pen.gen c).2 h,
  )

  pub play_fine : (pen : Pen G) (cs : List Call) → (play pen cs).fine ≡ true → pen.fine ≡ true
  unfolding play
  play_fine pen [] h = h
  play_fine pen (c ∷ cs) h = (play_one_fine pen c (play_fine (play_one pen c) cs h)).0

module _ {P G T : Type 0} where
  -- The session with another pen and another stack.
  abbrev pub put : XmlSession P G T → Pen G → ℕ → List ℕ → XmlSession P G T
  put s pen stack_pos bits = record s {
    yajl_gen_buf = pen.buf;
    yajl_gen = pen.gen;
    stack_pos = stack_pos;
    stack_boolean_info = bits;
  }

module _ {P G T : Type 0} (expat : Expat P) (realloc : ℕ → Bool) (fuel : ℕ) where
  pub print_write :
      (s : XmlSession P G T) (fine : Bool) (strs : List Bytes)
      → (write realloc s.yajl_gen_buf fine strs).1 ≡ true
      → print_all expat realloc fuel s strs
        ≡ ret (record s { yajl_gen_buf = (write realloc s.yajl_gen_buf fine strs).0 })
  unfolding print_all write yajl_print_callback
  print_write s fine [] h = refl
  print_write s fine (str ∷ strs) h =
      let r = string_append realloc s.yajl_gen_buf str in
      let good : is_zero r.1 ≡ true =
        ground (arith, write_fine realloc r.0 (fine && is_zero r.1) strs h) in
      let rest = print_write (record s { yajl_gen_buf = r.0 }) (fine && is_zero r.1) strs h in
      rw good rest

module _ {P G T : Type 0} (expat : Expat P) (yajl : Yajl G) (temp : TempYajl T) (realloc : ℕ → Bool)
    (fuel header_size msg_size : ℕ) where
  generate_pen :
      (s : XmlSession P G T) (pen : Pen G) (p : ℕ) (bits : List ℕ) (c : Call)
      → (play_one yajl realloc pen c).fine ≡ true
      → generate expat yajl temp realloc fuel header_size msg_size (put s pen p bits) c
        ≡ ret (put s (play_one yajl realloc pen c) p bits, (yajl.call pen.gen c).1)
  unfolding generate play_one
  generate_pen s pen p bits c h =
      let (gen, status, strs) = yajl.call pen.gen c in
      rw
        (print_write expat realloc fuel (put s (record pen { gen = gen }) p bits)
          (pen.fine && is_gen_ok status) strs h)
        refl

  -- While the pen writes, a run of generator calls goes through and leaves what the pen leaves.
  pub gen_or_goto_err-pen :
      (s : XmlSession P G T) (pen : Pen G) (p : ℕ) (bits : List ℕ) (calls : List (Bytes × Call))
      → (play yajl realloc pen (calls_only calls)).fine ≡ true
      → gen_or_goto_err expat yajl temp realloc fuel header_size msg_size (put s pen p bits) calls
        ≡ ret (put s (play yajl realloc pen (calls_only calls)) p bits, none)
  unfolding gen_or_goto_err play
  gen_or_goto_err-pen s pen p bits [] h = refl
  gen_or_goto_err-pen s pen p bits ((err_str, c) ∷ calls) h =
      let next = play_one yajl realloc pen c in
      let wrote = play_fine yajl realloc next (calls_only calls) h in
      let good = (play_one_fine yajl realloc pen c wrote).1 in
      rw (generate_pen s pen p bits c wrote)
        (choose_true _ _ _ good ∙ gen_or_goto_err-pen s next p bits calls h)
