-- ===== src/Listener/Http/Config/Layout.antt =====
-- How start_http_loop lays the files out in tls_data: in the order of the table, each followed by a NUL, with
-- no gap and nothing behind the last.
use native.Mathlib.Numerals.{unary_clauses}
use native.Mathlib.Nat.{zero-add, zero-sub, suc-add}
use n2kafka.Prelude.{
  ℕ, zero, suc, ◌+◌, ◌-◌, ◌≤◌, ◌≡◌, refl, ap, sym, ◌∙◌, ◌⊎◌, inl, inr, true, false, Option, none,
  some, List, [], ◌∷◌, ◌++◌, append_assoc, append-nil, ltb, leb, length, drop, length-append,
  length-take, take-append, drop-append, Bytes, arith, All, Bool-cases, Option-cases,
}
use n2kafka.Prelude.Run.{ret}
use n2kafka.Util.File.{Stream}
use n2kafka.Util.MsgArray.{zeros}
use n2kafka.Util.MsgArray.Add.{length-zeros}
use n2kafka.Listener.Http.Auth.{http_auth_extract_data}
use n2kafka.Listener.Http.Auth.Laws.{weight, http_auth_extract_data-le}
use n2kafka.Listener.Http.Config.Secrets.{
  SecretKind, key_file, cert_file, client_ca_trust, htpasswd, SecretFile, entries_image,
  htpasswd_fread, file_read_callback, write, Image, read_secret, read_secrets, tls_files_size,
  count_open,
}

length-entries_image : (entries : List Bytes) → length (entries_image entries) ≡ weight entries
length-entries_image [] = refl
length-entries_image (e ∷ es) =
    omega (arith, length-append e (0 ∷ entries_image es), length-entries_image es)

-- No callback writes more than the size that it is given.
read_callback-le :
    (kind : SecretKind) (n : ℕ) (stream : Stream) → length (file_read_callback kind n stream).0 ≤ n
unfolding file_read_callback htpasswd_fread
read_callback-le key_file n stream = omega (arith, length-take n stream.content)
read_callback-le cert_file n stream = omega (arith, length-take n stream.content)
read_callback-le client_ca_trust n stream = omega (arith, length-take n stream.content)
read_callback-le htpasswd n stream = omega (
  arith,
  length-entries_image (http_auth_extract_data n stream).0,
  http_auth_extract_data-le n stream,
)

zeros-add : (m n : ℕ) → zeros (m + n) ≡ zeros m ++ zeros n
zeros-add zero n = simp zero-add
zeros-add (suc m) n = simp (suc-add, zeros-add m n)

drop-zeros : (m n : ℕ) → drop m (zeros n) ≡ zeros (n - m)
drop-zeros zero n = simp unary_clauses
drop-zeros (suc m) zero = simp zero-sub
drop-zeros (suc m) (suc n) = simp unary_clauses (drop-zeros m n)

-- A write at the end of what is filled leaves the rest zero.
write-front :
    (front bytes : Bytes) (n : ℕ)
    → length bytes ≤ n
    → write (front ++ zeros n) (length front) bytes
      ≡ ret (front ++ bytes ++ zeros (n - length bytes))
unfolding write
write-front front bytes n short =
    let room : leb (length front + length bytes) (length (front ++ zeros n)) ≡ true =
      ground (arith, short, length-append front (zeros n), length-zeros n) in
    rw
      (
        room,
        take-append front (zeros n),
        drop-append front (zeros n) (length bytes),
        drop-zeros (length bytes) n,
      )
      refl

-- The bytes that a file puts in its place.
abbrev pub placed : SecretFile → Stream → Bytes
placed s stream = (file_read_callback s.kind s.filesize stream).0

-- A file's place: what is written, zeros up to its size, and the NUL.
abbrev pub chunk : SecretFile → Bytes
chunk s = elim s.filename as (λ (x : Option Bytes). Bytes) [
  | none ↦ []
  | some name ↦ elim s.file as (λ (x : Option Stream). Bytes) [
    | none ↦ []
    | some stream ↦ placed s stream ++ zeros (s.filesize - length (placed s stream) + 1)
  ]
]

abbrev pub image : List SecretFile → Bytes
image [] = []
image (s ∷ ss) = chunk s ++ image ss

-- Every configured file is open.
abbrev pub IsReady : SecretFile → Type 0
IsReady s = (s.filename ≡ none) ⊎ ((stream : Stream) × (s.file ≡ some stream))

-- The files that stand from an offset on.
abbrev pub place : ℕ → List SecretFile → List SecretFile
place cursor [] = []
place cursor (s ∷ ss) = elim s.filename [
  | none ↦ s ∷ place cursor ss
  | some name ↦ record s { mem = some cursor } ∷ place (cursor + s.filesize + 1) ss
]

abbrev start_image : Bytes → List SecretFile → Image
start_image front ss = record {
  tls_data = front ++ zeros (tls_files_size ss);
  cursor = length front;
  complete = true;
}

-- What the second loop comes to, from a block that is filled up to the cursor.
pub record Reads (front : Bytes) (ss : List SecretFile) : Type 0 where
  pub files : List SecretFile
  pub im : Image
  pub returns : read_secrets (start_image front ss) ss ≡ ret (files, im)
  pub size_kept : length im.tls_data ≡ length front + tls_files_size ss
  pub same_open : count_open files ≡ count_open ss
  pub laid_out :
      im.complete ≡ true
      → (im.tls_data ≡ front ++ image ss)
        × (im.cursor ≡ length im.tls_data)
        × (files ≡ place (length front) ss)

abbrev secret : SecretKind → Option Bytes → Option Stream → ℕ → Option ℕ → SecretFile
secret kind filename file filesize mem = record {
  kind = kind;
  filename = filename;
  file = file;
  filesize = filesize;
  mem = mem;
}

-- Behind a whole file, the block is as if it had been filled up to there.
filled :
    (front bytes : Bytes) (filesize rest : ℕ)
    → length bytes ≤ filesize
    → front ++ bytes ++ zeros (filesize + 1 + rest - length bytes)
      ≡ front ++ (bytes ++ zeros (filesize - length bytes + 1)) ++ zeros rest
filled front bytes filesize rest short =
    let sizes : filesize + 1 + rest - length bytes ≡ filesize - length bytes + 1 + rest =
      omega (arith, short) in
    rw (sizes, zeros-add (filesize - length bytes + 1) rest) (simp append_assoc)

filled-length :
    (front bytes : Bytes) (filesize : ℕ)
    → length bytes ≤ filesize
    → length (front ++ (bytes ++ zeros (filesize - length bytes + 1))) ≡ length front + filesize + 1
filled-length front bytes filesize short = omega (
  arith,
  short,
  length-append front (bytes ++ zeros (filesize - length bytes + 1)),
  length-append bytes (zeros (filesize - length bytes + 1)),
  length-zeros (filesize - length bytes + 1),
)

count_kept :
    (s : SecretFile) (files ss : List SecretFile)
    → count_open files ≡ count_open ss
    → count_open (s ∷ files) ≡ count_open (s ∷ ss)
count_kept s files ss same = elim (Option-cases s.file) [
  | inl shut ↦ rw shut same
  | inr (stream, opened) ↦ rw opened (ap suc same)
]

-- One file on top of the files behind it.
Reads-step :
    (kind : SecretKind) (filename : Option Bytes) (file : Option Stream) (filesize : ℕ)
    (mem : Option ℕ) (ss : List SecretFile)
    → IsReady (secret kind filename file filesize mem)
    → ((front : Bytes) → Reads front ss)
    → (front : Bytes) → Reads front (secret kind filename file filesize mem ∷ ss)
unfolding read_secrets read_secret tls_files_size
Reads-step kind none file filesize mem ss ready rest front =
    let r = rest front in
    record {
      files = secret kind none file filesize mem ∷ r.files;
      im = r.im;
      returns = rw r.returns refl;
      size_kept = r.size_kept;
      same_open = count_kept (secret kind none file filesize mem) r.files ss r.same_open;
      laid_out = λ whole.
          let (bytes_laid, end, same) = r.laid_out whole in
          (
            bytes_laid,
            end,
            ap (λ (x : List SecretFile). secret kind none file filesize mem ∷ x) same,
          );
    }
Reads-step kind (some name) none filesize mem ss (inl h) rest front = cc
Reads-step kind (some name) none filesize mem ss (inr h) rest front = cc
Reads-step kind (some name) (some stream) filesize mem ss ready rest front =
    let s = secret kind (some name) (some stream) filesize mem in
    let bytes = (file_read_callback kind filesize stream).0 in
    let readed = (file_read_callback kind filesize stream).1 in
    let short = read_callback-le kind filesize stream in
    let total = filesize + 1 + tls_files_size ss in
    let written : write (front ++ zeros total) (length front) bytes
        ≡ ret (front ++ bytes ++ zeros (total - length bytes)) =
      write-front front bytes total (omega (arith, short)) in
    elim (Bool-cases (ltb readed filesize)) [
      | inl missing ↦ record {
        files = record s { mem = some (length front) } ∷ ss;
        im = record {
          tls_data = front ++ bytes ++ zeros (total - length bytes);
          cursor = length front;
          complete = false;
        };
        returns = rw (written, missing) refl;
        size_kept = omega (
          arith,
          short,
          length-append (front ++ bytes) (zeros (total - length bytes)),
          length-append front bytes,
          length-zeros (total - length bytes),
        );
        same_open = refl;
        laid_out = λ whole. cc;
      }
      | inr read ↦
          let r = rest (front ++ chunk s) in
          let size = filled-length front bytes filesize short in
          record {
            files = record s { mem = some (length front) } ∷ r.files;
            im = r.im;
            returns =
                rw
                  (
                    written,
                    read,
                    filled front bytes filesize (tls_files_size ss) short,
                    ← size,
                    r.returns,
                  )
                  refl;
            size_kept = omega (arith, size, r.size_kept);
            same_open = ap suc r.same_open;
            laid_out = λ whole.
                let (bytes_laid, end, same) = r.laid_out whole in
                (
                  bytes_laid ∙ append_assoc front (chunk s) (image ss),
                  end,
                  ap (λ (x : List SecretFile). record s { mem = some (length front) } ∷ x)
                      (same ∙ ap (λ (n : ℕ). place n ss) size),
                );
          }
    ]

-- From a fresh block on, with every configured file open: the loop over the files runs to its end or to the
-- first short read without a write outside the block; in the first case the block holds, in the order of
-- the table, each file's bytes with a NUL behind, and nothing else, and every file knows its place.
pub read_secrets-Reads : (ss : List SecretFile) → All IsReady ss → (front : Bytes) → Reads front ss
unfolding read_secrets tls_files_size
read_secrets-Reads [] ready front = record {
  files = [];
  im = start_image front [];
  returns = refl;
  size_kept = omega (arith, length-append front []);
  same_open = refl;
  laid_out = λ whole. (refl, ap length (sym (append-nil front)), refl);
}
read_secrets-Reads (s ∷ ss) (ready, others) front =
    Reads-step s.kind s.filename s.file s.filesize s.mem ss ready (read_secrets-Reads ss others)
      front
