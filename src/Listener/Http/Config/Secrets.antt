-- ===== src/Listener/Http/Config/Secrets.antt =====
-- src/listener/http/http_config.c, start_http_loop: the files of keys, certificates and passwords that are
-- read into the memory behind the listener.
--
-- `sys` is what the system answers: stat (none is a failure), fopen, and calloc for a number of secret bytes.
use n2kafka.Prelude.{
  ℕ, suc, ◌+◌, ◌/◌, ◌%◌, Bool, true, false, Option, none, some, List, [], ◌∷◌, ◌++◌, ltb, leb, ◌==◌,
  if◌then◌else◌, length, take, drop, Bytes,
}
use n2kafka.Prelude.Run.{Run, ret, fault, ◌>>=◌}
use n2kafka.Util.File.{Stream, file_size, fread}
use n2kafka.Listener.Http.Auth.{http_auth_extract_data}

-- enum secret_files
pub data SecretKind : Type 0 where
  key_file cert_file client_ca_trust htpasswd : SecretKind

pub record System : Type 0 where
  pub stat : Bytes → Option ℕ
  pub fopen : Bytes → Option Stream
  pub calloc : ℕ → Bool

-- An entry of secret_files; `mem` is the offset in tls_data.
pub record SecretFile : Type 0 where
  pub kind : SecretKind
  pub filename : Option Bytes
  pub file : Option Stream
  pub filesize : ℕ
  pub mem : Option ℕ

unfoldable pub htpasswd_size : Stream → ℕ
htpasswd_size f = elim (http_auth_extract_data 0 f).1 [ none ↦ 0 | some rc ↦ rc ]

-- The bytes of the entries at the destination: the byte behind each stays as calloc left it.
abbrev pub entries_image : List Bytes → Bytes
entries_image [] = []
entries_image (entry ∷ entries) = entry ++ 0 ∷ entries_image entries

-- With a size of 1, as start_http_loop calls it: what is written, and the count.
unfoldable pub htpasswd_fread : ℕ → Stream → Bytes × ℕ
htpasswd_fread count stream =
    let (entries, data_read) = http_auth_extract_data count stream in
    (entries_image entries, elim data_read [ none ↦ 0 | some rc ↦ rc ])

unfoldable pub file_size_callback : SecretKind → Stream → Option ℕ
file_size_callback SecretKind.key_file stream = file_size stream
file_size_callback SecretKind.cert_file stream = file_size stream
file_size_callback SecretKind.client_ca_trust stream = file_size stream
file_size_callback SecretKind.htpasswd stream = some (htpasswd_size stream)

unfoldable pub file_read_callback : SecretKind → ℕ → Stream → Bytes × ℕ
file_read_callback SecretKind.key_file n stream = (fread n stream, length (fread n stream))
file_read_callback SecretKind.cert_file n stream = (fread n stream, length (fread n stream))
file_read_callback SecretKind.client_ca_trust n stream = (fread n stream, length (fread n stream))
file_read_callback SecretKind.htpasswd n stream = htpasswd_fread n stream

-- st_mode & (S_IWOTH | S_IROTH)
abbrev pub others_can_access : ℕ → Bool
others_can_access st_mode = if st_mode / 2 % 2 == 1 then true else st_mode / 4 % 2 == 1

-- The test that only the private key has to pass.
unfoldable pub permissions_pass : System → SecretKind → Bytes → Bool
permissions_pass sys SecretKind.key_file name = elim (sys.stat name) [
  | none ↦ false
  | some st_mode ↦ if others_can_access st_mode then false else true
]
permissions_pass sys SecretKind.cert_file name = true
permissions_pass sys SecretKind.client_ca_trust name = true
permissions_pass sys SecretKind.htpasswd name = true

-- One round of the first loop: false is the jump to tls_err.
unfoldable pub open_secret : System → SecretFile → SecretFile × Bool
open_secret sys s = elim s.filename [
  | none ↦ (s, true)
  | some name ↦
      if permissions_pass sys s.kind name
      then elim (sys.fopen name) [
        | none ↦ (s, false)
        | some stream ↦ elim (file_size_callback s.kind stream) [
          | none ↦ (record s { file = some stream }, false)
          | some n ↦ (record s { file = some stream; filesize = n }, true)
        ]
      ]
      else (s, false)
]

unfoldable pub open_secrets : System → List SecretFile → List SecretFile × Bool
open_secrets sys [] = ([], true)
open_secrets sys (s ∷ ss) =
    let (s', opened) = open_secret sys s in
    let rest = open_secrets sys ss in if opened then (s' ∷ rest.0, rest.1) else (s' ∷ ss, false)

-- tls_files_size
unfoldable pub tls_files_size : List SecretFile → ℕ
tls_files_size [] = 0
tls_files_size (s ∷ ss) = elim s.filename [
  | none ↦ tls_files_size ss
  | some name ↦ s.filesize + 1 + tls_files_size ss
]

-- A write of `bytes` at the cursor; one past the end of the block is a fault.
unfoldable pub write : Bytes → ℕ → Bytes → Run Bytes
write block cursor bytes =
    if leb (cursor + length bytes) (length block)
    then ret (take cursor block ++ bytes ++ drop (cursor + length bytes) block)
    else fault

-- The state of the second loop; `complete` is false after the jump to tls_err.
pub record Image : Type 0 where
  pub tls_data : Bytes
  pub cursor : ℕ
  pub complete : Bool

-- One round of the second loop.
unfoldable pub read_secret : Image → SecretFile → Run (SecretFile × Image)
read_secret im s = elim s.filename [
  | none ↦ ret (s, im)
  | some name ↦ elim s.file [
    | none ↦ fault
    | some stream ↦
        let (bytes, readed) = file_read_callback s.kind s.filesize stream in
        write im.tls_data im.cursor bytes >>= λ block. ret (
          record s { mem = some im.cursor },
          if ltb readed s.filesize
              then record { tls_data = block; cursor = im.cursor; complete = false }
              else record {
                tls_data = block;
                cursor = im.cursor + s.filesize + 1;
                complete = true;
              },
        )
  ]
]

unfoldable pub read_secrets : Image → List SecretFile → Run (List SecretFile × Image)
read_secrets im [] = ret ([], im)
read_secrets im (s ∷ ss) = read_secret im s >>= λ r. elim r.1.complete [
  | false ↦ ret (r.0 ∷ ss, r.1)
  | true ↦ read_secrets r.1 ss >>= λ rest. ret (r.0 ∷ rest.0, rest.1)
]

-- How many of the files are open.
abbrev pub count_open : List SecretFile → ℕ
count_open [] = 0
count_open (s ∷ ss) = elim s.file [ none ↦ count_open ss | some stream ↦ suc (count_open ss) ]
