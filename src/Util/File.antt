-- ===== src/Util/File.antt =====
-- src/util/file.c, and what the code reads from an open FILE.
use n2kafka.Prelude.{ℕ, Bool, Option, none, some, List, if◌then◌else◌, take, Bytes}

-- What <stdio.h> answers for an open file: ftello before and at the end (none is -1), whether the two
-- calls of fseeko succeed, the bytes from the position on, and the lines of getline with whether they
-- ended with the file.
pub record Stream : Type 0 where
  pub position : Option ℕ
  pub seek_end : Bool
  pub end_position : Option ℕ
  pub seek_set : Bool
  pub content : Bytes
  pub getline : List Bytes
  pub ended : Bool

-- file_size: none is -1.
unfoldable pub file_size : Stream → Option ℕ
file_size fp = elim fp.position [
  | none ↦ none
  | some curr_off ↦ if fp.seek_end then if fp.seek_set then fp.end_position else none else none
]

-- fread of single bytes.
abbrev pub fread : ℕ → Stream → Bytes
fread count fp = take count fp.content
