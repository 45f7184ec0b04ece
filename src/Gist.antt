-- ===== src/Gist.antt =====
-- Gists: `ui/src/gist.rs`.
pub mod Files
pub mod Codec
pub mod Loaded
use rust_playground.Base.{
  Text, codes, text_eq, ◌==◌, not, keep, map_err, ◌>>=◌, Result, ok, err, if◌then◌else◌, Bool,
  false, Option, none, some, List, [], ◌∷◌, ◌++◌, map, String,
}

-- `META_FILENAME`, `FILENAME` and `DESCRIPTION`
abbrev pub meta_filename : Text
meta_filename = codes "Playground.toml"

abbrev pub filename : Text
filename = codes "playground.rs"

abbrev pub description : String
description = "Code shared from the Rust Playground"

pub record CodeFile : Type 0 where
  pub name : Text
  pub content : String

pub data Code : Type 0 where
  single : String → Code
  multiple : List CodeFile → Code

pub record Gist : Type 0 where
  pub id : String
  pub url : String
  pub code : Code

-- There is one version, `V1`, whose `SerializedMeta` and `Meta` are these.
pub data V1 : Type 0 where
  v1 : V1

pub data SerializedMeta : Type 0 where
  serialized_v1 : SerializedMeta

pub data Meta : Type 0 where
  meta_v0 : Meta
  meta_v1 : V1 → Meta

-- `octocrab::models::gists`: a gist as GitHub answers with it.
pub record RemoteFile : Type 0 where
  pub content : Option String

abbrev pub RemoteFiles : Type 0
RemoteFiles = List (Text × RemoteFile)

pub record RemoteGist : Type 0 where
  pub id : String
  pub html_url : String
  pub files : RemoteFiles

-- `percent_encoding`, with the set of characters that the program gives it.
pub record PercentEncoding : Type 0 where
  pub utf8_percent_encode : Text → Text
  pub percent_decode : Text → Text

-- `toml`
pub record Toml : Type 0 where
  pub to_string_pretty : SerializedMeta → Result String String
  pub from_str : String → Result SerializedMeta String

-- `octocrab`: the client that a token gives, and its requests. `send` is given the description,
-- whether the gist is public and the files in the order in which they were added.
pub record GitHub : Type 0 where
  pub build : String → Result String String
  pub send : String → String → Bool → List (Text × String) → Result RemoteGist String
  pub get : String → String → Result RemoteGist String

pub data CreateError : Type 0 where
  octocrab : String → CreateError
  serialize : String → CreateError

from_v1 : V1 → SerializedMeta
from_v1 v1 = serialized_v1

current_meta : V1
current_meta = v1

-- The map of files read and emptied at a key.
abbrev pub find_file : Text → RemoteFiles → Option RemoteFile
find_file k [] = none
find_file k ((n, f) ∷ fs) = let rest = find_file k fs in if text_eq n k then some f else rest

abbrev pub without_file : Text → RemoteFiles → RemoteFiles
without_file k fs = keep (λ f. not (text_eq f.0 k)) fs

unwrap_or_default : Option String → String
unwrap_or_default none = ""
unwrap_or_default (some s) = s

-- The choice by the number of files.
code_of : List CodeFile → Code
code_of [] = single ""
code_of (f ∷ []) = single f.content
code_of (f ∷ g ∷ fs) = multiple (f ∷ g ∷ fs)

version_of : Result SerializedMeta String → Meta
version_of (ok serialized_v1) = meta_v1 v1
version_of (err e) = meta_v0

module _ (percent : PercentEncoding) where
  unfoldable pub encode_filename : Text → Text
  encode_filename name = percent.utf8_percent_encode name

  -- `V1::decode_filename` and `Meta::decode_filename`
  decode_v1 : Text → Text
  decode_v1 name = percent.percent_decode name

  decode_filename : Meta → Text → Text
  unfolding decode_v1
  decode_filename meta_v0 name = name
  decode_filename (meta_v1 m) name = decode_v1 name

  -- The names as the meta reads them, with what the files hold.
  pub code_file : Meta → Text × RemoteFile → CodeFile
  unfolding decode_filename unwrap_or_default
  code_file meta (name, f) = record {
    name = decode_filename meta name;
    content = unwrap_or_default f.content;
  }

  -- The files that the handler is given.
  unfoldable pub code_files : Code → List (Text × String)
  unfolding encode_filename
  code_files (single code) = (encode_filename filename, code) ∷ []
  code_files (multiple files) = map (λ f. (encode_filename f.name, f.content)) files

module _ (toml : Toml) where
  meta_of : Option RemoteFile → Meta
  unfolding version_of
  meta_of none = meta_v0
  meta_of (some f) = elim f.content [
    | none ↦ meta_v0
    | some content ↦ version_of (toml.from_str content)
  ]

  -- The meta, and the files that are left.
  remove_meta : RemoteFiles → Meta × RemoteFiles
  unfolding meta_of
  remove_meta fs = (meta_of (find_file meta_filename fs), without_file meta_filename fs)

module _ (percent : PercentEncoding) (toml : Toml) where
  -- `From<octocrab::models::gists::Gist>`
  unfoldable pub from_remote : RemoteGist → Gist
  unfolding remove_meta code_file code_of
  from_remote other =
      let (meta, files) = remove_meta toml other.files in
      record {
        id = other.id;
        url = other.html_url;
        code = code_of (map (code_file percent meta) files);
      }

module _ (percent : PercentEncoding) (toml : Toml) (hub : GitHub) where
  unfoldable pub create_future : String → Code → Result Gist CreateError
  unfolding from_v1 current_meta code_files from_remote
  create_future token code = do
    github ← map_err octocrab (hub.build token)
    meta_content ← map_err serialize (toml.to_string_pretty (from_v1 current_meta))
    let files = code_files percent code ++ (meta_filename, meta_content) ∷ []
    answer ← map_err octocrab (hub.send github description false files)
    ok (from_remote percent toml answer)

  unfoldable pub load_future : String → String → Result Gist String
  unfolding from_remote
  load_future token id = do
    github ← hub.build token
    answer ← hub.get github id
    ok (from_remote percent toml answer)
