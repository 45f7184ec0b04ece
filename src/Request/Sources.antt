-- ===== src/Request/Sources.antt =====
-- The files of a request: what is deleted and what is written before cargo runs (`impl Code` of
-- compiler/base/orchestrator/src/coordinator.rs). `into_bytes` is the standard library's encoding.
use Prim.Native.Nat.{◌/◌}
use Prim.Native.Char.{code}
use rust_playground.Base.{
  ℕ, ◌+◌, ◌%◌, String, not, List, [], ◌∷◌, ◌++◌, map, str_eq, ltb, if◌then◌else◌, keep,
}
use rust_playground.Message.{DeleteFileRequest, WriteFileRequest}
use rust_playground.Request.{
  Code, single, multiple, CodeFile, CrateType, primary_path, main_rs, lib_rs,
}

-- The bytes of one code point.
encode : ℕ → List ℕ
encode c =
    if ltb c 0x80
    then c ∷ []
    else if ltb c 0x800
    then (0xc0 + c / 64) ∷ (0x80 + c % 64) ∷ []
    else if ltb c 0x10000
    then (0xe0 + c / 4096) ∷ (0x80 + c / 64 % 64) ∷ (0x80 + c % 64) ∷ []
    else (0xf0 + c / 262144) ∷ (0x80 + c / 4096 % 64) ∷ (0x80 + c / 64 % 64) ∷ (0x80 + c % 64) ∷ []

-- `String::into_bytes`
unfoldable pub into_bytes : String → List ℕ
unfolding encode
into_bytes String.[] = []
into_bytes (String.◌∷◌ c s) = encode (Prim.Native.Char.code c) ++ into_bytes s

-- `Code::files`, as names and contents.
unfoldable pub files : Code → CrateType → List CodeFile
files (single code) crate_type = record { name = primary_path crate_type; content = code } ∷ []
files (multiple fs) crate_type = fs

-- The files that an earlier request may have left, in the order of the `BTreeSet`.
abbrev pub candidates : List String
candidates = "build.rs" ∷ lib_rs ∷ main_rs ∷ []

-- `candidates.remove(name)` for each file.
unfoldable pub remove_names : List CodeFile → List String → List String
remove_names [] paths = paths
remove_names (f ∷ fs) paths = remove_names fs (keep (λ p. not (str_eq p f.name)) paths)

unfoldable pub delete_requests : Code → CrateType → List DeleteFileRequest
unfolding remove_names files
delete_requests c crate_type =
    map (λ p. record { path = p }) (remove_names (files c crate_type) candidates)

unfoldable pub write_requests : Code → CrateType → List WriteFileRequest
unfolding files
write_requests c crate_type =
    map (λ f. record { path = f.name; content = into_bytes f.content }) (files c crate_type)
