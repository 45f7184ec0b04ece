-- ===== src/Api/Compile.antt =====
-- A compilation in the words of the web API: the target is a word, with three more for assembly.
use rust_playground.Base.{String, ◌≡◌, refl, Option, none, some, ok, arith}
use rust_playground.Request.{
  AssemblyFlavor, att, intel, DemangleAssembly, demangle, mangle, ProcessAssembly, filter, raw,
  CompileTarget, assembly, hir, llvm_ir, mir, wasm, CompileRequest, edition_key, crate_type_key,
}
use rust_playground.Api.{
  parse_assembly_flavor, parse_demangle_assembly, parse_process_assembly, parse_target,
  ApiCompileRequest,
}
use rust_playground.Api.Words.{
  channel_word, mode_word, crate_type_words, edition_words, channel_words, mode_words,
}
use rust_playground.Api.Convert.{to_compile}

abbrev pub target_word : CompileTarget → String
target_word (assembly f d p) = "asm"
target_word llvm_ir = "llvm-ir"
target_word mir = "mir"
target_word hir = "hir"
target_word wasm = "wasm"

abbrev pub flavor_word : AssemblyFlavor → String
flavor_word att = "att"
flavor_word intel = "intel"

abbrev pub demangle_word : DemangleAssembly → String
demangle_word demangle = "demangle"
demangle_word mangle = "mangle"

abbrev pub process_word : ProcessAssembly → String
process_word filter = "filter"
process_word raw = "raw"

-- The words for assembly, given for a target of that kind.
abbrev pub given :
    {A : Type 0}
    → (AssemblyFlavor → DemangleAssembly → ProcessAssembly → A)
    → CompileTarget
    → Option A
given f (assembly a d p) = some (f a d p)
given f llvm_ir = none
given f mir = none
given f hir = none
given f wasm = none

abbrev pub spell_compile : CompileRequest → ApiCompileRequest
spell_compile q = record {
  target = target_word q.target;
  assembly_flavor = given (λ a d p. flavor_word a) q.target;
  demangle_assembly = given (λ a d p. demangle_word d) q.target;
  process_assembly = given (λ a d p. process_word p) q.target;
  channel = channel_word q.channel;
  mode = mode_word q.mode;
  edition = edition_key q.edition;
  crate_type = crate_type_key q.crate_type;
  tests = q.tests;
  backtrace = q.backtrace;
  code = q.code;
}

spelled-target :
    (t : CompileTarget)
    → parse_target
        (target_word t)
        (given (λ a d p. flavor_word a) t)
        (given (λ a d p. demangle_word d) t)
        (given (λ a d p. process_word p) t)
      ≡ ok t
unfolding parse_target parse_assembly_flavor parse_demangle_assembly parse_process_assembly
spelled-target (assembly att demangle filter) = refl
spelled-target (assembly att demangle raw) = refl
spelled-target (assembly att mangle filter) = refl
spelled-target (assembly att mangle raw) = refl
spelled-target (assembly intel demangle filter) = refl
spelled-target (assembly intel demangle raw) = refl
spelled-target (assembly intel mangle filter) = refl
spelled-target (assembly intel mangle raw) = refl
spelled-target llvm_ir = refl
spelled-target mir = refl
spelled-target hir = refl
spelled-target wasm = refl

-- Every request to compile can be asked for in the words of the web API, and is read as itself.
to_compile-spell : (q : CompileRequest) → to_compile (spell_compile q) ≡ ok q
unfolding to_compile
to_compile-spell q = ground (
  arith,
  spelled-target q.target,
  channel_words (channel_word q.channel) q.channel,
  mode_words (mode_word q.mode) q.mode,
  edition_words (edition_key q.edition) q.edition,
  crate_type_words (crate_type_key q.crate_type) q.crate_type,
)
