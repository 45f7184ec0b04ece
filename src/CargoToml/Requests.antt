-- ===== src/CargoToml/Requests.antt =====
-- `CargoTomlModifier` of the six requests, in coordinator.rs.
use rust_playground.Base.{Option, none, some, true, String}
use rust_playground.Request.{
  Edition, CrateType, edition_key, library_key, CompileTarget, wasm, hir, llvm_ir, mir, assembly,
  ExecuteRequest, CompileRequest, FormatRequest, ClippyRequest, MiriRequest, MacroExpansionRequest,
}
use rust_playground.CargoToml.{◌>>=◌, Value}
use rust_playground.CargoToml.Edition.{set_edition}
use rust_playground.CargoToml.CrateType.{set_crate_type}
use rust_playground.CargoToml.Dependencies.{remove_dependencies}
use rust_playground.CargoToml.Lto.{set_release_lto}

-- `if let Some(crate_type) = self.crate_type.to_library_cargo_toml_key()`
unfoldable pub set_library : Value → Option String → Option Value
set_library cargo_toml none = some cargo_toml
set_library cargo_toml (some crate_type) = set_crate_type cargo_toml crate_type

-- What all six do.
unfoldable pub set_common : Edition → CrateType → Value → Option Value
unfolding set_library
set_common edition crate_type cargo_toml = do
  e ← set_edition cargo_toml (edition_key edition)
  set_library e (library_key crate_type)

-- `if CompileTarget::Wasm == self.target`
unfoldable pub set_target : CompileTarget → Value → Option Value
set_target wasm cargo_toml = do d ← remove_dependencies cargo_toml; set_release_lto d true
set_target hir cargo_toml = some cargo_toml
set_target llvm_ir cargo_toml = some cargo_toml
set_target mir cargo_toml = some cargo_toml
set_target (assembly f d p) cargo_toml = some cargo_toml

unfoldable pub modify_execute : ExecuteRequest → Value → Option Value
modify_execute r cargo_toml = set_common r.edition r.crate_type cargo_toml

unfoldable pub modify_compile : CompileRequest → Value → Option Value
unfolding set_target
modify_compile r cargo_toml = do
  c ← set_common r.edition r.crate_type cargo_toml
  set_target r.target c

unfoldable pub modify_format : FormatRequest → Value → Option Value
modify_format r cargo_toml = set_common r.edition r.crate_type cargo_toml

unfoldable pub modify_clippy : ClippyRequest → Value → Option Value
modify_clippy r cargo_toml = set_common r.edition r.crate_type cargo_toml

unfoldable pub modify_miri : MiriRequest → Value → Option Value
modify_miri r cargo_toml = set_common r.edition r.crate_type cargo_toml

unfoldable pub modify_macro_expansion : MacroExpansionRequest → Value → Option Value
modify_macro_expansion r cargo_toml = set_common r.edition r.crate_type cargo_toml
