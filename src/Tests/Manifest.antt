-- ===== src/Tests/Manifest.antt =====
-- A manifest for a library that is compiled to WebAssembly.
use rust_playground.Base.{refl, false}
use rust_playground.Request.{
  CompileRequest, Edition, Mode, Channel, CrateType, LibraryType, CompileTarget, Code,
}
use rust_playground.CargoToml.{Table, text, table, entry, end}
use rust_playground.CargoToml.CrateType.{default_lib}
use rust_playground.CargoToml.Lto.{default_profiles}
use rust_playground.CargoToml.Wanted.{IsManifest}

abbrev manifest : Table
manifest =
    entry "package" (table (entry "name" (text "playground") (entry "edition" (text "2015") end))) (
      entry "dependencies" (table (entry "rand" (text "0.9") end))
        (entry "workspace" (table end) end))

abbrev manifest-IsManifest : IsManifest manifest
manifest-IsManifest = record {
  pkg = entry "name" (text "playground") (entry "edition" (text "2015") end);
  has_package = refl;
  edition = "2015";
  has_edition = refl;
  dependencies = entry "rand" (text "0.9") end;
  has_dependencies = refl;
  lib = default_lib;
  has_lib = refl;
  profiles = default_profiles;
  has_profiles = refl;
}

abbrev request : CompileRequest
request = record {
  target = CompileTarget.wasm;
  channel = Channel.nightly;
  crate_type = CrateType.library LibraryType.cdylib;
  mode = Mode.release;
  edition = Edition.rust2021;
  tests = false;
  backtrace = false;
  code = Code.single "";
}
