-- ===== src/Metrics/Distinct.antt =====
-- Which labels are told apart by their values.
use rust_playground.Base.{
  String, ◌≡◌, refl, sym, ap, ◌∙◌, ◌↔◌, Bool, true, false, Option, none, some, str_eq,
  if◌then◌else◌, get_or, ℕ,
}
use rust_playground.Request.{
  CompileTarget, Channel, stable, beta, nightly, Mode, debug, release, Edition, rust2015, rust2018,
  rust2021, rust2024, CrateType, binary, library, is_binary,
}
use rust_playground.Metrics.{
  Endpoint, compile, execute, format, miri, clippy, macro_expansion, meta_crates, meta_versions,
  evaluate, Outcome, success, error_server, error_timeout_soft, error_user_code, abandoned, Labels,
  as_values, endpoint_word, outcome_word, target_label, channel_label, mode_label, edition_label,
  crate_type_label, bool_label,
}

-- The kind of a target, without the options of assembly.
pub data TargetKind : Type 0 where
  assembly hir llvm_ir mir wasm : TargetKind

abbrev pub target_kind : CompileTarget → TargetKind
target_kind (CompileTarget.assembly f d p) = TargetKind.assembly
target_kind CompileTarget.hir = TargetKind.hir
target_kind CompileTarget.llvm_ir = TargetKind.llvm_ir
target_kind CompileTarget.mir = TargetKind.mir
target_kind CompileTarget.wasm = TargetKind.wasm

abbrev pub map_option : {A B : Type 0} → (A → B) → Option A → Option B
map_option f none = none
map_option f (some a) = some (f a)

-- Two sets of labels agree but for the options of assembly and the kind of a library.
pub record Agree (a b : Labels) : Type 0 where
  pub endpoint : a.endpoint ≡ b.endpoint
  pub outcome : a.outcome ≡ b.outcome
  pub target : map_option target_kind a.target ≡ map_option target_kind b.target
  pub channel : a.channel ≡ b.channel
  pub mode : a.mode ≡ b.mode
  pub edition : a.edition ≡ b.edition
  pub binary : map_option is_binary a.crate_type ≡ map_option is_binary b.crate_type
  pub tests : a.tests ≡ b.tests
  pub backtrace : a.backtrace ≡ b.backtrace

-- How the values are read.
read_endpoint : String → Endpoint
read_endpoint s =
    if str_eq s "Compile"
    then compile
    else if str_eq s "Execute"
    then execute
    else if str_eq s "Format"
    then format
    else if str_eq s "Miri"
    then miri
    else if str_eq s "Clippy"
    then clippy
    else if str_eq s "MacroExpansion"
    then macro_expansion
    else if str_eq s "MetaCrates"
    then meta_crates
    else if str_eq s "MetaVersions"
    then meta_versions
    else evaluate

read_outcome : String → Outcome
read_outcome s =
    if str_eq s "Success"
    then success
    else if str_eq s "ErrorServer"
    then error_server
    else if str_eq s "ErrorTimeoutSoft"
    then error_timeout_soft
    else if str_eq s "ErrorUserCode"
    then error_user_code
    else abandoned

read_target : String → Option TargetKind
read_target s =
    if str_eq s ""
    then none
    else if str_eq s "Assembly"
    then some TargetKind.assembly
    else if str_eq s "Hir"
    then some TargetKind.hir
    else if str_eq s "LlvmIr"
    then some TargetKind.llvm_ir
    else if str_eq s "Mir"
    then some TargetKind.mir
    else some TargetKind.wasm

read_channel : String → Option Channel
read_channel s =
    if str_eq s ""
    then none
    else if str_eq s "Stable"
    then some stable
    else if str_eq s "Beta"
    then some beta
    else some nightly

read_mode : String → Option Mode
read_mode s = if str_eq s "" then none else if str_eq s "Debug" then some debug else some release

read_edition : String → Option (Option Edition)
read_edition s =
    if str_eq s ""
    then none
    else if str_eq s "Unspecified"
    then some none
    else if str_eq s "Rust2015"
    then some (some rust2015)
    else if str_eq s "Rust2018"
    then some (some rust2018)
    else if str_eq s "Rust2021"
    then some (some rust2021)
    else some (some rust2024)

read_binary : String → Option Bool
read_binary s = if str_eq s "" then none else if str_eq s "Binary" then some true else some false

read_bool : String → Option Bool
read_bool s = if str_eq s "" then none else if str_eq s "true" then some true else some false

read_endpoint-word : (e : Endpoint) → read_endpoint (endpoint_word e) ≡ e
unfolding read_endpoint
read_endpoint-word compile = refl
read_endpoint-word execute = refl
read_endpoint-word _ = refl

read_outcome-word : (o : Outcome) → read_outcome (outcome_word o) ≡ o
unfolding read_outcome
read_outcome-word success = refl
read_outcome-word _ = refl

read_target-label :
    (t : Option CompileTarget) → read_target (target_label t) ≡ map_option target_kind t
unfolding read_target
read_target-label none = refl
read_target-label (some (CompileTarget.assembly f d p)) = refl
read_target-label (some _) = refl

read_channel-label : (c : Option Channel) → read_channel (channel_label c) ≡ c
unfolding read_channel
read_channel-label none = refl
read_channel-label (some stable) = refl
read_channel-label (some _) = refl

read_mode-label : (m : Option Mode) → read_mode (mode_label m) ≡ m
unfolding read_mode
read_mode-label none = refl
read_mode-label (some debug) = refl
read_mode-label (some release) = refl

read_edition-label : (e : Option (Option Edition)) → read_edition (edition_label e) ≡ e
unfolding read_edition
read_edition-label none = refl
read_edition-label (some none) = refl
read_edition-label (some (some rust2015)) = refl
read_edition-label (some (some _)) = refl

read_binary-label :
    (c : Option CrateType) → read_binary (crate_type_label c) ≡ map_option is_binary c
unfolding read_binary is_binary
read_binary-label none = refl
read_binary-label (some binary) = refl
read_binary-label (some (library l)) = refl

read_bool-label : (b : Option Bool) → read_bool (bool_label b) ≡ b
unfolding read_bool
read_bool-label none = refl
read_bool-label (some true) = refl
read_bool-label (some false) = refl

write_target : Option TargetKind → String
write_target none = ""
write_target (some TargetKind.assembly) = "Assembly"
write_target (some TargetKind.hir) = "Hir"
write_target (some TargetKind.llvm_ir) = "LlvmIr"
write_target (some TargetKind.mir) = "Mir"
write_target (some TargetKind.wasm) = "Wasm"

write_target-kind :
    (t : Option CompileTarget) → write_target (map_option target_kind t) ≡ target_label t
unfolding write_target
write_target-kind none = refl
write_target-kind (some (CompileTarget.assembly f d p)) = refl
write_target-kind (some _) = refl

write_binary : Option Bool → String
write_binary none = ""
write_binary (some true) = "Binary"
write_binary (some false) = "Library"

write_binary-is_binary :
    (c : Option CrateType) → write_binary (map_option is_binary c) ≡ crate_type_label c
unfolding write_binary is_binary
write_binary-is_binary none = refl
write_binary-is_binary (some binary) = refl
write_binary-is_binary (some (library l)) = refl

module _ (a b : Labels) where
  -- A value that is read back gives an equation of what was written.
  read_at :
      {A : Type 0} (read : String → A) (i : ℕ) {x y : A}
      → read (get_or (as_values a) i "") ≡ x
      → read (get_or (as_values b) i "") ≡ y
      → as_values a ≡ as_values b
      → x ≡ y
  read_at read i p q e = sym p ∙ ap (λ l. read (get_or l i "")) e ∙ q

  values-Agree : as_values a ≡ as_values b → Agree a b
  unfolding as_values
  values-Agree e = record {
    endpoint =
        read_at read_endpoint 0 (read_endpoint-word a.endpoint) (read_endpoint-word b.endpoint) e;
    outcome = read_at read_outcome 1 (read_outcome-word a.outcome) (read_outcome-word b.outcome) e;
    target = read_at read_target 2 (read_target-label a.target) (read_target-label b.target) e;
    channel =
        read_at read_channel 3 (read_channel-label a.channel) (read_channel-label b.channel) e;
    mode = read_at read_mode 4 (read_mode-label a.mode) (read_mode-label b.mode) e;
    edition =
        read_at read_edition 5 (read_edition-label a.edition) (read_edition-label b.edition) e;
    binary =
        read_at read_binary 6 (read_binary-label a.crate_type) (read_binary-label b.crate_type) e;
    tests = read_at read_bool 7 (read_bool-label a.tests) (read_bool-label b.tests) e;
    backtrace = read_at read_bool 8 (read_bool-label a.backtrace) (read_bool-label b.backtrace) e;
  }

  Agree-values : Agree a b → as_values a ≡ as_values b
  unfolding as_values
  Agree-values g =
      let t : target_label a.target ≡ target_label b.target =
        sym (write_target-kind a.target) ∙ ap write_target g.target ∙ write_target-kind b.target in
      let c : crate_type_label a.crate_type ≡ crate_type_label b.crate_type =
        sym (write_binary-is_binary a.crate_type)
        ∙ ap write_binary g.binary
        ∙ write_binary-is_binary b.crate_type in
      cc (
        t,
        c,
        ap endpoint_word g.endpoint,
        ap outcome_word g.outcome,
        ap channel_label g.channel,
        ap mode_label g.mode,
        ap edition_label g.edition,
        ap bool_label g.tests,
        ap bool_label g.backtrace,
      )

-- Two requests are counted together exactly when their labels agree in all but the options of
-- assembly and the kind of a library.
pub as_values_iff : (a b : Labels) → (as_values a ≡ as_values b) ↔ Agree a b
as_values_iff a b = (values-Agree a b, Agree-values a b)
