-- ===== src/Api/Words.antt =====
-- The words of the web API: which word stands for what. A word is read by the one function and
-- written, where the program writes it at all, by the other.
use rust_playground.Base.{String, ◌≡◌, refl, ◌↔◌, ok, arith, eq_iff}
use rust_playground.Request.{
  Channel, stable, beta, nightly, Mode, debug, release, Edition, rust2015, rust2018, rust2021,
  rust2024, CrateType, binary, library, lib, dylib, rlib, staticlib, cdylib, proc_macro,
  edition_key, crate_type_key,
}
use rust_playground.Api.{Parsed, parse_channel, parse_crate_type, parse_mode, parse_edition}

abbrev pub channel_word : Channel → String
channel_word stable = "stable"
channel_word beta = "beta"
channel_word nightly = "nightly"

abbrev pub mode_word : Mode → String
mode_word debug = "debug"
mode_word release = "release"

-- `write` gives the one word that `parse` reads as a value.
abbrev pub IsWordFor : {A : Type 0} → (String → Parsed A) → (A → String) → Type 0
IsWordFor {A} parse write = (s : String) (a : A) → (parse s ≡ ok a) ↔ (s ≡ write a)

-- Enough for that: what is written is read back, and what is read was written.
IsWordFor-of :
    {A : Type 0} (parse : String → Parsed A) (write : A → String)
    → ((a : A) → parse (write a) ≡ ok a)
    → ((s : String) (a : A) → parse s ≡ ok a → s ≡ write a)
    → IsWordFor parse write
IsWordFor-of parse write back read s a = (read s a, λ e. rw e (back a))

read_crate_type : (a : CrateType) → parse_crate_type (crate_type_key a) ≡ ok a
unfolding parse_crate_type crate_type_key
read_crate_type binary = refl
read_crate_type (library lib) = refl
read_crate_type (library dylib) = refl
read_crate_type (library rlib) = refl
read_crate_type (library staticlib) = refl
read_crate_type (library cdylib) = refl
read_crate_type (library proc_macro) = refl

written_crate_type : (s : String) (a : CrateType) → parse_crate_type s ≡ ok a → s ≡ crate_type_key a
unfolding parse_crate_type crate_type_key
written_crate_type s a h = ground (
  arith,
  eq_iff s "bin",
  eq_iff s "lib",
  eq_iff s "dylib",
  eq_iff s "rlib",
  eq_iff s "staticlib",
  eq_iff s "cdylib",
  eq_iff s "proc-macro",
)

read_edition : (a : Edition) → parse_edition (edition_key a) ≡ ok a
unfolding parse_edition edition_key
read_edition rust2015 = refl
read_edition rust2018 = refl
read_edition rust2021 = refl
read_edition rust2024 = refl

written_edition : (s : String) (a : Edition) → parse_edition s ≡ ok a → s ≡ edition_key a
unfolding parse_edition edition_key
written_edition s a h =
    ground (arith, eq_iff s "2015", eq_iff s "2018", eq_iff s "2021", eq_iff s "2024")

read_channel : (a : Channel) → parse_channel (channel_word a) ≡ ok a
unfolding parse_channel
read_channel stable = refl
read_channel beta = refl
read_channel nightly = refl

written_channel : (s : String) (a : Channel) → parse_channel s ≡ ok a → s ≡ channel_word a
unfolding parse_channel
written_channel s a h = ground (arith, eq_iff s "stable", eq_iff s "beta", eq_iff s "nightly")

read_mode : (a : Mode) → parse_mode (mode_word a) ≡ ok a
unfolding parse_mode
read_mode debug = refl
read_mode release = refl

written_mode : (s : String) (a : Mode) → parse_mode s ≡ ok a → s ≡ mode_word a
unfolding parse_mode
written_mode s a h = ground (arith, eq_iff s "debug", eq_iff s "release")

-- A crate type is read from exactly the key that is written to `Cargo.toml` for it.
pub crate_type_words : IsWordFor parse_crate_type crate_type_key
crate_type_words = IsWordFor-of parse_crate_type crate_type_key read_crate_type written_crate_type

-- An edition is read from exactly the key that is written to `Cargo.toml` for it.
pub edition_words : IsWordFor parse_edition edition_key
edition_words = IsWordFor-of parse_edition edition_key read_edition written_edition

pub channel_words : IsWordFor parse_channel channel_word
channel_words = IsWordFor-of parse_channel channel_word read_channel written_channel

pub mode_words : IsWordFor parse_mode mode_word
mode_words = IsWordFor-of parse_mode mode_word read_mode written_mode
