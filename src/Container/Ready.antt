-- ===== src/Container/Ready.antt =====
-- What `do_request` leaves in the project directory when cargo starts.
use mathlib.Core.List.{Perm}
use mathlib.Core.List.Perm
use text.Mathlib.Text.{◌==◌ as str_eq}
use rust_playground.Base.{
  ◌≡◌, refl, sym, ap, subst, ◌∙◌, String, Bool, true, not, Option, none, some, List, [], ◌∷◌, ◌++◌,
  map, map-append, append_assoc, All, Result, ok, err, ◌>>=◌, keep, Bool-cases, inl, inr,
}
use rust_playground.Message.{ExecuteCommandRequest}
use rust_playground.Request.{Code, multiple, CodeFile, CrateType}
use rust_playground.Request.Sources.{
  files, candidates, remove_names, delete_requests, write_requests,
}
use rust_playground.Request.Files.{Directory, FileOperation, perform, perform_all, operations}
use rust_playground.Request.Setup.{IsSetUp, perform_all-IsSetUp, writes_file}
use rust_playground.Container.{
  SetUp, file, cargo_toml, set_up, cargo_toml_file, DoRequestError, try_join, started, do_request,
}

-- What the worker does for a part of the setup.
abbrev pub operation_of : SetUp → FileOperation
operation_of (file o) = o
operation_of (cargo_toml text) = writes_file (cargo_toml_file text)

abbrev pub part_of : {E : Type 0} → SetUp × Option E → SetUp
part_of r = r.0

-- The files that are there in the end: those of the request, and Cargo.toml.
abbrev pub with_cargo_toml : Code → CrateType → String → Code
with_cargo_toml c k text = multiple (files c k ++ (cargo_toml_file text ∷ []))

keep_same : (p : String → Bool) (xs : List String) → All (λ x. p x ≡ true) xs → keep p xs ≡ xs
keep_same p [] h = refl
keep_same p (x ∷ xs) (a, h) = rw a (ap (λ l. x ∷ l) (keep_same p xs h))

All-keep :
    (P : String → Type 0) (q : String → Bool) (xs : List String) → All P xs → All P (keep q xs)
All-keep P q [] h = h
All-keep P q (x ∷ xs) (a, h) = elim (Bool-cases (q x)) [
  | inl e ↦ rw e (a, All-keep P q xs h)
  | inr e ↦ rw e (All-keep P q xs h)
]

All-remove_names :
    (P : String → Type 0) (fs : List CodeFile) (ps : List String)
    → All P ps
    → All P (remove_names fs ps)
unfolding remove_names
All-remove_names P [] ps h = h
All-remove_names P (f ∷ fs) ps h =
    All-remove_names P fs (keep (λ p. not (str_eq p f.name)) ps)
      (All-keep P (λ p. not (str_eq p f.name)) ps h)

remove_names-append :
    (fs : List CodeFile) (g : CodeFile) (ps : List String)
    → remove_names (fs ++ (g ∷ [])) ps ≡ keep (λ p. not (str_eq p g.name)) (remove_names fs ps)
unfolding remove_names
remove_names-append [] g ps = refl
remove_names-append (f ∷ fs) g ps = remove_names-append fs g (keep (λ p. not (str_eq p f.name)) ps)

-- Cargo.toml is none of the files that are deleted.
no_cargo_toml :
    (fs : List CodeFile) (text : String)
    → remove_names (fs ++ (cargo_toml_file text ∷ [])) candidates ≡ remove_names fs candidates
no_cargo_toml fs text =
    remove_names-append fs (cargo_toml_file text) candidates
    ∙ keep_same (λ p. not (str_eq p "Cargo.toml")) (remove_names fs candidates)
        (All-remove_names (λ p. not (str_eq p "Cargo.toml") ≡ true) fs candidates
          (refl, (refl, (refl, tt))))

map-file : (os : List FileOperation) → map operation_of (map file os) ≡ os
map-file [] = refl
map-file (o ∷ os) = ap (λ l. o ∷ l) (map-file os)

-- The setup is the operations of a request with one file more.
set_up-operations :
    (c : Code) (k : CrateType) (text : String)
    → map operation_of (set_up c k text) ≡ operations (with_cargo_toml c k text) k
unfolding set_up operations delete_requests write_requests files
set_up-operations c k text =
    map-append operation_of (map file (operations c k)) (cargo_toml text ∷ [])
    ∙ rw (map-file, no_cargo_toml, map-append, map-append, append_assoc) refl

-- What the project directory can come to be when the worker has replied: a part that is reported
-- as done was done, and one that is reported as failed can have left anything behind.
pub data Leaves {E : Type 0} : List (SetUp × Option E) → Directory → Directory → Type 0 where
  here : {d : Directory} → Leaves [] d d
  done :
      {rs : List (SetUp × Option E)} {d u : Directory} (o : SetUp)
      → Leaves rs (perform (operation_of o) d) u
      → Leaves ((o, none) ∷ rs) d u
  failed :
      {rs : List (SetUp × Option E)} {d u : Directory} (o : SetUp) (e : E) (left : Directory)
      → Leaves rs left u
      → Leaves ((o, some e) ∷ rs) d u

-- Where `try_join!` gives no error, the worker has done all that it was asked for.
try_join-Leaves :
    {E : Type 0} {rs : List (SetUp × Option E)} {d u : Directory}
    → Leaves rs d u
    → try_join rs ≡ ok tt
    → u ≡ perform_all (map operation_of (map part_of rs)) d
unfolding try_join perform_all
try_join-Leaves here h = refl
try_join-Leaves (done o l) h = try_join-Leaves l h
try_join-Leaves (failed o e left l) h = absurd cc

started-ok :
    {E : Type 0} (command : ExecuteCommandRequest) (e : Option E) {x : ExecuteCommandRequest}
    → started command e ≡ ok x
    → x ≡ command
started-ok command none h = cc
started-ok command (some e) h = cc

join-ok :
    {E : Type 0} (t : Result (Unit {0}) (DoRequestError E)) (command : ExecuteCommandRequest)
    (e : Option E) {x : ExecuteCommandRequest}
    → (t >>= λ u. started command e) ≡ ok x
    → (t ≡ ok tt) × (x ≡ command)
join-ok (ok u) command e h = (refl, started-ok command e h)
join-ok (err x) command e h = absurd cc

-- In whatever order the worker replies: when `do_request` lets cargo start, it is the given command
-- that runs, and the project directory is set up with the files of the request and with the given
-- text as Cargo.toml, whatever a part of the setup that failed would have left there. A file whose
-- name is given one content holds it, the other candidates for the main file are not there, and all
-- else is as it was.
pub do_request-IsReady :
    {E : Type 0} (c : Code) (k : CrateType) (text : String) (replies : List (SetUp × Option E))
    (command : ExecuteCommandRequest) (e : Option E) {before after : Directory}
    {x : ExecuteCommandRequest}
    → Perm (map part_of replies) (set_up c k text)
    → Leaves replies before after
    → do_request replies command e ≡ ok x
    → (x ≡ command) × IsSetUp (with_cargo_toml c k text) k before after
unfolding do_request
do_request-IsReady c k text replies command e {before} order l h =
    let (joined, same) = join-ok (try_join replies) command e h in
    let os = map operation_of (map part_of replies) in
    (
      same,
      subst (IsSetUp (with_cargo_toml c k text) k before) (sym (try_join-Leaves l joined)) (
          perform_all-IsSetUp (with_cargo_toml c k text) k os before
            (subst (λ l. Perm os l) (set_up-operations c k text) (Perm.map operation_of order))),
    )
