-- ===== src/Request/Files.antt =====
-- The effect of a request's file operations on the project directory. `do_request` of
-- compiler/base/orchestrator/src/coordinator.rs sends them all at once, and the worker carries
-- them out in any order (`handle_delete_file`, `handle_write_file` of
-- compiler/base/orchestrator/src/worker.rs, when the file system reports no error but `NotFound`).
use mathlib.Core.Logic.Or
use mathlib.Core.List.{Mem, mem-cons, mem-cons_self, mem-cons_of_mem, not-mem-nil}
use text.Mathlib.Text.{◌==◌ as str_eq}
use rust_playground.Base.{
  ℕ, String, ◌≡◌, refl, sym, ap, ◌∙◌, ◌≢◌, inl, inr, Option, none, some, List, [], ◌∷◌, ◌++◌, map,
  eq_iff, if◌then◌else◌, Bool-cases,
}
use rust_playground.Message.{DeleteFileRequest, WriteFileRequest}
use rust_playground.Request.{Code, CrateType}
use rust_playground.Request.Sources.{delete_requests, write_requests}

-- The contents of the files below the project directory, by the path that a request names.
abbrev pub Directory : Type 0
Directory = String → Option (List ℕ)

pub data FileOperation : Type 0 where
  delete : DeleteFileRequest → FileOperation
  write : WriteFileRequest → FileOperation

abbrev pub path_of : FileOperation → String
path_of (delete r) = r.path
path_of (write r) = r.path

abbrev pub content_of : FileOperation → Option (List ℕ)
content_of (delete r) = none
content_of (write r) = some r.content

-- `handle_delete_file` and `handle_write_file`: a missing file counts as deleted.
unfoldable pub perform : FileOperation → Directory → Directory
perform (delete r) d p = if str_eq r.path p then none else d p
perform (write r) d p = if str_eq r.path p then some r.content else d p

unfoldable pub perform_all : List FileOperation → Directory → Directory
perform_all [] d = d
perform_all (o ∷ os) d = perform_all os (perform o d)

-- What `do_request` sends before it writes `Cargo.toml`.
unfoldable pub operations : Code → CrateType → List FileOperation
operations c crate_type =
    map delete (delete_requests c crate_type) ++ map write (write_requests c crate_type)

perform_lem :
    (o : FileOperation) (d : Directory) (p : String)
    → perform o d p ≡ (if str_eq (path_of o) p then content_of o else d p)
unfolding perform
perform_lem (delete r) d p = refl
perform_lem (write r) d p = refl

perform_at :
    (o : FileOperation) (d : Directory) (p : String) → path_of o ≡ p → perform o d p ≡ content_of o
perform_at o d p e = rw (perform_lem o d p, (eq_iff (path_of o) p).1 e)

perform_off : (o : FileOperation) (d : Directory) (p : String) → path_of o ≢ p → perform o d p ≡ d p
perform_off o d p n = elim (Bool-cases (str_eq (path_of o) p)) [
  | inl e ↦ absurd (n ((eq_iff (path_of o) p).0 e))
  | inr e ↦ rw (perform_lem o d p, e)
]

module _ (p : String) (v : Option (List ℕ)) where
  perform-keeps :
      (o : FileOperation) (d : Directory)
      → (path_of o ≡ p → content_of o ≡ v)
      → d p ≡ v
      → perform o d p ≡ v
  perform-keeps o d h e = elim (Bool-cases (str_eq (path_of o) p)) [
    | inl q ↦ rw (perform_lem o d p, q) (h ((eq_iff (path_of o) p).0 q))
    | inr q ↦ rw (perform_lem o d p, q) e
  ]

  perform_all-keeps :
      (os : List FileOperation) (d : Directory)
      → ((o : FileOperation) → Mem o os → path_of o ≡ p → content_of o ≡ v)
      → d p ≡ v
      → perform_all os d p ≡ v
  unfolding perform_all
  perform_all-keeps [] d h e = e
  perform_all-keeps (o ∷ os) d h e =
      perform_all-keeps os (perform o d) (λ q m. h q (mem-cons_of_mem o m))
        (perform-keeps o d (h o mem-cons_self) e)

Contents-set : IsSet (Option (List ℕ))
Contents-set = hlevel

-- Where all operations on a path agree, and there is one, it decides.
pub perform_all_at :
    (p : String) (o : FileOperation) (os : List FileOperation) (d : Directory)
    → ((q : FileOperation) → Mem q os → path_of q ≡ p → content_of q ≡ content_of o)
    → Mem o os
    → path_of o ≡ p
    → perform_all os d p ≡ content_of o
unfolding perform_all
perform_all_at p o [] d h m e = absurd (not-mem-nil m)
perform_all_at p o (q ∷ os) d h m e =
    Or.elim (Contents-set _ _) (mem-cons.0 m)
      (λ same.
        perform_all-keeps p (content_of o) os (perform q d) (λ r k. h r (mem-cons_of_mem q k))
          (perform_at q d p (ap path_of (sym same) ∙ e) ∙ ap content_of (sym same)))
      (λ later. perform_all_at p o os (perform q d) (λ r k. h r (mem-cons_of_mem q k)) later e)

pub perform_all_off :
    (p : String) (os : List FileOperation) (d : Directory)
    → ((q : FileOperation) → Mem q os → path_of q ≢ p)
    → perform_all os d p ≡ d p
unfolding perform_all
perform_all_off p [] d h = refl
perform_all_off p (q ∷ os) d h =
    perform_all_off p os (perform q d) (λ r k. h r (mem-cons_of_mem q k))
    ∙ perform_off q d p (h q mem-cons_self)
