-- ===== src/Http/Answers.antt =====
-- What a handler answers, and what it leaves behind.
use rust_playground.Base.{
  ◌≡◌, ◌↔◌, Bool, true, false, Option, none, some, List, [], ◌∷◌, Result, ok, err, ℕ, if◌then◌else◌,
  is_some,
}
use rust_playground.Metrics.{
  Labels, complete, Outcome, success, error_user_code, error_server, error_timeout_soft,
}
use rust_playground.Database.{how_code}
use rust_playground.Http.{
  Error, Effect, start, end, build, shutdown, drop, record_metric, Await, in_job, in_shutdown,
  Leaving, in_start, later, Operation,
}

-- What of the effects concerns the database, the metrics and the coordinator: how a row ends is
-- told by the number that it keeps.
abbrev pub ends : List Effect → List ℕ
ends [] = []
ends (end h ∷ es) = how_code h ∷ ends es
ends (start c p ∷ es) = ends es
ends (build ∷ es) = ends es
ends (shutdown ∷ es) = ends es
ends (drop ∷ es) = ends es
ends (record_metric l ∷ es) = ends es

abbrev pub metrics : List Effect → List Labels
metrics [] = []
metrics (record_metric l ∷ es) = l ∷ metrics es
metrics (end h ∷ es) = metrics es
metrics (start c p ∷ es) = metrics es
metrics (build ∷ es) = metrics es
metrics (shutdown ∷ es) = metrics es
metrics (drop ∷ es) = metrics es

-- The coordinator's ends, `true` for a shutdown and `false` for a drop.
abbrev pub releases : List Effect → List Bool
releases [] = []
releases (shutdown ∷ es) = true ∷ releases es
releases (drop ∷ es) = false ∷ releases es
releases (record_metric l ∷ es) = releases es
releases (end h ∷ es) = releases es
releases (start c p ∷ es) = releases es
releases (build ∷ es) = releases es

-- A row is complete, abandoned or an error as there is a good answer, none or an error.
abbrev pub verdict {ℓ κ} : {A : Type ℓ} {E : Type κ} → Option (Result A E) → ℕ
verdict (some (ok a)) = 0
verdict none = 1
verdict (some (err e)) = 2

-- What is due once there is a guard, and nothing before.
abbrev pub once {ℓ} : {A : Type ℓ} → Option Leaving → A → List A
once none x = x ∷ []
once (some (later a)) x = x ∷ []
once (some (in_start b)) x = []

module _ {WebReq Req Resp WebResp P E : Type 0} (o : Operation WebReq Req Resp WebResp P E) where
  -- How an operation went: too long, wrong by the server's or the user's fault, or well.
  abbrev pub judged : Option (Result Resp E) → Outcome
  judged none = error_timeout_soft
  judged (some (err e)) = error_server
  judged (some (ok p)) = if o.is_success p then success else error_user_code

  -- A metric is due if the request could be read and the job was not left.
  abbrev pub due_later : Option Await → Result Req P → List Labels
  due_later leaves (err e) = []
  due_later none (ok q) = complete o.endpoint (o.labels_core q) (judged (o.job q)) ∷ []
  due_later (some in_shutdown) (ok q) =
      complete o.endpoint (o.labels_core q) (judged (o.job q)) ∷ []
  due_later (some in_job) (ok q) = []

  abbrev pub due : Option Leaving → Result Req P → List Labels
  due none r = due_later none r
  due (some (later a)) r = due_later (some a) r
  due (some (in_start b)) r = []

  -- All went well and the client stayed.
  abbrev pub Succeeds : Bool → Result Req P → WebResp → Type 0
  Succeeds left read v =
      (q : Req) × (p : Resp) × (read ≡ ok q)
      × (o.job q ≡ some (ok p))
      × (o.shut_down ≡ ok tt)
      × (left ≡ false)
      × (o.into p ≡ v)

  -- Which row, metrics and releases of the coordinator are due.
  pub record IsServed (leaves : Option Leaving) (req : WebReq)
      (r : List Effect × Option (Result WebResp (Error P E))) : Type 0 where
    pub answered :
        (v : WebResp) → (r.1 ≡ some (ok v)) ↔ Succeeds (is_some leaves) (o.try_into req) v
    pub row_ends : ends r.0 ≡ once leaves (verdict r.1)
    pub measured : metrics r.0 ≡ due leaves (o.try_into req)
    pub released : releases r.0 ≡ once leaves (is_some r.1)
