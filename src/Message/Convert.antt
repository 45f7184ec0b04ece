-- ===== src/Message/Convert.antt =====
-- The conversions that the macros `impl_narrow_to_broad` and `impl_broad_to_narrow_with_error` of
-- compiler/base/orchestrator/src/message.rs write. A type that can travel to the coordinator is
-- given by its `WorkerMessage` and by the test for that message.
use rust_playground.Base.{◌≡◌, refl, subst, ◌↔◌, Result, ok, err}
use rust_playground.Message.{
  WorkerMessage, WriteFileResponse, DeleteFileResponse, ReadFileResponse, ExecuteCommandResponse,
  SerializedError, SerializedError2,
}
use rust_playground.Message.Errors.{adapt}

-- The types of `impl_broad_to_narrow_with_error`.
pub data Response : Type 0 where
  write_file delete_file read_file execute_command : Response

abbrev pub Payload : Response → Type 0
Payload Response.write_file = WriteFileResponse
Payload Response.delete_file = DeleteFileResponse
Payload Response.read_file = ReadFileResponse
Payload Response.execute_command = ExecuteCommandResponse

-- `From<…Response> for WorkerMessage`
unfoldable pub into : (r : Response) → Payload r → WorkerMessage
into Response.write_file x = WorkerMessage.write_file x
into Response.delete_file x = WorkerMessage.delete_file x
into Response.read_file x = WorkerMessage.read_file x
into Response.execute_command x = WorkerMessage.execute_command x

-- `TryFrom<WorkerMessage> for Result<…Response, SerializedError2>`
unfoldable pub try_from :
    (r : Response) → WorkerMessage → Result (Result (Payload r) SerializedError2) WorkerMessage
unfolding adapt
try_from Response.write_file (WorkerMessage.write_file x) = ok (ok x)
try_from Response.delete_file (WorkerMessage.delete_file x) = ok (ok x)
try_from Response.read_file (WorkerMessage.read_file x) = ok (ok x)
try_from Response.execute_command (WorkerMessage.execute_command x) = ok (ok x)
try_from _ (WorkerMessage.error e) = ok (err (adapt e))
try_from _ (WorkerMessage.error2 e) = ok (err e)
try_from _ o = err o

-- What a reply to a request may be: the response itself or an error of either kind.
pub data Reply (r : Response) : WorkerMessage → Result (Payload r) SerializedError2 → Type 0 where
  response : (x : Payload r) → Reply r (into r x) (ok x)
  error : (e : SerializedError) → Reply r (WorkerMessage.error e) (err (adapt e))
  error2 : (e : SerializedError2) → Reply r (WorkerMessage.error2 e) (err e)

try_from-Reply :
    (r : Response) {m : WorkerMessage} {v : Result (Payload r) SerializedError2}
    → Reply r m v
    → try_from r m ≡ ok v
unfolding try_from into
try_from-Reply Response.write_file (response x) = refl
try_from-Reply Response.write_file (error e) = refl
try_from-Reply Response.write_file (error2 e) = refl
try_from-Reply Response.delete_file (response x) = refl
try_from-Reply Response.delete_file (error e) = refl
try_from-Reply Response.delete_file (error2 e) = refl
try_from-Reply Response.read_file (response x) = refl
try_from-Reply Response.read_file (error e) = refl
try_from-Reply Response.read_file (error2 e) = refl
try_from-Reply Response.execute_command (response x) = refl
try_from-Reply Response.execute_command (error e) = refl
try_from-Reply Response.execute_command (error2 e) = refl

ok-injective : {A E : Type 0} {a b : A} → ◌≡◌ {A = Result A E} (ok a) (ok b) → a ≡ b
ok-injective h = cc

Reply-try_from :
    (r : Response) (m : WorkerMessage) (v : Result (Payload r) SerializedError2)
    → try_from r m ≡ ok v
    → Reply r m v
unfolding try_from into
Reply-try_from Response.write_file (WorkerMessage.write_file x) v h =
    subst (Reply Response.write_file _) (ok-injective h) (response x)
Reply-try_from Response.delete_file (WorkerMessage.delete_file x) v h =
    subst (Reply Response.delete_file _) (ok-injective h) (response x)
Reply-try_from Response.read_file (WorkerMessage.read_file x) v h =
    subst (Reply Response.read_file _) (ok-injective h) (response x)
Reply-try_from Response.execute_command (WorkerMessage.execute_command x) v h =
    subst (Reply Response.execute_command _) (ok-injective h) (response x)
Reply-try_from r (WorkerMessage.error e) v h =
    subst (Reply r (WorkerMessage.error e)) (ok-injective h) (error e)
Reply-try_from r (WorkerMessage.error2 e) v h =
    subst (Reply r (WorkerMessage.error2 e)) (ok-injective h) (error2 e)
Reply-try_from _ _ v h = cc

-- A message of the worker is read as a reply to a request exactly when it is one: the response of
-- the request's own type, or an error of either kind, read as what was sent.
pub try_from_iff :
    (r : Response) (m : WorkerMessage) (v : Result (Payload r) SerializedError2)
    → (try_from r m ≡ ok v) ↔ Reply r m v
try_from_iff r m v = (Reply-try_from r m v, try_from-Reply r)
