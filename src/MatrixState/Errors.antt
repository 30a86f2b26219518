-- ===== src/MatrixState/Errors.antt =====
-- The answers that are no success, internal/matrixstate/errors.go, and the outcome of a request.
use synapse_gopro_worker.Prelude.{◌≡◌, refl, arith, ℕ, ◌++◌, Bytes, bytes}

pub record MatrixError : Type 0 where
  pub status : ℕ
  pub errcode : Bytes
  pub message : Bytes

abbrev pub err_host_not_in_room : MatrixError
err_host_not_in_room = record {
  status = 403;
  errcode = bytes "M_FORBIDDEN";
  message = bytes "Host not in room.";
}

abbrev pub err_partial_state : MatrixError
err_partial_state = record {
  status = 403;
  errcode = bytes "M_UNABLE_DUE_TO_PARTIAL_STATE";
  message = bytes "Unable to authorise you right now; room is partial-stated here.";
}

abbrev pub err_server_banned : MatrixError
err_server_banned = record {
  status = 403;
  errcode = bytes "M_FORBIDDEN";
  message = bytes "Server is banned from room";
}

abbrev pub err_event_not_found : Bytes → MatrixError
err_event_not_found id = record {
  status = 404;
  errcode = bytes "M_NOT_FOUND";
  message = bytes "Could not find event " ++ id;
}

abbrev pub err_event_not_in_room : Bytes → Bytes → MatrixError
err_event_not_in_room id room = record {
  status = 404;
  errcode = bytes "M_NOT_FOUND";
  message = bytes "Could not find event " ++ (id ++ (bytes " in room " ++ room));
}

abbrev pub err_state_not_known : Bytes → MatrixError
err_state_not_known id = record {
  status = 404;
  errcode = bytes "M_NOT_FOUND";
  message = bytes "State not known at event " ++ id;
}

-- An answer, a Matrix error, or an internal error.
pub data Outcome (A : Type 0) : Type 0 where
  ok : A → Outcome A
  refused : MatrixError → Outcome A
  failed : Outcome A

infixl 5 ◌>>=◌ ◌>>◌
abbrev pub ◌>>=◌ : {A B : Type 0} → Outcome A → (A → Outcome B) → Outcome B
ok a >>= f = f a
refused e >>= f = refused e
failed >>= f = failed

abbrev pub ◌>>◌ : {B : Type 0} → Outcome (Unit {0}) → Outcome B → Outcome B
m >> k = m >>= λ _. k

-- Where a chain of two gives a result, both do.
pub >>=-eq-ok :
    {A B : Type 0} (o : Outcome A) (f : A → Outcome B) (b : B)
    → (o >>= f) ≡ ok b
    → (a : A) × (o ≡ ok a) × (f a ≡ ok b)
>>=-eq-ok (ok a) f b h = (a, refl, h)
>>=-eq-ok (refused e) f b h = absurd (ground arith)
>>=-eq-ok failed f b h = absurd (ground arith)
