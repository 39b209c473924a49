-- ===== src/Outcome.antt =====
-- embed/src/error.rs: the results of the operations, with the errors that the modelled ones raise and
-- their messages.
use Prim.Native.String.{String}

pub data Error : Type 0 where
  wrong_type : (message : String) → Error
  invalid_data : (message : String) → Error

pub data Result (A : Type 0) : Type 0 where
  ok : A → Result A
  err : Error → Result A

-- The `?` of the source.
infixl 5 ◌>>=◌
abbrev pub ◌>>=◌ : {A B : Type 0} → Result A → (A → Result B) → Result B
ok a >>= f = f a
err e >>= f = err e

abbrev pub err_wrong_type : String
err_wrong_type = "WRONGTYPE Operation against a key holding the wrong kind of value"
