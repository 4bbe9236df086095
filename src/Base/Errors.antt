-- ===== src/Base/Errors.antt =====
-- What a Go function comes back with: a value, an error value or a run-time panic.
-- `hang` is no Go outcome: a loop of the model ran out of its fuel.
-- `Error` has a constructor for each place that makes an error (util.go's `NewStackErrorf`), with
-- the numbers that its text shows; stack traces are left out.
use Prim.Native.Nat.{ℕ}
use mathlib.Core.Path.{◌≡◌, refl, subst}
use mathlib.Core.Bool.{Bool, true, false}
use mongonet.Base.Tests.{if◌then◌else◌}

-- The message that a text of the parsers names.
pub data Kind : Type 0 where
  reply update insert query get_more delete kill_cursors command message : Kind

-- An error of `io.Reader` or `io.Writer`.
pub data IoError : Type 0 where
  eof : IoError
  failed : ℕ → IoError

pub data Error : Type 0 where
  bson_too_short : ℕ → Error
  bson_size_invalid : ℕ → Error
  bson_overrun : ℕ → ℕ → Error
  no_terminator : Error
  below_min_length : Kind → Error
  length_too_short : Kind → Error
  num_cursors_too_large : ℕ → Error
  num_cursors_invalid : ℕ → Error
  unknown_section_kind : ℕ → Error
  section_too_short : Error
  section_overrun : Error
  document_overrun : ℕ → ℕ → ℕ → Error
  size_not_read : ℕ → Error
  http_request : ℕ → Error
  message_too_big : ℕ → Error
  header_size_invalid : ℕ → Error
  header_too_short : ℕ → Error
  unknown_op_code : ℕ → Error
  io : IoError → Error
  write_failed : IoError → Error
  marshal_failed : Error
  unknown_opcode : Error
  odd_arguments : ℕ → Error
  name_not_string : Error
  not_string not_number not_bool not_bson not_array visit_failed contains_itself : Error

pub data Outcome {ℓ} (A : Type ℓ) : Type ℓ where
  ok : A → Outcome A
  err : Error → Outcome A
  panic : Outcome A
  hang : Outcome A

infixl 5 ◌>>=◌ ◌>>◌
abbrev pub ◌>>=◌ {ℓ κ} : {A : Type ℓ} {B : Type κ} → Outcome A → (A → Outcome B) → Outcome B
ok a >>= f = f a
err e >>= f = err e
panic >>= f = panic
hang >>= f = hang

abbrev pub ◌>>◌ {ℓ} : {B : Type ℓ} → Outcome (Unit {0}) → Outcome B → Outcome B
m >> k = m >>= λ _. k

-- `if !test { return err }`
abbrev pub guard : Bool → Error → Outcome (Unit {0})
guard true e = ok tt
guard false e = err e

-- The run ends in a value with `P` or in an error value: no panic, and the fuel is enough.
abbrev pub Ensures {ℓ} : {A : Type ℓ} → (A → Type 0) → Outcome A → Type 0
Ensures P (ok a) = P a
Ensures P (err e) = Unit {0}
Ensures P panic = ⊥
Ensures P hang = ⊥

pub Ensures-bind {ℓ κ} :
    {A : Type ℓ} {B : Type κ} (P : A → Type 0) (Q : B → Type 0) (m : Outcome A) (f : A → Outcome B)
    → Ensures P m
    → ((a : A) → P a → Ensures Q (f a))
    → Ensures Q (m >>= f)
Ensures-bind P Q (ok a) f h k = k a h
Ensures-bind P Q (err e) f h k = tt
Ensures-bind P Q panic f h k = absurd h
Ensures-bind P Q hang f h k = absurd h

pub Ensures-guard {ℓ} :
    {B : Type ℓ} (Q : B → Type 0) (b : Bool) (e : Error) (k : Outcome B)
    → (b ≡ true → Ensures Q k)
    → Ensures Q (guard b e >> k)
Ensures-guard Q true e k h = h refl
Ensures-guard Q false e k h = tt

pub Ensures-ok {ℓ} :
    {A : Type ℓ} (P : A → Type 0) (m : Outcome A) (a : A) → Ensures P m → m ≡ ok a → P a
Ensures-ok P m a h e = subst (Ensures P) e h

pub Ensures-mono {ℓ} :
    {A : Type ℓ} (P Q : A → Type 0) (m : Outcome A)
    → ((a : A) → P a → Q a)
    → Ensures P m
    → Ensures Q m
Ensures-mono P Q (ok a) k h = k a h
Ensures-mono P Q (err e) k h = tt
Ensures-mono P Q panic k h = absurd h
Ensures-mono P Q hang k h = absurd h

pub Ensures-if {ℓ} :
    {A : Type ℓ} (P : A → Type 0) (b : Bool) (m n : Outcome A)
    → (b ≡ true → Ensures P m)
    → (b ≡ false → Ensures P n)
    → Ensures P (if b then m else n)
Ensures-if P true m n h k = h refl
Ensures-if P false m n h k = k refl
