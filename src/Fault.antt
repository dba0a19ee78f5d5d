-- ===== src/Fault.antt =====
-- crates/core/src/error.rs: the domain errors, and the result of a fallible step.
-- `AlreadyExists` carries the constraint's name and `Invalid` its message, as in the source.
-- `panic` is no value of the source's enum: it stands for a panic of the thread that serves a request.
use md_manager.Base.{ℕ, String, ◌≡◌, refl, Bool, true, false, Option, none, some, ◌⊎◌, inl, inr}

pub data Error : Type 0 where
  not_found : Error
  unauthorized : Error
  forbidden : Error
  conflict : ℕ → ℕ → Error
  already_exists : String → Error
  invalid : String → Error
  too_many_requests : String → Error
  internal : String → Error
  panic : Error

pub data Result {ℓ} (A : Type ℓ) : Type ℓ where
  err : Error → Result A
  ok : A → Result A

pub Result-cases {ℓ} :
    {A : Type ℓ} (r : Result A) → ((a : A) × (r ≡ ok a)) ⊎ ((e : Error) × (r ≡ err e))
Result-cases (ok a) = inl (a, refl)
Result-cases (err e) = inr (e, refl)

-- `o.ok_or(e)?`
abbrev pub ok_or {ℓ} : {A : Type ℓ} → Option A → Error → Result A
ok_or none e = err e
ok_or (some a) e = ok a

-- `if !b { return Err(e) }`
abbrev pub guard : Bool → Error → Result (Unit {0})
guard false fault = err fault
guard true fault = ok tt

-- The operator `?`, which `do` writes.
infixl 5 ◌>>=◌
abbrev pub ◌>>=◌ {ℓ κ} : {A : Type ℓ} {B : Type κ} → Result A → (A → Result B) → Result B
err e >>= next = err e
ok x >>= next = next x

infixl 5 ◌>>◌
abbrev pub ◌>>◌ {ℓ} : {B : Type ℓ} → Result (Unit {0}) → Result B → Result B
first >> rest = first >>= λ done. rest
