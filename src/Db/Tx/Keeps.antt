-- ===== src/Db/Tx/Keeps.antt =====
-- What committed transactions preserve, as a relation between the store before and after: one rule
-- for each way to build a transaction.
use md_manager.Base.{◌≡◌, refl, Bool, true, false, if◌then◌else◌}
use md_manager.Fault.{Error, Result, ok, err}
use md_manager.Db.Tables.{Store}
use md_manager.Db.Tx.{Tx, pure, fail, query, write, ◌>>=◌, commit}

pub record IsPreorder (R : Store → Store → Type 0) : Type 0 where
  pub reflexive : (s : Store) → R s s
  pub transitive : (s t u : Store) → R s t → R t u → R s u

abbrev pub Post {ℓ} : {A : Type ℓ} → (Store → Store → Type 0) → Store → Result (A × Store) → Type 0
Post R s (ok (a, t)) = R s t
Post R s (err e) = Unit

-- Whenever `m` commits, the stores before and after are related.
pub record Keeps {ℓ} {A : Type ℓ} (R : Store → Store → Type 0) (m : Tx A) : Type ℓ where
  pub at : (s : Store) → Post R s (m s)

-- The same of a statement that writes.
abbrev pub Wrote : (Store → Store → Type 0) → Store → Result Store → Type 0
Wrote R s (ok t) = R s t
Wrote R s (err e) = Unit

-- A statement that writes what a fallible computation of the new rows returns.
pub Wrote-elim :
    {A : Type 0} (R : Store → Store → Type 0) (s : Store) (r : Result A) (put : A → Store)
    → ((a : A) → r ≡ ok a → R s (put a))
    → Wrote R s (elim r [ ok a ↦ ok (put a) | err e ↦ err e ])
Wrote-elim R s (ok a) put h = h a refl
Wrote-elim R s (err e) put h = tt

module _ (R : Store → Store → Type 0) (p : IsPreorder R) where
  module _ {ℓ} {A : Type ℓ} where
    pub Keeps-pure : (a : A) → Keeps R (pure a)
    unfolding pure
    Keeps-pure a = record { at = λ s. p.reflexive s }

    pub Keeps-fail : (e : Error) → Keeps R (fail {A = A} e)
    unfolding fail
    Keeps-fail e = record { at = λ s. tt }

    pub Keeps-query : (f : Store → Result A) → Keeps R (query f)
    unfolding query
    Keeps-query f = record { at = λ s. go s (f s) }
      where
        go :
            (s : Store) (r : Result A)
            → Post {A = A} R s (elim r [ ok a ↦ ok (a, s) | err e ↦ err e ])
        go s (ok a) = p.reflexive s
        go s (err e) = tt

    pub Keeps-if : (b : Bool) (m n : Tx A) → Keeps R m → Keeps R n → Keeps R (if b then m else n)
    Keeps-if true m n km kn = km
    Keeps-if false m n km kn = kn

  pub Keeps-write : (f : Store → Result Store) → ((s : Store) → Wrote R s (f s)) → Keeps R (write f)
  unfolding write
  Keeps-write f w = record { at = λ s. go s (f s) (w s) }
    where
      go :
          (s : Store) (r : Result Store)
          → Wrote R s r
          → Post {A = Unit {0}} R s (elim r [ ok t ↦ ok (tt, t) | err e ↦ err e ])
      go s (ok t) h = h
      go s (err e) h = tt

  after : {B : Type 0} (s u : Store) (r : Result (B × Store)) → R s u → Post R u r → Post R s r
  after s u (ok (b, t)) h k = p.transitive s u t h k
  after s u (err e) h k = tt

  pub Keeps-bind :
      {A B : Type 0} (m : Tx A) (f : A → Tx B)
      → Keeps R m
      → ((a : A) → Keeps R (f a))
      → Keeps R (m >>= f)
  unfolding ◌>>=◌
  Keeps-bind {A} {B} m f km kf = record { at = λ s. go s (m s) (km.at s) }
    where
      go :
          (s : Store) (r : Result (A × Store))
          → Post R s r
          → Post {A = B} R s (elim r [ ok (a, t) ↦ f a t | err e ↦ err e ])
      go s (ok (a, t)) h = after s t (f a t) h ((kf a).at t)
      go s (err e) h = tt

  -- A failed transaction leaves the store alone.
  pub Keeps-commit : {A : Type 0} (m : Tx A) → Keeps R m → (s : Store) → R s (commit m s).0
  unfolding commit
  Keeps-commit {A} m k s = go (m s) (k.at s)
    where
      go :
          (r : Result (A × Store))
          → Post R s r
          → R s (
              let x : Store × Result A = elim r [ ok (a, t) ↦ (t, ok a) | err e ↦ (s, err e) ] in
              x.0)
      go (ok (a, t)) h = h
      go (err e) h = p.reflexive s
