-- ===== src/Db/Tx.antt =====
-- Transactions: an action on the store that commits or fails. A failed action leaves no trace, since
-- a `Transaction` that is dropped before `commit` rolls back.
pub mod Keeps
use md_manager.Base.{Bool, Option, none, some, ◌≡◌, refl, arith}
use md_manager.Fault.{Error, Result, ok, err}
use md_manager.Db.Tables.{Store}

abbrev pub Tx {ℓ} : Type ℓ → Type ℓ
Tx A = Store → Result (A × Store)

module _ {ℓ} {A : Type ℓ} where
  unfoldable pub pure : A → Tx A
  pure a s = ok (a, s)

  unfoldable pub fail : Error → Tx A
  fail e s = err e

  -- A statement that reads.
  unfoldable pub query : (Store → Result A) → Tx A
  query f s = elim (f s) [ ok a ↦ ok (a, s) | err e ↦ err e ]

-- A statement that writes.
unfoldable pub write : (Store → Result Store) → Tx (Unit {0})
write f s = elim (f s) [ ok t ↦ ok (tt, t) | err e ↦ err e ]

-- A step that does not touch the database.
abbrev pub lift {ℓ} : {A : Type ℓ} → Result A → Tx A
lift r = query (λ _. r)

infixl 5 ◌>>=◌ ◌>>◌
-- Opening this opens the four statements too.
unfoldable pub ◌>>=◌ {ℓ κ} : {A : Type ℓ} {B : Type κ} → Tx A → (A → Tx B) → Tx B
unfolding pure fail query write
◌>>=◌ m f s = elim (m s) [ ok (a, t) ↦ f a t | err e ↦ err e ]

abbrev pub ◌>>◌ {ℓ} : {B : Type ℓ} → Tx (Unit {0}) → Tx B → Tx B
m >> k = m >>= λ _. k

-- What the caller sees of a transaction: the store that is left, and the result.
unfoldable pub commit {ℓ} : {A : Type ℓ} → Tx A → Store → Store × Result A
commit m s = elim (m s) [ ok (a, t) ↦ (t, ok a) | err e ↦ (s, err e) ]

pub query-eq-ok {ℓ} :
    {A : Type ℓ} (f : Store → Result A) (s : Store) {a : A} {t : Store}
    → query f s ≡ ok (a, t)
    → (f s ≡ ok a) × (t ≡ s)
unfolding query
query-eq-ok f s h = ground arith

pub >>=-eq-ok {ℓ κ} :
    {A : Type ℓ} {B : Type κ} (m : Tx A) (f : A → Tx B) (s : Store) {b : B} {t : Store}
    → (m >>= f) s ≡ ok (b, t)
    → (a : A) × (u : Store) × (m s ≡ ok (a, u)) × (f a u ≡ ok (b, t))
unfolding ◌>>=◌
>>=-eq-ok {A} m f s {b} {t} h = split (m s) refl
  where
    split :
        (r : Result (A × Store))
        → m s ≡ r
        → (a : A) × (u : Store) × (m s ≡ ok (a, u)) × (f a u ≡ ok (b, t))
    split (ok (a, u)) e = (a, u, e, ground (arith, e))
    split (err x) e = absurd (ground (arith, e))

-- The same for a proof that goes on from the values in between.
pub bind_elim {ℓ κ μ} :
    {A : Type ℓ} {B : Type κ} {C : Type μ} (m : Tx A) (f : A → Tx B) (s : Store) {b : B} {t : Store}
    → (m >>= f) s ≡ ok (b, t)
    → ((a : A) (u : Store) → m s ≡ ok (a, u) → f a u ≡ ok (b, t) → C)
    → C
bind_elim m f s h k = let (a, u, e, g) = >>=-eq-ok m f s h in k a u e g

pub pure-eq-ok {ℓ} : {A : Type ℓ} (a b : A) (s t : Store) → pure a s ≡ ok (b, t) → (a ≡ b) × (t ≡ s)
unfolding pure
pure-eq-ok a b s t h = ground arith

-- A step whose outcome is known.
pub bind_ok {ℓ κ} :
    {A : Type ℓ} {B : Type κ} (m : Tx A) (f : A → Tx B) (s : Store) {a : A} {t : Store}
    {r : Result (B × Store)}
    → m s ≡ ok (a, t)
    → f a t ≡ r
    → (m >>= f) s ≡ r
unfolding ◌>>=◌
bind_ok m f s h k = ground arith

pub bind_err {ℓ κ} :
    {A : Type ℓ} {B : Type κ} (m : Tx A) (f : A → Tx B) (s : Store) {e : Error}
    → m s ≡ err e
    → (m >>= f) s ≡ err e
unfolding ◌>>=◌
bind_err m f s h = ground arith

pub query_ok {ℓ} :
    {A : Type ℓ} (f : Store → Result A) (s : Store) {a : A} → f s ≡ ok a → query f s ≡ ok (a, s)
unfolding query
query_ok f s h = ground arith

pub query_err {ℓ} :
    {A : Type ℓ} (f : Store → Result A) (s : Store) {e : Error} → f s ≡ err e → query f s ≡ err e
unfolding query
query_err f s h = ground arith

pub write_err : (f : Store → Result Store) (s : Store) {e : Error} → f s ≡ err e → write f s ≡ err e
unfolding write
write_err f s h = ground arith

-- What holds before, and of every store that the action commits, holds of the store that is left.
pub commit_elim {ℓ κ} :
    {A : Type ℓ} (P : Store → Type κ) (m : Tx A) (s : Store)
    → P s
    → ((a : A) (t : Store) → m s ≡ ok (a, t) → P t)
    → P (commit m s).0
unfolding commit
commit_elim {A} P m s p after = go (m s) after
  where
    go :
        (r : Result (A × Store))
        → ((a : A) (t : Store) → r ≡ ok (a, t) → P t)
        → P (
            let x : Store × Result A = elim r [ ok (a, t) ↦ (t, ok a) | err e ↦ (s, err e) ] in x.0)
    go (ok (a, t)) h = h a t refl
    go (err e) h = p

pub write_ok :
    (f : Store → Result Store) (s : Store) {t : Store} → f s ≡ ok t → write f s ≡ ok (tt, t)
unfolding write
write_ok f s h = ground arith
