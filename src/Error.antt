-- ===== src/Error.antt =====
-- rust/src/error.rs: errors as values. A message is the list of the pieces that `format!` joins; the
-- place of the call that `#[track_caller]` records, and with it `Display`, are not modelled.
use duckdb_lance_conversion.Base.{
  ℕ, ◌≡◌, refl, sym, subst, Bool, true, false, Option, none, some, List, [], ◌∷◌, ◌++◌, String, Str,
  ◌⊎◌, inl, inr,
}

pub data Piece : Type 0 where
  lit : String → Piece
  txt : Str → Piece
  num : ℕ → Piece

abbrev pub Message : Type 0
Message = List Piece

pub data ErrorStatus : Type 0 where
  temporary permanent : ErrorStatus

-- `std::io::ErrorKind`, the kinds that the program tells apart.
pub data IoErrorKind : Type 0 where
  interrupted would_block timed_out : IoErrorKind
  other_kind : ℕ → IoErrorKind

-- The errors of other crates that become an `Error`.
pub data Cause : Type 0 where
  arrow_error lance_error parquet_error join_error parse_error utf8_error : Message → Cause
  io_error : IoErrorKind → Cause
  opendal_error : Bool → Cause

pub record Error : Type 0 where
  pub message : Message
  pub status : ErrorStatus
  pub source : Option Cause

pub data Result {ℓ} (A : Type ℓ) : Type ℓ where
  ok : A → Result A
  err : Error → Result A

infixl 5 ◌>>=◌
infixl 5 ◌>>◌
-- `?`: the rest runs on the value, and an error is the whole result.
abbrev pub ◌>>=◌ {κ ℓ} : {B : Type κ} {A : Type ℓ} → Result A → (A → Result B) → Result B
ok value >>= rest = rest value
err error >>= rest = err error

abbrev pub ◌>>◌ {ℓ} : {A : Type ℓ} → Result (Unit {0}) → Result A → Result A
check >> rest = check >>= λ passed. rest

abbrev pub map_ok {ℓ κ} : {A : Type ℓ} {B : Type κ} → (A → B) → Result A → Result B
map_ok f (ok a) = ok (f a)
map_ok f (err e) = err e

-- `Error::message`.
abbrev pub error_message : Message → Error
error_message m = record { message = m; status = permanent; source = none }

abbrev pub fail {ℓ} : {A : Type ℓ} → Message → Result A
fail m = err (error_message m)

-- An early `return Err(..)` under a test.
abbrev pub bail_if : Bool → Message → Result (Unit {0})
bail_if true m = fail m
bail_if false m = ok tt

-- `Option::ok_or_else`.
abbrev pub ok_or {ℓ} : {A : Type ℓ} → Option A → Message → Result A
ok_or none m = fail m
ok_or (some a) m = ok a

-- `Error::from_source`.
unfoldable pub from_source : String → Bool → Cause → Error
from_source m true c = record { message = lit m ∷ []; status = temporary; source = some c }
from_source m false c = record { message = lit m ∷ []; status = permanent; source = some c }

abbrev pub is_temporary_kind : IoErrorKind → Bool
is_temporary_kind interrupted = true
is_temporary_kind would_block = true
is_temporary_kind timed_out = true
is_temporary_kind (other_kind n) = false

-- The `From` instances.
unfoldable pub from_cause : Cause → Error
unfolding from_source
from_cause (arrow_error m) = from_source "Arrow error" false (arrow_error m)
from_cause (lance_error m) = from_source "Lance error" false (lance_error m)
from_cause (parquet_error m) = from_source "Parquet error" false (parquet_error m)
from_cause (join_error m) = from_source "async task error" false (join_error m)
from_cause (parse_error m) = from_source "URL parse error" false (parse_error m)
from_cause (utf8_error m) = from_source "UTF-8 decode error" false (utf8_error m)
from_cause (io_error k) = from_source "I/O error" (is_temporary_kind k) (io_error k)
from_cause (opendal_error t) = from_source "OpenDAL error" t (opendal_error t)

abbrev pub with_context : Error → Message → Error
with_context e c = record e { message = c ++ (lit ": " ∷ e.message) }

-- `ResultExt::context` on an `Error`.
unfoldable pub context {ℓ} : {A : Type ℓ} → Result A → Message → Result A
context (ok a) c = ok a
context (err e) c = err (with_context e c)

-- The value that a successful chain passed on.
pub >>=-eq-ok {ℓ κ} :
    {B : Type κ} {A : Type ℓ} (first : Result A) (rest : A → Result B) {last : B}
    → (first >>= rest) ≡ ok last
    → (value : A) × (first ≡ ok value) × (rest value ≡ ok last)
>>=-eq-ok (err error) rest e = cc
>>=-eq-ok (ok value) rest e = (value, refl, e)

pub Result-cases {ℓ} :
    {A : Type ℓ} (r : Result A) → ((e : Error) × (r ≡ err e)) ⊎ ((a : A) × (r ≡ ok a))
Result-cases (ok a) = inr (a, refl)
Result-cases (err e) = inl (e, refl)

-- The value of a success satisfies the predicate.
abbrev pub Yields {ℓ κ} : {A : Type ℓ} → (A → Type κ) → Result A → Type κ
Yields P (ok a) = P a
Yields P (err e) = Unit

abbrev pub IsOk {ℓ} : {A : Type ℓ} → Result A → Type 0
IsOk (ok a) = Unit {0}
IsOk (err e) = ⊥

pub Yields-bind {ℓ κ μ ν} :
    {A : Type ℓ} {B : Type κ} (Q : A → Type μ) (P : B → Type ν) (m : Result A) (f : A → Result B)
    → Yields Q m
    → ((a : A) → Q a → Yields P (f a))
    → Yields P (m >>= f)
Yields-bind Q P (ok a) f q k = k a q
Yields-bind Q P (err e) f q k = tt

pub Yields-ok {ℓ κ} :
    {A : Type ℓ} (P : A → Type κ) (m : Result A) (a : A) → m ≡ ok a → Yields P m → P a
Yields-ok P m a e h = subst (Yields P) e h

module _ {ℓ κ μ ν} {A : Type ℓ} (P : A → Type κ) (Q : A → Type μ) (R : A → Type ν) where
  pub Yields-all :
      (m : Result A) → Yields P m → Yields Q m → Yields R m → Yields (λ a. P a × Q a × R a) m
  Yields-all (ok a) p q r = (p, q, r)
  Yields-all (err e) p q r = tt

pub Yields-trivial {ℓ} : {A : Type ℓ} (m : Result A) → Yields (λ a. Unit {0}) m
Yields-trivial (ok a) = tt
Yields-trivial (err e) = tt

pub IsOk-of_map {ℓ κ} :
    {A : Type ℓ} {B : Type κ} (m : Result A) (f : A → B) → IsOk (m >>= λ a. ok (f a)) → IsOk m
IsOk-of_map (ok a) f h = tt
IsOk-of_map (err e) f h = h

pub IsOk-map {ℓ κ} :
    {A : Type ℓ} {B : Type κ} (m : Result A) (f : A → B) → IsOk m → IsOk (m >>= λ a. ok (f a))
IsOk-map (ok a) f h = tt
IsOk-map (err e) f h = h

pub IsOk-of_eq {ℓ} : {A : Type ℓ} {m : Result A} {a : A} → m ≡ ok a → IsOk m
IsOk-of_eq e = subst IsOk (sym e) tt

pub Yields-map {ℓ κ μ} :
    {A : Type ℓ} (P : A → Type κ) (Q : A → Type μ) (m : Result A)
    → ((a : A) → P a → Q a)
    → Yields P m
    → Yields Q m
Yields-map P Q (ok a) f p = f a p
Yields-map P Q (err e) f p = tt

-- A chain behind an early return that succeeds: the test was false.
pub bailed :
    {A : Type 0} (b : Bool) (m : Message) (rest : Result A) (a : A)
    → (bail_if b m >> rest) ≡ ok a
    → (b ≡ false) × (rest ≡ ok a)
bailed true m rest a e = cc
bailed false m rest a e = (refl, e)

pub ok-injective : {A : Type 0} (a b : A) → ok a ≡ ok b → a ≡ b
ok-injective a b e = cc

-- What a converted result was, where it is a value.
pub ok_or-of_ok : {A : Type 0} (o : Option A) (m : Message) (a : A) → ok_or o m ≡ ok a → o ≡ some a
ok_or-of_ok none m a e = cc
ok_or-of_ok (some b) m a e = cc

pub context-of_ok :
    {A : Type 0} (r : Result A) (m : Message) (a : A) → context r m ≡ ok a → r ≡ ok a
unfolding context
context-of_ok (ok b) m a e = e
context-of_ok (err x) m a e = cc
