-- ===== src/Prelude/Results.antt =====
-- A contract call ends with a value, or panics with a message; a panic undoes the whole call.
use Prim.Native.String.{String}
use mathlib.Core.Path.{◌≡◌, refl, subst}
use mathlib.Core.Logic.{◌⊎◌, inl, inr}
use mathlib.Core.Bool.{Bool, true, false}
use mathlib.Core.Option.{Option, none, some}
use mathlib.Core.List.{List}
use Prim.Native.Nat.{ℕ}
use heroes_contracts.Prelude.Tests.{if◌then◌else◌}
use heroes_contracts.Prelude.Lists.{get_elem?, set, is_some}

pub data Result {ℓ} (A : Type ℓ) : Type ℓ where
  panic : String → Result A
  ok : A → Result A

infixl 5 ◌>>=◌ ◌>>◌
abbrev pub ◌>>=◌ {κ ℓ} : {S : Type κ} {T : Type ℓ} → Result S → (S → Result T) → Result T
panic message >>= next = panic message
ok value >>= next = next value

abbrev pub ◌>>◌ {ℓ} : {T : Type ℓ} → Result (Unit {0}) → Result T → Result T
check >> rest = check >>= λ passed. rest

-- `assert!(b, message)`.
abbrev pub assert : Bool → String → Result (Unit {0})
assert false message = panic message
assert true message = ok tt

-- `Option::expect`.
abbrev pub expect {ℓ} : {A : Type ℓ} → Option A → String → Result A
expect none e = panic e
expect (some a) e = ok a

-- `Option::unwrap`.
abbrev pub unwrap {ℓ} : {A : Type ℓ} → Option A → Result A
unwrap o = expect o "called `Option::unwrap()` on a `None` value"

-- `unreachable!()`.
abbrev pub unreachable {ℓ} : {A : Type ℓ} → Result A
unreachable = panic "internal error: entered unreachable code"

-- `v[i]`.
abbrev pub index {ℓ} : {A : Type ℓ} → List A → ℕ → Result A
index xs i = expect (get_elem? xs i) "index out of bounds"

-- `v[i] = x`.
abbrev pub set_index {ℓ} : {A : Type ℓ} → List A → ℕ → A → Result (List A)
set_index xs i x = if is_some (get_elem? xs i) then ok (set xs i x) else panic "index out of bounds"

pub >>=-eq-ok {κ ℓ} :
    {S : Type κ} {T : Type ℓ} (r : Result S) (next : S → Result T) {t : T}
    → (r >>= next) ≡ ok t
    → (value : S) × (r ≡ ok value) × (next value ≡ ok t)
>>=-eq-ok (panic message) next e = cc
>>=-eq-ok (ok value) next e = (value, refl, e)

pub expect-eq-ok {ℓ} :
    {A : Type ℓ} (o : Option A) (e : String) {a : A} → expect o e ≡ ok a → o ≡ some a
expect-eq-ok none e h = cc
expect-eq-ok (some a) e h = cc

pub Result-cases {ℓ} :
    {A : Type ℓ} (r : Result A) → ((a : A) × (r ≡ ok a)) ⊎ ((e : String) × (r ≡ panic e))
Result-cases (ok a) = inl (a, refl)
Result-cases (panic e) = inr (e, refl)

-- Every value with which a call ends has the property.
pub data Ensures {A : Type 0} (P : A → Type 0) : Result A → Type 0 where
  done : {a : A} → P a → Ensures P (ok a)
  stopped : {e : String} → Ensures P (panic e)

pub ok-injective {ℓ} : {A : Type ℓ} {a b : A} → Result.ok a ≡ ok b → a ≡ b
ok-injective e = cc

module _ {A : Type 0} (P : A → Type 0) where
  pub Ensures-ok : (r : Result A) {a : A} → Ensures P r → r ≡ ok a → P a
  Ensures-ok (ok b) (done h) e = subst P (ok-injective e) h
  Ensures-ok (panic s) h e = cc

  pub Ensures-intro : (r : Result A) → ((a : A) → r ≡ ok a → P a) → Ensures P r
  Ensures-intro (ok a) h = done (h a refl)
  Ensures-intro (panic e) h = stopped

  pub Ensures-bind :
      {B : Type 0} (m : Result B) (f : B → Result A)
      → ((b : B) → m ≡ ok b → Ensures P (f b))
      → Ensures P (m >>= f)
  Ensures-bind (ok b) f h = h b refl
  Ensures-bind (panic e) f h = stopped

  pub Ensures-assert :
      (b : Bool) (e : String) (k : Result A)
      → (b ≡ true → Ensures P k)
      → Ensures P (assert b e >> k)
  Ensures-assert true e k h = h refl
  Ensures-assert false e k h = stopped

  pub Ensures-if :
      (b : Bool) (r s : Result A)
      → (b ≡ true → Ensures P r)
      → (b ≡ false → Ensures P s)
      → Ensures P (if b then r else s)
  Ensures-if true r s h k = h refl
  Ensures-if false r s h k = k refl

pub Ensures-weaken :
    {A : Type 0} (P Q : A → Type 0) (r : Result A)
    → ((a : A) → P a → Q a)
    → Ensures P r
    → Ensures Q r
Ensures-weaken P Q (ok a) h (done p) = done (h a p)
Ensures-weaken P Q (panic e) h p = stopped

-- The call panics.
abbrev pub Panics {ℓ} : {A : Type ℓ} → Result A → Type ℓ
Panics {A = A} r = (message : String) × (r ≡ panic message)

-- The call ends, with a value.
abbrev pub Succeeds {ℓ} : {A : Type ℓ} → Result A → Type ℓ
Succeeds {A = A} r = (value : A) × (r ≡ ok value)

pub Succeeds-no_panic {ℓ} :
    {A : Type ℓ} (r : Result A) → ((e : String) → r ≡ panic e → ⊥) → Succeeds r
Succeeds-no_panic (ok a) h = (a, refl)
Succeeds-no_panic (panic e) h = elim (h e refl) [ ]

pub Panics-no_value {ℓ} : {A : Type ℓ} (r : Result A) → ((a : A) → r ≡ ok a → ⊥) → Panics r
Panics-no_value (panic e) h = (e, refl)
Panics-no_value (ok a) h = elim (h a refl) [ ]
