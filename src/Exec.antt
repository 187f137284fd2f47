-- ===== src/Exec.antt =====
-- What a call of a C function does: it returns, or it runs into undefined behaviour or a block.
-- `Exec S A` is a call over the globals `S`.
use statsd_c.Base.{Bool, true, false, ◌≡◌, arith}

pub data Fault : Type 0 where
  -- a write past the end of a fixed-size buffer
  overflow : Fault
  -- a use of a pointer that was never set, of NULL, and of freed memory
  uninitialised null_pointer use_after_free : Fault
  -- a json-c call on json-c's error pointer or on a value of another type
  bad_json : Fault
  -- a read past the end of an array
  out_of_bounds : Fault
  -- `sem_wait` on a semaphore that nobody posts
  blocked : Fault
  -- a signal that ends the process
  killed : Fault

pub data Result {ℓ} (A : Type ℓ) : Type ℓ where
  ok : A → Result A
  fault : Fault → Result A

-- The result of a call handed on.
abbrev pub and_then {ℓ κ} : {A : Type ℓ} {B : Type κ} → Result A → (A → Result B) → Result B
and_then (ok a) f = f a
and_then (fault e) f = fault e

abbrev pub Exec : Type 0 → Type 0 → Type 0
Exec S A = S → Result (A × S)

module _ {S : Type 0} where
  abbrev pub pure : {A : Type 0} → A → Exec S A
  pure a s = ok (a, s)

  abbrev pub raise : {A : Type 0} → Fault → Exec S A
  raise f s = fault f

  abbrev pub gets : {A : Type 0} → (S → A) → Exec S A
  gets f s = ok (f s, s)

  abbrev pub modify : (S → S) → Exec S (Unit {0})
  modify f s = ok (tt, f s)

  infixl 5 ◌>>=◌ ◌>>◌
  abbrev pub ◌>>=◌ : {A B : Type 0} → Exec S A → (A → Exec S B) → Exec S B
  ◌>>=◌ m f s = elim (m s) [ ok (a, s') ↦ f a s' | fault e ↦ fault e ]

  abbrev pub ◌>>◌ : {B : Type 0} → Exec S (Unit {0}) → Exec S B → Exec S B
  m >> k = m >>= λ _. k

  -- A call that returns or faults, inside a handler.
  abbrev pub lift : {A : Type 0} → Result A → Exec S A
  lift (ok a) s = ok (a, s)
  lift (fault e) s = fault e

  -- The fault unless the test holds.
  abbrev pub check : Bool → Fault → Exec S (Unit {0})
  check true f s = ok (tt, s)
  check false f s = fault f

  -- One step of a chain whose call is known to return.
  pub bind-ok :
      {A B : Type 0} (m : Exec S A) (f : A → Exec S B) {s s' : S} {a : A}
      → m s ≡ ok (a, s')
      → (m >>= f) s ≡ f a s'
  bind-ok m f e = ground arith

  pub bind-fault :
      {A B : Type 0} (m : Exec S A) (f : A → Exec S B) {s : S} {e : Fault}
      → m s ≡ fault e
      → (m >>= f) s ≡ fault e
  bind-fault m f e = ground arith
