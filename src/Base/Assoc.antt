-- ===== src/Base/Assoc.antt =====
-- Association lists in the order of insertion, with byte strings as keys: the abstract view of the
-- program's hash tables.
use mathlib.Core.Path.{◌≡◌, refl, ap₂}
use mathlib.Core.Bool.{false}
use mathlib.Core.Option
use mathlib.Core.Option.{Option, none, some}
use mathlib.Core.List.{List, [], ◌∷◌, ◌++◌, map}
use native.Mathlib.Omega.{arith}
use mathlib.Core.Logic.{inl, inr}
use statsd_c.Base.Tests.{if◌then◌else◌, Bool-cases}
use statsd_c.Base.Lists.{All, All-append}
use statsd_c.Base.Text.{Bytes, bytes_eq, bytes_eq_iff, bytes_eq_self}

abbrev pub Assoc {ℓ} : Type ℓ → Type ℓ
Assoc V = List (Bytes × V)

module _ {ℓ} {V : Type ℓ} where
  -- The first entry of the key.
  unfoldable pub lookup : Bytes → Assoc V → Option V
  lookup k [] = none
  lookup k ((j, v) ∷ l) = if bytes_eq j k then some v else lookup k l

  -- Overwrite the first entry of the key; nothing happens if there is none.
  unfoldable pub replace : Bytes → V → Assoc V → Assoc V
  replace k v [] = []
  replace k v ((j, w) ∷ l) = if bytes_eq j k then (j, v) ∷ l else (j, w) ∷ replace k v l

  -- Change the entry of the key in place, or append a new one.
  unfoldable pub alter : Bytes → (Option V → V) → Assoc V → Assoc V
  alter k f [] = (k, f none) ∷ []
  alter k f ((j, w) ∷ l) = if bytes_eq j k then (j, f (some w)) ∷ l else (j, w) ∷ alter k f l

  pub alter-eq-append :
      (k : Bytes) (f : Option V → V) (l : Assoc V)
      → lookup k l ≡ none
      → alter k f l ≡ l ++ (k, f none) ∷ []
  unfolding lookup alter
  alter-eq-append k f [] h = refl
  alter-eq-append k f ((j, w) ∷ l) h = ground (arith, alter-eq-append k f l)

  pub alter-eq-replace :
      (k : Bytes) (f : Option V → V) (l : Assoc V) {v : V}
      → lookup k l ≡ some v
      → alter k f l ≡ replace k (f (some v)) l
  unfolding lookup alter replace
  alter-eq-replace k f [] h = ground arith
  alter-eq-replace k f ((j, w) ∷ l) {v} h = ground (arith, alter-eq-replace k f l {v = v})

  pub lookup-alter :
      (k j : Bytes) (f : Option V → V) (l : Assoc V)
      → lookup j (alter k f l) ≡ (if bytes_eq k j then some (f (lookup k l)) else lookup j l)
  unfolding lookup alter
  lookup-alter k j f [] = ground arith
  lookup-alter k j f ((i, w) ∷ l) =
      ground (arith, bytes_eq_iff k j, bytes_eq_iff i k, bytes_eq_iff i j, lookup-alter k j f l)

module _ {ℓ κ} {V : Type ℓ} {W : Type κ} (g : V → W) where
  -- The same entries with `g` of each value.
  abbrev pub map_values : Assoc V → Assoc W
  map_values = map (λ e. (e.0, g e.1))

  pub lookup-map_values :
      (k : Bytes) (l : Assoc V) → lookup k (map_values l) ≡ Option.map g (lookup k l)
  unfolding lookup
  lookup-map_values k [] = refl
  lookup-map_values k ((j, v) ∷ l) = ground (arith, lookup-map_values k l)

  pub map_values-replace :
      (k : Bytes) (v : V) (l : Assoc V)
      → map_values (replace k v l) ≡ replace k (g v) (map_values l)
  unfolding replace
  map_values-replace k v [] = refl
  map_values-replace k v ((j, w) ∷ l) = ground (arith, map_values-replace k v l)

  -- `f` on the values is `h` on their images.
  pub map_values-alter :
      (k : Bytes) (f : Option V → V) (h : Option W → W) (l : Assoc V)
      → ((o : Option V) → g (f o) ≡ h (Option.map g o))
      → map_values (alter k f l) ≡ alter k h (map_values l)
  unfolding alter
  map_values-alter k f h [] e = ground (arith, e none)
  map_values-alter k f h ((j, v) ∷ l) e = ground (arith, e (some v), map_values-alter k f h l e)

  -- What holds of every image holds of the values.
  pub All-map_values {μ} :
      (Q : W → Type μ) (l : Assoc V)
      → ((v : V) → Q (g v))
      → All (λ (e : Bytes × W). Q e.1) (map_values l)
  All-map_values Q [] h = tt
  All-map_values Q ((j, v) ∷ l) h = (h v, All-map_values Q l h)

pub map_values-map_values {ℓ κ μ} :
    {V : Type ℓ} {W : Type κ} {X : Type μ} (g : V → W) (f : W → X) (h : V → X) (l : Assoc V)
    → ((v : V) → f (g v) ≡ h v)
    → map_values f (map_values g l) ≡ map_values h l
map_values-map_values g f h [] e = refl
map_values-map_values g f h ((j, v) ∷ l) e =
    ap₂ (λ x r. (j, x) ∷ r) (e v) (map_values-map_values g f h l e)

-- What holds of the values holds after a change that keeps it.
pub All-alter {ℓ κ} :
    {V : Type ℓ} (Q : V → Type κ) (k : Bytes) (f : Option V → V) (l : Assoc V)
    → Q (f none)
    → ((v : V) → Q v → Q (f (some v)))
    → All (λ (e : Bytes × V). Q e.1) l
    → All (λ (e : Bytes × V). Q e.1) (alter k f l)
unfolding alter
All-alter Q k f [] new keep a = (new, a)
All-alter Q k f ((j, v) ∷ l) new keep a = elim (Bool-cases (bytes_eq j k)) [
  | inl same ↦ rw same (keep v a.0, a.1)
  | inr other ↦ rw other (a.0, All-alter Q k f l new keep a.1)
]

-- The last of two writes counts.
pub replace-replace {ℓ} :
    {V : Type ℓ} (k : Bytes) (v w : V) (l : Assoc V) → replace k w (replace k v l) ≡ replace k w l
unfolding replace
replace-replace k v w [] = refl
replace-replace k v w ((j, u) ∷ l) = ground (arith, replace-replace k v w l)

-- No entry has the key.
abbrev pub Absent {ℓ} : {V : Type ℓ} → Bytes → Assoc V → Type 0
Absent k = All (λ e. bytes_eq e.0 k ≡ false)

-- No two entries have the same key.
abbrev pub Distinct {ℓ} : {V : Type ℓ} → Assoc V → Type 0
Distinct [] = Unit
Distinct ((k, v) ∷ l) = Absent k l × Distinct l

-- A write to a key passes over the entries of other keys.
pub replace-append {ℓ} :
    {V : Type ℓ} (k : Bytes) (v w : V) (a b : Assoc V)
    → Absent k a
    → replace k v (a ++ (k, w) ∷ b) ≡ a ++ (k, v) ∷ b
unfolding replace
replace-append k v w [] b h = ground (arith, bytes_eq_self k)
replace-append k v w (e ∷ a) b h = ground (arith, replace-append k v w a b h.1, h.0)

-- The absence of each key of one list from another.
abbrev pub Apart {ℓ κ} : {V : Type ℓ} {W : Type κ} → Assoc V → Assoc W → Type 0
Apart a b = All (λ e. Absent e.0 a) b

Absent-concat {ℓ} :
    {V : Type ℓ} (k j : Bytes) (v : V) (l : Assoc V)
    → Absent k l
    → bytes_eq j k ≡ false
    → Absent k (l ++ (j, v) ∷ [])
Absent-concat k j v l h e = All-append _ l ((j, v) ∷ []) h (e, tt)

pub Apart-concat {ℓ κ} :
    {V : Type ℓ} {W : Type κ} (k : Bytes) (v : V) (done : Assoc V) (cs : Assoc W)
    → Absent k cs
    → Apart done cs
    → Apart (done ++ (k, v) ∷ []) cs
Apart-concat k v done [] d a = tt
Apart-concat k v done ((j, w) ∷ cs) d a = (
  Absent-concat j k v done a.0 (ground (arith, bytes_eq_iff k j, bytes_eq_iff j k, d.0)),
  Apart-concat k v done cs d.1 a.1,
)

pub Apart-nil {ℓ κ} : (V : Type ℓ) {W : Type κ} (cs : Assoc W) → Apart {V = V} [] cs
Apart-nil V [] = tt
Apart-nil V (e ∷ cs) = (tt, Apart-nil V cs)

pub lookup-Absent {ℓ} : {V : Type ℓ} (k : Bytes) (l : Assoc V) → Absent k l → lookup k l ≡ none
unfolding lookup
lookup-Absent k [] h = refl
lookup-Absent k (e ∷ l) h = ground (arith, lookup-Absent k l h.1, h.0)

Absent-alter {ℓ} :
    {V : Type ℓ} (j k : Bytes) (f : Option V → V) (l : Assoc V)
    → bytes_eq k j ≡ false
    → Absent j l
    → Absent j (alter k f l)
unfolding alter
Absent-alter j k f [] other h = (other, tt)
Absent-alter j k f ((i, w) ∷ l) other h = elim (Bool-cases (bytes_eq i k)) [
  | inl same ↦ rw same h
  | inr apart ↦ rw apart (h.0, Absent-alter j k f l other h.1)
]

pub Distinct-alter {ℓ} :
    {V : Type ℓ} (k : Bytes) (f : Option V → V) (l : Assoc V) → Distinct l → Distinct (alter k f l)
unfolding alter
Distinct-alter k f [] d = (tt, tt)
Distinct-alter k f ((j, w) ∷ l) d = elim (Bool-cases (bytes_eq j k)) [
  | inl same ↦ rw same d
  | inr apart ↦ rw apart (
    Absent-alter j k f l (ground (arith, bytes_eq_iff k j, bytes_eq_iff j k, apart)) d.0,
    Distinct-alter k f l d.1,
  )
]

module _ {ℓ κ} {V : Type ℓ} {W : Type κ} (g : V → W) where
  Absent-map_values : (k : Bytes) (l : Assoc V) → Absent k l → Absent k (map_values g l)
  Absent-map_values k [] h = tt
  Absent-map_values k (e ∷ l) h = (h.0, Absent-map_values k l h.1)

  pub Distinct-map_values : (l : Assoc V) → Distinct l → Distinct (map_values g l)
  Distinct-map_values [] d = tt
  Distinct-map_values ((k, v) ∷ l) d = (Absent-map_values k l d.0, Distinct-map_values l d.1)

  Absent-of_map_values : (k : Bytes) (l : Assoc V) → Absent k (map_values g l) → Absent k l
  Absent-of_map_values k [] h = tt
  Absent-of_map_values k (e ∷ l) h = (h.0, Absent-of_map_values k l h.1)

  pub Distinct-of_map_values : (l : Assoc V) → Distinct (map_values g l) → Distinct l
  Distinct-of_map_values [] d = tt
  Distinct-of_map_values ((k, v) ∷ l) d =
      (Absent-of_map_values k l d.0, Distinct-of_map_values l d.1)

-- The first entry of a key is found behind entries of other keys.
pub lookup-append {ℓ} :
    {V : Type ℓ} (k : Bytes) (v : V) (a b : Assoc V)
    → Absent k a
    → lookup k (a ++ (k, v) ∷ b) ≡ some v
unfolding lookup
lookup-append k v [] b h = ground (arith, bytes_eq_self k)
lookup-append k v (e ∷ a) b h = ground (arith, lookup-append k v a b h.1, h.0)

-- A write is read back, if there is an entry.
pub lookup-replace {ℓ} :
    {V : Type ℓ} (k : Bytes) (v w : V) (l : Assoc V)
    → lookup k l ≡ some v
    → lookup k (replace k w l) ≡ some w
unfolding lookup replace
lookup-replace k v w [] h = ground (arith, h)
lookup-replace k v w ((j, u) ∷ l) h = elim (Bool-cases (bytes_eq j k)) [
  | inl same ↦ rw same (rw same refl)
  | inr other ↦ ground (arith, other, h, lookup-replace k v w l)
]
