-- ===== src/Common/Maps.antt =====
-- std::unordered_map<std::string, V>, as an association list. `lookup` is find, `insert` is
-- insert_or_assign and operator[] =, `erase` is erase. The order of iteration is that of the list.
use Prim.Native.String.{String}
use mathlib.Core.Path.{◌≡◌, refl, subst}
use mathlib.Core.List.{List, [], ◌∷◌}
use mathlib.Core.Option.{Option, none, some}
use mathlib.Core.Logic.{inl, inr}
use native.Mathlib.Omega.{arith}
use text.Mathlib.TextEquality.{eq_iff}
use coroutine_rpc_scheduler.Common.Tests.{str_eq, if◌then◌else◌, Bool-cases}

abbrev pub StringMap {ℓ} : Type ℓ → Type ℓ
StringMap V = List (String × V)

module _ {ℓ} {V : Type ℓ} where
  unfoldable pub lookup : String → StringMap V → Option V
  lookup key [] = none
  lookup key (entry ∷ rest) = if str_eq entry.0 key then some entry.1 else lookup key rest

  unfoldable pub insert : String → V → StringMap V → StringMap V
  insert key value [] = (key, value) ∷ []
  insert key value (entry ∷ rest) =
      let after = insert key value rest in
      if str_eq entry.0 key then (key, value) ∷ rest else entry ∷ after

  unfoldable pub erase : String → StringMap V → StringMap V
  erase k [] = []
  erase k ((j, v) ∷ m) = let rest = erase k m in if str_eq j k then rest else (j, v) ∷ rest

  pub lookup-insert :
      (key other : String) (value : V) (m : StringMap V)
      → lookup other (insert key value m)
        ≡ (if str_eq key other then some value else lookup other m)
  unfolding lookup insert
  lookup-insert key other value [] = refl
  lookup-insert key other value (entry ∷ rest) = ground (
    arith,
    lookup-insert key other value rest,
    eq_iff entry.0 key,
    eq_iff entry.0 other,
    eq_iff key other,
  )

  pub lookup-erase :
      (k j : String) (m : StringMap V)
      → lookup j (erase k m) ≡ (if str_eq k j then none else lookup j m)
  unfolding lookup erase
  lookup-erase k j [] = ground arith
  lookup-erase k j ((i, v) ∷ m) =
      ground (arith, lookup-erase k j m, eq_iff i k, eq_iff i j, eq_iff k j)

  -- A predicate of every value.
  abbrev pub AllValues {κ} : (V → Type κ) → StringMap V → Type κ
  AllValues P [] = Unit {κ}
  AllValues P ((k, v) ∷ m) = P v × AllValues P m

  pub insert-AllValues {κ} :
      (P : V → Type κ) (k : String) (v : V) (m : StringMap V)
      → P v
      → AllValues P m
      → AllValues P (insert k v m)
  unfolding insert
  insert-AllValues P k v [] p h = (p, tt)
  insert-AllValues P k v ((j, w) ∷ m) p (q, h) = elim (Bool-cases (str_eq j k)) [
    | inl e ↦ rw e (p, h)
    | inr e ↦ rw e (q, insert-AllValues P k v m p h)
  ]

  pub erase-AllValues {κ} :
      (P : V → Type κ) (k : String) (m : StringMap V) → AllValues P m → AllValues P (erase k m)
  unfolding erase
  erase-AllValues P k [] h = h
  erase-AllValues P k ((j, w) ∷ m) (q, h) = elim (Bool-cases (str_eq j k)) [
    | inl e ↦ rw e (erase-AllValues P k m h)
    | inr e ↦ rw e (q, erase-AllValues P k m h)
  ]

  pub lookup-AllValues {κ} :
      (P : V → Type κ) (k : String) {v : V} (m : StringMap V)
      → AllValues P m
      → lookup k m ≡ some v
      → P v
  unfolding lookup
  lookup-AllValues P k [] h e = cc
  lookup-AllValues P k {v} ((j, w) ∷ m) (q, h) e = elim (Bool-cases (str_eq j k)) [
    | inl hit ↦ let same : some w ≡ some v = rw hit at e in let w≡v : w ≡ v = cc in subst P w≡v q
    | inr miss ↦ lookup-AllValues P k m h (rw miss at e)
  ]
