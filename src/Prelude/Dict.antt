-- ===== src/Prelude/Dict.antt =====
-- A Python `dict` with text keys, in insertion order, and a `set` of texts.
use Prim.Native.String.{String}
use mathlib.Core.Path.{◌≡◌, refl, subst}
use mathlib.Core.Bool.{Bool, false, ◌||◌}
use mathlib.Core.Option.{Option, none, some, some-injective}
use mathlib.Core.Logic.{inl, inr}
use mathlib.Core.List.{List, [], ◌∷◌, ◌++◌}
use native.Mathlib.Omega.{arith}
use quant_stuff.Prelude.Tests.{if◌then◌else◌, is_some, Bool-cases}
use quant_stuff.Prelude.Lists.{All}
use quant_stuff.Prelude.Text.{str_eq, str_eq_iff}

abbrev pub Dict {ℓ} : Type ℓ → Type ℓ
Dict V = List (String × V)

module _ {ℓ} {V : Type ℓ} where
  unfoldable pub lookup : String → Dict V → Option V
  lookup k [] = none
  lookup k ((j, v) ∷ d) = if str_eq j k then some v else lookup k d

  -- `k in d`
  abbrev pub contains : String → Dict V → Bool
  contains k d = is_some (lookup k d)

  -- `d[k] = v`: a key that is there keeps its place
  unfoldable pub insert : String → V → Dict V → Dict V
  insert k v [] = (k, v) ∷ []
  insert k v ((j, w) ∷ d) = if str_eq j k then (j, v) ∷ d else (j, w) ∷ insert k v d

  -- `d.pop(k, None)`, without the value; keys that `insert` keeps apart stand once
  unfoldable pub erase : String → Dict V → Dict V
  erase k [] = []
  erase k ((j, v) ∷ d) = if str_eq j k then erase k d else (j, v) ∷ erase k d

  -- `d.values()`
  unfoldable pub values : Dict V → List V
  values [] = []
  values ((j, v) ∷ d) = v ∷ values d

  pub lookup-All {κ} :
      (P : V → Type κ) (k : String) (v : V) (d : Dict V)
      → All P (values d)
      → lookup k d ≡ some v
      → P v
  unfolding lookup values
  lookup-All P k v [] h e = cc
  lookup-All P k v ((j, w) ∷ d) h e = elim (Bool-cases (str_eq j k)) [
    | inl b ↦ subst P (some-injective w v (rw b at e)) (h.0)
    | inr b ↦ lookup-All P k v d (h.1) (rw b at e)
  ]

  pub values-insert {κ} :
      (P : V → Type κ) (k : String) (v : V) (d : Dict V)
      → All P (values d)
      → P v
      → All P (values (insert k v d))
  unfolding values insert
  values-insert P k v [] h p = (p, tt)
  values-insert P k v ((j, w) ∷ d) h p = elim (Bool-cases (str_eq j k)) [
    | inl e ↦ rw e (p, h.1)
    | inr e ↦ rw e (h.0, values-insert P k v d (h.1) p)
  ]

  pub lookup-insert :
      (k j : String) (v : V) (d : Dict V)
      → lookup j (insert k v d) ≡ (if str_eq k j then some v else lookup j d)
  unfolding lookup insert
  lookup-insert k j v [] = refl
  lookup-insert k j v ((i, w) ∷ d) =
      ground (arith, str_eq_iff k j, str_eq_iff i k, str_eq_iff i j, lookup-insert k j v d)

  pub lookup-erase :
      (k j : String) (d : Dict V) → lookup j (erase k d) ≡ (if str_eq k j then none else lookup j d)
  unfolding lookup erase
  lookup-erase k j [] = ground arith
  lookup-erase k j ((i, w) ∷ d) =
      ground (arith, str_eq_iff k j, str_eq_iff i k, str_eq_iff i j, lookup-erase k j d)

-- `k in s`, for a set held as a list
unfoldable pub member : String → List String → Bool
member k [] = false
member k (j ∷ s) = str_eq j k || member k s

-- `s.add(k)`
unfoldable pub add : String → List String → List String
unfolding member
add k s = if member k s then s else s ++ (k ∷ [])

-- `s.discard(k)`
unfoldable pub discard : String → List String → List String
discard k [] = []
discard k (j ∷ s) = if str_eq j k then discard k s else j ∷ discard k s

pub member-append :
    (k : String) (s t : List String) → member k (s ++ t) ≡ (member k s || member k t)
unfolding member
member-append k [] t = refl
member-append k (j ∷ s) t = ground (arith, member-append k s t)

pub member-add : (k j : String) (s : List String) → member j (add k s) ≡ (str_eq k j || member j s)
unfolding add member
member-add k j s = ground (arith, member-append j s (k ∷ []), str_eq_iff k j)

pub member-discard :
    (k j : String) (s : List String)
    → member j (discard k s) ≡ (if str_eq k j then false else member j s)
unfolding discard member
member-discard k j [] = ground arith
member-discard k j (i ∷ s) =
    ground (arith, str_eq_iff k j, str_eq_iff i k, str_eq_iff i j, member-discard k j s)
