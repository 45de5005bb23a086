-- ===== src/Common/Dicts.antt =====
-- Python's `dict` with text keys, in insertion order: an assignment to a key that is there keeps
-- its place, a new key goes to the end.
use Prim.Native.String.{String}
use mathlib.Core.Path.{◌≡◌, refl, ap, sym, subst}
use mathlib.Core.Bool.{Bool, true, false, ◌&&◌, ◌||◌}
use mathlib.Core.Logic.{inl, inr}
use mathlib.Core.Option.{Option, none, some}
use mathlib.Core.List.{List, [], ◌∷◌, ◌++◌, map}
use native.Mathlib.Omega.{arith}
use text.Mathlib.Text.{◌==◌ as str_eq}
use text.Mathlib.TextEquality.{eq_iff}
use glados_docker.Common.Tests.{if◌then◌else◌, is_some, Bool-cases}
use glados_docker.Common.Lists.{all_of, any_of, keep}

abbrev pub Dict {ℓ} : Type ℓ → Type ℓ
Dict V = List (String × V)

-- `k in ks` for a collection of texts.
abbrev pub mem_text : String → List String → Bool
mem_text j ks = any_of (λ k. str_eq k j) ks

module _ {ℓ} {V : Type ℓ} where
  -- `d.get(k)`
  unfoldable pub get : String → Dict V → Option V
  get k [] = none
  get k ((j, v) ∷ d) = if str_eq j k then some v else get k d

  -- `d[k] = v`
  unfoldable pub put : String → V → Dict V → Dict V
  put k v [] = (k, v) ∷ []
  put k v ((j, w) ∷ d) = if str_eq j k then (j, v) ∷ d else (j, w) ∷ put k v d

  -- `d.pop(k, None)`
  unfoldable pub remove : String → Dict V → Dict V
  remove k [] = []
  remove k ((j, v) ∷ d) = let rest = remove k d in if str_eq j k then rest else (j, v) ∷ rest

  -- `k in d`
  unfoldable pub has : String → Dict V → Bool
  unfolding get
  has k d = is_some (get k d)

  abbrev pub keys : Dict V → List String
  keys d = map (λ e. e.0) d

  abbrev pub values : Dict V → List V
  values d = map (λ e. e.1) d

  pub get-put :
      (k j : String) (v : V) (d : Dict V)
      → get j (put k v d) ≡ (if str_eq k j then some v else get j d)
  unfolding get put
  get-put k j v [] = refl
  get-put k j v ((i, w) ∷ d) = ground (arith, eq_iff k j, eq_iff i k, eq_iff i j, get-put k j v d)

  pub get-remove :
      (k j : String) (d : Dict V) → get j (remove k d) ≡ (if str_eq k j then none else get j d)
  unfolding get remove
  get-remove k j [] = ground arith
  get-remove k j ((i, w) ∷ d) = ground (arith, eq_iff k j, eq_iff i k, eq_iff i j, get-remove k j d)

  pub get-put_self : (k : String) (v : V) (d : Dict V) → get k (put k v d) ≡ some v
  get-put_self k v d = ground (arith, get-put k k v d, eq_iff k k)

  pub has-put_self : (k : String) (v : V) (d : Dict V) → has k (put k v d) ≡ true
  unfolding has
  has-put_self k v d = ground (arith, get-put_self k v d)

module _ {ℓ} {V : Type ℓ} where
  -- `for k in ks: d.pop(k, None)`
  unfoldable pub remove_all : List String → Dict V → Dict V
  remove_all [] d = d
  remove_all (k ∷ ks) d = remove_all ks (remove k d)

  pub get-remove_all :
      (ks : List String) (j : String) (d : Dict V)
      → get j (remove_all ks d) ≡ (if mem_text j ks then none else get j d)
  unfolding remove_all
  get-remove_all [] j d = refl
  get-remove_all (k ∷ ks) j d = ground (arith, get-remove_all ks j (remove k d), get-remove k j d)

pub all_of-put {ℓ} :
    {V : Type ℓ} (p : String × V → Bool) (k : String) (v : V) (d : Dict V)
    → p (k, v) ≡ true
    → all_of p d ≡ true
    → all_of p (put k v d) ≡ true
unfolding put
all_of-put p k v [] h a = ground arith
all_of-put p k v ((j, w) ∷ d) h a = elim (Bool-cases (str_eq j k)) [
  | inl same ↦
      let q : p (j, v) ≡ true = subst (λ i. p (i, v) ≡ true) (sym ((eq_iff j k).0 same)) h in
      rw same (ground (arith, q))
  | inr other ↦ rw other (ground (arith, all_of-put p k v d h))
]

pub all_of-remove {ℓ} :
    {V : Type ℓ} (p : String × V → Bool) (k : String) (d : Dict V)
    → all_of p d ≡ true
    → all_of p (remove k d) ≡ true
unfolding remove
all_of-remove p k [] a = refl
all_of-remove p k ((j, w) ∷ d) a = ground (arith, all_of-remove p k d)

pub mem_text-keep :
    (p : String → Bool) (j : String) (ks : List String)
    → mem_text j (keep p ks) ≡ (p j && mem_text j ks)
mem_text-keep p j [] = ground arith
mem_text-keep p j (k ∷ ks) = ground (arith, mem_text-keep p j ks, eq_iff k j)

pub mem_text-keys {ℓ} : {V : Type ℓ} (j : String) (d : Dict V) → mem_text j (keys d) ≡ has j d
unfolding has get
mem_text-keys j [] = refl
mem_text-keys j ((k, v) ∷ d) = ground (arith, mem_text-keys j d)

pub mem_text-append :
    (j k : String) (ks : List String) → mem_text j (ks ++ k ∷ []) ≡ (mem_text j ks || str_eq k j)
mem_text-append j k [] = ground arith
mem_text-append j k (i ∷ ks) = ground (arith, mem_text-append j k ks)

pub keys-append {ℓ} :
    {V : Type ℓ} (d : Dict V) (k : String) (v : V) → keys (d ++ (k, v) ∷ []) ≡ keys d ++ k ∷ []
keys-append [] k v = refl
keys-append ((j, w) ∷ d) k v = ap (◌∷◌ j) (keys-append d k v)

pub put-append {ℓ} :
    {V : Type ℓ} (k : String) (v : V) (d : Dict V)
    → mem_text k (keys d) ≡ false
    → put k v d ≡ d ++ (k, v) ∷ []
unfolding put
put-append k v [] h = refl
put-append k v ((j, w) ∷ d) h = ground (arith, put-append k v d)

pub ruleset dict_laws = (get-put, get-remove)
