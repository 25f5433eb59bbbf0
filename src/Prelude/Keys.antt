-- ===== src/Prelude/Keys.antt =====
-- Association lists in which no key is bound twice, and how long they are.
use Prim.Native.Nat.{suc}
use mathlib.Core.Path.{◌≡◌, refl, ap, sym, ◌∙◌}
use mathlib.Core.Logic.{inl, inr}
use mathlib.Core.Option.{none, some}
use mathlib.Core.List.{List, [], ◌∷◌}
use native.Mathlib.Omega.{arith}
use polarix.Prelude.Tests.{Bool-cases}
use polarix.Prelude.Lists.{length}
use polarix.Prelude.Strings.{Text, same, same_iff, same_refl}
use polarix.Prelude.Assoc.{lookup, insert, delete, lookup-insert, lookup-delete}

module _ {ℓ} {V : Type ℓ} where
  abbrev pub HasDistinctKeys : List (Text × V) → Type ℓ
  HasDistinctKeys [] = Unit
  HasDistinctKeys ((k, v) ∷ m) = (lookup k m ≡ none) × HasDistinctKeys m

  pub delete-missing : (k : Text) (m : List (Text × V)) → lookup k m ≡ none → delete k m ≡ m
  unfolding lookup delete
  delete-missing k [] h = refl
  delete-missing k ((j, v) ∷ m) h = elim (Bool-cases (same j k)) [
    | inl e ↦ ground (arith, e, h)
    | inr e ↦
        let rest : lookup k m ≡ none = rw e at h in
        rw e (ap (λ (t : List (Text × V)). (j, v) ∷ t) (delete-missing k m rest))
  ]

  pub delete-HasDistinctKeys :
      (k : Text) (m : List (Text × V)) → HasDistinctKeys m → HasDistinctKeys (delete k m)
  unfolding delete
  delete-HasDistinctKeys k [] h = tt
  delete-HasDistinctKeys k ((j, v) ∷ m) h = elim (Bool-cases (same j k)) [
    | inl e ↦ rw e (delete-HasDistinctKeys k m h.1)
    | inr e ↦ rw e (
      lookup-delete k j m ∙ ground (arith, h.0, same_iff j k, same_iff k j),
      delete-HasDistinctKeys k m h.1,
    )
  ]

  pub length-delete :
      (k : Text) (v : V) (m : List (Text × V))
      → HasDistinctKeys m
      → lookup k m ≡ some v
      → suc (length (delete k m)) ≡ length m
  unfolding lookup delete
  length-delete k v [] h at = ground (arith, at)
  length-delete k v ((j, w) ∷ m) h at = elim (Bool-cases (same j k)) [
    | inl e ↦
        let is_k : j ≡ k = (same_iff j k).0 e in
        let gone : lookup k m ≡ none = sym (ap (λ (t : Text). lookup t m) is_k) ∙ h.0 in
        rw e (ap (λ (t : List (Text × V)). suc (length t)) (delete-missing k m gone))
    | inr e ↦
        let rest : lookup k m ≡ some v = rw e at at in rw e (ap suc (length-delete k v m h.1 rest))
  ]

  pub insert-HasDistinctKeys :
      (k : Text) (v : V) (m : List (Text × V)) → HasDistinctKeys m → HasDistinctKeys (insert k v m)
  unfolding insert lookup
  insert-HasDistinctKeys k v [] h = (refl, tt)
  insert-HasDistinctKeys k v ((j, w) ∷ m) h = elim (Bool-cases (same j k)) [
    | inl e ↦ rw e (ap (λ (t : Text). lookup t m) (sym ((same_iff j k).0 e)) ∙ h.0, h.1)
    | inr e ↦ rw e (
      lookup-insert k j v m ∙ ground (arith, h.0, same_iff j k, same_iff k j),
      insert-HasDistinctKeys k v m h.1,
    )
  ]

  pub length-insert :
      (k : Text) (v : V) (m : List (Text × V))
      → lookup k m ≡ none
      → length (insert k v m) ≡ suc (length m)
  unfolding lookup insert
  length-insert k v [] h = refl
  length-insert k v ((j, w) ∷ m) h = elim (Bool-cases (same j k)) [
    | inl e ↦ ground (arith, e, h)
    | inr e ↦ let rest : lookup k m ≡ none = rw e at h in rw e (ap suc (length-insert k v m rest))
  ]

  -- A list in which every key looks up nothing is empty.
  pub empty-lookup : (m : List (Text × V)) → ((k : Text) → lookup k m ≡ none) → m ≡ []
  unfolding lookup
  empty-lookup [] h = refl
  empty-lookup ((j, v) ∷ m) h =
      let at_head : lookup j ((j, v) ∷ m) ≡ none = h j in ground (arith, at_head, same_refl j)
