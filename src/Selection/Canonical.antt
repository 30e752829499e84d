-- ===== src/Selection/Canonical.antt =====
-- The normal form of a selection depends on its set of keys alone.
use mathlib.Core.Quot
use mathlib.Core.Quot.{Quot, Quot-set}
use native.Mathlib.Nat.{ℕ_set}
use openapi_to.Common.{
  ◌++◌, text, All, text_lt, text_equality, true, ◌≡◌, ◌↔◌, sym, ap, ◌∙◌, List, [], ◌∷◌, Text,
  contains, SameElements, IsAscending, sorted_set-eq, sorted_set-IsAscending, contains-sorted_set,
  sorted_set_of_IsAscending,
}
use openapi_to.Selection.{
  normalize_keys, Manifest, hash_operation_selection, Semantic,
  operation_selection_manifest_version,
}

pub normalize_keys-IsAscending : (ks : List Text) → IsAscending (normalize_keys ks)
unfolding normalize_keys
normalize_keys-IsAscending ks = sorted_set-IsAscending ks

pub contains-normalize_keys :
    (ks : List Text) (k : Text) → contains (normalize_keys ks) k ≡ contains ks k
unfolding normalize_keys
contains-normalize_keys ks k = contains-sorted_set ks k

pub normalize_keys_of_IsAscending : (ks : List Text) → IsAscending ks → normalize_keys ks ≡ ks
unfolding normalize_keys
normalize_keys_of_IsAscending ks h = sorted_set_of_IsAscending ks h

-- Two lists of keys have the same normal form exactly when they hold the same keys.
pub normalize_keys-eq_iff :
    (ks ls : List Text) → (normalize_keys ks ≡ normalize_keys ls) ↔ SameElements ks ls
unfolding normalize_keys
normalize_keys-eq_iff ks ls = (
  λ e k. sym (contains-sorted_set ks k) ∙ ap (λ xs. contains xs k) e ∙ contains-sorted_set ls k,
  sorted_set-eq ks ls,
)

-- Two manifests of one target and owner whose operations are the same set have the same hash,
-- whatever the order, the repetitions, the stored version and the metadata.
pub hash_operation_selection-eq :
    (digest : Semantic → Text) (m n : Manifest)
    → m.target ≡ n.target
    → m.selection_owner ≡ n.selection_owner
    → SameElements m.operations n.operations
    → hash_operation_selection digest m ≡ hash_operation_selection digest n
unfolding hash_operation_selection text
hash_operation_selection-eq digest m n target owner same =
    ap (λ s. text "sha256:" ++ digest s)
      (λ i. record {
        version = operation_selection_manifest_version;
        target = target i;
        selection_owner = owner i;
        operations = (normalize_keys-eq_iff m.operations n.operations).1 same i;
      })

-- A selection as the set that it stands for: order and repetitions are forgotten.
abbrev pub KeySet : Type 0
KeySet = Quot SameElements

keys_set : IsSet (List Text)
keys_set = hlevel ℕ_set

unfoldable pub canonical : KeySet → List Text
unfolding keys_set
canonical = Quot.lift keys_set normalize_keys (λ xs ys. (normalize_keys-eq_iff xs ys).1)

All-prop : (x : Text) (ys : List Text) → IsProp (All (λ y. text_lt x y ≡ true) ys)
All-prop x [] = hlevel
All-prop x (y ∷ ys) = hlevel (All-prop x ys)

IsAscending-prop : (xs : List Text) → IsProp (IsAscending xs)
IsAscending-prop [] = hlevel
IsAscending-prop (x ∷ xs) = hlevel (All-prop x xs, IsAscending-prop xs)

-- The normal form of a set of keys, which is computed from any list of its keys, is ascending and
-- represents this set.
pub canonical-represents : (s : KeySet) → (Quot.mk (canonical s) ≡ s) × IsAscending (canonical s)
unfolding canonical
canonical-represents s = (
  Quot.ind (λ t. Quot-set {r = SameElements} (Quot.mk (canonical t)) t)
      (λ xs. Quot.sound {a = normalize_keys xs} {b = xs} (contains-normalize_keys xs)) s,
  Quot.ind (λ t. IsAscending-prop (canonical t)) normalize_keys-IsAscending s,
)
