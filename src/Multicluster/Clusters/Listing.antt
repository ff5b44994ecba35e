-- ===== src/Multicluster/Clusters/Listing.antt =====
-- Which names are listed, and how often.
use locking.Prelude.{
  ℕ, ◌+◌, String, ◌≡◌, refl, inl, inr, ◌∙◌, ap, Bool, true, false, not, ◌&&◌, ◌||◌, List, [], ◌∷◌,
  Option, none, some, str_eq, str-cases, eq_iff, if◌then◌else◌, arith,
}
use locking.Prelude.Result.{Result, ok, err}
use locking.Prelude.Map.{insert, lookup, lookup-insert, string_key}
use locking.Multicluster.Clusters.{keep_ok, add_gotten, get_clusters, keys, get_cluster_names}

abbrev pub flag : Bool → ℕ
flag b = if b then 1 else 0

abbrev pub count : String → List String → ℕ
count x [] = 0
count x (y ∷ ys) = let n = count x ys in flag (str_eq y x) + n

abbrev pub is_some : {C : Type 0} → Option C → Bool
is_some none = false
is_some (some _) = true

abbrev pub is_ok : {C : Type 0} → Result C → Bool
is_ok (ok _) = true
is_ok (err _) = false

abbrev pub any_of : String → List String → Bool
any_of x [] = false
any_of x (y ∷ ys) = str_eq y x || any_of x ys

count-insert :
    {C : Type 0} (x k : String) (c : C) (m : List (String × C))
    → count x (keys (insert k c m))
      ≡ flag (str_eq k x && not (is_some (lookup k m))) + count x (keys m)
unfolding insert lookup
count-insert x k c [] = ground arith
count-insert x k c ((j, d) ∷ m) =
    ground (arith, count-insert x k c m, eq_iff j k, eq_iff k x, eq_iff j x)

-- No key stands in a map twice.
IsMap : {C : Type 0} → List (String × C) → Type 0
IsMap m = (x : String) → count x (keys m) ≡ flag (is_some (lookup x m))

insert-IsMap :
    {C : Type 0} (k : String) (c : C) (m : List (String × C)) → IsMap m → IsMap (insert k c m)
unfolding IsMap
insert-IsMap k c m h x =
    ground (arith, count-insert x k c m, lookup-insert k x c m, h x, eq_iff k x)

keep_ok-IsMap :
    {C : Type 0} (name : String) (r : Result C) (m : List (String × C))
    → IsMap m
    → IsMap (keep_ok name r m)
keep_ok-IsMap name (ok c) m h = insert-IsMap name c m h
keep_ok-IsMap name (err e) m h = h

lookup-keep_ok :
    {C : Type 0} (x name : String) (r : Result C) (m : List (String × C))
    → is_some (lookup x (keep_ok name r m)) ≡ is_some (lookup x m) || (str_eq name x && is_ok r)
lookup-keep_ok x name (ok c) m = ground (arith, lookup-insert name x c m)
lookup-keep_ok x name (err e) m = ground arith

module _ {C : Type 0} (get : String → Result C) where
  -- Whether the provider lists the name and then has its cluster.
  abbrev pub is_held : String → List String → Bool
  is_held x names = any_of x names && is_ok (get x)

  add_gotten-IsMap :
      (names : List String) (m : List (String × C)) → IsMap m → IsMap (add_gotten get names m)
  unfolding add_gotten
  add_gotten-IsMap [] m h = h
  add_gotten-IsMap (name ∷ names) m h = add_gotten-IsMap names _ (keep_ok-IsMap name (get name) m h)

  lookup-add_gotten :
      (x : String) (names : List String) (m : List (String × C))
      → is_some (lookup x (add_gotten get names m)) ≡ is_some (lookup x m) || is_held x names
  unfolding add_gotten
  lookup-add_gotten x [] m = ground arith
  lookup-add_gotten x (name ∷ names) m =
      let rest = lookup-add_gotten x names (keep_ok name (get name) m) in
      let first = lookup-keep_ok x name (get name) m in
      elim (str-cases name x) [
        | inl (t, e) ↦ let same = ap (λ n. is_ok (get n)) e in ground arith
        | inr (f, _) ↦ ground arith
      ]

-- The local cluster's name is listed, and so is, once, each name that the provider lists and has the
-- cluster of: whatever the order in which the map is gone through, if it leaves out no key and
-- doubles none, and the same of the sort.
pub count-get_cluster_names :
    {C : Type 0} (get : String → Result C) (local : String) (order sort : List String → List String)
    (order_count : (x : String) (xs : List String) → count x (order xs) ≡ count x xs)
    (sort_count : (x : String) (xs : List String) → count x (sort xs) ≡ count x xs)
    (names : List String) (x : String)
    → count x (get_cluster_names local order sort (some (get_clusters get names)))
      ≡ flag (str_eq local x) + flag (is_held get x names)
unfolding get_cluster_names get_clusters IsMap lookup
count-get_cluster_names get local order sort order_count sort_count names x =
    let once = add_gotten-IsMap get names [] (λ y. refl) x in
    let held = lookup-add_gotten get x names [] in
    sort_count x _ ∙ ap (λ n. flag (str_eq local x) + n) (order_count x _ ∙ once ∙ ap flag held)
