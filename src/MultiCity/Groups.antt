-- ===== src/MultiCity/Groups.antt =====
-- The cities of each country and the order of the countries (services/multi_city_optimizer.py).
use Prim.Native.String.{String}
use text.Mathlib.Text.{◌==◌ as str_eq}
use text.Mathlib.TextEquality.{eq_iff}
use mathlib.Core.List.{Perm, append_assoc}
use mathlib.Core.List.Perm
use mathlib.Core.Path.{subst}
use goveling_ml.Prelude.{
  ◌≡◌, refl, sym, ap, ◌∙◌, ◌⊎◌, inl, inr, Bool, false, Option, none, some, List, [], ◌∷◌, ◌++◌, map,
  leb, if◌then◌else◌, length, filter_by, Bool-cases, both, in_either,
}
use goveling_ml.Prelude.Table.{lookup, set}
use goveling_ml.Schedule.Windows.{or_default}
use goveling_ml.MultiCity.{City}
use goveling_ml.MultiCity.Slices.{append_nil}
use goveling_ml.MultiCity.Countries.{
  Groups, group_of, group_from, group_cities_by_country, any_named, country_of, remove, move_first,
  starting_with, optimize_country_sequence,
}

abbrev pub in_country : String → City → Bool
in_country k c = str_eq c.country k

lookup-set_same :
    {V : Type 0} (k : String) (v : V) (d : List (String × V))
    → lookup str_eq k (set str_eq k v d) ≡ some v
lookup-set_same k v [] = rw ((eq_iff k k).1 refl) refl
lookup-set_same k v ((j, w) ∷ d) = elim (Bool-cases (str_eq j k)) [
  | inl same ↦ rw (same, same) refl
  | inr other ↦ rw (other, other) (lookup-set_same k v d)
]

lookup-set_other :
    {V : Type 0} (k i : String) (v : V) (d : List (String × V))
    → str_eq k i ≡ false
    → lookup str_eq i (set str_eq k v d) ≡ lookup str_eq i d
lookup-set_other k i v [] h = rw h refl
lookup-set_other k i v ((j, w) ∷ d) h = elim (Bool-cases (str_eq j k)) [
  | inl same ↦ rw (same, ap (λ x. str_eq x i) ((eq_iff j k).0 same) ∙ h) refl
  | inr other ↦ rw other (ap (λ o. if str_eq j i then some w else o) (lookup-set_other k i v d h))
]

group_of-set :
    (c : City) (k : String) (g : Groups)
    → group_of k (set str_eq c.country (group_of c.country g ++ c ∷ []) g)
      ≡ group_of k g ++ filter_by (in_country k) (c ∷ [])
group_of-set c k g = elim (Bool-cases (str_eq c.country k)) [
  | inl same ↦ rw same (
      subst
        (λ x.
          group_of x (set str_eq c.country (group_of c.country g ++ c ∷ []) g)
          ≡ group_of x g ++ c ∷ [])
        ((eq_iff c.country k).0 same) (ap (λ o. or_default o []) (lookup-set_same c.country _ g)))
  | inr other ↦ rw other (
      ap (λ o. or_default o []) (lookup-set_other c.country k _ g other)
      ∙ sym (append_nil (group_of k g)))
]

filter-cons :
    (k : String) (c : City) (cs : List City)
    → filter_by (in_country k) (c ∷ []) ++ filter_by (in_country k) cs
      ≡ filter_by (in_country k) (c ∷ cs)
filter-cons k c cs = elim (Bool-cases (str_eq c.country k)) [
  | inl same ↦ rw same refl
  | inr other ↦ rw other refl
]

group_from-filter :
    (k : String) (cs : List City) (g : Groups)
    → group_of k (group_from g cs) ≡ group_of k g ++ filter_by (in_country k) cs
group_from-filter k [] g = sym (append_nil (group_of k g))
group_from-filter k (c ∷ cs) g =
    let F = filter_by (in_country k) in
    group_from-filter k cs (set str_eq c.country (group_of c.country g ++ c ∷ []) g)
    ∙ ap (λ e. e ++ F cs) (group_of-set c k g)
    ∙ append_assoc (group_of k g) (F (c ∷ [])) (F cs)
    ∙ ap (λ e. group_of k g ++ e) (filter-cons k c cs)

-- A country that stands in the list, if there is one.
abbrev pub StandsIn : String → List String → Type 0
StandsIn k [] = ⊥
StandsIn k (j ∷ ks) = (j ≡ k) ⊎ StandsIn k ks

abbrev pub IsKnown : Option String → List String → Type 0
IsKnown none ks = Unit
IsKnown (some k) ks = StandsIn k ks

country_of-IsKnown : (s : String) (g : Groups) → IsKnown (country_of s g) (map (λ e. e.0) g)
country_of-IsKnown s [] = tt
country_of-IsKnown s ((j, cs) ∷ g) =
    both (λ o. IsKnown o (j ∷ map (λ e. e.0) g)) (any_named s cs) (inl refl)
      (later (country_of s g) (country_of-IsKnown s g))
  where
    later : (o : Option String) → IsKnown o (map (λ e. e.0) g) → IsKnown o (j ∷ map (λ e. e.0) g)
    later none h = tt
    later (some k) h = inr h

remove-perm : (k : String) (ks : List String) → StandsIn k ks → Perm (k ∷ remove k ks) ks
remove-perm k [] h = elim h [ ]
remove-perm k (j ∷ ks) (inl here) = rw ((eq_iff j k).1 here) (Perm.cons' (sym here) (Perm.refl ks))
remove-perm k (j ∷ ks) (inr later) =
    in_either (λ r. Perm (k ∷ r) (j ∷ ks)) (str_eq j k)
      (λ same. Perm.cons' (sym ((eq_iff j k).0 same)) (Perm.refl ks))
      (λ other. Perm.trans (Perm.swap j k (remove k ks)) (Perm.cons j (remove-perm k ks later)))

move_first-perm : (o : Option String) (ks : List String) → IsKnown o ks → Perm (move_first o ks) ks
move_first-perm none ks h = Perm.refl ks
move_first-perm (some k) ks h = remove-perm k ks h

starting_with-perm : (o : Option String) (g : Groups) → Perm (starting_with o g) (map (λ e. e.0) g)
starting_with-perm none g = Perm.refl (map (λ e. e.0) g)
starting_with-perm (some s) g =
    both (λ ks. Perm ks (map (λ e. e.0) g)) (str_eq s "") (Perm.refl (map (λ e. e.0) g))
      (move_first-perm (country_of s g) (map (λ e. e.0) g) (country_of-IsKnown s g))

-- The group of a country holds exactly the cities of that country, in their order, and the countries
-- are visited in a rearrangement of the order of the groups, wherever the trip starts.
pub group_cities_by_country_lem :
    (cities : List City) (country : String) (start : Option String)
    → let groups = group_cities_by_country cities in
      (group_of country groups ≡ filter_by (in_country country) cities)
      × Perm (optimize_country_sequence groups start) (map (λ e. e.0) groups)
unfolding group_cities_by_country optimize_country_sequence
group_cities_by_country_lem cities country start =
    let groups = group_from [] cities in
    (
      group_from-filter country cities [],
      both (λ ks. Perm ks (map (λ e. e.0) groups)) (leb (length groups) 1)
          (Perm.refl (map (λ e. e.0) groups)) (starting_with-perm start groups),
    )
