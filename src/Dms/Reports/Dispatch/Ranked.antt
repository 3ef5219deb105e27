-- ===== src/Dms/Reports/Dispatch/Ranked.antt =====
-- The ranking against the outages and the keys.
use mathlib.Core.List.{Perm}
use mathlib.Core.List.Perm
use diep_lab.Base.{
  ℕ, zero, suc, String, ◌+◌, ◌≤◌, ◌≡◌, ◌↔◌, refl, sym, subst, ◌∙◌, ap, true, false, List, [], ◌∷◌,
  inl, inr, Bool-cases, All, map, take, drop, length, length-map, arith,
}
use diep_lab.Base.Dict.{Dict}
use diep_lab.Contracts.Measurement.{is_nil}
use diep_lab.Dms.Reports.{Outage, Contingency, by_element}
use diep_lab.Dms.Reports.Dispatch.{
  Item, element_of, path_of, item_of, items_of, outranks, insert_item, sort_items, rank_from,
  count_crew, Ranking, rank_outages,
}

-- `x` may stand before `y`: it needs a crew if `y` does, and of two that need one, or of two that do
-- not, it has at least as many customers.
abbrev pub IsBefore : Item → Item → Type 0
IsBefore x y =
    (y.needs_crew ≡ true → x.needs_crew ≡ true)
    × (x.needs_crew ≡ y.needs_crew
        → y.estimated_customers_affected ≤ x.estimated_customers_affected)

-- Every item may stand before every later one.
abbrev pub IsDescending : List Item → Type 0
IsDescending [] = Unit
IsDescending (x ∷ xs) = All (IsBefore x) xs × IsDescending xs

IsBefore-outranks : (x y : Item) → outranks x y ≡ true → IsBefore x y
unfolding outranks
IsBefore-outranks x y h = ground arith

IsBefore-not_outranked : (x y : Item) → outranks y x ≡ false → IsBefore x y
unfolding outranks
IsBefore-not_outranked x y h = ground arith

IsBefore-trans : (x y z : Item) → IsBefore x y → IsBefore y z → IsBefore x z
IsBefore-trans x y z h k = ground arith

all_trans : (x y : Item) (zs : List Item) → IsBefore x y → All (IsBefore y) zs → All (IsBefore x) zs
all_trans x y [] h k = tt
all_trans x y (z ∷ zs) h (k, ks) = (IsBefore-trans x y z h k, all_trans x y zs h ks)

all_insert :
    (x y : Item) (zs : List Item)
    → IsBefore y x
    → All (IsBefore y) zs
    → All (IsBefore y) (insert_item x zs)
unfolding insert_item
all_insert x y [] h k = (h, tt)
all_insert x y (z ∷ zs) h (k, ks) = elim (Bool-cases (outranks z x)) [
  | inl after ↦ rw after (k, all_insert x y zs h ks)
  | inr before ↦ rw before (h, (k, ks))
]

insert-IsDescending :
    (x : Item) (ys : List Item) → IsDescending ys → IsDescending (insert_item x ys)
unfolding insert_item
insert-IsDescending x [] d = (tt, tt)
insert-IsDescending x (y ∷ ys) (d, ds) = elim (Bool-cases (outranks y x)) [
  | inl after ↦
      rw after (all_insert x y ys (IsBefore-outranks y x after) d, insert-IsDescending x ys ds)
  | inr before ↦
      let first = IsBefore-not_outranked x y before in
      rw before ((first, all_trans x y ys first d), (d, ds))
]

sort-IsDescending : (xs : List Item) → IsDescending (sort_items xs)
unfolding sort_items
sort-IsDescending [] = tt
sort-IsDescending (x ∷ xs) = insert-IsDescending x (sort_items xs) (sort-IsDescending xs)

insert-Perm : (x : Item) (ys : List Item) → Perm (x ∷ ys) (insert_item x ys)
unfolding insert_item
insert-Perm x [] = Perm.refl (x ∷ [])
insert-Perm x (y ∷ ys) = elim (Bool-cases (outranks y x)) [
  | inl after ↦ rw after (Perm.trans (Perm.swap y x ys) (Perm.cons y (insert-Perm x ys)))
  | inr before ↦ rw before (Perm.refl (x ∷ y ∷ ys))
]

sort-Perm : (xs : List Item) → Perm xs (sort_items xs)
unfolding sort_items
sort-Perm [] = Perm.refl []
sort-Perm (x ∷ xs) = Perm.trans (Perm.cons x (sort-Perm xs)) (insert-Perm x (sort_items xs))

length_insert : (x : Item) (ys : List Item) → length (insert_item x ys) ≡ suc (length ys)
unfolding insert_item
length_insert x [] = refl
length_insert x (y ∷ ys) = elim (Bool-cases (outranks y x)) [
  | inl after ↦ rw after (ap suc (length_insert x ys))
  | inr before ↦ rw before refl
]

length_sort : (xs : List Item) → length (sort_items xs) ≡ length xs
unfolding sort_items
length_sort [] = refl
length_sort (x ∷ xs) = length_insert x (sort_items xs) ∙ ap suc (length_sort xs)

map-rank_from : (i : ℕ) (xs : List Item) → map (λ c. c.1) (rank_from i xs) ≡ xs
unfolding rank_from
map-rank_from i [] = refl
map-rank_from i (x ∷ xs) = ap (λ l. x ∷ l) (map-rank_from (suc i) xs)

count_crew-total : (xs : List Item) → count_crew true xs + count_crew false xs ≡ length xs
unfolding count_crew
count_crew-total [] = refl
count_crew-total (x ∷ xs) = ground (arith, count_crew-total xs)

-- Behind an item that needs no crew, none needs one.
remote_last :
    (x : Item) (ys : List Item)
    → x.needs_crew ≡ false
    → All (IsBefore x) ys
    → (count_crew true ys ≡ 0) × All (λ y. y.needs_crew ≡ false) ys
unfolding count_crew
remote_last x [] remote h = (refl, tt)
remote_last x (y ∷ ys) remote (h, hs) = ground (arith, remote_last x ys remote hs)

-- The first items, as many as given, need a crew, and the others do not.
abbrev pub CrewsFirst : ℕ → List Item → Type 0
CrewsFirst n xs =
    All (λ x. x.needs_crew ≡ true) (take n xs) × All (λ x. x.needs_crew ≡ false) (drop n xs)

count_crew-crew :
    (x : Item) (xs : List Item)
    → x.needs_crew ≡ true
    → suc (count_crew true xs) ≡ count_crew true (x ∷ xs)
unfolding count_crew
count_crew-crew x xs crew = ground arith

count_crew-remote :
    (x : Item) (xs : List Item)
    → x.needs_crew ≡ false
    → count_crew true xs ≡ 0
    → 0 ≡ count_crew true (x ∷ xs)
unfolding count_crew
count_crew-remote x xs remote h = ground arith

-- In a list in order, these are as many as are counted.
count_crew-CrewsFirst : (xs : List Item) → IsDescending xs → CrewsFirst (count_crew true xs) xs
unfolding count_crew
count_crew-CrewsFirst [] d = (tt, tt)
count_crew-CrewsFirst (x ∷ xs) (h, d) = elim (Bool-cases x.needs_crew) [
  | inl crew ↦
      let rest = count_crew-CrewsFirst xs d in
      subst (λ n. CrewsFirst n (x ∷ xs)) (count_crew-crew x xs crew) ((crew, rest.0), rest.1)
  | inr remote ↦
      let rest = remote_last x xs remote h in
      subst (λ n. CrewsFirst n (x ∷ xs)) (count_crew-remote x xs remote rest.0)
        (tt, (remote, rest.1))
]

-- `n` numbers in a row, from `i`.
abbrev pub numbers : ℕ → ℕ → List ℕ
numbers i zero = []
numbers i (suc n) = i ∷ numbers (suc i) n

rank_from-numbers :
    (i : ℕ) (xs : List Item) → map (λ c. c.0) (rank_from i xs) ≡ numbers i (length xs)
unfolding rank_from
rank_from-numbers i [] = refl
rank_from-numbers i (x ∷ xs) = ap (λ l. i ∷ l) (rank_from-numbers (suc i) xs)

-- A crew is needed exactly if no path restores the section.
abbrev pub IsCrewed : Item → Type 0
IsCrewed x = (x.needs_crew ≡ true) ↔ (x.restoration_path ≡ [])

is_nil-nil : (path : List String) → (is_nil path ≡ true) ↔ (path ≡ [])
is_nil-nil [] = (λ h. refl, λ h. refl)
is_nil-nil (p ∷ path) = (λ h. cc, λ h. cc)

items_of-IsCrewed :
    (model : Dict String Contingency) (outages : List Outage)
    → All IsCrewed (items_of model outages)
unfolding items_of item_of
items_of-IsCrewed model [] = tt
items_of-IsCrewed model (o ∷ os) =
    (is_nil-nil (path_of (element_of model o.probable_device)), items_of-IsCrewed model os)

-- What a ranking is of a list of outages.
pub record IsRanking (items : List Item) (r : Ranking) : Type 0 where
  pub complete : Perm items (map (λ c. c.1) r.candidates)
  pub descending : IsDescending (map (λ c. c.1) r.candidates)
  pub crewed : All IsCrewed items
  pub ranks : map (λ c. c.0) r.candidates ≡ numbers 1 (length items)
  pub crews : CrewsFirst r.crew_dispatch_count (map (λ c. c.1) r.candidates)
  pub counted : r.crew_dispatch_count + r.remote_switch_count ≡ length r.candidates

-- The candidates are the items of the outages, each as often as it occurs, ranked 1, 2 and so on; a
-- crew is needed exactly where no path restores the section; none that needs a crew stands behind one
-- that does not, and within each class none stands behind one with fewer customers; as many as the
-- count of crews says need a crew, the first ones, and no other does; and the two counts add up to
-- all candidates.
pub rank_outages-IsRanking :
    (outages : List Outage) (contingencies : List Contingency)
    → IsRanking (items_of (by_element contingencies) outages) (rank_outages outages contingencies)
unfolding rank_outages
rank_outages-IsRanking outages contingencies =
    let items = items_of (by_element contingencies) outages in
    record {
      complete = rw (map-rank_from 1 (sort_items items)) (sort-Perm items);
      descending = rw (map-rank_from 1 (sort_items items)) (sort-IsDescending items);
      crewed = items_of-IsCrewed (by_element contingencies) outages;
      ranks = rank_from-numbers 1 (sort_items items) ∙ ap (numbers 1) (length_sort items);
      crews =
          rw (map-rank_from 1 (sort_items items))
            (count_crew-CrewsFirst (sort_items items) (sort-IsDescending items));
      counted =
          count_crew-total (sort_items items)
          ∙ sym (ap length (map-rank_from 1 (sort_items items)))
          ∙ length-map (λ (c : ℕ × Item). c.1) (rank_from 1 (sort_items items));
    }
