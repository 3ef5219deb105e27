-- ===== src/Oms/Kept.antt =====
-- What the statements of a sweep keep: a case that is active stays so, at its node and with its meters.
use mathlib.Core.Option.{none-ne-some, some-injective}
use diep_lab.Base.{
  is_some, String, Bool, true, false, Option, none, some, [], ◌∷◌, ◌≡◌, refl, sym, ◌∙◌, ap,
  string_eq, pair_eq, ◌&&◌, if◌then◌else◌, arith,
}
use diep_lab.Base.Dict.{Dict, lookup, insert, lookup-insert_self, lookup-insert_ne}
use diep_lab.Oms.Records.{Case, Tables}
use diep_lab.Oms.{is_open, is_at, newer, newest_open, attach_one, attach, put_case, add_case}

-- A dict has each key once.
abbrev pub IsDistinct {ℓ} : {V : Type ℓ} → Dict String V → Type ℓ
IsDistinct [] = Unit
IsDistinct ((k, v) ∷ d) = (lookup k d ≡ none) × IsDistinct d

pub IsDistinct-insert :
    (k : String) (c : Case) (d : Dict String Case) → IsDistinct d → IsDistinct (insert k c d)
unfolding insert lookup
IsDistinct-insert k c [] h = (refl, tt)
IsDistinct-insert k c ((j, w) ∷ d) (fresh, h) = elim (string_eq.dec k j) [
  | yes same ↦ ground arith
  | no other ↦
      ground (arith, IsDistinct-insert k c d h, lookup-insert_ne j k c d (λ e. other (sym e)))
]

-- A case of a node, active, with the meter attached.
pub record IsCovered (node dev : String) (t : Tables) : Type 0 where
  pub id : String
  pub row : Case
  pub stored : lookup id t.cases ≡ some row
  pub active : is_open row.status ≡ true
  pub here : row.node ≡ some node
  pub attached : is_some (lookup (id, dev) t.meters) ≡ true

-- Open cases stay active at their nodes, and meters attached.
pub record Keeps (s t : Tables) : Type 0 where
  pub cases :
      (id : String) (c : Case)
      → lookup id s.cases ≡ some c
      → is_open c.status ≡ true
      → (d : Case) × (lookup id t.cases ≡ some d) × (is_open d.status ≡ true) × (d.node ≡ c.node)
  pub meters :
      (id dev : String)
      → is_some (lookup (id, dev) s.meters) ≡ true
      → is_some (lookup (id, dev) t.meters) ≡ true

pub IsCovered-Keeps :
    (node dev : String) (s t : Tables) → Keeps s t → IsCovered node dev s → IsCovered node dev t
IsCovered-Keeps node dev s t k c =
    let (row, stored, active, same) = k.cases c.id c.row c.stored c.active in
    record {
      id = c.id;
      row = row;
      stored = stored;
      active = active;
      here = same ∙ c.here;
      attached = k.meters c.id dev c.attached;
    }

pub Keeps-refl : (t : Tables) → Keeps t t
Keeps-refl t = record { cases = λ id c at active. (c, at, active, refl); meters = λ id dev h. h }

pub Keeps-trans : (s t u : Tables) → Keeps s t → Keeps t u → Keeps s u
Keeps-trans s t u k l = record {
  cases = λ id c at active.
      let (d, found, still, same) = k.cases id c at active in
      let (e, found', still', same') = l.cases id d found still in
      (e, found', still', same' ∙ same);
  meters = λ id dev h. l.meters id dev (k.meters id dev h);
}

-- An UPDATE that keeps the node and an open status.
pub Keeps-put_case :
    (id : String) (old c : Case) (t : Tables)
    → lookup id t.cases ≡ some old
    → (is_open old.status ≡ true → is_open c.status ≡ true)
    → c.node ≡ old.node
    → Keeps t (put_case id c t)
Keeps-put_case id old c t at stays same = record {
  cases = λ k d found active. elim (string_eq.dec k id) [
    | yes e ↦
        let one : old ≡ d =
          some-injective old d (sym at ∙ ap (λ x. lookup x t.cases) (sym e) ∙ found) in
        (
          c,
          rw e (lookup-insert_self id c t.cases),
          stays (ap (λ x. is_open x.status) one ∙ active),
          same ∙ ap (λ x. x.node) one,
        )
    | no other ↦ (d, lookup-insert_ne k id c t.cases other ∙ found, active, refl)
  ];
  meters = λ k dev h. h;
}

-- An INSERT under a new key.
pub Keeps-add_case :
    (id : String) (c : Case) (t : Tables) → lookup id t.cases ≡ none → Keeps t (add_case id c t)
unfolding add_case
Keeps-add_case id c t fresh = record {
  cases = λ k d found active. (
    d,
    lookup-insert_ne k id c t.cases
          (λ e. none-ne-some d (sym fresh ∙ ap (λ x. lookup x t.cases) (sym e) ∙ found))
        ∙ found,
    active,
    refl,
  );
  meters = λ k dev h. h;
}

-- The rows of the meters.
pub cases-attach :
    (id : String) (ms : Dict String (Option String)) (t : Tables) → (attach id ms t).cases ≡ t.cases
unfolding attach attach_one
cases-attach id [] t = refl
cases-attach id ((dev, n) ∷ ms) t = cases-attach id ms _ ∙ cases_one (lookup (id, dev) t.meters)
  where
    cases_one : (o : Option (Option String)) → (attach_one id dev n o t).cases ≡ t.cases
    cases_one none = refl
    cases_one (some _) = refl

is_at-some : (n : String) (o : Option String) → is_at n o ≡ true → o ≡ some n
is_at-some n none h = cc
is_at-some n (some m) h = elim (string_eq.dec m n) [
  | yes same ↦ ap some same
  | no other ↦ ground arith
]

-- A test that lets a value through.
when_lit {ℓ} :
    {A : Type ℓ} (b : Bool) (x y : A) → (if b then some x else none) ≡ some y → (b ≡ true) × (x ≡ y)
when_lit true x y h = (refl, some-injective x y h)
when_lit false x y h = absurd (none-ne-some y h)

pub newest_open-found :
    (n id : String) (c : Case) (d : Dict String Case)
    → IsDistinct d
    → newest_open n d ≡ some (id, c)
    → (lookup id d ≡ some c) × (is_open c.status ≡ true) × (c.node ≡ some n)
unfolding newest_open newer lookup
newest_open-found n id c [] h e = cc
newest_open-found n id c ((k, w) ∷ d) (fresh, h) e =
    by_rest (newest_open n d) refl (newest_open-found n id c d h) e
  where
    by_rest :
        (o : Option (String × Case))
        → newest_open n d ≡ o
        → (newest_open n d ≡ some (id, c)
            → (lookup id d ≡ some c) × (is_open c.status ≡ true) × (c.node ≡ some n))
        → newer n k w o ≡ some (id, c)
        → (lookup id ((k, w) ∷ d) ≡ some c) × (is_open c.status ≡ true) × (c.node ≡ some n)
    by_rest none at later e =
        let lit = when_lit (is_open w.status && is_at n w.node) (k, w) (id, c) e in
        (
          rw (sym (ap (λ x. x.0) lit.1)) (ground (arith, ap (λ x. x.1) lit.1)),
          ap (λ x. is_open x.1.status) (sym lit.1) ∙ ground (arith, lit.0),
          ap (λ x. x.1.node) (sym lit.1) ∙ is_at-some n w.node (ground (arith, lit.0)),
        )
    by_rest (some (j, v)) at later e =
        let (stored, active, here) = later (at ∙ e) in
        (
          elim (string_eq.dec id k) [
            | yes same ↦
                absurd (none-ne-some c (sym fresh ∙ ap (λ x. lookup x d) (sym same) ∙ stored))
            | no other ↦ ground (arith, stored)
          ],
          active,
          here,
        )
