-- ===== src/Oms/Upserted.antt =====
-- The first half of a sweep: every section with a signal has an open case afterwards.
use mathlib.Core.Option.{none-ne-some}
use diep_lab.Base.{
  is_some, ℕ, String, Bool, true, not, Option, none, some, [], ◌∷◌, ◌≡◌, inl, inr, refl, sym, ◌∙◌,
  ap, string_eq, pair_eq, ◌==◌, ◌&&◌, ◌||◌, Bool-cases, arith,
}
use diep_lab.Base.Dict.{Dict, lookup, lookup-insert_self, lookup-insert_ne}
use diep_lab.Oms.Records.{detected, Case, Tables, Grid, Group, Sweep, swept}
use diep_lab.Oms.{
  is_open, newest_open, case_cause, attach, put_case, add_case, upsert_row, upsert_all, then_sweep,
}
use diep_lab.Oms.Grouped.{has_signal, ArePlaces}
use diep_lab.Oms.Kept.{
  IsDistinct-insert, IsCovered, IsCovered-Keeps, Keeps, Keeps-refl, Keeps-trans, Keeps-put_case,
  Keeps-add_case, newest_open-found,
}
use diep_lab.Oms.Attached.{Keeps-attach, IsReady, after_drawn, IsReady-attach, IsCovered-attach}

-- What the statements for some groups do, if they come to their end.
pub record Upserts (uuid : ℕ → String) (s : Tables) (r : Sweep) (covers : String → String → Bool)
    : Type 0 where
  pub after : Tables
  pub ends : r ≡ swept after
  pub keeps : Keeps s after
  pub ready : IsReady uuid after
  pub covered : (node dev : String) → covers node dev ≡ true → IsCovered node dev after

-- A row is written, and then its meters.
Upserts-attach :
    (uuid : ℕ → String) (node id : String) (c : Case) (ms : Dict String (Option String))
    (s t : Tables)
    → Keeps s t
    → IsReady uuid t
    → lookup id t.cases ≡ some c
    → is_open c.status ≡ true
    → c.node ≡ some node
    → Upserts uuid s (swept (attach id ms t)) (λ n dev. n == node && is_some (lookup dev ms))
Upserts-attach uuid node id c ms s t keeps ready at active here = record {
  after = attach id ms t;
  ends = refl;
  keeps = Keeps-trans s t _ keeps (Keeps-attach id ms t);
  ready = IsReady-attach uuid id ms t ready;
  covered = λ n dev h. elim (string_eq.dec n node) [
    | yes same ↦ rw same (IsCovered-attach node dev id c ms t at active here (ground arith))
    | no other ↦ absurd (ground arith)
  ];
}

Upserts-covers :
    (uuid : ℕ → String) (s : Tables) (r : Sweep) (c d : String → String → Bool)
    → ((n dev : String) → d n dev ≡ true → c n dev ≡ true)
    → Upserts uuid s r c
    → Upserts uuid s r d
Upserts-covers uuid s r c d k u = record {
  after = u.after;
  ends = u.ends;
  keeps = u.keeps;
  ready = u.ready;
  covered = λ n dev h. u.covered n dev (k n dev h);
}

-- One group after another.
Upserts-then :
    (uuid : ℕ → String) (s : Tables) (r : Sweep) (next : Tables → Sweep)
    (c d : String → String → Bool)
    → Upserts uuid s r c
    → ((t : Tables) → IsReady uuid t → Upserts uuid t (next t) d)
    → Upserts uuid s (then_sweep r next) (λ n dev. c n dev || d n dev)
unfolding then_sweep
Upserts-then uuid s r next c d u k =
    let v = k u.after u.ready in
    record {
      after = v.after;
      ends = rw u.ends v.ends;
      keeps = Keeps-trans s u.after v.after u.keeps v.keeps;
      ready = v.ready;
      covered = λ n dev h. elim (Bool-cases (c n dev)) [
        | inl first ↦ IsCovered-Keeps n dev u.after v.after v.keeps (u.covered n dev first)
        | inr other ↦ v.covered n dev (ground arith)
      ];
    }

module _ (g : Grid) (uuid : ℕ → String) (different : (m n : ℕ) → uuid m ≡ uuid n → m ≡ n) where
  upsert_row-Upserts :
      (node : String) (group : Group) (o : Option (String × Case)) (t : Tables)
      → newest_open node t.cases ≡ o
      → is_some (lookup node g.parent) ≡ true
      → IsReady uuid t
      → Upserts uuid t
          (upsert_row g uuid node group o t)
          (λ n dev. n == node && is_some (lookup dev group.meters))
  unfolding upsert_row add_case
  upsert_row-Upserts node group (some (id, c)) t at known ready =
      let (stored, active, here) = newest_open-found node id c t.cases ready.distinct at in
      let row = record c {
        customers_affected = g.service_points node;
        cause = case_cause group.causes;
      } in
      Upserts-attach uuid node id row group.meters t (put_case id row t)
        (Keeps-put_case id c row t stored (λ h. h) refl)
        (record {
          distinct = IsDistinct-insert id row t.cases ready.distinct;
          unused = λ n le.
              lookup-insert_ne (uuid n) id row t.cases (λ e.
                none-ne-some c (sym (ready.unused n le) ∙ ap (λ k. lookup k t.cases) e ∙ stored))
              ∙ ready.unused n le;
        })
        (lookup-insert_self id row t.cases) active here
  upsert_row-Upserts node group none t at known ready =
      let id = uuid t.drawn in
      let unused = ready.unused t.drawn (omega arith) in
      let row : Case = record {
        status = detected;
        cause = case_cause group.causes;
        node = some node;
        customers_affected = g.service_points node;
        notes = none;
      } in
      rw (known, unused)
        (Upserts-attach uuid node id row group.meters t (add_case id row t)
          (Keeps-add_case id row t unused)
          (record {
            distinct = IsDistinct-insert id row t.cases ready.distinct;
            unused = λ n le.
                lookup-insert_ne (uuid n) id row t.cases
                  (λ e. after_drawn n t.drawn le (different n t.drawn e))
                ∙ ready.unused n (omega (arith, le));
          })
          (lookup-insert_self id row t.cases) refl refl)

  -- The loop over the groups.
  pub upsert_all-Upserts :
      (groups : Dict String Group) (t : Tables)
      → ArePlaces g groups
      → IsReady uuid t
      → Upserts uuid t
          (upsert_all g uuid groups t)
          (λ n dev. not (n == "UNKNOWN") && has_signal n dev groups)
  unfolding upsert_all lookup
  upsert_all-Upserts [] t places ready = record {
    after = t;
    ends = refl;
    keeps = Keeps-refl t;
    ready = ready;
    covered = λ n dev h. absurd (ground arith);
  }
  upsert_all-Upserts ((node, group) ∷ groups) t (place, places) ready =
      elim (Bool-cases (node == "UNKNOWN")) [
        | inl skipped ↦ rw skipped (
            Upserts-covers uuid t _ (λ n dev. not (n == "UNKNOWN") && has_signal n dev groups) _
              (λ n dev h. elim (string_eq.dec n node) [
                | yes same ↦ absurd (ground (arith, ap (λ k. k == "UNKNOWN") same))
                | no other ↦ ground arith
              ])
              (upsert_all-Upserts groups t places ready))
        | inr taken ↦ rw taken (
            Upserts-covers uuid t _ _ _
              (λ n dev h. elim (string_eq.dec n node) [
                | yes same ↦ ground arith
                | no other ↦ ground arith
              ])
              (Upserts-then uuid t _ (upsert_all g uuid groups) _ _
                (upsert_row-Upserts node group (newest_open node t.cases) t refl (ground arith)
                  ready)
                (λ t' ready'. upsert_all-Upserts groups t' places ready')))
      ]
