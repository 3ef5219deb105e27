-- ===== src/Oms/Closing.antt =====
-- The second half of a sweep: what it does to cases that are open.
use diep_lab.Base.{
  is_some, String, true, false, Option, none, some, [], ◌∷◌, ◌≡◌, ◌≢◌, inl, inr, refl, ◌∙◌, ap,
  string_eq, pair_eq, ◌&&◌, Bool-cases, arith,
}
use diep_lab.Base.Dict.{Dict, lookup, lookup-insert_ne}
use diep_lab.Oms.Records.{
  CaseStatus, detected, confirmed, restored, closed, Case, Report, Tables, Reading, Grid,
}
use diep_lab.Oms.Signals.{cause_of, is_back, report_node}
use diep_lab.Oms.{
  is_open, newest_open, put_case, set_status, corroborate, link_row, open_at, known_root, link_all,
  meters_of, all_back, is_over, restore_all,
}
use diep_lab.Oms.Kept.{
  IsDistinct, IsDistinct-insert, IsCovered, Keeps, Keeps-refl, Keeps-trans, Keeps-put_case,
  newest_open-found,
}

-- What the loop over the reports keeps.
pub record Links (s t : Tables) : Type 0 where
  pub keeps : Keeps s t
  pub distinct : IsDistinct t.cases

corroborate-Links :
    (st : CaseStatus) (id : String) (c : Case) (t : Tables)
    → lookup id t.cases ≡ some c
    → IsDistinct t.cases
    → Links t (corroborate st id c t)
unfolding corroborate
corroborate-Links detected id c t at h = record {
  keeps = Keeps-put_case id c _ t at (λ active. refl) refl;
  distinct = IsDistinct-insert id _ t.cases h;
}
corroborate-Links confirmed id c t at h = record { keeps = Keeps-refl t; distinct = h }
corroborate-Links restored id c t at h = record { keeps = Keeps-refl t; distinct = h }
corroborate-Links closed id c t at h = record { keeps = Keeps-refl t; distinct = h }

link_row-Links :
    (n : Option String) (rid : String) (r : Report) (t : Tables)
    → IsDistinct t.cases
    → Links t (link_row rid r (open_at n t.cases) t)
unfolding link_row open_at
link_row-Links none rid r t h = record { keeps = Keeps-refl t; distinct = h }
link_row-Links (some n) rid r t h = by_row (newest_open n t.cases) refl
  where
    by_row : (o : Option (String × Case)) → newest_open n t.cases ≡ o → Links t (link_row rid r o t)
    by_row none at = record { keeps = Keeps-refl t; distinct = h }
    by_row (some (id, c)) at =
        let l = corroborate-Links c.status id c _ (newest_open-found n id c t.cases h at).0 h in
        record {
          keeps = record { cases = l.keeps.cases; meters = l.keeps.meters };
          distinct = l.distinct;
        }

module _ (g : Grid) where
  pub link_all-Links :
      (rs : Dict String Report) (t : Tables) → IsDistinct t.cases → Links t (link_all g rs t)
  unfolding link_all
  link_all-Links [] t h = record { keeps = Keeps-refl t; distinct = h }
  link_all-Links ((rid, r) ∷ rs) t h =
      let one = link_row-Links (known_root g (report_node g r)) rid r t h in
      let rest = link_all-Links rs _ one.distinct in
      record { keeps = Keeps-trans _ _ _ one.keeps rest.keeps; distinct = rest.distinct }

  -- A case is over only if each of its meters is back.
  all_back-attached :
      (id dev : String) (d : Dict (String × String) (Option String))
      → is_some (lookup (id, dev) d) ≡ true
      → all_back g (meters_of id d) ≡ true
      → is_back g.timeout (g.latest dev) ≡ true
  unfolding all_back meters_of lookup
  all_back-attached id dev [] h back = cc
  all_back-attached id dev (((c, k), n) ∷ d) h back = elim (pair_eq.dec (id, dev) (c, k)) [
    | yes same ↦ rw (ap (λ x. x.1) same) (ground (arith, ap (λ x. x.0) same))
    | no other ↦ all_back-attached id dev d (ground arith) (ground arith)
  ]

  -- A row of another case is written.
  IsCovered-other :
      (node dev id : String) (row : Case) (t : Tables) (c : IsCovered node dev t)
      → c.id ≢ id
      → IsCovered node dev (put_case id row t)
  IsCovered-other node dev id row t c other = record {
    id = c.id;
    row = c.row;
    stored = lookup-insert_ne c.id id row t.cases other ∙ c.stored;
    active = c.active;
    here = c.here;
    attached = c.attached;
  }

  pub restore_all-IsCovered :
      (node dev : String) (cs : Dict String Case) (t : Tables)
      → is_back g.timeout (g.latest dev) ≡ false
      → IsCovered node dev t
      → IsCovered node dev (restore_all g cs t)
  unfolding restore_all set_status is_over
  restore_all-IsCovered node dev [] t dark c = c
  restore_all-IsCovered node dev ((id, row) ∷ cs) t dark c =
      elim (Bool-cases (is_open row.status && is_over g (meters_of id t.meters))) [
        | inr other ↦ rw other (restore_all-IsCovered node dev cs t dark c)
        | inl over ↦ rw over (
            restore_all-IsCovered node dev cs (set_status restored id row t) dark (
              IsCovered-other node dev id _ t c (λ same. ground (
                arith,
                all_back-attached c.id dev t.meters c.attached,
                ap (λ k. all_back g (meters_of k t.meters)) same,
              ))))
      ]

  pub cause_of-dark :
      (o : Option Reading) (c : String)
      → cause_of g.timeout o ≡ some c
      → is_back g.timeout o ≡ false
  unfolding cause_of is_back
  cause_of-dark none c h = cc
  cause_of-dark (some r) c h = ground arith
