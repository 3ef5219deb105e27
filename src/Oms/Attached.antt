-- ===== src/Oms/Attached.antt =====
-- The rows of the meters of a case, and what the tables need for the next one.
use diep_lab.Base.{
  is_some, ℕ, suc, ◌≤◌, String, true, Option, none, some, [], ◌∷◌, ◌≡◌, ◌≢◌, refl, sym, ◌∙◌, ap,
  subst, string_eq, pair_eq, arith,
}
use diep_lab.Base.Dict.{Dict, lookup, lookup-insert, lookup-insert_self}
use diep_lab.Oms.Records.{Case, Tables}
use diep_lab.Oms.{is_open, attach_one, attach}
use diep_lab.Oms.Kept.{IsDistinct, IsCovered, Keeps, cases-attach}

-- A meter that is attached stays so.
attach_one-keeps :
    (k d id dev : String) (n : Option String) (o : Option (Option String)) (t : Tables)
    → is_some (lookup (k, d) t.meters) ≡ true
    → is_some (lookup (k, d) (attach_one id dev n o t).meters) ≡ true
unfolding attach_one
attach_one-keeps k d id dev n (some _) t h = h
attach_one-keeps k d id dev n none t h = ground (arith, lookup-insert (k, d) (id, dev) n t.meters)

pub attach-keeps :
    (k d id : String) (ms : Dict String (Option String)) (t : Tables)
    → is_some (lookup (k, d) t.meters) ≡ true
    → is_some (lookup (k, d) (attach id ms t).meters) ≡ true
unfolding attach
attach-keeps k d id [] t h = h
attach-keeps k d id ((dev, n) ∷ ms) t h =
    attach-keeps k d id ms _ (attach_one-keeps k d id dev n (lookup (id, dev) t.meters) t h)

attach_one-known :
    (id dev : String) (n : Option String) (o : Option (Option String)) (t : Tables)
    → lookup (id, dev) t.meters ≡ o
    → is_some (lookup (id, dev) (attach_one id dev n o t).meters) ≡ true
unfolding attach_one
attach_one-known id dev n (some m) t at = ap is_some at
attach_one-known id dev n none t at = ap is_some (lookup-insert_self (id, dev) n t.meters)

attach-known :
    (dev id : String) (ms : Dict String (Option String)) (t : Tables)
    → is_some (lookup dev ms) ≡ true
    → is_some (lookup (id, dev) (attach id ms t).meters) ≡ true
unfolding attach lookup
attach-known dev id [] t h = cc
attach-known dev id ((d, n) ∷ ms) t h = elim (string_eq.dec dev d) [
  | yes same ↦
      rw same (attach-keeps id d id ms _ (attach_one-known id d n (lookup (id, d) t.meters) t refl))
  | no other ↦ attach-known dev id ms _ (ground arith)
]

pub Keeps-attach :
    (id : String) (ms : Dict String (Option String)) (t : Tables) → Keeps t (attach id ms t)
Keeps-attach id ms t = record {
  cases = λ k c at active. (c, ap (lookup k) (cases-attach id ms t) ∙ at, active, refl);
  meters = λ k d h. attach-keeps k d id ms t h;
}

-- The keys of the cases are distinct, and the UUIDs to come are new.
pub record IsReady (uuid : ℕ → String) (t : Tables) : Type 0 where
  pub distinct : IsDistinct t.cases
  pub unused : (n : ℕ) → t.drawn ≤ n → lookup (uuid n) t.cases ≡ none

drawn-attach :
    (id : String) (ms : Dict String (Option String)) (t : Tables) → (attach id ms t).drawn ≡ t.drawn
unfolding attach attach_one
drawn-attach id [] t = refl
drawn-attach id ((dev, n) ∷ ms) t = drawn-attach id ms _ ∙ drawn_one (lookup (id, dev) t.meters)
  where
    drawn_one : (o : Option (Option String)) → (attach_one id dev n o t).drawn ≡ t.drawn
    drawn_one none = refl
    drawn_one (some _) = refl

pub after_drawn : (n d : ℕ) → suc d ≤ n → n ≢ d
after_drawn n d h e = omega arith

pub IsReady-attach :
    (uuid : ℕ → String) (id : String) (ms : Dict String (Option String)) (t : Tables)
    → IsReady uuid t
    → IsReady uuid (attach id ms t)
IsReady-attach uuid id ms t h = record {
  distinct = subst IsDistinct (sym (cases-attach id ms t)) h.distinct;
  unused = λ n le.
      ap (lookup (uuid n)) (cases-attach id ms t)
      ∙ h.unused n (subst (λ d. d ≤ n) (drawn-attach id ms t) le);
}

pub IsCovered-attach :
    (node dev id : String) (c : Case) (ms : Dict String (Option String)) (t : Tables)
    → lookup id t.cases ≡ some c
    → is_open c.status ≡ true
    → c.node ≡ some node
    → is_some (lookup dev ms) ≡ true
    → IsCovered node dev (attach id ms t)
IsCovered-attach node dev id c ms t at active here known = record {
  id = id;
  row = c;
  stored = ap (lookup id) (cases-attach id ms t) ∙ at;
  active = active;
  here = here;
  attached = attach-known dev id ms t known;
}
