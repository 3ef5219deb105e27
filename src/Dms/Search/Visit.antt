-- ===== src/Dms/Search/Visit.antt =====
-- One round of the search: what it sees and what it puts on the stack.
use diep_lab.Base.{
  ℕ, ◌+◌, ◌≤◌, ◌<◌, String, ◌≡◌, refl, true, false, not, List, [], ◌∷◌, ◌&&◌, ◌||◌, contains,
  string_eq, length, arith, if◌then◌else◌,
}
use diep_lab.Dms.Search.{visit}

pub contains-visit_seen :
    (ns seen stack : List String) (x : String)
    → contains (visit ns seen stack).0 x ≡ (contains seen x || contains ns x)
unfolding visit
contains-visit_seen [] seen stack x = ground arith
contains-visit_seen (n ∷ ns) seen stack x =
    ground
      (arith, contains-visit_seen ns seen stack x, contains-visit_seen ns (n ∷ seen) (n ∷ stack) x)

pub contains-visit_stack :
    (ns seen stack : List String) (x : String)
    → contains (visit ns seen stack).1 x
      ≡ (contains stack x || (contains ns x && not (contains seen x)))
unfolding visit
contains-visit_stack [] seen stack x = ground arith
contains-visit_stack (n ∷ ns) seen stack x =
    ground (
      arith,
      contains-visit_stack ns seen stack x,
      contains-visit_stack ns (n ∷ seen) (n ∷ stack) x,
    )

-- How many of the ids have not been seen.
unfoldable pub unseen : List String → List String → ℕ
unseen [] seen = 0
unseen (i ∷ ids) seen = (if contains seen i then 0 else 1) + unseen ids seen

unseen_le : (ids seen : List String) (n : String) → unseen ids (n ∷ seen) ≤ unseen ids seen
unfolding unseen
unseen_le [] seen n = omega arith
unseen_le (i ∷ ids) seen n = ground (arith, unseen_le ids seen n)

pub unseen_lt :
    (ids seen : List String) (n : String)
    → contains ids n ≡ true
    → contains seen n ≡ false
    → unseen ids (n ∷ seen) < unseen ids seen
unfolding unseen
unseen_lt [] seen n known new = cc
unseen_lt (i ∷ ids) seen n known new = ground (arith, unseen_le ids seen n, unseen_lt ids seen n)

pub unseen-length : (ids seen : List String) → unseen ids seen ≤ length ids
unfolding unseen
unseen-length [] seen = omega arith
unseen-length (i ∷ ids) seen = ground (arith, unseen-length ids seen)

-- Only the members of the set count.
pub unseen_ext :
    (ids s t : List String)
    → ((x : String) → contains s x ≡ contains t x)
    → unseen ids s ≡ unseen ids t
unfolding unseen
unseen_ext [] s t h = refl
unseen_ext (i ∷ ids) s t h = ground (arith, h i, unseen_ext ids s t h)

-- What is put on the stack was not seen before.
pub measure-visit :
    (ids ns seen stack : List String)
    → ((x : String) → contains ns x ≡ true → contains ids x ≡ true)
    → length (visit ns seen stack).1 + unseen ids (visit ns seen stack).0
      ≤ length stack + unseen ids seen
unfolding visit
measure-visit ids [] seen stack known = omega arith
measure-visit ids (n ∷ ns) seen stack known =
    let rest = λ (x : String) (h : contains ns x ≡ true). known x (ground arith) in
    ground (
      arith,
      known n (ground arith),
      unseen_lt ids seen n,
      measure-visit ids ns seen stack rest,
      measure-visit ids ns (n ∷ seen) (n ∷ stack) rest,
    )
