-- ===== src/Dms/Contingency/Loads.antt =====
-- fastapi/dms/contingency.py: loads, customers and the grades of a contingency. A set is a list, and a
-- sum over it adds in the order of the list.
use diep_lab.Base.{ℕ, ◌+◌, String, Bool, List, [], ◌∷◌, ◌||◌, string_eq, ltb, if◌then◌else◌}
use diep_lab.Base.Dict.{Dict, lookup}
use diep_lab.Base.Int.{pos}
use diep_lab.Base.Float.{FloatOps}
use diep_lab.Contracts.Measurement.{default, is_nil}

-- The loads by phase, their real parts; the customers; and the fallback loads.
pub record Demand (V : Type 0) : Type 0 where
  pub loads : Dict String (List V)
  pub customers_by_node : Dict String ℕ
  pub load_floor : Dict String V

module _ (customers_by_node : Dict String ℕ) where
  unfoldable pub customers_at : String → ℕ
  customers_at n = default 0 (lookup n customers_by_node)

  unfoldable pub customers : List String → ℕ
  customers [] = 0
  customers (n ∷ ns) = customers_at n + customers ns

module _ {V : Type 0} ⦃F : FloatOps V⦄ where
  -- `max(x, 0.0)`, and `max(x, y)`.
  unfoldable pub max_of : V → V → V
  max_of x y = if F.lt x y then y else x

  unfoldable pub sum_from : V → List V → V
  sum_from acc [] = acc
  sum_from acc (v ∷ vs) = sum_from (F.add acc v) vs

  unfoldable pub sum_over : (String → V) → V → List String → V
  sum_over f acc [] = acc
  sum_over f acc (n ∷ ns) = sum_over f (F.add acc (f n)) ns

  -- `_real_load_kw`, `_load_kw` and `_gen_kw`.
  unfoldable pub real_load_kw : Dict String (List V) → String → V
  real_load_kw loads n = sum_from (F.of_int (pos 0)) (default [] (lookup n loads))

  unfoldable pub load_kw : Dict String (List V) → String → V
  load_kw loads n = max_of (real_load_kw loads n) (F.decimal 0 1)

  unfoldable pub gen_kw : Dict String (List V) → String → V
  gen_kw loads n = max_of (F.neg (real_load_kw loads n)) (F.decimal 0 1)

  unfoldable pub total : (String → V) → List String → V
  total f ns = F.round2 (sum_over f (F.of_int (pos 0)) ns)

  unfoldable pub classify : V → ℕ → List String → String
  classify unserved_load violations restored_by =
      if F.lt (F.of_int (pos 0)) unserved_load
      then (if is_nil restored_by then "unserved" else "partial")
      else if ltb 0 violations
      then "violation"
      else if is_nil restored_by
      then "secure"
      else "restorable"

  unfoldable pub severity_of : V → ℕ → V → List String → V
  severity_of unserved_load violations lost_load restored_by = F.round2 (
      F.add
        (F.add (F.mul unserved_load (F.of_int (pos 1000)))
          (F.mul (F.of_int (pos violations)) (F.of_int (pos 100))))
        (if is_nil restored_by then F.of_int (pos 0) else lost_load))

  module _ (d : Demand V) where
    unfoldable pub classif_load : String → V
    classif_load n = max_of (load_kw d.loads n) (default (F.decimal 0 1) (lookup n d.load_floor))

    -- A node that counts as unserved where it is out.
    unfoldable pub is_demand : String → Bool
    is_demand n =
        F.lt (F.of_int (pos 0)) (classif_load n) || ltb 0 (customers_at d.customers_by_node n)

    unfoldable pub demanding : List String → List String
    demanding [] = []
    demanding (n ∷ ns) = let rest = demanding ns in if is_demand n then n ∷ rest else rest
