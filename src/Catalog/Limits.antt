-- ===== src/Catalog/Limits.antt =====
-- packages/core/src/openapi/catalog/limits.ts: the limits of an operation contract.
use openapi_to.Common.Numbers.{
  Number, whole, floor, math_max, math_min, clamped, max-min-floor, math_max-whole,
  math_max-clamped, whole-eq, not_a_number, infinity, minus_infinity, below_zero, from_zero,
}
use openapi_to.Common.{
  ap, ◌∙◌, sym, subst, refl, ◌≡◌, true, ℕ, ◌*◌, ◌≤◌, max, Bool, Option, none, some, arith, false,
}

pub record ContractOptions : Type 0 where
  pub schema_depth : Option Number
  pub max_schemas : Option Number
  pub max_properties_per_schema : Option Number
  pub include_examples : Option Bool
  pub max_bytes : Option Number

pub record ResolvedOperationContractLimits : Type 0 where
  pub schema_depth : Number
  pub max_schemas : Number
  pub max_properties_per_schema : Number
  pub include_examples : Bool
  pub max_bytes : Number

unfoldable pub bounded : Option Number → ℕ → ℕ → Number
bounded none fallback maximum = whole fallback
bounded (some value) fallback maximum = math_max 0 (math_min maximum (floor value))

abbrev or_false : Option Bool → Bool
or_false none = false
or_false (some b) = b

unfoldable pub resolve_operation_contract_limits : ContractOptions → ResolvedOperationContractLimits
resolve_operation_contract_limits options = record {
  schema_depth = bounded options.schema_depth 2 10;
  max_schemas = bounded options.max_schemas 20 100;
  max_properties_per_schema = bounded options.max_properties_per_schema 50 500;
  include_examples = or_false options.include_examples;
  max_bytes = math_max 1024 (bounded options.max_bytes (128 * 1024) (1024 * 1024));
}

bounded-clamped :
    (o : Option Number) (fallback maximum : ℕ)
    → bounded o fallback maximum ≡ clamped 0 maximum fallback o
unfolding bounded
bounded-clamped none fallback maximum = refl
bounded-clamped (some x) fallback maximum = max-min-floor 0 maximum fallback x (omega arith)

bytes-clamped :
    (o : Option Number) (low high fallback : ℕ)
    → low ≤ high
    → low ≤ fallback
    → math_max low (bounded o fallback high) ≡ clamped low high fallback o
unfolding bounded
bytes-clamped none low high fallback h k =
    math_max-whole low fallback ∙ whole-eq (max low fallback) fallback (omega (arith, k))
bytes-clamped (some x) low high fallback h k =
    ap (math_max low) (max-min-floor 0 high fallback x (omega arith))
    ∙ math_max-clamped low high fallback x h

-- What a limit may be: a whole number of its range, or `NaN`.
abbrev pub IsWithin : ℕ → ℕ → Number → Type 0
IsWithin low high (from_zero n b) = (b ≡ true) × (low ≤ n) × (n ≤ high)
IsWithin low high not_a_number = Unit
IsWithin low high _ = ⊥

clamped-IsWithin :
    (low high fallback : ℕ) (o : Option Number)
    → low ≤ fallback
    → fallback ≤ high
    → IsWithin low high (clamped low high fallback o)
clamped-IsWithin low high d none h k = (refl, h, k)
clamped-IsWithin low high d (some not_a_number) h k = tt
clamped-IsWithin low high d (some infinity) h k = (refl, omega (arith, h, k), omega arith)
clamped-IsWithin low high d (some minus_infinity) h k = (refl, omega arith, omega (arith, h, k))
clamped-IsWithin low high d (some (below_zero n b)) h k = (refl, omega arith, omega (arith, h, k))
clamped-IsWithin low high d (some (from_zero n b)) h k = (refl, omega arith, omega (arith, h, k))

abbrev pub IsClamped : ℕ → ℕ → ℕ → Option Number → Number → Type 0
IsClamped low high fallback asked limit =
    (limit ≡ clamped low high fallback asked) × IsWithin low high limit

IsClamped-of :
    (low high fallback : ℕ) (o : Option Number) (limit : Number)
    → low ≤ fallback
    → fallback ≤ high
    → limit ≡ clamped low high fallback o
    → IsClamped low high fallback o limit
IsClamped-of low high d o limit h k e =
    (e, subst (IsWithin low high) (sym e) (clamped-IsWithin low high d o h k))

-- A limit of a contract is the default where nothing is asked for; what is asked for is rounded down and
-- moved into the range of the limit, also when it is negative, fractional or infinite, and `NaN` stays
-- `NaN`. So a limit that is a number is a whole number of its range: at most 10 levels, 100 schemas and
-- 500 properties, and 1024 bytes to 1 MiB.
pub resolve-IsClamped :
    (options : ContractOptions)
    → IsClamped 0 10 2 options.schema_depth (resolve_operation_contract_limits options).schema_depth
      × IsClamped 0 100 20 options.max_schemas
          (resolve_operation_contract_limits options).max_schemas
      × IsClamped 0 500 50 options.max_properties_per_schema
          (resolve_operation_contract_limits options).max_properties_per_schema
      × IsClamped 1024
          (1024 * 1024)
          (128 * 1024)
          options.max_bytes
          (resolve_operation_contract_limits options).max_bytes
unfolding resolve_operation_contract_limits
resolve-IsClamped options = (
  IsClamped-of 0 10 2 options.schema_depth _ (omega arith) (omega arith)
      (bounded-clamped options.schema_depth 2 10),
  IsClamped-of 0 100 20 options.max_schemas _ (omega arith) (omega arith)
      (bounded-clamped options.max_schemas 20 100),
  IsClamped-of 0 500 50 options.max_properties_per_schema _ (omega arith) (omega arith)
      (bounded-clamped options.max_properties_per_schema 50 500),
  IsClamped-of 1024 (1024 * 1024) (128 * 1024) options.max_bytes _ (omega arith) (omega arith)
      (bytes-clamped options.max_bytes 1024 (1024 * 1024) (128 * 1024) (omega arith) (omega arith)),
)
