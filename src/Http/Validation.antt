-- ===== src/Http/Validation.antt =====
-- The validation of a request (src/interface/http/interceptors/zod-http.interceptor.ts,
-- decorators/validated.decorator.ts, common/format-zod-error.util.ts). A schema of Zod is a parameter: a
-- function to its issues or the value. A part's value is an opaque text.
pub mod Reading
mod Tests
use nestjs_ddd_lean.Prelude.{
  ℕ, Bool, true, false, ◌==◌, Option, none, some, List, [], ◌∷◌, map, filter, String, truthy,
  if◌then◌else◌, ◌⊎◌, inl, inr,
}
use nestjs_ddd_lean.Errors.{◌<>◌}
use nestjs_ddd_lean.Http.Filter.{join}

pub data Part : Type 0 where
  body query params headers : Part

unfoldable pub part_name : Part → String
part_name body = "body"
part_name query = "query"
part_name params = "params"
part_name headers = "headers"

abbrev part_index : Part → ℕ
part_index body = 0
part_index query = 1
part_index params = 2
part_index headers = 3

abbrev pub same_part : Part → Part → Bool
same_part p q = part_index p == part_index q

-- An issue of Zod: its path and message.
pub record Issue : Type 0 where
  pub path : List String
  pub message : String

-- `formatZodError`: the details of the 400.
abbrev filled : List String → List String
filled ss = filter (λ s. truthy (some s)) ss

unfoldable pub detail : Option Part → Issue → String
unfolding part_name
detail none i =
    let path = join "." (filled i.path) in
    if truthy (some path) then path <> ": " <> i.message else i.message
detail (some part) i =
    let path = join "." (filled (part_name part ∷ i.path)) in
    if truthy (some path) then path <> ": " <> i.message else i.message

unfoldable pub format_zod_error : List Issue → Option Part → List String
unfolding detail
format_zod_error issues part = map (detail part) issues

-- The parts of a request, and `req.validated`.
pub record Request : Type 0 where
  pub raw : Part → String
  pub validated : Part → Option String

-- `query` is a getter and `headers` keeps what is not listed, so these two stay as they came.
abbrev pub replaced : Part → Bool
replaced body = true
replaced query = false
replaced params = true
replaced headers = false

abbrev set_raw : Bool → Part → String → (Part → String) → Part → String
set_raw false part value raw p = raw p
set_raw true part value raw p = if same_part part p then value else raw p

-- `store`
unfoldable pub store : Request → Part → String → Request
store req part value = record {
  raw = set_raw (replaced part) part value req.raw;
  validated = λ p. if same_part part p then some value else req.validated p;
}

abbrev pub Schema : Type 0
Schema = String → List Issue ⊎ String

module _ (schema : Part → Option Schema) where
  abbrev pub validated_by : Part → String → List Issue ⊎ String
  validated_by part source = elim (schema part) [ none ↦ inr source | some zod ↦ zod source ]

  -- The validations of the parts that have a schema, in the order in which they end. Each has read its
  -- part before any has ended, and the first one that fails is what `Promise.all` rejects with.
  abbrev pub with_value :
      List Issue ⊎ String → Part → (String → List String ⊎ Request) → List String ⊎ Request
  with_value (inl issues) part rest = inl (format_zod_error issues (some part))
  with_value (inr value) part rest = rest value

  unfoldable pub end_all : (came : Request) → List Part → Request → List String ⊎ Request
  end_all came [] req = inr req
  end_all came (part ∷ parts) req =
      with_value (validated_by part (came.raw part)) part
        (λ value. end_all came parts (store req part value))

  -- `intercept`, up to the call of the handler
  unfoldable pub intercept : (order : List Part) → Request → List String ⊎ Request
  intercept order req = end_all req order req

-- `Validated`
unfoldable pub read_part : Part → Request → String
read_part part req = elim (req.validated part) [ none ↦ req.raw part | some value ↦ value ]
