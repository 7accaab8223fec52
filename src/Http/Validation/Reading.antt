-- ===== src/Http/Validation/Reading.antt =====
-- What a handler reads of a validated request (zod-http.interceptor.ts, validated.decorator.ts).
use nestjs_ddd_lean.Prelude.{
  ◌≡◌, refl, ap, ◌∙◌, subst, Bool, true, false, Bool-cases, Option-cases, Option, none, some, List,
  [], ◌∷◌, any, String, is_some, ◌⊎◌, inl, inr, arith,
}
use nestjs_ddd_lean.Http.Validation.{
  Part, body, query, params, headers, same_part, Issue, format_zod_error, Request, replaced,
  set_raw, store, Schema, validated_by, with_value, end_all, intercept, read_part,
}

abbrev pub has_part : Part → List Part → Bool
has_part p order = any (λ q. same_part q p) order

same_part-eq : (p q : Part) → same_part p q ≡ true → p ≡ q
same_part-eq body body h = refl
same_part-eq query query h = refl
same_part-eq params params h = refl
same_part-eq headers headers h = refl
same_part-eq p q h = absurd (ground (arith, h))

set_raw_other :
    (b : Bool) (q : Part) (v : String) (raw : Part → String) (p : Part)
    → same_part q p ≡ false
    → set_raw b q v raw p ≡ raw p
set_raw_other false q v raw p h = refl
set_raw_other true q v raw p h = ground (arith, h)

module _ (schema : Part → Option Schema) (came : Request) where
  -- A refusal is what the schema of one of the parts says of what came.
  abbrev pub IsRefusal : List Part → List String ⊎ Request → Type 0
  IsRefusal order (inr req) = Unit
  IsRefusal order (inl details) =
      (q : Part) × (issues : List Issue) × (has_part q order ≡ true)
      × (validated_by schema q (came.raw q) ≡ inl issues)
      × (details ≡ format_zod_error issues (some q))

  later-IsRefusal :
      (q : Part) (order : List Part) (r : List String ⊎ Request)
      → IsRefusal order r
      → IsRefusal (q ∷ order) r
  later-IsRefusal q order (inr req) h = tt
  later-IsRefusal q order (inl details) (p, issues, among, invalid, shown) =
      (p, issues, ground (arith, among), invalid, shown)

  -- A part is stored as its schema gave it, or it is as it came.
  abbrev IsStored : Part → Request → Type 0
  IsStored p req =
      (v : String) × (req.validated p ≡ some v) × (validated_by schema p (came.raw p) ≡ inr v)

  abbrev IsRaw : Part → Request → Type 0
  IsRaw p req = (req.validated p ≡ none) × (req.raw p ≡ came.raw p)

  store-IsStored :
      (q p : Part) (v : String) (req : Request)
      → same_part q p ≡ true
      → validated_by schema q (came.raw q) ≡ inr v
      → IsStored p (store req q v)
  unfolding store
  store-IsStored q p v req same valid = (
    v,
    ground (arith, same),
    subst (λ r. validated_by schema r (came.raw r) ≡ inr v) (same_part-eq q p same) valid,
  )

  keep-IsStored :
      (q p : Part) (v : String) (req : Request)
      → same_part q p ≡ false
      → IsStored p req
      → IsStored p (store req q v)
  unfolding store
  keep-IsStored q p v req other (w, stored, valid) = (w, ground (arith, other, stored), valid)

  keep-IsRaw :
      (q p : Part) (v : String) (req : Request)
      → same_part q p ≡ false
      → IsRaw p req
      → IsRaw p (store req q v)
  unfolding store
  keep-IsRaw q p v req other (none_yet, as_came) =
      (ground (arith, other, none_yet), set_raw_other (replaced q) q v req.raw p other ∙ as_came)

  -- What a part is after the validations of a list of parts.
  abbrev IsSettled : Part → List Part → Request → Type 0
  IsSettled p order req = IsStored p req ⊎ (IsRaw p req × (has_part p order ≡ false))

  abbrev Outcome : Part → List Part → List String ⊎ Request → Type 0
  Outcome p order (inl details) = Unit
  Outcome p order (inr req) = IsSettled p order req

  abbrev StoredAfter : Part → List String ⊎ Request → Type 0
  StoredAfter p (inl details) = Unit
  StoredAfter p (inr req) = IsStored p req

  stored-Outcome :
      (p : Part) (order : List Part) (r : List String ⊎ Request)
      → StoredAfter p r
      → Outcome p order r
  stored-Outcome p order (inl details) h = tt
  stored-Outcome p order (inr req) h = inl h

  absent-Outcome :
      (p q : Part) (order : List Part) (r : List String ⊎ Request)
      → same_part q p ≡ false
      → Outcome p order r
      → Outcome p (q ∷ order) r
  absent-Outcome p q order (inl details) other h = tt
  absent-Outcome p q order (inr req) other (inl stored) = inl stored
  absent-Outcome p q order (inr req) other (inr (as_came, absent)) =
      inr (as_came, ground (arith, other, absent))

  -- The continuation of a validation, for what the validation gives.
  with_value_ind :
      (P : List String ⊎ Request → Type 0) (q : Part) (rest : String → List String ⊎ Request)
      (r : List Issue ⊎ String)
      → validated_by schema q (came.raw q) ≡ r
      → ((issues : List Issue)
          → validated_by schema q (came.raw q) ≡ inl issues
          → P (inl (format_zod_error issues (some q))))
      → ((v : String) → validated_by schema q (came.raw q) ≡ inr v → P (rest v))
      → P (with_value schema r q rest)
  with_value_ind P q rest (inl issues) e failing passing = failing issues e
  with_value_ind P q rest (inr v) e failing passing = passing v e

  same_part_self : (q : Part) → same_part q q ≡ true
  same_part_self body = refl
  same_part_self query = refl
  same_part_self params = refl
  same_part_self headers = refl

  end_all-IsRefusal :
      (order : List Part) (req : Request) → IsRefusal order (end_all schema came order req)
  unfolding end_all
  end_all-IsRefusal [] req = tt
  end_all-IsRefusal (q ∷ order) req =
      with_value_ind (IsRefusal (q ∷ order)) q (λ v. end_all schema came order (store req q v))
        (validated_by schema q (came.raw q)) refl
        (λ issues invalid. (q, issues, ground (arith, same_part_self q), invalid, refl))
        (λ v valid. later-IsRefusal q order _ (end_all-IsRefusal order (store req q v)))

  end_all-StoredAfter :
      (p : Part) (order : List Part) (req : Request)
      → IsStored p req
      → StoredAfter p (end_all schema came order req)
  unfolding end_all
  end_all-StoredAfter p [] req h = h
  end_all-StoredAfter p (q ∷ order) req h =
      with_value_ind (StoredAfter p) q (λ v. end_all schema came order (store req q v))
        (validated_by schema q (came.raw q)) refl (λ issues invalid. tt)
        (λ v valid. elim (Bool-cases (same_part q p)) [
          | inl same ↦
              end_all-StoredAfter p order (store req q v) (store-IsStored q p v req same valid)
          | inr other ↦
              end_all-StoredAfter p order (store req q v) (keep-IsStored q p v req other h)
        ])

  end_all-Outcome :
      (p : Part) (order : List Part) (req : Request)
      → IsRaw p req
      → Outcome p order (end_all schema came order req)
  unfolding end_all
  end_all-Outcome p [] req h = inr (h, refl)
  end_all-Outcome p (q ∷ order) req h =
      with_value_ind (Outcome p (q ∷ order)) q (λ v. end_all schema came order (store req q v))
        (validated_by schema q (came.raw q)) refl (λ issues invalid. tt)
        (λ v valid. elim (Bool-cases (same_part q p)) [
          | inl same ↦
              stored-Outcome p (q ∷ order) _
                (end_all-StoredAfter p order (store req q v) (store-IsStored q p v req same valid))
          | inr other ↦
              absent-Outcome p q order _ other
                (end_all-Outcome p order (store req q v) (keep-IsRaw q p v req other h))
        ])

-- What a handler may read of a part: what the part's schema made of it, or, of a part without a
-- schema, what came.
abbrev pub ReadsValidated :
    (Part → Option Schema) → List Part → Request → Part → List String ⊎ Request → Type 0
ReadsValidated schema order came p (inl details) = IsRefusal schema came order (inl details)
ReadsValidated schema order came p (inr req) =
    validated_by schema p (came.raw p) ≡ inr (read_part p req)

outcome_reads :
    (schema : Part → Option Schema) (came : Request) (p : Part) (order : List Part)
    → (is_some (schema p) ≡ true → has_part p order ≡ true)
    → (r : List String ⊎ Request) → IsRefusal schema came order r
    → Outcome schema came p order r
    → ReadsValidated schema order came p r
unfolding read_part
outcome_reads schema came p order among (inl details) refusal h = refusal
outcome_reads schema came p order among (inr req) refusal (inl (v, stored, valid)) =
    valid ∙ ap inr (ground (arith, stored))
outcome_reads schema came p order among (inr req) refusal (inr ((unread, as_came), absent)) =
    elim (Option-cases (schema p)) [
      | inl no_schema ↦ ground (arith, no_schema, unread, as_came)
      | inr (zod, has_schema) ↦ absurd (ground (arith, absent, among (ground (arith, has_schema))))
    ]

-- In whatever order the validations end, if the parts that have a schema are among them: a request
-- that they let through gives the handler of each part what its schema made of it, or what came where
-- the part has no schema. A request is refused only with the issues that the schema of one of the
-- parts has with what came.
pub reads_validated :
    (schema : Part → Option Schema) (raw : Part → String) (order : List Part) (p : Part)
    → (is_some (schema p) ≡ true → has_part p order ≡ true)
    → let came : Request = record { raw = raw; validated = λ q. none } in
      ReadsValidated schema order came p (intercept schema order came)
unfolding intercept
reads_validated schema raw order p among =
    let came : Request = record { raw = raw; validated = λ q. none } in
    outcome_reads schema came p order among (intercept schema order came)
      (end_all-IsRefusal schema came order came)
      (end_all-Outcome schema came p order came (refl, refl))
