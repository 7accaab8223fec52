-- ===== src/Database/Mapper/Codes.antt =====
-- The code of a thrown value, independently of how it is computed (oracle-error.mapper.ts).
use Prim.Native.String.append
use nestjs_ddd_lean.Prelude.{
  zero, suc, ◌+◌, ◌-◌, ◌≤◌, Bool-cases, leb, List, [], ◌∷◌, subst, some-injective, arith, ℕ, ◌≡◌,
  refl, ap, ◌⊎◌, inl, inr, Option, none, some, true, false, String, truthy,
}
use nestjs_ddd_lean.Errors.{
  ◌<>◌, bad_request_error, conflict_error, forbidden_error, not_found_error, unauthorized_error,
  unexpected_error, infrastructure_error, csrf_rejected_error, database_connection_error,
  database_execution_error, unknown_source_key_error, unsupported_dialect_error,
  aggregate_db_health_error,
}
use nestjs_ddd_lean.Database.Mapper.{
  DriverError, driver_code, chars, pad_zeros, padded, Raised, app_error, driver_error, other_error,
  code_of,
}

-- The codes of a connection that is lost, or that there is none of.
abbrev pub lost_connection : List String
lost_connection =
    "NJS-040" ∷ "NJS-076" ∷ "NJS-500" ∷ "NJS-501" ∷ "NJS-503" ∷ "NJS-510" ∷ "NJS-521" ∷ "DPI-1010"
    ∷ "DPI-1080" ∷ "ORA-03113" ∷ "ORA-03114" ∷ "ORA-03135" ∷ "ORA-12170" ∷ "ORA-12514" ∷ "ORA-12541"
    ∷ "ORA-12543" ∷ "ORA-12545" ∷ []

abbrev pub digits_of : String → ℕ
digits_of String.[] = 0
digits_of (String.◌∷◌ c s) = suc (digits_of s)

abbrev pub with_zeros : ℕ → String → String
with_zeros zero s = s
with_zeros (suc n) s = "0" <> with_zeros n s

-- `ORA-` and a number with as many zeros before it as make five digits, or none if it has five.
abbrev pub IsOra : (digits code : String) → Type 0
IsOra digits code =
    (k : ℕ) × (code ≡ "ORA-" <> with_zeros k digits)
    × (((k ≡ 0) × (5 ≤ digits_of digits)) ⊎ (k + digits_of digits ≡ 5))

-- The code of a thrown value: the one it has, or the one that its number from 1 on stands for.
abbrev pub HasCode : (ℕ → String) → Raised → String → Type 0
HasCode decimal (driver_error e) code =
    (e.code ≡ some code)
    ⊎ ((n : ℕ) × (e.code ≡ none) × (e.error_num ≡ some (suc n)) × IsOra (decimal (suc n)) code)
HasCode decimal (app_error e) code =
    (k : String) × (t c : Option String) × (e ≡ database_execution_error k t c (some code))
HasCode decimal (other_error m) code = ⊥

abbrev pub Codeless : Raised → Type 0
Codeless (driver_error e) =
    (e.code ≡ some "") ⊎ ((e.code ≡ none) × ((e.error_num ≡ none) ⊎ (e.error_num ≡ some 0)))
Codeless (app_error (database_execution_error k t c code)) = (code ≡ none) ⊎ (code ≡ some "")
Codeless (app_error e) = Unit
Codeless (other_error m) = Unit

zeros-pad : (k : ℕ) (s : String) → pad_zeros k s ≡ with_zeros k s
zeros-pad zero s = refl
zeros-pad (suc k) s = ap (λ t. "0" <> t) (zeros-pad k s)

chars-digits_of : (s : String) → chars s ≡ digits_of s
chars-digits_of String.[] = refl
chars-digits_of (String.◌∷◌ c s) = ap suc (chars-digits_of s)

padded-IsOra : (decimal : ℕ → String) (n : ℕ) → IsOra (decimal n) ("ORA-" <> padded decimal n)
padded-IsOra decimal n =
    let count = chars-digits_of (decimal n) in
    (
      5 - chars (decimal n),
      ap (λ s. "ORA-" <> s) (zeros-pad (5 - chars (decimal n)) (decimal n)),
      elim (Bool-cases (leb 5 (chars (decimal n)))) [
        | inl t ↦ inl (ground (arith, t, count), ground (arith, t, count))
        | inr f ↦ inr (ground (arith, f, count))
      ],
    )

driver-HasCode :
    (decimal : ℕ → String) (e : DriverError) (own : Option String) (num : Option ℕ) (code : String)
    → e.code ≡ own
    → e.error_num ≡ num
    → code_of decimal (driver_error e) ≡ some code
    → HasCode decimal (driver_error e) code
unfolding code_of driver_code
driver-HasCode decimal e (some c) num code o m h = inl (ground (arith, o, h))
driver-HasCode decimal e none none code o m h = absurd (ground (arith, o, m, h))
driver-HasCode decimal e none (some zero) code o m h = absurd (ground (arith, o, m, h))
driver-HasCode decimal e none (some (suc n)) code o m h =
    let same : "ORA-" <> padded decimal (suc n) ≡ code =
      some-injective ("ORA-" <> padded decimal (suc n)) code (ground (arith, o, m, h)) in
    inr (n, o, m, subst (IsOra (decimal (suc n))) same (padded-IsOra decimal (suc n)))

pub code_of-HasCode :
    (decimal : ℕ → String) (e : Raised) (code : String)
    → code_of decimal e ≡ some code
    → HasCode decimal e code
unfolding code_of
code_of-HasCode decimal (driver_error e) code h =
    driver-HasCode decimal e e.code e.error_num code refl refl h
code_of-HasCode decimal (app_error (database_execution_error k t c n)) code h =
    (k, t, c, ap (λ o. database_execution_error k t c o) h)
code_of-HasCode decimal (app_error e) code h = absurd (ground (arith, h))
code_of-HasCode decimal (other_error m) code h = absurd (ground (arith, h))

truthy-append : (s t : String) → truthy (some s) ≡ true → truthy (some (s <> t)) ≡ true
truthy-append String.[] t h = absurd (ground arith)
truthy-append (String.◌∷◌ c s) t h = ap (λ u. truthy (some u)) (append.cons c s t)

no_text : (s : Option String) → truthy s ≡ false → (s ≡ none) ⊎ (s ≡ some "")
no_text none h = inl refl
no_text (some String.[]) h = inr refl
no_text (some (String.◌∷◌ c s)) h = absurd (ground (arith, h))

driver-Codeless :
    (decimal : ℕ → String) (e : DriverError) (own : Option String) (num : Option ℕ)
    → e.code ≡ own
    → e.error_num ≡ num
    → truthy (code_of decimal (driver_error e)) ≡ false
    → Codeless (driver_error e)
unfolding code_of driver_code
driver-Codeless decimal e (some String.[]) num o m h = inl o
driver-Codeless decimal e (some (String.◌∷◌ c s)) num o m h = absurd (ground (arith, o, h))
driver-Codeless decimal e none none o m h = inr (o, inl m)
driver-Codeless decimal e none (some zero) o m h = inr (o, inr m)
driver-Codeless decimal e none (some (suc n)) o m h =
    let full = truthy-append "ORA-" (padded decimal (suc n)) refl in
    absurd (ground (arith, o, m, h, full))

pub code_of-Codeless :
    (decimal : ℕ → String) (e : Raised) → truthy (code_of decimal e) ≡ false → Codeless e
unfolding code_of
code_of-Codeless decimal (driver_error e) h =
    driver-Codeless decimal e e.code e.error_num refl refl h
code_of-Codeless decimal (app_error (database_execution_error k t c n)) h = no_text n h
code_of-Codeless decimal (app_error (bad_request_error m)) h = tt
code_of-Codeless decimal (app_error (conflict_error m d)) h = tt
code_of-Codeless decimal (app_error (forbidden_error m d)) h = tt
code_of-Codeless decimal (app_error (not_found_error m d)) h = tt
code_of-Codeless decimal (app_error (unauthorized_error m d)) h = tt
code_of-Codeless decimal (app_error (unexpected_error c)) h = tt
code_of-Codeless decimal (app_error (infrastructure_error m c)) h = tt
code_of-Codeless decimal (app_error csrf_rejected_error) h = tt
code_of-Codeless decimal (app_error (database_connection_error k c)) h = tt
code_of-Codeless decimal (app_error (unknown_source_key_error k c)) h = tt
code_of-Codeless decimal (app_error (unsupported_dialect_error k d c)) h = tt
code_of-Codeless decimal (app_error (aggregate_db_health_error fs)) h = tt
code_of-Codeless decimal (other_error m) h = tt
