-- ===== src/Database/Mapper/Laws.antt =====
-- Which errors the driver's errors become, and that mapping them again changes nothing that a client
-- sees (oracle-error.mapper.ts).
use Prim.Native.Char.{Char}
use nestjs_ddd_lean.Prelude.{
  ℕ, ◌≡◌, refl, ap, ◌⊎◌, inl, inr, Option, none, some, true, false, String, has, ◌===◌, truthy,
  if_ind, eq_iff,
}
use nestjs_ddd_lean.Errors.{
  Problem, ProblemKind, conflict, service_unavailable, internal, app_problem,
}
use nestjs_ddd_lean.Database.Mapper.{
  Raised, app_error, driver_error, other_error, connection_codes, code_of, classified, mapped,
  map_oracle_error,
}
use nestjs_ddd_lean.Database.Mapper.Codes.{
  lost_connection, HasCode, Codeless, code_of-HasCode, code_of-Codeless,
}

-- The problem that a client sees of an error of the application.
pub shown : Raised → Option Problem
shown (app_error e) = some (app_problem e)
shown (driver_error e) = none
shown (other_error m) = none

abbrev pub HasKind : Raised → ProblemKind → Type 0
HasKind e kind = (p : Problem) × (shown e ≡ some p) × (p.kind ≡ kind)

-- What becomes of a thrown value.
abbrev pub Classed : (ℕ → String) → Raised → Raised → Type 0
Classed decimal e r =
    (Codeless e × (r ≡ e))
    ⊎ ((code : String) × HasCode decimal e code
        × (truthy (some code) ≡ true)
        × (((code ≡ "ORA-00001") × HasKind r conflict)
            ⊎ (((has code lost_connection ≡ true) × HasKind r service_unavailable)
                ⊎ ((has code lost_connection ≡ false)
                    × HasKind r internal
                    × HasCode decimal r code))))

module _ (decimal : ℕ → String) where
  classified-Classed :
      (e : Raised) (source_key : String) (tag : Option String) (code : String)
      → code_of decimal e ≡ some code
      → truthy (some code) ≡ true
      → Classed decimal e (classified decimal e source_key tag code)
  unfolding shown app_problem connection_codes
  classified-Classed e source_key tag code h full =
      let own = code_of-HasCode decimal e code h in
      if_ind (Classed decimal e) (code === "ORA-00001")
        (λ same. inr (code, own, full, inl ((eq_iff code "ORA-00001").0 same, (_, refl, refl))))
        (λ differ.
          if_ind (Classed decimal e) (has code lost_connection)
            (λ lost. inr (code, own, full, inr (inl (lost, (_, refl, refl)))))
            (λ kept.
              inr (code, own, full, inr (inr (kept, (_, refl, refl), (source_key, tag, _, refl))))))

  mapped-Classed :
      (e : Raised) (source_key : String) (tag code : Option String)
      → code_of decimal e ≡ code
      → Classed decimal e (mapped decimal e source_key tag code)
  unfolding mapped
  mapped-Classed e source_key tag none h = inl (code_of-Codeless decimal e (ap truthy h), refl)
  mapped-Classed e source_key tag (some String.[]) h =
      inl (code_of-Codeless decimal e (ap truthy h), refl)
  mapped-Classed e source_key tag (some (String.◌∷◌ c s)) h =
      classified-Classed e source_key tag (String.◌∷◌ c s) h refl

  -- Every thrown value, the application's own ones included: one without a code passes through; a
  -- violated unique key (ORA-00001) becomes a conflict, a code of a lost connection an unavailable
  -- service, and any other code an internal error, which keeps the code. A driver's error without a
  -- code of its own has the one of its number from 1 on, ORA- with the number in five digits or more,
  -- and of the application's errors only a DatabaseExecutionError may have one.
  pub map_oracle_error_classes :
      (e : Raised) (source_key : String) (tag : Option String)
      → Classed decimal e (map_oracle_error decimal e source_key tag)
  unfolding map_oracle_error
  map_oracle_error_classes e source_key tag =
      mapped-Classed e source_key tag (code_of decimal e) refl

  abbrev Settled : String → Option String → Raised → Type 0
  Settled source_key tag r = shown (map_oracle_error decimal r source_key tag) ≡ shown r

  classified-Settled :
      (e : Raised) (source_key : String) (tag : Option String) (c : Char) (s : String)
      → Settled source_key tag (classified decimal e source_key tag (String.◌∷◌ c s))
  unfolding shown app_problem code_of map_oracle_error mapped
  classified-Settled e source_key tag c s =
      let code = String.◌∷◌ c s in
      if_ind (Settled source_key tag) (code === "ORA-00001") (λ same. refl)
        (λ differ.
          if_ind (Settled source_key tag) (has code connection_codes) (λ lost. refl)
            (λ kept. rw differ (rw kept refl)))

  mapped-Settled :
      (e : Raised) (source_key : String) (tag code : Option String)
      → code_of decimal e ≡ code
      → Settled source_key tag (mapped decimal e source_key tag code)
  unfolding mapped map_oracle_error
  mapped-Settled e source_key tag none h = rw h refl
  mapped-Settled e source_key tag (some String.[]) h = rw h refl
  mapped-Settled e source_key tag (some (String.◌∷◌ c s)) h =
      classified-Settled e source_key tag c s

  -- Mapping an error twice, as a call inside another call of the same source does, presents to the
  -- client what mapping it once does.
  pub map_oracle_error_twice :
      (e : Raised) (source_key : String) (tag : Option String)
      → let r = map_oracle_error decimal e source_key tag in
        shown (map_oracle_error decimal r source_key tag) ≡ shown r
  unfolding map_oracle_error
  map_oracle_error_twice e source_key tag = mapped-Settled e source_key tag (code_of decimal e) refl
