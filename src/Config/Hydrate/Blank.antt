-- ===== src/Config/Hydrate/Blank.antt =====
-- Variables that are set to nothing (load-config.ts, env.util.ts).
use nestjs_ddd_lean.Prelude.{ℕ, ◌≡◌, refl, sym, ap, char_codes, Option, none, some, List, [], ◌∷◌}
use nestjs_ddd_lean.Database.Text.{trim}
use nestjs_ddd_lean.Config.Env.{non_blank, env_string, env_bool, bool_read, items_of, env_list}
use nestjs_ddd_lean.Config.Hydrate.{
  readers, Environment, hydrate, text_tree, bool_tree, texts_tree, upper_case,
}

-- A value of white space only is left out.
abbrev when_not_blank : (value kept : List ℕ) → Option (List ℕ)
when_not_blank value [] = none
when_not_blank value (c ∷ s) = some value

abbrev kept : Option (List ℕ) → Option (List ℕ)
kept none = none
kept (some value) = when_not_blank value (trim value)

abbrev pub unset_blank : Environment → Environment
unset_blank env k = kept (env k)

string_value : (v t : List ℕ) → trim v ≡ t → env_string (when_not_blank v t) ≡ env_string (some v)
unfolding env_string
string_value v [] e = ap non_blank (sym e)
string_value v (c ∷ s) e = refl

bool_value :
    (lower : List ℕ → List ℕ) (v t : List ℕ)
    → trim v ≡ t
    → env_bool lower (when_not_blank v t) ≡ env_bool lower (some v)
unfolding env_bool env_string
bool_value lower v [] e = ap (λ s. bool_read lower v (non_blank s)) (sym e)
bool_value lower v (c ∷ s) e = refl

string_kept : (o : Option (List ℕ)) → env_string (kept o) ≡ env_string o
unfolding env_string
string_kept none = refl
string_kept (some v) = string_value v (trim v) refl

bool_kept :
    (lower : List ℕ → List ℕ) (o : Option (List ℕ)) → env_bool lower (kept o) ≡ env_bool lower o
unfolding env_bool env_string
bool_kept lower none = refl
bool_kept lower (some v) = bool_value lower v (trim v) refl

list_kept : (o : Option (List ℕ)) → env_list (kept o) ≡ env_list o
unfolding env_list
list_kept o = ap items_of (string_kept o)

-- A variable that is set to nothing but white space is read as one that is not set at all.
pub blank_is_unset :
    (lower upper : List ℕ → List ℕ) (env : Environment)
    → hydrate (readers lower upper (unset_blank env)) ≡ hydrate (readers lower upper env)
unfolding readers
blank_is_unset lower upper env = λ i. hydrate record {
  str = λ k. text_tree (string_kept (env (char_codes k)) i);
  bool = λ k. bool_tree (bool_kept lower (env (char_codes k)) i);
  list = λ k. texts_tree (list_kept (env (char_codes k)) i);
  upper_list = λ k. texts_tree (upper_case upper (list_kept (env (char_codes k)) i));
  sources = string_kept (env (char_codes "DATABASE_CONFIG_JSON")) i;
}
