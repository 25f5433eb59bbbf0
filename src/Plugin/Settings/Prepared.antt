-- ===== src/Plugin/Settings/Prepared.antt =====
-- What is prepared, and so what is stored, has the types that the plugin declares.
use polarix.Prelude.{
  ℕ, ◌≡◌, refl, sym, ap, subst, ◌∙◌, ◌⊎◌, inl, inr, Bool, Option, none, some, List, [], ◌∷◌, arith,
  Bool-cases, Option-cases, In, Text, same, same_iff, same_refl, lookup, insert, lookup-insert, ℤ,
}
use polarix.Schedule.Cron.Fields.{Result-cases}
use polarix.Schedule.Cron.{err, ok}
use polarix.Plugin.Settings.Values.{
  Float, Value, config_float, config_int, finite, flag, float32, float64, infinite, int, nan, other,
  sized, text, when_finite,
}
use polarix.Plugin.Settings.{
  ConfigField, ConfigFieldType, Plugin, Values, boolean_field, check_value, field_value, flag_only,
  float_field, int_field, no_type, or_rejected, password_field, prepare_fields, prepare_with,
  run_hook, text_field, text_only, unknown_type, wrong_type,
}

abbrev pub HasType : ConfigFieldType → Value → Type 0
HasType boolean_field v = (b : Bool) × (v ≡ flag b)
HasType int_field v = (z : ℤ) × (v ≡ int z)
HasType float_field v = (m : ℤ) × (up : ℕ) × (down : ℕ) × (v ≡ float64 (finite m up down))
HasType unknown_type v = ⊥
HasType _ v = (t : Text) × (v ≡ text t)

abbrev pub HasField : Text → List ConfigField → Type 0
HasField k [] = ⊥
HasField k (f ∷ fs) = (f.key ≡ k) ⊎ HasField k fs

abbrev pub HasDistinctFields : List ConfigField → Type 0
HasDistinctFields [] = Unit
HasDistinctFields (f ∷ fs) = (¬ HasField f.key fs) × HasDistinctFields fs

-- Every field has a value of its type, nothing else is bound, and the plugin's own check passes.
pub record IsPrepared (p : Plugin) (vs : Values) : Type 0 where
  pub typed :
      (f : ConfigField)
      → In f p.config
      → (v : Value) × (lookup f.key vs ≡ some v) × HasType f.type v
  pub declared : (k : Text) (v : Value) → lookup k vs ≡ some v → HasField k p.config
  pub accepted : run_hook p.validate_config vs ≡ none

when_finite-finite :
    (x y : Float)
    → when_finite x ≡ some y
    → (m : ℤ) × (up : ℕ) × (down : ℕ) × (y ≡ finite m up down)
when_finite-finite nan y e = cc
when_finite-finite (infinite b) y e = cc
when_finite-finite (finite m up down) y e = (m, up, down, ground (arith, e))

config_float-finite :
    (v : Value) (y : Float)
    → config_float v ≡ some y
    → (m : ℤ) × (up : ℕ) × (down : ℕ) × (y ≡ finite m up down)
unfolding config_float
config_float-finite (float64 x) y e = when_finite-finite x y e
config_float-finite (float32 x) y e = when_finite-finite x y e
config_float-finite (int z) y e = when_finite-finite _ y e
config_float-finite (sized k z) y e = when_finite-finite _ y e
config_float-finite (flag b) y e = cc
config_float-finite (text t) y e = cc
config_float-finite other y e = cc

text_only-text : (key : Text) (v u : Value) → text_only key v ≡ ok u → (t : Text) × (u ≡ text t)
text_only-text key (text t) u e = (t, ground (arith, e))
text_only-text key (flag b) u e = cc
text_only-text key (int z) u e = cc
text_only-text key (sized k z) u e = cc
text_only-text key (float64 x) u e = cc
text_only-text key (float32 x) u e = cc
text_only-text key other u e = cc

flag_only-flag : (key : Text) (v u : Value) → flag_only key v ≡ ok u → (b : Bool) × (u ≡ flag b)
flag_only-flag key (flag b) u e = (b, ground (arith, e))
flag_only-flag key (text t) u e = cc
flag_only-flag key (int z) u e = cc
flag_only-flag key (sized k z) u e = cc
flag_only-flag key (float64 x) u e = cc
flag_only-flag key (float32 x) u e = cc
flag_only-flag key other u e = cc

pub check_value-HasType :
    (key : Text) (t : ConfigFieldType) (v u : Value) → check_value key t v ≡ ok u → HasType t u
unfolding check_value
check_value-HasType key boolean_field v u e = flag_only-flag key v u e
check_value-HasType key int_field v u e = elim (Option-cases (config_int v)) [
  | inl n ↦ let clash : err (wrong_type key) ≡ ok u = sym (rw n refl) ∙ e in cc
  | inr (z, n) ↦
      let same_value : ok (int z) ≡ ok u = sym (rw n refl) ∙ e in (z, ground (arith, same_value))
]
check_value-HasType key float_field v u e = elim (Option-cases (config_float v)) [
  | inl n ↦ let clash : err (wrong_type key) ≡ ok u = sym (rw n refl) ∙ e in cc
  | inr (x, n) ↦
      let same_value : ok (float64 x) ≡ ok u = sym (rw n refl) ∙ e in
      let (m, up, down, x_at) = config_float-finite v x n in
      (m, up, down, ground (arith, same_value, x_at))
]
check_value-HasType key unknown_type v u e = cc
check_value-HasType key text_field v u e = text_only-text key v u e
check_value-HasType key password_field v u e = text_only-text key v u e
check_value-HasType key no_type v u e = text_only-text key v u e

-- What the loop leaves: the fields' values, and else what it began with.
pub prepare_fields-values :
    (fs : List ConfigField) (current input prepared vs : Values)
    → HasDistinctFields fs
    → prepare_fields fs current input prepared ≡ ok vs
    → ((f : ConfigField)
        → In f fs
        → (v : Value) × (check_value f.key f.type (field_value f current input) ≡ ok v)
          × (lookup f.key vs ≡ some v))
      × ((k : Text) → HasField k fs ⊎ (lookup k vs ≡ lookup k prepared))
unfolding prepare_fields
prepare_fields-values [] current input prepared vs d e =
    (λ f there. absurd there, λ k. inr (ap (lookup k) (ground (arith, e))))
prepare_fields-values (f ∷ fs) current input prepared vs d e =
    elim (Result-cases (check_value f.key f.type (field_value f current input))) [
      | inr (x, c) ↦ let clash : err x ≡ ok vs = sym (rw (c, prepare_fields) refl) ∙ e in cc
      | inl (v, c) ↦
          let rest : prepare_fields fs current input (insert f.key v prepared) ≡ ok vs =
            sym (rw (c, prepare_fields) refl) ∙ e in
          let (values, others) =
            prepare_fields-values fs current input (insert f.key v prepared) vs d.1 rest in
          let mine : lookup f.key vs ≡ some v = elim (others f.key) [
            | inl twice ↦ absurd (d.0 twice)
            | inr kept ↦ kept ∙ lookup-insert f.key f.key v prepared ∙ (rw (same_refl f.key) refl)
          ] in
          (
            λ g there. elim there [
              | inl is_f ↦
                  subst
                    (λ (h : ConfigField).
                      (w : Value) × (check_value h.key h.type (field_value h current input) ≡ ok w)
                      × (lookup h.key vs ≡ some w))
                    (sym is_f) (v, c, mine)
              | inr below ↦ values g below
            ],
            λ k. elim (others k) [
              | inl below ↦ inl (inr below)
              | inr kept ↦ elim (Bool-cases (same f.key k)) [
                | inl s ↦ inl (inl ((same_iff f.key k).0 s))
                | inr s ↦ inr (kept ∙ lookup-insert f.key k v prepared ∙ (rw s refl))
              ]
            ],
          )
    ]

-- Entries that end up in the map stand for a field.
pub prepare_with-IsPrepared :
    (p : Plugin) (current input vs : Values)
    → HasDistinctFields p.config
    → prepare_with p current input ≡ ok vs
    → IsPrepared p vs
      × ((f : ConfigField)
          → In f p.config
          → (v : Value) × (check_value f.key f.type (field_value f current input) ≡ ok v)
            × (lookup f.key vs ≡ some v))
unfolding prepare_with lookup
prepare_with-IsPrepared p current input vs d e =
    elim (Result-cases (prepare_fields p.config current input [])) [
      | inr (x, c) ↦ let clash : err x ≡ ok vs = sym (rw (c, prepare_with) refl) ∙ e in cc
      | inl (us, c) ↦
          let checked : or_rejected (run_hook p.validate_config us) us ≡ ok vs =
            sym (rw (c, prepare_with) refl) ∙ e in
          let (is_us, passed) = or_rejected-ok (run_hook p.validate_config us) us vs checked in
          let (values, others) =
            prepare_fields-values p.config current input [] vs d
              (c ∙ ap (λ (w : Values). ok w) is_us) in
          (
            record {
              typed = λ f there.
                  let (v, sound, at) = values f there in
                  (v, at, check_value-HasType f.key f.type (field_value f current input) v sound);
              declared = λ k v at. elim (others k) [
                | inl there ↦ there
                | inr missing ↦ let clash : none ≡ some v = sym missing ∙ at in cc
              ];
              accepted = ap (λ (w : Values). run_hook p.validate_config w) (sym is_us) ∙ passed;
            },
            values,
          )
    ]
  where
    or_rejected-ok :
        (o : Option Text) (us ws : Values) → or_rejected o us ≡ ok ws → (us ≡ ws) × (o ≡ none)
    or_rejected-ok none us ws c = (ground (arith, c), refl)
    or_rejected-ok (some x) us ws c = cc
