-- ===== src/Schema/Core.antt =====
-- core.py: the entry points of the validator. `_validate_v4` is an argument of them.
use rns.Prelude.{
  ◌≡◌, ◌↔◌, true, not, List, [], ◌∷◌, String, ◌<>◌, map, refl, ap, sym, ◌∙◌, if◌then◌else◌,
  Bool-cases, inl, inr,
}
use rns.Prelude.Int.{ℤ, pos, eqb_ℤ, eqb_ℤ_iff}
use rns.Python.Decimal.{show}
use rns.Json.{Value, Fields, int, get, has_key, is_int}
use rns.Outcome.{Outcome, Exception, done, raised}
use rns.Check.{Check, error}
use rns.Check.Passes.{Passes}
use rns.Schema.Mode.{int_value}

abbrev pub schema_version_number : ℤ
schema_version_number = pos 4

-- `_Validator.validate`
unfoldable pub validate : Fields → (Fields → Check Unit) → Check Unit
validate d validate_v4 =
    if not (has_key "schema_version" d)
    then error "missing required field schema_version"
    else if not (is_int (get "schema_version" d))
    then error "schema_version must be an integer"
    else if not (eqb_ℤ (int_value (get "schema_version" d)) schema_version_number)
    then error (
        "unsupported schema_version "
        <> show (int_value (get "schema_version" d))
        <> "; expected "
        <> show schema_version_number)
    else validate_v4 d

-- What `validate_capture` comes to: the dict that it returns, the BenchmarkSchemaError whose text
-- is the messages, or an exception of a method.
pub data Verdict : Type 0 where
  accepted : ℤ → Verdict
  rejected : List String → Verdict
  failed : Exception → Verdict

-- `schema_version`
unfoldable pub schema_version : Fields → Verdict
schema_version d =
    if not (has_key "schema_version" d)
    then rejected ("missing required field schema_version" ∷ [])
    else elim (get "schema_version" d) [
      | int n ↦ accepted n
      | _ ↦ rejected ("schema_version must be an integer" ∷ [])
    ]

-- `validation_errors`: the messages, each behind the path.
abbrev labelled : String → Check Unit → Outcome (List String)
labelled path (done u, es) = done (map (λ e. path <> ": " <> e) es)
labelled path (raised e, es) = raised e

unfoldable pub validation_errors : Fields → String → (Fields → Check Unit) → Outcome (List String)
unfolding validate
validation_errors d path validate_v4 = labelled path (validate d validate_v4)

-- `if errors: raise …` and the `return` after it
abbrev verdict : Outcome (List String) → Verdict → Verdict
verdict (done []) answer = answer
verdict (done (e ∷ es)) answer = rejected (e ∷ es)
verdict (raised e) answer = failed e

unfoldable pub validate_capture : Fields → String → (Fields → Check Unit) → Verdict
unfolding validation_errors schema_version
validate_capture d path validate_v4 =
    verdict (validation_errors d path validate_v4) (schema_version d)

verdict-accepted :
    (r : Outcome (List String)) (answer : Verdict) (version : ℤ)
    → verdict r answer ≡ accepted version
    → (r ≡ done []) × (answer ≡ accepted version)
verdict-accepted (done []) answer version h = (refl, h)
verdict-accepted r answer version h = absurd (cc h)

labelled-Passes : (path : String) (m : Check Unit) → labelled path m ≡ done [] → Passes m
labelled-Passes path (done tt, []) h = refl
labelled-Passes path m h = absurd (cc h)

accepted_inj : (a b : ℤ) → accepted a ≡ accepted b → a ≡ b
accepted_inj a b h = cc h

noisy : (message : String) → Passes (error message) → ⊥
noisy message h = cc (ap (λ (p : Check Unit). p.1) h)

version_four :
    (v : Value)
    → is_int v ≡ true
    → eqb_ℤ (int_value v) schema_version_number ≡ true
    → v ≡ int (pos 4)
version_four (int n) i e = ap int ((eqb_ℤ_iff n (pos 4)).0 e)
version_four v i e = absurd (cc)

module _ (d : Fields) (validate_v4 : Fields → Check Unit) where
  validate-Passes :
      Passes (validate d validate_v4)
      → (has_key "schema_version" d ≡ true)
        × (get "schema_version" d ≡ int (pos 4))
        × Passes (validate_v4 d)
  unfolding validate
  validate-Passes h = elim (Bool-cases (has_key "schema_version" d)) [
    | inr missing ↦ absurd (noisy _ (rw missing at h))
    | inl present ↦ elim (Bool-cases (is_int (get "schema_version" d))) [
      | inr other ↦ absurd (noisy _ (rw (present, other) at h))
      | inl number ↦
          elim (Bool-cases (eqb_ℤ (int_value (get "schema_version" d)) schema_version_number)) [
            | inr old ↦ absurd (noisy _ (rw (present, number, old) at h))
            | inl four ↦ (present, version_four _ number four, rw (present, number, four) at h)
          ]
    ]
  ]

  validate_four :
      has_key "schema_version" d ≡ true
      → get "schema_version" d ≡ int (pos 4)
      → validate d validate_v4 ≡ validate_v4 d
  unfolding validate
  validate_four present four = rw (present, four) refl

  version_returned :
      has_key "schema_version" d ≡ true
      → get "schema_version" d ≡ int (pos 4)
      → schema_version d ≡ accepted (pos 4)
  unfolding schema_version
  version_returned present four = rw (present, four) refl

-- A capture is accepted exactly where its version is the integer 4 and `_validate_v4` returns
-- without a message, and then the version that is handed back is 4.
pub validate_capture_iff :
    (d : Fields) (path : String) (validate_v4 : Fields → Check Unit) (version : ℤ)
    → (validate_capture d path validate_v4 ≡ accepted version) ↔ (
        (version ≡ pos 4)
        × (has_key "schema_version" d ≡ true)
        × (get "schema_version" d ≡ int (pos 4))
        × Passes (validate_v4 d))
unfolding validate_capture validation_errors
validate_capture_iff d path validate_v4 version = (
  λ h.
      let (quiet, answer) = verdict-accepted _ _ version h in
      let (present, four, passes) = validate-Passes d validate_v4 (labelled-Passes path _ quiet) in
      (
        accepted_inj _ _ (sym answer ∙ version_returned d validate_v4 present four),
        present,
        four,
        passes,
      ),
  λ (same, present, four, passes).
      rw
        (
          validate_four d validate_v4 present four,
          passes,
          version_returned d validate_v4 present four,
          same,
        )
        refl,
)
