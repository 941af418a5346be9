-- ===== src/Forms/Validation/Submission.antt =====
-- When a validated form can be submitted.
use knowtfolio.Base.{
  ◌⊎◌, same, String, Bool, true, false, ◌&&◌, List, [], ◌∷◌, ◌++◌, ◌≡◌, ◌≢◌, ◌↔◌, refl, arith, ◌==◌,
  eq_iff, All, all, truthy, truthy?, truthy_iff, Bool-cases, inl, inr, All-mono, eq_refl,
}
use mathlib.Core.Bool.{and-eq-true_iff}
use knowtfolio.Base.Dict.{Dict, lookup, put, without}
use knowtfolio.Apis.Lambda.{add_confirmation_error}
use knowtfolio.Apis.Request.{FieldError}
use knowtfolio.Forms.Validation.{
  find_error, filter_keys, names, filled_names, FieldMessage, reduce_keys, judge_form, is_missing,
  message_of,
}

abbrev pub IsUnnamed : String → List FieldError → Type 0
IsUnnamed key errors = All (λ e. e.field_name ≢ key) errors

-- A form passes when each of its fields has a value and no error names one of its fields.
pub record Passes (form : Dict String) (errors : List FieldError) : Type 0 where
  pub filled : All (λ entry. entry.1 ≢ "") form
  unnamed : All (λ entry. IsUnnamed entry.0 errors) form

is_missing-find_error_iff :
    (key : String) (errors : List FieldError)
    → (is_missing (find_error key errors) ≡ true) ↔ IsUnnamed key errors
unfolding find_error
is_missing-find_error_iff key [] = (λ _. tt, λ _. refl)
is_missing-find_error_iff key (e ∷ errors) =
    ground (arith, is_missing-find_error_iff key errors, eq_iff e.field_name key)

reduce_keys_iff :
    (form : Dict String) (errors : List FieldError) (keys : List String) (msgs : Dict FieldMessage)
    (valid : Bool)
    → ((reduce_keys form errors keys msgs valid).is_form_valid ≡ true)
      ↔ (All (λ key. IsUnnamed key errors) keys × (valid ≡ true))
unfolding reduce_keys
reduce_keys_iff form errors [] msgs valid = (λ h. (tt, h), λ h. h.1)
reduce_keys_iff form errors (key ∷ keys) msgs valid =
    let missing = is_missing (find_error key errors) in
    let ih =
      reduce_keys_iff form errors keys (put key (message_of form key (find_error key errors)) msgs)
        (missing && valid) in
    let here = is_missing-find_error_iff key errors in
    let both = and-eq-true_iff missing valid in
    (
      λ h. let (rest, ok) = ih.0 h in let (m, v) = both.0 ok in ((here.0 m, rest), v),
      λ h. ih.1 (h.0.1, both.1 (here.1 h.0.0, h.1)),
    )

all-truthy_iff :
    (form : Dict String) → (all (λ e. truthy e.1) form ≡ true) ↔ All (λ e. e.1 ≢ "") form
all-truthy_iff [] = (λ _. tt, λ _. refl)
all-truthy_iff ((k, v) ∷ form) = ground (arith, all-truthy_iff form, truthy_iff v)

-- The fields of a form are there.
names-found : (form : Dict String) → All (λ key. is_missing (lookup key form) ≡ false) (names form)
unfolding lookup
names-found [] = tt
names-found ((k, v) ∷ form) = (
  rw (eq_refl k) refl,
  All-mono (λ key h. ground (arith, eq_iff k key)) (names form) (names-found form),
)

truthy?-lookup :
    (form : Dict String) (key : String)
    → All (λ e. e.1 ≢ "") form
    → is_missing (lookup key form) ≡ false
    → truthy? (lookup key form) ≡ true
unfolding lookup
truthy?-lookup [] key h found = cc
truthy?-lookup ((k, v) ∷ form) key (p, h) found =
    ground (arith, truthy?-lookup form key h, truthy_iff v, eq_iff k key)

filter_keys_of_All :
    (p : String → Bool) (keys : List String)
    → All (λ key. p key ≡ true) keys
    → filter_keys p keys ≡ keys
unfolding filter_keys
filter_keys_of_All p [] h = refl
filter_keys_of_All p (k ∷ keys) (q, h) = rw (q, filter_keys_of_All p keys h) refl

filled_names_of_filled :
    (form : Dict String) → All (λ e. e.1 ≢ "") form → filled_names form ≡ names form
filled_names_of_filled form h =
    filter_keys_of_All _ (names form)
      (All-mono (λ key. truthy?-lookup form key h) (names form) (names-found form))

All-names_iff :
    (P : String → Type 0) (form : Dict String) → All P (names form) ↔ All (λ e. P e.0) form
All-names_iff P [] = (λ h. h, λ h. h)
All-names_iff P ((k, v) ∷ form) =
    let (to, from) = All-names_iff P form in (λ (p, h). (p, to h), λ (p, h). (p, from h))

-- A form can be submitted exactly when every field has a value and no error names a field.
pub can_submit_form_iff :
    (form : Dict String) (errors : List FieldError)
    → ((judge_form form errors).can_submit_form ≡ true) ↔ Passes form errors
unfolding judge_form
can_submit_form_iff form errors =
    let unnamed = All-names_iff (λ key. IsUnnamed key errors) form in
    let verdict = reduce_keys_iff form errors (filled_names form) [] true in
    (
      λ h.
          let (valid, full) = (and-eq-true_iff _ _).0 h in
          let filled = (all-truthy_iff form).0 full in
          record {
            filled = filled;
            unnamed = unnamed.0 (rw (filled_names_of_filled form filled) at ((verdict.0 valid).0));
          },
      λ p. (and-eq-true_iff _ _).1 (
        verdict.1 (rw (filled_names_of_filled form p.filled) (unnamed.1 p.unnamed), refl),
        (all-truthy_iff form).1 p.filled,
      ),
    )

-- Without an error, a form passes when each of its fields has a value.
pub Passes-nil : (form : Dict String) → All (λ entry. entry.1 ≢ "") form → Passes form []
Passes-nil form h = record { filled = h; unnamed = All-mono (λ entry _. tt) form h }

abbrev pub IsNamed : String → List FieldError → Type 0
IsNamed key [] = ⊥
IsNamed key (e ∷ errors) = (e.field_name ≡ key) ⊎ IsNamed key errors

not-IsUnnamed :
    (key : String) (errors : List FieldError) → IsNamed key errors → ¬ IsUnnamed key errors
not-IsUnnamed key [] n u = n
not-IsUnnamed key (e ∷ errors) (inl p) u = u.0 p
not-IsUnnamed key (e ∷ errors) (inr n) u = not-IsUnnamed key errors n u.1

IsNamed-append :
    (key : String) (errors more : List FieldError)
    → IsNamed key errors
    → IsNamed key (errors ++ more)
IsNamed-append key [] more h = absurd h
IsNamed-append key (e ∷ errors) more (inl p) = inl p
IsNamed-append key (e ∷ errors) more (inr n) = inr (IsNamed-append key errors more n)

-- The check of the confirmation drops no error of the server.
pub IsNamed-add_confirmation_error :
    (key : String) (form : Dict String) (errors : List FieldError)
    → IsNamed key errors
    → IsNamed key (add_confirmation_error form errors)
unfolding add_confirmation_error
IsNamed-add_confirmation_error key form errors h =
    elim (Bool-cases (
      same (lookup "password_confirmation" form)
        (lookup "password" (without "password_confirmation" form)))) [
          | inl e ↦ rw e h
          | inr e ↦ rw e (IsNamed-append key errors _ h)
        ]

-- A field that an error names keeps the form from being submitted.
pub not-Passes :
    (form : Dict String) (errors : List FieldError) (key : String)
    → is_missing (lookup key form) ≡ false
    → IsNamed key errors
    → ¬ Passes form errors
unfolding lookup
not-Passes form errors key found named p = go form found p.unnamed
  where
    go :
        (form' : Dict String)
        → is_missing (lookup key form') ≡ false
        → ¬ All (λ entry. IsUnnamed entry.0 errors) form'
    go [] f a = cc
    go ((k, v) ∷ rest) f a = elim (Bool-cases (k == key)) [
      | inl e ↦ not-IsUnnamed key errors named (rw ((eq_iff k key).0 e) at (a.0))
      | inr e ↦ go rest (ground arith) a.1
    ]
