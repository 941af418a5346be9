-- ===== src/Forms/Validation/Messages.antt =====
-- The message below each field.
use knowtfolio.Base.{
  String, Bool, true, false, ◌&&◌, none, some, List, [], ◌∷◌, ◌≡◌, refl, arith, ◌==◌, eq_iff,
  truthy?, if◌then◌else◌, Bool-cases, inl, inr,
}
use knowtfolio.Base.Dict.{Dict, lookup, put, lookup-put}
use knowtfolio.Apis.Request.{FieldError}
use knowtfolio.Forms.Validation.{
  find_error, filter_keys, names, filled_names, FieldMessage, reduce_keys, judge_form, is_missing,
  message_of,
}

contains : List String → String → Bool
contains [] j = false
contains (k ∷ keys) j = if k == j then true else contains keys j

if_both {ℓ} : {A : Type ℓ} (b : Bool) (a : A) → (if b then a else a) ≡ a
if_both true a = refl
if_both false a = refl

lookup-reduce_keys :
    (form : Dict String) (errors : List FieldError) (keys : List String) (msgs : Dict FieldMessage)
    (valid : Bool) (j : String)
    → lookup j (reduce_keys form errors keys msgs valid).messages
      ≡ (if contains keys j then some (message_of form j (find_error j errors)) else lookup j msgs)
unfolding reduce_keys contains
lookup-reduce_keys form errors [] msgs valid j = refl
lookup-reduce_keys form errors (k ∷ keys) msgs valid j =
    let found = find_error k errors in
    let ih =
      lookup-reduce_keys form errors keys (put k (message_of form k found) msgs)
        (is_missing found && valid) j in
    elim (Bool-cases (k == j)) [
      | inl e ↦ rw ih (rw (lookup-put, e) (rw ((eq_iff k j).0 e) (if_both (contains keys j) _)))
      | inr e ↦ rw ih (rw (lookup-put, e) refl)
    ]

contains-filter_keys :
    (p : String → Bool) (keys : List String) (j : String)
    → contains (filter_keys p keys) j ≡ p j && contains keys j
unfolding contains filter_keys
contains-filter_keys p [] j = ground arith
contains-filter_keys p (k ∷ keys) j = ground (arith, contains-filter_keys p keys j, eq_iff k j)

contains-names :
    (form : Dict String) (j : String)
    → truthy? (lookup j form) && contains (names form) j ≡ truthy? (lookup j form)
unfolding contains lookup
contains-names [] j = refl
contains-names ((k, v) ∷ form) j = ground (arith, contains-names form j, eq_iff k j)

-- A field without input has no message; a filled field has the message of the first error that
-- names it, and is called valid if there is none.
pub lookup-field_messages :
    (form : Dict String) (errors : List FieldError) (j : String)
    → lookup j (judge_form form errors).field_messages
      ≡ (if truthy? (lookup j form) then some (message_of form j (find_error j errors)) else none)
unfolding judge_form lookup
lookup-field_messages form errors j = rw (
  lookup-reduce_keys form errors (filled_names form) [] true j,
  contains-filter_keys (λ key. truthy? (lookup key form)) (names form) j,
  contains-names form j,
)
