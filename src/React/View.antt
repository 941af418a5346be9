-- ===== src/React/View.antt =====
-- What a component renders, less its layout, its styles and its icons: the controls in order, with
-- what each shows and the event that it raises.
use knowtfolio.Base.{ℕ, String, Bool, false, Option, ◌≡◌, ◌⊎◌, List, [], ◌∷◌}

-- `M` is the type of the messages below an input, and `E` that of the component's events.
pub data View (M E : Type 0) : Type 0 where
  heading : String → View M E
  text : String → View M E
  labelled : (label : String) (content : Option String) → View M E
  icon : (url : Option String) → View M E
  wallet : (address : Option String) (should_truncate : Bool) → View M E
  link : (to : String) (label : String) → View M E
  note : M → View M E
  input :
      (name : String) (value : Option String) (disabled : Bool) (message : Option M)
      (on_change : String → E)
      → View M E
  switch : (id : String) (checked disabled : Bool) (on_change : Bool → E) → View M E
  file : (accept : String) (on_change : Option String → E) → View M E
  button : (label : String) (disabled : Bool) (on_click : E) → View M E
  pagination : (count : ℕ) (on_change : ℕ → E) → View M E
  -- A listener of what happens outside the page, such as a change of its address or of the browser's
  -- storage, called with the text that it then finds there.
  listener : (on_event : Option String → E) → View M E

module _ {M E : Type 0} where
  -- The user can raise the event from the control: it is one of the control's, and the control is
  -- not disabled.
  abbrev pub Raises : View M E → E → Type 0
  Raises (input name value disabled message on_change) e =
      (disabled ≡ false) × (s : String) × (on_change s ≡ e)
  Raises (switch id checked disabled on_change) e =
      (disabled ≡ false) × (b : Bool) × (on_change b ≡ e)
  Raises (file accept on_change) e = (chosen : Option String) × (on_change chosen ≡ e)
  Raises (button label disabled on_click) e = (disabled ≡ false) × (on_click ≡ e)
  Raises (pagination count on_change) e = (n : ℕ) × (on_change n ≡ e)
  Raises (listener on_event) e = (current : Option String) × (on_event current ≡ e)
  Raises _ e = ⊥

  -- Some control of the page raises the event.
  abbrev pub Offers : List (View M E) → E → Type 0
  Offers [] e = ⊥
  Offers (v ∷ vs) e = Raises v e ⊎ Offers vs e
