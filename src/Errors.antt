-- ===== src/Errors.antt =====
-- `describeError` of src/common/describe-error.ts.
use docent.Base.{
  ◌≡◌, refl, ◌≢◌, Bool, true, false, Option, none, some, List, [], ◌∷◌, if◌then◌else◌, All, Text,
  codes, join, Result, ok, err, ◌>>=◌,
}

-- What reading a property of a thrown value gives: its getter throws, a string, or a value that
-- is no string.
pub data Property : Type 0 where
  throws : Property
  string : Text → Property
  other : Property

-- An item of `errors`: an object with its message, or no object.
pub data Item : Type 0 where
  object_item : Property → Item
  other_item : Item

-- What reading `errors` gives: an array, one whose test by `Array.isArray` or whose iteration throws
-- a `B`, such as a revoked proxy or an array with a throwing getter for an index, or anything else.
pub data Items (B : Type 0) : Type 0 where
  array : List Item → Items B
  broken_array : B → Items B
  no_array : Items B

-- A value that may be thrown, with what `String()` makes of it; `none` where that throws.
pub data Value (B : Type 0) : Type 0 where
  primitive : Option Text → Value B
  object : Property → Property → Items B → Option Text → Value B

-- A thrown value whose `errors` is no broken array, as all that the other parts of the program
-- catch are taken to be.
abbrev pub Thrown : Type 0
Thrown = Value ⊥

-- `new Error(message)`
abbrev pub new_error : Text → Thrown
new_error message = object (string message) other no_array (some message)

safe_non_empty_string : Property → Option Text
safe_non_empty_string throws = none
safe_non_empty_string (string []) = none
safe_non_empty_string (string (c ∷ s)) = some (c ∷ s)
safe_non_empty_string other = none

item_message : Item → Option Text
unfolding safe_non_empty_string
item_message (object_item message) = safe_non_empty_string message
item_message other_item = none

abbrev pub pushed : Option Text → List Text → List Text
pushed none details = details
pushed (some detail) details = detail ∷ details

item_messages : List Item → List Text
unfolding item_message
item_messages [] = []
item_messages (item ∷ items) = pushed (item_message item) (item_messages items)

inner_messages : {B : Type 0} → Items B → Result {0, 0} B (List Text)
unfolding item_messages
inner_messages (array items) = ok (item_messages items)
inner_messages (broken_array thrown) = err thrown
inner_messages no_array = ok []

abbrev unknown_error : Text
unknown_error = codes "unknown error"

safe_string : Option Text → Text
safe_string none = unknown_error
safe_string (some []) = unknown_error
safe_string (some (c ∷ s)) = c ∷ s

abbrev or_string : List Text → Option Text → Text
or_string [] coerced = safe_string coerced
or_string (detail ∷ details) coerced = join (codes "; ") (detail ∷ details)

abbrev or_details :
    {B : Type 0} → Option Text → Property → Items B → Option Text → Result {0, 0} B Text
or_details (some message) code errors coerced = ok message
or_details none code errors coerced = inner_messages errors >>= λ details.
    ok (or_string (pushed (safe_non_empty_string code) details) coerced)

-- Only the properties' getters and the coercion are guarded: a broken array is thrown on.
pub describe_error : {B : Type 0} → Value B → Result {0, 0} B Text
unfolding safe_non_empty_string inner_messages safe_string
describe_error (primitive coerced) = ok (safe_string coerced)
describe_error (object message code errors coerced) =
    or_details (safe_non_empty_string message) code errors coerced

abbrev always_ok : Result {0, 0} ⊥ Text → Text
always_ok (ok description) = description
always_ok (err impossible) = absurd impossible

-- The description of what the program catches.
unfoldable pub describe_thrown : Thrown → Text
unfolding describe_error
describe_thrown error = always_ok (describe_error error)

abbrev IsNonEmpty : Text → Type 0
IsNonEmpty s = s ≢ []

safe_string-ne-nil : (coerced : Option Text) → safe_string coerced ≢ []
unfolding safe_string
safe_string-ne-nil none h = cc
safe_string-ne-nil (some []) h = cc
safe_string-ne-nil (some (c ∷ s)) h = cc

join-ne-nil : (sep piece : Text) (pieces : List Text) → piece ≢ [] → join sep (piece ∷ pieces) ≢ []
unfolding join
join-ne-nil sep [] pieces h e = absurd (h refl)
join-ne-nil sep (c ∷ piece) [] h e = cc
join-ne-nil sep (c ∷ piece) (_ ∷ _) h e = cc

safe_non_empty_string-ne-nil : (p : Property) (s : Text) → safe_non_empty_string p ≡ some s → s ≢ []
unfolding safe_non_empty_string
safe_non_empty_string-ne-nil throws s h = cc
safe_non_empty_string-ne-nil (string []) s h = cc
safe_non_empty_string-ne-nil (string (c ∷ t)) s h = λ e. cc
safe_non_empty_string-ne-nil other s h = cc

pushed-All :
    (o : Option Text) (details : List Text)
    → ((s : Text) → o ≡ some s → s ≢ [])
    → All IsNonEmpty details
    → All IsNonEmpty (pushed o details)
pushed-All none details h all = all
pushed-All (some s) details h all = (h s refl, all)

item_message-ne-nil : (item : Item) (s : Text) → item_message item ≡ some s → s ≢ []
unfolding item_message
item_message-ne-nil (object_item message) s h = safe_non_empty_string-ne-nil message s h
item_message-ne-nil other_item s h = cc

item_messages-All : (items : List Item) → All IsNonEmpty (item_messages items)
unfolding item_messages
item_messages-All [] = tt
item_messages-All (item ∷ items) =
    pushed-All (item_message item) _ (item_message-ne-nil item) (item_messages-All items)

or_string-ne-nil :
    (details : List Text) (coerced : Option Text)
    → All IsNonEmpty details
    → or_string details coerced ≢ []
or_string-ne-nil [] coerced all = safe_string-ne-nil coerced
or_string-ne-nil (detail ∷ details) coerced (h, _) = join-ne-nil (codes "; ") detail details h

-- Whether a message can be read and used.
has_message : Property → Bool
has_message throws = false
has_message (string []) = false
has_message (string (c ∷ s)) = true
has_message other = false

failure_of_items : {B : Type 0} → Items B → Option B
failure_of_items (array items) = none
failure_of_items (broken_array thrown) = some thrown
failure_of_items no_array = none

-- What describing a value throws: that of its broken array, unless its message is used.
unfoldable pub failure_in : {B : Type 0} → Value B → Option B
unfolding has_message failure_of_items
failure_in (primitive coerced) = none
failure_in (object message code errors coerced) =
    if has_message message then none else failure_of_items errors

-- A description that is not empty, or the failure that is due.
pub IsDescription : {B : Type 0} → Option B → Result {0, 0} B Text → Type 0
IsDescription none (ok description) = description ≢ []
IsDescription none (err thrown) = ⊥
IsDescription (some due) (ok description) = ⊥
IsDescription (some due) (err thrown) = thrown ≡ due

inner-IsDescription :
    {B : Type 0} (code : Property) (errors : Items B) (coerced : Option Text)
    → IsDescription (failure_of_items errors) (or_details none code errors coerced)
unfolding IsDescription failure_of_items inner_messages
inner-IsDescription code (array items) coerced =
    or_string-ne-nil (pushed (safe_non_empty_string code) (item_messages items)) coerced (
      pushed-All (safe_non_empty_string code) _ (safe_non_empty_string-ne-nil code)
        (item_messages-All items))
inner-IsDescription code (broken_array thrown) coerced = refl
inner-IsDescription code no_array coerced =
    or_string-ne-nil (pushed (safe_non_empty_string code) []) coerced
      (pushed-All (safe_non_empty_string code) _ (safe_non_empty_string-ne-nil code) tt)

-- Every thrown value, with throwing getters and a throwing coercion too, has a description that is
-- not empty, except one without a usable message whose `errors` is an array that throws when it is
-- tested or iterated: describing it throws that.
pub describe_error-IsDescription :
    {B : Type 0} (error : Value B) → IsDescription (failure_in error) (describe_error error)
unfolding describe_error failure_in IsDescription has_message safe_non_empty_string
describe_error-IsDescription (primitive coerced) = safe_string-ne-nil coerced
describe_error-IsDescription (object throws code errors coerced) =
    inner-IsDescription code errors coerced
describe_error-IsDescription (object (string []) code errors coerced) =
    inner-IsDescription code errors coerced
describe_error-IsDescription (object (string (c ∷ s)) code errors coerced) = λ e. cc
describe_error-IsDescription (object other code errors coerced) =
    inner-IsDescription code errors coerced

always_ok-ne-nil :
    (due : Option ⊥) (r : Result {0, 0} ⊥ Text) → IsDescription due r → always_ok r ≢ []
unfolding IsDescription
always_ok-ne-nil none (ok description) h = h
always_ok-ne-nil none (err thrown) h = absurd thrown
always_ok-ne-nil (some due) r h = absurd due

pub describe_thrown-ne-nil : (error : Thrown) → describe_thrown error ≢ []
unfolding describe_thrown
describe_thrown-ne-nil error =
    always_ok-ne-nil (failure_in error) (describe_error error) (describe_error-IsDescription error)
