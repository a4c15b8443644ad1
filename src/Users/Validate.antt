-- ===== src/Users/Validate.antt =====
-- `validate_user`, `validate_update_user` and the checks of the subscription's texts.
use Prim.Native.String.{count}
use honey.Prelude.{ℕ, String, Bool, true, not, ◌&&◌, ◌||◌, Option, none, some, [], ◌∷◌, is_some_and}
use text.Mathlib.Text.{◌==◌ as str_eq}
use honey.Prelude.Text.{within, trim, is_empty, one_of}
use honey.Api.{is_negative, ok, Check, require_not, ◌≫◌}
use honey.Users.Types.{NewUser, UpdateUser}
use honey.Inbound.{Patch, missing, null, value}

-- A text of 1 to `max` characters, spaces at the ends left out.
abbrev pub text_fits : ℕ → String → Bool
text_fits max s = within 1 max (count (trim s))

abbrev pub fits_if_some : ℕ → Option String → Bool
fits_if_some max none = true
fits_if_some max (some s) = text_fits max s

abbrev pub validate_subscription_title : Option String → Check
validate_subscription_title title =
    require_not (not (fits_if_some 25 title)) "subscription_title must contain 1 to 25 characters"

abbrev pub validate_subscription_description : Option String → Check
validate_subscription_description description =
    require_not (not (fits_if_some 200 description))
      "subscription_description must contain 1 to 200 characters"

abbrev pub validate_subscription_group : Option String → Check
validate_subscription_group group =
    require_not (not (fits_if_some 40 group)) "subscription_group must contain 1 to 40 characters"

abbrev pub is_policy : String → Bool → Bool
is_policy policy allow_inherit =
    one_of policy ("auto" ∷ "always" ∷ "never" ∷ []) || (allow_inherit && str_eq policy "inherit")

abbrev pub validate_traffic_policy : String → Bool → Check
validate_traffic_policy policy allow_inherit =
    require_not (not (is_policy policy allow_inherit))
      "subscription_traffic_policy must be inherit, auto, always or never"

unfoldable pub validate_user : NewUser → Check
validate_user input =
    require_not (is_empty (trim input.username) || is_empty input.password)
      "username and password must not be empty"
    ≫ require_not (is_negative input.traffic_limit_bytes) "traffic_limit_bytes must not be negative"
    ≫ validate_subscription_title input.subscription_title
    ≫ validate_subscription_description input.subscription_description
    ≫ validate_subscription_group input.subscription_group
    ≫ validate_traffic_policy input.subscription_traffic_policy true

abbrev pub on_value : Patch String → Option String
on_value missing = none
on_value null = none
on_value (value s) = some s

abbrev on_policy : Option String → Check
on_policy none = ok tt
on_policy (some policy) = validate_traffic_policy policy true

unfoldable pub validate_update_user : UpdateUser → Check
validate_update_user input =
    require_not
      (is_some_and input.username (λ v. is_empty (trim v)) || is_some_and input.password is_empty)
      "username and password must not be empty"
    ≫ require_not (is_some_and input.traffic_limit_bytes is_negative)
        "traffic_limit_bytes must not be negative"
    ≫ validate_subscription_title (on_value input.subscription_title)
    ≫ validate_subscription_description (on_value input.subscription_description)
    ≫ validate_subscription_group (on_value input.subscription_group)
    ≫ on_policy input.subscription_traffic_policy
